-- ===== src/Ros2/Publications.antt =====
-- What the ROS 2 bridge's handlers for client channels make of its publications.
use mathlib.Core.Bool.{and-false}
use foxglove_bridge_release.Base.{
  ℕ, ◌≡◌, refl, inl, inr, Option, none, some, [], arith, Option-cases,
}
use foxglove_bridge_release.Base.Eq.{id_eq}
use foxglove_bridge_release.Base.Map.{find, emplace_present}
use foxglove_bridge_release.Base.Map.Nested.{
  Updated, entry_at, erase_entry, erase_entry-Updated, enter_entry-Updated, emplace-entry_at,
  emplace_table-Updated, Updated-same,
}
use foxglove_bridge_release.Base.Exec.{Result, ok, throws}
use foxglove_bridge_release.Wire.{ClientAdvertisement}
use foxglove_bridge_release.Ros2.{Bridge, Publication}
use foxglove_bridge_release.Ros2.Handlers.{client_advertise_handler, client_unadvertise_handler}

module _ (a : ClientAdvertisement) (hdl : ℕ) (b : Bridge) where
  -- the publisher that create_generic_publisher makes, if it returns
  abbrev pub publisher_for : Result (Unit {0}) → Option Publication
  publisher_for (ok _) = some (record { topic_name = a.topic; topic_type = a.schema_name })
  publisher_for (throws x) = none

  -- the entry of a channel after the handler, and what the handler answers, from the entry before
  -- and from what create_generic_publisher gives
  abbrev pub after_advertise : Result (Unit {0}) → Option Publication → Option Publication
  after_advertise created none = publisher_for created
  after_advertise created (some x) = some x

  abbrev pub advertise_answer : Result (Unit {0}) → Option Publication → Result (Unit {0})
  advertise_answer created none = created
  advertise_answer created (some x) = ok tt

  -- what the theorem says of a run of the handler
  abbrev IsAdvertised : Result (Unit {0}) → Option Publication → Result (Unit {0}) × Bridge → Type 0
  IsAdvertised created o p =
      (p.0 ≡ advertise_answer created o)
      × Updated hdl a.channel_id (after_advertise created o) b.client_advertised_topics
          p.1.client_advertised_topics

  first_time :
      (created : Result (Unit {0}))
      → b.ros.create_generic_publisher a.topic a.schema_name ≡ created
      → entry_at hdl a.channel_id b.client_advertised_topics ≡ none
      → IsAdvertised created none (client_advertise_handler a hdl b)
  unfolding client_advertise_handler
  first_time (throws x) e new = rw (emplace-entry_at hdl a.channel_id b.client_advertised_topics) (
      rw new (
        rw and-false
          (rw e (refl, emplace_table-Updated hdl a.channel_id b.client_advertised_topics new))))
  first_time (ok tt) e new = rw (emplace-entry_at hdl a.channel_id b.client_advertised_topics) (
      rw new (
        rw and-false (
          rw e (
            refl,
            enter_entry-Updated hdl a.channel_id
                (record { topic_name = a.topic; topic_type = a.schema_name })
                b.client_advertised_topics new,
          ))))

  already :
      (x : Publication)
      → entry_at hdl a.channel_id b.client_advertised_topics ≡ some x
      → client_advertise_handler a hdl b ≡ (ok tt, b)
  unfolding client_advertise_handler
  already x e = elim (Option-cases (find hdl b.client_advertised_topics)) [
    | inl none_there ↦ absurd (ground (arith, e, none_there))
    | inr (table, there) ↦ ground (
      arith,
      e,
      there,
      emplace-entry_at hdl a.channel_id b.client_advertised_topics,
      emplace_present hdl [] table b.client_advertised_topics there,
    )
  ]

  advertise_step :
      (o : Option Publication)
      → entry_at hdl a.channel_id b.client_advertised_topics ≡ o
      → IsAdvertised
          (b.ros.create_generic_publisher a.topic a.schema_name)
          o
          (client_advertise_handler a hdl b)
  advertise_step none new = first_time _ refl new
  advertise_step (some x) old =
      rw (already x old)
        (refl, Updated-same hdl a.channel_id (some x) b.client_advertised_topics old)

  -- After clientAdvertiseHandler, the client's channel has the publisher that it had before, and
  -- then the handler returns. If it had none, the handler does what create_generic_publisher does
  -- for the topic and the type: it throws and the channel has no publisher, or it returns and the
  -- channel has the publisher of that topic and type. Every other publication of any client is as
  -- before.
  pub client_advertise_handler_lem :
      ((client_advertise_handler a hdl b).0
        ≡ advertise_answer
            (b.ros.create_generic_publisher a.topic a.schema_name)
            (entry_at hdl a.channel_id b.client_advertised_topics))
      × Updated hdl a.channel_id
          (after_advertise
            (b.ros.create_generic_publisher a.topic a.schema_name)
            (entry_at hdl a.channel_id b.client_advertised_topics))
          b.client_advertised_topics
          (client_advertise_handler a hdl b).1.client_advertised_topics
  client_advertise_handler_lem =
      advertise_step (entry_at hdl a.channel_id b.client_advertised_topics) refl

client_unadvertise_handler_erases :
    (chan hdl : ℕ) (b : Bridge)
    → client_unadvertise_handler chan hdl b ≡ (
      ok tt,
      record b { client_advertised_topics = erase_entry hdl chan b.client_advertised_topics },
    )
unfolding client_unadvertise_handler
client_unadvertise_handler_erases chan hdl b = ground arith

-- After clientUnadvertiseHandler the client has no publisher under the channel, and every other
-- publication of any client is as before. It never throws.
pub client_unadvertise_handler_lem :
    (chan hdl : ℕ) (b : Bridge)
    → ((client_unadvertise_handler chan hdl b).0 ≡ ok tt)
      × Updated hdl chan none b.client_advertised_topics
          (client_unadvertise_handler chan hdl b).1.client_advertised_topics
client_unadvertise_handler_lem chan hdl b =
    rw (client_unadvertise_handler_erases chan hdl b)
      (refl, erase_entry-Updated hdl chan b.client_advertised_topics)
