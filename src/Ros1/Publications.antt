-- ===== src/Ros1/Publications.antt =====
-- What the ROS 1 bridge's handlers for client channels make of its publications.
use mathlib.Core.Bool.{and-false}
use foxglove_bridge_release.Base.{
  ℕ, ◌≡◌, refl, inl, inr, Option, none, some, [], Bool, true, false, arith, Option-cases,
  Bool-cases, if◌then◌else◌,
}
use foxglove_bridge_release.Base.Eq.{◌==◌, id_eq, string_eq}
use foxglove_bridge_release.Base.Map.{find, emplace, emplace_present}
use foxglove_bridge_release.Base.Map.Nested.{
  Updated, entry_at, erase_entry, erase_entry-Updated, enter_entry-Updated, emplace-entry_at,
  emplace_table-Updated, Updated-same,
}
use foxglove_bridge_release.Base.Exec.{Result, ok, throws, lift, ◌>>=◌}
use foxglove_bridge_release.Wire.{ClientAdvertisement}
use foxglove_bridge_release.Ros1.{
  Bridge, MessageDescription, AdvertiseOptions, ros1_channel_encoding,
}
use foxglove_bridge_release.Ros1.Handlers.{
  advertise_options, create_publisher, advertise_client, client_advertise_handler,
  client_unadvertise_handler,
}

abbrev granted : Result Bool → Bool
granted (ok valid) = valid
granted (throws x) = false

module _ (a : ClientAdvertisement) (hdl : ℕ) (b : Bridge) where
  -- the publisher for a type that roscpp knows and options that it accepts
  abbrev made_for : Result (Option MessageDescription) → Option AdvertiseOptions
  made_for (ok (some description)) =
      if granted (b.ros.advertise (advertise_options a description))
      then some (advertise_options a description)
      else none
  made_for (ok none) = none
  made_for (throws x) = none

  -- the publisher that a new channel gets
  abbrev pub publisher_for : Option AdvertiseOptions
  publisher_for =
      if a.encoding == ros1_channel_encoding
      then made_for (b.ros.message_description a.schema_name)
      else none

  -- the bridge with a table for the client
  abbrev with_table : Bridge
  with_table = record b { client_advertised_topics = emplace hdl [] b.client_advertised_topics }

  other_encoding :
      (a.encoding == ros1_channel_encoding) ≡ false → client_advertise_handler a hdl b ≡ (ok tt, b)
  unfolding client_advertise_handler
  other_encoding e = rw e refl

  already :
      (x : AdvertiseOptions)
      → entry_at hdl a.channel_id b.client_advertised_topics ≡ some x
      → (advertise_client a hdl b).1.client_advertised_topics ≡ b.client_advertised_topics
  unfolding advertise_client
  already x e = elim (Option-cases (find hdl b.client_advertised_topics)) [
    | inl none_there ↦ absurd (ground (arith, e, none_there))
    | inr (table, there) ↦ ground (
      arith,
      e,
      there,
      emplace-entry_at hdl a.channel_id b.client_advertised_topics,
      emplace_present hdl [] table b.client_advertised_topics there,
    )
  ]

  granted_step :
      (description : MessageDescription) (r : Result Bool)
      → b.ros.advertise (advertise_options a description) ≡ r
      → entry_at hdl a.channel_id b.client_advertised_topics ≡ none
      → Updated hdl a.channel_id
          (made_for (ok (some description)))
          b.client_advertised_topics
          (create_publisher a hdl (some description) with_table).1.client_advertised_topics
  unfolding create_publisher
  granted_step description (throws x) e new =
      rw e (emplace_table-Updated hdl a.channel_id b.client_advertised_topics new)
  granted_step description (ok false) e new =
      rw e (emplace_table-Updated hdl a.channel_id b.client_advertised_topics new)
  granted_step description (ok true) e new = rw e (
      enter_entry-Updated hdl a.channel_id (advertise_options a description)
        b.client_advertised_topics new)

  described_step :
      (r : Result (Option MessageDescription))
      → entry_at hdl a.channel_id b.client_advertised_topics ≡ none
      → Updated hdl a.channel_id
          (made_for r)
          b.client_advertised_topics
          ((lift r >>= create_publisher a hdl) with_table).1.client_advertised_topics
  described_step (throws x) new =
      emplace_table-Updated hdl a.channel_id b.client_advertised_topics new
  described_step (ok none) new =
      unfold create_publisher in
      emplace_table-Updated hdl a.channel_id b.client_advertised_topics new
  described_step (ok (some description)) new =
      granted_step description (b.ros.advertise (advertise_options a description)) refl new

  first_time :
      entry_at hdl a.channel_id b.client_advertised_topics ≡ none
      → Updated hdl a.channel_id
          (made_for (b.ros.message_description a.schema_name))
          b.client_advertised_topics
          (advertise_client a hdl b).1.client_advertised_topics
  unfolding advertise_client
  first_time new =
      rw (emplace-entry_at hdl a.channel_id b.client_advertised_topics)
        (rw new (rw and-false (described_step (b.ros.message_description a.schema_name) new)))

  -- the entry of a channel after the handler, from the one before
  abbrev pub after_advertise : Option AdvertiseOptions → Option AdvertiseOptions
  after_advertise none = publisher_for
  after_advertise (some x) = some x

  advertise_step :
      (o : Option AdvertiseOptions)
      → entry_at hdl a.channel_id b.client_advertised_topics ≡ o
      → Updated hdl a.channel_id
          (after_advertise o)
          b.client_advertised_topics
          (client_advertise_handler a hdl b).1.client_advertised_topics
  unfolding client_advertise_handler
  advertise_step none new = elim (Bool-cases (a.encoding == ros1_channel_encoding)) [
    | inl e ↦ rw e (first_time new)
    | inr e ↦ rw e (Updated-same hdl a.channel_id none b.client_advertised_topics new)
  ]
  advertise_step (some x) old = elim (Bool-cases (a.encoding == ros1_channel_encoding)) [
    | inl e ↦
        rw e (
          rw (already x old)
            (Updated-same hdl a.channel_id (some x) b.client_advertised_topics old))
    | inr e ↦ rw e (Updated-same hdl a.channel_id (some x) b.client_advertised_topics old)
  ]

  -- After clientAdvertiseHandler, whether it throws or not, the client's channel has the publisher
  -- that it had before. If it had none, it has one exactly when its encoding is "ros1", roscpp knows
  -- its type and accepts the options made of that type's description. Every other publication of
  -- any client is as before.
  pub client_advertise_handler_lem :
      Updated hdl a.channel_id
        (after_advertise (entry_at hdl a.channel_id b.client_advertised_topics))
        b.client_advertised_topics
        (client_advertise_handler a hdl b).1.client_advertised_topics
  client_advertise_handler_lem =
      advertise_step (entry_at hdl a.channel_id b.client_advertised_topics) refl

client_unadvertise_handler_erases :
    (chan hdl : ℕ) (b : Bridge)
    → client_unadvertise_handler chan hdl b ≡ (
      ok tt,
      record b { client_advertised_topics = erase_entry hdl chan b.client_advertised_topics },
    )
unfolding client_unadvertise_handler
client_unadvertise_handler_erases chan hdl b = ground arith

-- After clientUnadvertiseHandler the client has no publisher under the channel, and every other
-- publication of any client is as before. It never throws.
pub client_unadvertise_handler_lem :
    (chan hdl : ℕ) (b : Bridge)
    → ((client_unadvertise_handler chan hdl b).0 ≡ ok tt)
      × Updated hdl chan none b.client_advertised_topics
          (client_unadvertise_handler chan hdl b).1.client_advertised_topics
client_unadvertise_handler_lem chan hdl b =
    rw (client_unadvertise_handler_erases chan hdl b)
      (refl, erase_entry-Updated hdl chan b.client_advertised_topics)
