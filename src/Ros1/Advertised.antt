-- ===== src/Ros1/Advertised.antt =====
-- What updateAdvertisedTopics of the ROS 1 bridge leaves in its tables, and when the timer that calls
-- it again runs.
use foxglove_bridge_release.Base.{
  ◌+◌, ◌^◌, ◌<◌, ◌≡◌, ◌⊎◌, refl, ap, String, some, Bool, true, List, [], ◌∷◌, arith, inl, inr,
  Option-cases, Bool-cases,
}
use foxglove_bridge_release.Base.Eq.{==_iff, id_eq, pair_eq}
use foxglove_bridge_release.Base.Map.{find, insert, is_some, find-emplace}
use foxglove_bridge_release.Base.Exec.{ok, >>=-ok}
use foxglove_bridge_release.Json.{JsonLib}
use foxglove_bridge_release.Server.{Server, Channel, ChannelWithoutId}
use foxglove_bridge_release.Server.Channels.{add_channel, remove_channel}
use foxglove_bridge_release.Server.Effects.{add_channel-below, remove_channel-ok}
use foxglove_bridge_release.Ros2.{TopicAndDatatype}
use foxglove_bridge_release.Ros2.Topics.{is_whitelisted}
use foxglove_bridge_release.Tables.{Tables}
use foxglove_bridge_release.Tables.Loops.{Once, insert-Once}
use foxglove_bridge_release.Tables.Laws.{Erased, Same, Entered, IsMaintained}
use foxglove_bridge_release.Tables.Update.{EntersAll}
use foxglove_bridge_release.Ros1.{Bridge}
use foxglove_bridge_release.Ros1.Topics.{
  latest_topics, remove_topic, new_channel, enter_channel, advertise_topic,
}

abbrev pub tables : Tables (Server Bridge)
tables = record {
  advertised = λ s. s.bridge.advertised_topics;
  topics = λ s. s.bridge.channel_to_topic_and_datatype;
  channels = λ s. s.channels;
  next = λ s. s.next_channel_id;
}

-- what the loops leave alone
pub record Unscheduled (b : Bridge) (s : Server Bridge) : Type 0 where
  pub ros : s.bridge.ros ≡ b.ros
  pub update_timer : s.bridge.update_timer ≡ b.update_timer
  pub update_count : s.bridge.update_count ≡ b.update_count
  pub max_update_ms : s.bridge.max_update_ms ≡ b.max_update_ms

module _ {Json : Type 0} (J : JsonLib Json) (b : Bridge) where
  remove_topic_lem :
      (t : TopicAndDatatype) (s : Server Bridge) (ch : Channel)
      → Unscheduled b s
      → find t s.bridge.advertised_topics ≡ some ch
      → ((remove_topic J t s).0 ≡ ok tt)
        × Unscheduled b (remove_topic J t s).1
        × Erased tables t ch s (remove_topic J t s).1
  unfolding remove_topic
  remove_topic_lem t s ch u there =
      let (returns, e) = remove_channel-ok J ch.id s in
      rw there (
        rw (>>=-ok (remove_channel J ch.id) _ tt s returns) (
          refl,
          record {
            ros = rw e.bridge u.ros;
            update_timer = rw e.bridge u.update_timer;
            update_count = rw e.bridge u.update_count;
            max_update_ms = rw e.bridge u.max_update_ms;
          },
          record {
            advertised = rw e.bridge refl;
            topics = rw e.bridge refl;
            channels = e.channels;
            next = e.next_channel_id;
          },
        ))

  enter_channel_lem :
      (t : TopicAndDatatype) (base : ChannelWithoutId) (s : Server Bridge)
      → Unscheduled b s
      → s.next_channel_id + 1 < 2 ^ 32
      → ((enter_channel t base s).0 ≡ ok tt)
        × Unscheduled b (enter_channel t base s).1
        × Entered tables t base s (enter_channel t base s).1
  unfolding enter_channel
  enter_channel_lem t base s u room =
      let e = add_channel-below base s room in
      rw (>>=-ok (add_channel base) _ (s.next_channel_id + 1) s (ap (λ p. p.0) e)) (
        rw e (
          refl,
          record {
            ros = u.ros;
            update_timer = u.update_timer;
            update_count = u.update_count;
            max_update_ms = u.max_update_ms;
          },
          record { advertised = refl; topics = refl; channels = refl; next = refl },
        ))

  advertise_topic_lem :
      (t : TopicAndDatatype) (s : Server Bridge)
      → Unscheduled b s
      → s.next_channel_id + 1 < 2 ^ 32
      → ((advertise_topic t s).0 ≡ ok tt)
        × Unscheduled b (advertise_topic t s).1
        × (Same tables s (advertise_topic t s).1
            ⊎ ((base : ChannelWithoutId) × Entered tables t base s (advertise_topic t s).1))
  unfolding advertise_topic
  advertise_topic_lem t s u room =
      elim (Option-cases (new_channel t (s.bridge.ros.message_description t.1))) [
        | inl e ↦ rw e (
          refl,
          u,
          inl (record { advertised = refl; topics = refl; channels = refl; next = refl }),
        )
        | inr (base, e) ↦
            let (returns, i, r) = enter_channel_lem t base s u room in
            rw e (returns, i, inr (base, r))
      ]

  pub maintained : IsMaintained tables (Unscheduled b) (remove_topic J) advertise_topic
  maintained = record { removes = remove_topic_lem; advertises = advertise_topic_lem }

  -- A topic whose description is looked up without an exception is entered.
  pub described-EntersAll :
      ((t : TopicAndDatatype) → is_some (new_channel t (b.ros.message_description t.1)) ≡ true)
      → EntersAll tables (Unscheduled b) (remove_topic J) advertise_topic maintained [] []
  unfolding advertise_topic
  described-EntersAll d t s u absent room =
      elim (Option-cases (new_channel t (s.bridge.ros.message_description t.1))) [
        | inl e ↦ absurd (ground (arith, e, d t, u.ros))
        | inr (base, e) ↦
            let (returns, i, r) = enter_channel_lem t base s u room in
            rw e (
              ground (
                arith,
                r.advertised,
                find-emplace t t (record { base = base; id = s.next_channel_id + 1 })
                    s.bridge.advertised_topics,
                ==_iff t t,
                absent,
              ))
      ]

pub latest_topics-Once :
    (patterns : List (String → Bool)) (topics latest : List TopicAndDatatype)
    → Once latest
    → Once (latest_topics patterns topics latest)
unfolding latest_topics
latest_topics-Once patterns [] latest o = o
latest_topics-Once patterns (t ∷ rest) latest o = elim (Bool-cases (is_whitelisted patterns t.0)) [
  | inl e ↦ rw e (latest_topics-Once patterns rest (insert t latest) (insert-Once t latest o))
  | inr e ↦ rw e (latest_topics-Once patterns rest latest o)
]
