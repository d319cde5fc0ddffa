-- ===== src/Ros2/Advertised.antt =====
-- What the bodies of the two loops of the ROS 2 bridge's updateAdvertisedTopics do to its tables.
use foxglove_bridge_release.Base.{
  ℕ, ◌+◌, ◌^◌, ◌<◌, ◌≡◌, ◌⊎◌, refl, ap, String, some, Bool, List, [], ◌∷◌, inl, inr, Option-cases,
  Bool-cases,
}
use foxglove_bridge_release.Base.Eq.{id_eq, pair_eq}
use foxglove_bridge_release.Base.Map.{Map, find, insert}
use foxglove_bridge_release.Base.Exec.{ok, >>=-ok}
use foxglove_bridge_release.Json.{JsonLib}
use foxglove_bridge_release.Definitions.{Sources}
use foxglove_bridge_release.Definitions.FullText.{get_full_text}
use foxglove_bridge_release.Server.{Server, Channel, ChannelWithoutId}
use foxglove_bridge_release.Server.Channels.{add_channel, remove_channel}
use foxglove_bridge_release.Server.Effects.{add_channel-below, remove_channel-ok}
use foxglove_bridge_release.Tables.{Tables}
use foxglove_bridge_release.Tables.Loops.{Once, insert-Once}
use foxglove_bridge_release.Tables.Laws.{Erased, Same, Entered, IsMaintained}
use foxglove_bridge_release.Ros2.{Bridge, TopicAndDatatype}
use foxglove_bridge_release.Ros2.Topics.{
  is_whitelisted, insert_datatypes, collect_topics, remove_topic, new_channel, full_text_of,
  enter_channel, advertise_topic,
}

abbrev pub tables : Tables (Server Bridge)
tables = record {
  advertised = λ s. s.bridge.advertised_topics;
  topics = λ s. s.bridge.channel_to_topic_and_datatype;
  channels = λ s. s.channels;
  next = λ s. s.next_channel_id;
}

abbrev pub Any : Server Bridge → Type 0
Any s = Unit

insert_datatypes-Once :
    (name : String) (types : List String) (latest : List TopicAndDatatype)
    → Once latest
    → Once (insert_datatypes name types latest)
unfolding insert_datatypes
insert_datatypes-Once name [] latest o = o
insert_datatypes-Once name (t ∷ types) latest o =
    insert_datatypes-Once name types (insert (name, t) latest) (insert-Once (name, t) latest o)

pub collect_topics-Once :
    (patterns : List (String → Bool)) (graph : Map String (List String))
    (latest : List TopicAndDatatype)
    → Once latest
    → Once (collect_topics patterns graph latest)
unfolding collect_topics
collect_topics-Once patterns [] latest o = o
collect_topics-Once patterns ((name, types) ∷ rest) latest o =
    elim (Bool-cases (is_whitelisted patterns name)) [
      | inl e ↦ rw e (
          collect_topics-Once patterns rest (insert_datatypes name types latest)
            (insert_datatypes-Once name types latest o))
      | inr e ↦ rw e (collect_topics-Once patterns rest latest o)
    ]

enter_channel_lem :
    (t : TopicAndDatatype) (base : ChannelWithoutId) (s : Server Bridge)
    → s.next_channel_id + 1 < 2 ^ 32
    → ((enter_channel t base s).0 ≡ ok tt) × Entered tables t base s (enter_channel t base s).1
unfolding enter_channel
enter_channel_lem t base s room =
    let e = add_channel-below base s room in
    rw (>>=-ok (add_channel base) _ (s.next_channel_id + 1) s (ap (λ p. p.0) e))
      (rw e (refl, record { advertised = refl; topics = refl; channels = refl; next = refl }))

module _ {Json : Type 0} (J : JsonLib Json) where
  remove_topic_lem :
      (t : TopicAndDatatype) (s : Server Bridge) (ch : Channel)
      → Any s
      → find t s.bridge.advertised_topics ≡ some ch
      → ((remove_topic J t s).0 ≡ ok tt)
        × Any (remove_topic J t s).1
        × Erased tables t ch s (remove_topic J t s).1
  unfolding remove_topic
  remove_topic_lem t s ch u there =
      let (returns, e) = remove_channel-ok J ch.id s in
      rw there (
        rw (>>=-ok (remove_channel J ch.id) _ tt s returns) (
          refl,
          tt,
          record {
            advertised = rw e.bridge refl;
            topics = rw e.bridge refl;
            channels = e.channels;
            next = e.next_channel_id;
          },
        ))

module _ (sources : Sources) (fuel : ℕ) where
  -- what the cache holds and what is found for the type are of no account here
  advertise_topic_lem :
      (t : TopicAndDatatype) (s : Server Bridge)
      → Any s
      → s.next_channel_id + 1 < 2 ^ 32
      → ((advertise_topic sources fuel t s).0 ≡ ok tt)
        × Any (advertise_topic sources fuel t s).1
        × (Same tables s (advertise_topic sources fuel t s).1
            ⊎ ((base : ChannelWithoutId) × Entered tables t base s
                  (advertise_topic sources fuel t s).1))
  unfolding advertise_topic full_text_of
  advertise_topic_lem t s u room =
      let (r, cache) = get_full_text sources fuel t.1 s.bridge.message_definition_cache in
      let s' : Server Bridge = record s {
        bridge = record (s.bridge) { message_definition_cache = cache };
      } in
      elim (Option-cases (new_channel t r)) [
        | inl e ↦ rw e (
          refl,
          tt,
          inl (record { advertised = refl; topics = refl; channels = refl; next = refl }),
        )
        | inr (base, e) ↦
            let (returns, n) = enter_channel_lem t base s' room in
            rw e (
              returns,
              tt,
              inr (
                base,
                record {
                  advertised = n.advertised;
                  topics = n.topics;
                  channels = n.channels;
                  next = n.next;
                },
              ),
            )
      ]

module _ {Json : Type 0} (J : JsonLib Json) (sources : Sources) (fuel : ℕ) where
  pub maintained : IsMaintained tables Any (remove_topic J) (advertise_topic sources fuel)
  maintained = record {
    removes = remove_topic_lem J;
    advertises = advertise_topic_lem sources fuel;
  }
