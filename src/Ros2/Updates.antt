-- ===== src/Ros2/Updates.antt =====
-- updateAdvertisedTopics of the ROS 2 bridge as a whole: its tables and the topics that it advertises.
use mathlib.Core.Path.{subst}
use foxglove_bridge_release.Base.{
  sym, ◌∙◌, String, arith, ℕ, ◌+◌, ◌^◌, ◌<◌, ◌≡◌, refl, ap, true, false, List, [], inl, inr,
  Bool-cases,
}
use foxglove_bridge_release.Base.Eq.{id_eq, pair_eq}
use foxglove_bridge_release.Base.Lists.{length}
use foxglove_bridge_release.Base.Map.{Map}
use foxglove_bridge_release.Base.Exec.{
  Exception, Result, ok, throws, lift, for_each, ◌>>=◌, >>=-ok, Result-cases,
}
use foxglove_bridge_release.Json.{JsonLib}
use foxglove_bridge_release.Definitions.{Sources}
use foxglove_bridge_release.Server.{Server}
use foxglove_bridge_release.Server.Effects.{broadcast_new, broadcast_answer, broadcast_new_lem}
use foxglove_bridge_release.Tables.Laws.{IsTrackedIn, Same, Same-IsTracked}
use foxglove_bridge_release.Tables.Update.{IsUpdated, loops_lem}
use foxglove_bridge_release.Ros2.{Bridge, TopicAndDatatype}
use foxglove_bridge_release.Ros2.Topics.{
  latest_topics, new_topics, removed_topics, remove_topic, advertise_topic, update_topics,
  update_known_topics, update_advertised_topics,
}
use foxglove_bridge_release.Ros2.Advertised.{tables, Any, maintained, collect_topics-Once}

module _ {Json : Type 0} (J : JsonLib Json) (sources : Sources) (fuel : ℕ) where
  module _ (graph : Map String (List String)) (s : Server Bridge) where
    abbrev latest : List TopicAndDatatype
    latest = latest_topics s.bridge.topic_whitelist_patterns graph

    abbrev removed : List TopicAndDatatype
    removed = removed_topics latest s.bridge.advertised_topics

    abbrev added : List TopicAndDatatype
    added = new_topics s.bridge.advertised_topics latest

    abbrev after_loops : Server Bridge
    after_loops =
        (for_each added (advertise_topic sources fuel) (for_each removed (remove_topic J) s).1).1

    -- how the update of the topics ends in a state
    abbrev pub update_answer : Server Bridge → Result (Unit {0})
    update_answer t = broadcast_answer J added t

    module _ (known : s.bridge.ros.topic_names_and_types ≡ ok graph) (v : IsTrackedIn tables s)
        (room : s.next_channel_id + length added < 2 ^ 32) where
      loops :
          ((for_each removed (remove_topic J) s).0 ≡ ok tt)
          × ((for_each added
                (advertise_topic sources fuel)
                (for_each removed (remove_topic J) s).1).0
              ≡ ok tt)
          × IsUpdated tables Any
              (remove_topic J)
              (advertise_topic sources fuel)
              (maintained J sources fuel)
              latest
              s.bridge.advertised_topics
              after_loops
      unfolding latest_topics
      loops =
          loops_lem tables Any (remove_topic J) (advertise_topic sources fuel)
            (maintained J sources fuel) latest s.bridge.advertised_topics s refl v tt
            (collect_topics-Once s.bridge.topic_whitelist_patterns graph [] tt) room

      told : update_topics J sources fuel s ≡ update_known_topics J sources fuel graph s
      unfolding update_topics
      told = ap (λ r. (lift r >>= update_known_topics J sources fuel) s) known

      known_topics_runs :
          update_known_topics J sources fuel graph s ≡ broadcast_new J added after_loops
      unfolding update_known_topics broadcast_new
      known_topics_runs =
          let t = (for_each removed (remove_topic J) s).1 in
          rw (>>=-ok (for_each removed (remove_topic J)) _ tt s loops.0)
            (rw (>>=-ok (for_each added (advertise_topic sources fuel)) _ tt t loops.1) refl)

      update_topics_runs : update_topics J sources fuel s ≡ broadcast_new J added after_loops
      update_topics_runs = told ∙ known_topics_runs

      tracked_after : IsTrackedIn tables (update_topics J sources fuel s).1
      tracked_after =
          let t : Server Bridge = (broadcast_new J added after_loops).1 in
          let e = (broadcast_new_lem J added after_loops).1 in
          let same : Same tables after_loops t = record {
            advertised = ap (λ b. b.advertised_topics) e.bridge;
            topics = ap (λ b. b.channel_to_topic_and_datatype) e.bridge;
            channels = e.channels;
            next = e.next_channel_id;
          } in
          subst (λ p. IsTrackedIn tables p.1) (sym update_topics_runs)
            (Same-IsTracked tables after_loops t same loops.2.tracked)

  module _ (s : Server Bridge) where
    -- The topics of the graph that are new to the bridge, none where the graph is not told.
    abbrev pub new_in_graph : List TopicAndDatatype
    new_in_graph = elim s.bridge.ros.topic_names_and_types [
      | ok graph ↦ added graph s
      | throws x ↦ []
    ]

    running :
        s.bridge.ros.is_ok ≡ true
        → update_advertised_topics J sources fuel s ≡ update_topics J sources fuel s
    unfolding update_advertised_topics
    running e = rw e refl

    not_running :
        s.bridge.ros.is_ok ≡ false → update_advertised_topics J sources fuel s ≡ (ok tt, s)
    unfolding update_advertised_topics
    not_running e = rw e refl

    not_told :
        (x : Exception)
        → s.bridge.ros.topic_names_and_types ≡ throws x
        → update_topics J sources fuel s ≡ (throws x, s)
    unfolding update_topics
    not_told x e = ap (λ r. (lift r >>= update_known_topics J sources fuel) s) e

    -- When the bridge's tables agree with the server's channels and fewer than 2 ^ 32 ids are used
    -- with the new topics, the tables agree after updateAdvertisedTopics, also where it throws.
    pub update_advertised_topics-IsTracked :
        IsTrackedIn tables s
        → s.next_channel_id + length new_in_graph < 2 ^ 32
        → IsTrackedIn tables (update_advertised_topics J sources fuel s).1
    update_advertised_topics-IsTracked v room = elim (Bool-cases s.bridge.ros.is_ok) [
      | inr e ↦ rw (not_running e) v
      | inl e ↦ rw (running e) (elim (Result-cases s.bridge.ros.topic_names_and_types) [
        | inr (x, told) ↦ rw (not_told x told) v
        | inl (graph, told) ↦ tracked_after graph s told v (ground (arith, told, room))
      ])
    ]
