-- ===== src/Ros1/Updates.antt =====
-- updateAdvertisedTopics of the ROS 1 bridge as a whole: its tables, the topics that it advertises,
-- and the timer that calls it again.
use mathlib.Core.Path.{subst}
use foxglove_bridge_release.Base.{
  sym, ◌∙◌, ◌+◌, ◌^◌, ◌<◌, ◌≡◌, refl, ap, none, some, true, false, List, [], ◌&&◌, arith, inl, inr,
  if◌then◌else◌, Option-cases, Bool-cases,
}
use foxglove_bridge_release.Base.Eq.{id_eq, pair_eq}
use foxglove_bridge_release.Base.Lists.{length}
use foxglove_bridge_release.Base.Map.{is_some}
use foxglove_bridge_release.Base.Exec.{ok, for_each, ◌>>◌, >>=-ok}
use foxglove_bridge_release.Json.{JsonLib}
use foxglove_bridge_release.Server.{Server}
use foxglove_bridge_release.Server.Effects.{broadcast_new, broadcast_answer, broadcast_new_lem}
use foxglove_bridge_release.Ros2.{TopicAndDatatype}
use foxglove_bridge_release.Ros2.Topics.{new_topics, removed_topics}
use foxglove_bridge_release.Tables.Laws.{IsTrackedIn, Same, Same-IsTracked}
use foxglove_bridge_release.Tables.Update.{IsUpdated, loops_lem}
use foxglove_bridge_release.Ros1.{Bridge}
use foxglove_bridge_release.Ros1.Topics.{
  latest_topics, schedule_update, remove_topic, advertise_topic, update_topics,
  update_advertised_topics,
}
use foxglove_bridge_release.Ros1.Advertised.{tables, Unscheduled, maintained, latest_topics-Once}
use foxglove_bridge_release.Ros1.Outcome.{
  Outcome, outcome, after_broadcast_from, after_broadcast, Ends, ends_lem,
}

module _ {Json : Type 0} (J : JsonLib Json) where
  module _ (names : List TopicAndDatatype) (s : Server Bridge) where
    abbrev latest : List TopicAndDatatype
    latest = latest_topics s.bridge.topic_whitelist_patterns names []

    abbrev removed : List TopicAndDatatype
    removed = removed_topics latest s.bridge.advertised_topics

    abbrev added : List TopicAndDatatype
    added = new_topics s.bridge.advertised_topics latest

    abbrev after_loops : Server Bridge
    after_loops = (for_each added advertise_topic (for_each removed (remove_topic J) s).1).1

    module _ (v : IsTrackedIn tables s) (room : s.next_channel_id + length added < 2 ^ 32) where
      loops :
          ((for_each removed (remove_topic J) s).0 ≡ ok tt)
          × ((for_each added advertise_topic (for_each removed (remove_topic J) s).1).0 ≡ ok tt)
          × IsUpdated tables
              (Unscheduled s.bridge)
              (remove_topic J)
              advertise_topic
              (maintained J s.bridge)
              latest
              s.bridge.advertised_topics
              after_loops
      loops =
          loops_lem tables (Unscheduled s.bridge) (remove_topic J) advertise_topic
            (maintained J s.bridge) latest s.bridge.advertised_topics s refl v
            (record { ros = refl; update_timer = refl; update_count = refl; max_update_ms = refl })
            (latest_topics-Once s.bridge.topic_whitelist_patterns names [] tt) room

      update_topics_runs :
          update_topics J names s ≡ (broadcast_new J added >> schedule_update) after_loops
      unfolding update_topics broadcast_new
      update_topics_runs =
          let t = (for_each removed (remove_topic J) s).1 in
          rw (>>=-ok (for_each removed (remove_topic J)) _ tt s loops.0)
            (rw (>>=-ok (for_each added advertise_topic) _ tt t loops.1) refl)

      -- what the bridge has after the update
      abbrev after_update : Server Bridge
      after_update = (update_topics J names s).1

      module _ (unset : s.bridge.update_timer ≡ none) where
        ends : Ends (broadcast_new J added after_loops) (update_topics J names s)
        ends =
            let e = (broadcast_new_lem J added after_loops).1 in
            subst (Ends (broadcast_new J added after_loops)) (sym update_topics_runs) (
              ends_lem (broadcast_new J added after_loops)
                (rw e.bridge (loops.2.kept.update_timer ∙ unset)))

        tracked_after : IsTrackedIn tables after_update
        tracked_after =
            let t : Server Bridge = (broadcast_new J added after_loops).1 in
            let e = (broadcast_new_lem J added after_loops).1 in
            let same : Same tables after_loops t = record {
              advertised = ap (λ b. b.advertised_topics) e.bridge;
              topics = ap (λ b. b.channel_to_topic_and_datatype) e.bridge;
              channels = e.channels;
              next = e.next_channel_id;
            } in
            Same-IsTracked tables t after_update ends.same
              (Same-IsTracked tables after_loops t same loops.2.tracked)

        outcome_after :
            outcome (update_topics J names s)
            ≡ after_broadcast s.bridge (broadcast_answer J added after_update)
        outcome_after =
            let (answer, e) = broadcast_new_lem J added after_loops in
            let kept = loops.2.kept in
            ends.outcome_is
            ∙ ap
                (λ b.
                  after_broadcast_from b.ros b.update_count b.max_update_ms
                    (broadcast_new J added after_loops).0)
                e.bridge
            ∙ rw (kept.ros, kept.update_count, kept.max_update_ms, answer)
                (rw (ends.clients, ends.same.channels) refl)

module _ {Json : Type 0} (J : JsonLib Json) (s : Server Bridge) where
  abbrev stopped : Server Bridge
  stopped = record s { bridge = record (s.bridge) { update_timer = none } }

  -- The topics that are new in the graph that the master names, none where it does not answer.
  abbrev pub new_in_graph : List TopicAndDatatype
  new_in_graph = elim s.bridge.ros.topics [
    | none ↦ []
    | some names ↦
        new_topics s.bridge.advertised_topics
          (latest_topics s.bridge.topic_whitelist_patterns names [])
  ]

  updates :
      (names : List TopicAndDatatype)
      → s.bridge.ros.is_ok ≡ true
      → s.bridge.ros.topics ≡ some names
      → update_advertised_topics J s ≡ update_topics J names stopped
  unfolding update_advertised_topics
  updates names running answered = rw running (rw answered refl)

  not_running : s.bridge.ros.is_ok ≡ false → update_advertised_topics J s ≡ (ok tt, stopped)
  unfolding update_advertised_topics
  not_running e = rw e refl

  not_answered :
      s.bridge.ros.is_ok ≡ true
      → s.bridge.ros.topics ≡ none
      → update_advertised_topics J s ≡ (ok tt, stopped)
  unfolding update_advertised_topics
  not_answered running e = rw running (rw e refl)

  -- When the bridge's tables agree with the server's channels and fewer than 2 ^ 32 ids are used with
  -- the new topics, the tables agree after updateAdvertisedTopics, whether it returns or throws: each
  -- is the inverse of the other, and each advertised channel is the server's channel of its id.
  pub update_advertised_topics-IsTracked :
      IsTrackedIn tables s
      → s.next_channel_id + length new_in_graph < 2 ^ 32
      → IsTrackedIn tables (update_advertised_topics J s).1
  update_advertised_topics-IsTracked v room = elim (Bool-cases s.bridge.ros.is_ok) [
    | inr e ↦ rw (not_running e) v
    | inl running ↦ elim (Option-cases s.bridge.ros.topics) [
      | inl e ↦ rw (not_answered running e) v
      | inr (names, e) ↦
          let few : s.next_channel_id + length (added J names stopped) < 2 ^ 32 =
            ground (arith, e, room) in
          rw (updates names running e) (tracked_after J names stopped v few refl)
    ]
  ]

  -- the outcome where the master answers, from the state at the end
  abbrev pub answered : Server Bridge → Outcome
  answered t = after_broadcast s.bridge (broadcast_answer J new_in_graph t)

  -- When the bridge's tables agree with the server's channels and fewer than 2 ^ 32 ids are used with
  -- the new topics: if roscpp runs and the master answers, updateAdvertisedTopics returns with the
  -- timer for the next call running, of the period of the counter raised by one, unless dump throws
  -- for the document of the channels (a topic being new and a client connected) or createTimer
  -- throws. It then throws the same, and no timer runs; the counter is as before in the first case
  -- and raised in the second. If roscpp has ended or the master does not answer, the call returns,
  -- no timer runs and the counter is as before.
  pub update_timer_lem :
      IsTrackedIn tables s
      → s.next_channel_id + length new_in_graph < 2 ^ 32
      → outcome (update_advertised_topics J s) ≡ (
          if s.bridge.ros.is_ok && is_some s.bridge.ros.topics
          then answered (update_advertised_topics J s).1
          else record { answer = ok tt; update_timer = none; update_count = s.bridge.update_count })
  update_timer_lem v room = elim (Bool-cases s.bridge.ros.is_ok) [
    | inr e ↦ rw (not_running e) (rw e refl)
    | inl running ↦ elim (Option-cases s.bridge.ros.topics) [
      | inl e ↦ rw (not_answered running e) (rw (running, e) refl)
      | inr (names, e) ↦
          let few : s.next_channel_id + length (added J names stopped) < 2 ^ 32 =
            ground (arith, e, room) in
          rw (updates names running e)
            (outcome_after J names stopped v few refl ∙ rw (running, e) refl)
    ]
  ]
