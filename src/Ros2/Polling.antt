-- ===== src/Ros2/Polling.antt =====
-- rosgraphPollThread keeps the tables of the bridge and the channels of the server in agreement.
use foxglove_bridge_release.Base.{
  ℕ, ◌+◌, ◌^◌, ◌<◌, ap, Bool, List, [], ◌∷◌, inl, inr, Bool-cases, if◌then◌else◌,
}
use foxglove_bridge_release.Base.Lists.{length}
use foxglove_bridge_release.Base.Exec.{Exec, Result, ok, throws, skip, ◌>>◌}
use foxglove_bridge_release.Json.{JsonLib}
use foxglove_bridge_release.Definitions.{Sources}
use foxglove_bridge_release.Server.{Server}
use foxglove_bridge_release.Tables.Laws.{IsTrackedIn}
use foxglove_bridge_release.Ros2.{Bridge, Ros}
use foxglove_bridge_release.Ros2.Topics.{update_advertised_topics}
use foxglove_bridge_release.Ros2.Advertised.{tables}
use foxglove_bridge_release.Ros2.Updates.{new_in_graph, update_advertised_topics-IsTracked}
use foxglove_bridge_release.Ros2.Start.{Round, poll_round, poll_loop, rosgraph_poll_thread}

module _ {Json : Type 0} (J : JsonLib Json) (sources : Sources) (fuel : ℕ) where
  abbrev pub HasRoom : Server Bridge → Type 0
  HasRoom s = s.next_channel_id + length (new_in_graph J sources fuel s) < 2 ^ 32

  abbrev with_ros : Ros → Server Bridge → Server Bridge
  with_ros ros s = record s { bridge = record (s.bridge) { ros = ros } }

  -- In each round the ids do not run out.
  abbrev pub HaveRoom : List Round → Server Bridge → Type 0
  HaveRoom [] s = Unit
  HaveRoom (round ∷ rounds) s =
      let t = with_ros round.ros s in
      HasRoom t × HaveRoom rounds (poll_round J sources fuel round t).1

  abbrev goes_on : Round → List Round → Server Bridge → Bool → Result (Unit {0}) × Server Bridge
  goes_on round rounds s running =
      (if running then poll_round J sources fuel round >> poll_loop J sources fuel rounds else skip)
        (with_ros round.ros s)

  poll_round-IsTracked :
      (round : Round) (s : Server Bridge)
      → IsTrackedIn tables s
      → HasRoom s
      → IsTrackedIn tables (poll_round J sources fuel round s).1
  unfolding poll_round
  poll_round-IsTracked round s v room = elim (Bool-cases round.triggered) [
    | inl e ↦ rw e (update_advertised_topics-IsTracked J sources fuel s v room)
    | inr e ↦ rw e v
  ]

  -- A run that throws ends there; one that returns goes on.
  bound-IsTracked :
      (p : Result (Unit {0}) × Server Bridge) (k : Exec (Server Bridge) (Unit {0}))
      → IsTrackedIn tables p.1
      → IsTrackedIn tables (k p.1).1
      → IsTrackedIn tables
          (elim p.0 as (λ _. Result (Unit {0}) × Server Bridge) [
            | ok a ↦ k p.1
            | throws x ↦ (throws x, p.1)
          ]).1
  bound-IsTracked (ok a, s) k now later = later
  bound-IsTracked (throws x, s) k now later = now

  poll_loop-IsTracked :
      (rounds : List Round) (s : Server Bridge)
      → IsTrackedIn tables s
      → HaveRoom rounds s
      → IsTrackedIn tables (poll_loop J sources fuel rounds s).1
  unfolding poll_loop
  poll_loop-IsTracked [] s v room = v
  poll_loop-IsTracked (round ∷ rounds) s v room =
      let t = with_ros round.ros s in
      let tracked = poll_round-IsTracked round t v room.0 in
      elim (Bool-cases round.ros.is_ok) [
        | inl e ↦ rw (ap (goes_on round rounds s) e) (
            bound-IsTracked (poll_round J sources fuel round t) (poll_loop J sources fuel rounds)
              tracked
              (poll_loop-IsTracked rounds (poll_round J sources fuel round t).1 tracked room.1))
        | inr e ↦ rw (ap (goes_on round rounds s) e) v
      ]

  -- From a state in which the bridge's tables agree with the server's channels, and when the ids do
  -- not run out in the rounds of its loop, the tables agree when rosgraphPollThread ends, however
  -- rclcpp answers in each round: by a return, or by an exception that the look-up of the topics or
  -- the print of the channels throws in any round, which nothing catches.
  pub rosgraph_poll_thread-IsTracked :
      (rounds : List Round) (s : Server Bridge)
      → IsTrackedIn tables s
      → HasRoom s
      → HaveRoom rounds (update_advertised_topics J sources fuel s).1
      → IsTrackedIn tables (rosgraph_poll_thread J sources fuel rounds s).1
  unfolding rosgraph_poll_thread
  rosgraph_poll_thread-IsTracked rounds s v room rooms =
      let tracked = update_advertised_topics-IsTracked J sources fuel s v room in
      bound-IsTracked (update_advertised_topics J sources fuel s) (poll_loop J sources fuel rounds)
        tracked
        (poll_loop-IsTracked rounds (update_advertised_topics J sources fuel s).1 tracked rooms)
