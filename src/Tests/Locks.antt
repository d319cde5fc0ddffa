-- ===== src/Tests/Locks.antt =====
-- Threads of the server and the bridges at concrete calls.
use foxglove_bridge_release.Base.{ℕ, ◌≤◌, ◌≡◌, ◌⊎◌, refl, inl, none, some, List, [], ◌∷◌, arith}
use foxglove_bridge_release.Locks.{
  Action, some_excludes, is_free, run_action, advance, System, step_of, Reach, here, next, IsDone,
  IsStuck, actions, steps,
}
use foxglove_bridge_release.Locks.Calls.{
  locked, repeated, subscription_handler_locks, client_message_locks, channel_method_locks, ros1,
  ros2, Call, opened, closed, published, sends, updates, update_advertised_topics_locks,
  handle_connection_closed_locks, call_locks, calls_locks, threads,
}
use foxglove_bridge_release.Locks.Progress.{CanMove}
use foxglove_bridge_release.Locks.Ordered.{calls_end}
use foxglove_bridge_release.Locks.Deadlock.{
  crossed, message_and_update, message_and_update-deadlocks,
}

-- a client that publishes and leaves, a ROS message, and an update that adds a channel
abbrev busy : List (List Call)
busy = (opened ∷ published 1 ∷ closed 1 1 ∷ []) ∷ (sends ∷ []) ∷ (updates 0 1 1 ∷ []) ∷ []

twenty_actions : actions (threads ros2 busy) ≡ 20
unfolding actions threads calls_locks call_locks update_advertised_topics_locks
    handle_connection_closed_locks locked repeated client_message_locks channel_method_locks
    subscription_handler_locks
twenty_actions = refl

-- the system after a step of the thread with the number given
abbrev after : ℕ → System → System
after i s = elim (advance i s) [ none ↦ [] | some t ↦ t ]

abbrev busy_1 : System
busy_1 = after 2 (threads ros2 busy)

abbrev busy_2 : System
busy_2 = after 0 busy_1

-- The update has taken its first mutex, and the first client then the server's.
busy_run : Reach (threads ros2 busy) busy_2
unfolding threads calls_locks call_locks update_advertised_topics_locks locked advance run_action
    is_free some_excludes
busy_run = next (next here (step_of 2 refl)) (step_of 0 refl)

-- The update waits for the client.
busy_waits : advance 2 busy_2 ≡ none
unfolding threads calls_locks call_locks update_advertised_topics_locks locked repeated
    channel_method_locks advance run_action is_free some_excludes
busy_waits = refl

calls_end_example :
    (IsDone busy_2 ⊎ CanMove busy_2) × (steps busy_run ≤ actions (threads ros2 busy))
calls_end_example = calls_end ros2 busy (inl (omega arith)) busy_run

message_and_update-deadlocks_example :
    (message : List Action) × (update : List Action) × Reach
      (message_and_update ros1 2 0 3 1 (sends ∷ []) [])
      (crossed message update)
    × IsStuck (crossed message update)
message_and_update-deadlocks_example =
    message_and_update-deadlocks ros1 2 0 3 1 (sends ∷ []) [] (omega arith) (omega arith)
