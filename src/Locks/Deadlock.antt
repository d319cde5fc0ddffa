-- ===== src/Locks/Deadlock.antt =====
-- A message that subscribes and an update that changes the channels can wait for each other.
use mathlib.Core.Path.{subst, sym}
use foxglove_bridge_release.Base.{ℕ, zero, suc, ◌+◌, ◌<◌, ◌≡◌, refl, List, [], ◌∷◌, arith}
use foxglove_bridge_release.Locks.{
  clients_channel, subscriptions, exclusive, Lock, Action, acquire, System, some_excludes, is_free,
  run_action, advance, step_of, Reach, here, next, IsStuck,
}
use foxglove_bridge_release.Locks.Calls.{
  locked, repeated, subscription_handler_locks, channel_method_locks, BridgeKind, Call, subscribes,
  updates, update_advertised_topics_locks, call_locks, calls_locks, threads,
}

abbrev clients_lock : Lock
clients_lock = record { mutex = clients_channel; mode = exclusive }

abbrev subscriptions_lock : Lock
subscriptions_lock = record { mutex = subscriptions; mode = exclusive }

-- Each thread holds what the other waits for.
abbrev pub crossed : List Action → List Action → System
crossed message update =
    record { held = clients_lock ∷ []; rest = acquire subscriptions_lock ∷ message }
    ∷ record { held = subscriptions_lock ∷ []; rest = acquire clients_lock ∷ update }
    ∷ []

crossed-IsStuck : (message update : List Action) → IsStuck (crossed message update)
unfolding advance run_action is_free some_excludes
crossed-IsStuck message update zero = refl
crossed-IsStuck message update (suc zero) = refl
crossed-IsStuck message update (suc (suc i)) = refl

abbrev before : List Action → List Action → System
before message update =
    record { held = []; rest = acquire clients_lock ∷ acquire subscriptions_lock ∷ message }
    ∷ record { held = []; rest = acquire subscriptions_lock ∷ acquire clients_lock ∷ update }
    ∷ []

-- Each thread takes its first lock.
reach_crossed :
    (message update : List Action) → Reach (before message update) (crossed message update)
unfolding advance run_action is_free some_excludes
reach_crossed message update = next (next here (step_of 0 refl)) (step_of 1 refl)

-- the threads that the theorem is about
abbrev pub message_and_update : BridgeKind → ℕ → ℕ → ℕ → ℕ → List Call → List Call → System
message_and_update kind handled removed new added messages polls =
    threads kind ((subscribes handled ∷ messages) ∷ (updates removed new added ∷ polls) ∷ [])

abbrev Deadlocks : System → Type 0
Deadlocks s =
    (message : List Action) × (update : List Action) × Reach s (crossed message update)
    × IsStuck (crossed message update)

crosses :
    (kind : BridgeKind) (handled removed new added : ℕ) (messages polls : List Call)
    → 0 < handled
    → 0 < removed + added
    → (message : List Action) × (update : List Action) × (message_and_update kind handled removed
          new added messages polls
        ≡ before message update)
unfolding threads calls_locks call_locks update_advertised_topics_locks locked repeated
    subscription_handler_locks channel_method_locks
crosses kind zero removed new added messages polls h k = absurd (omega arith)
crosses kind (suc handled) zero new zero messages polls h k = absurd (omega arith)
crosses kind (suc handled) zero new (suc added) messages polls h k = (_, _, refl)
crosses kind (suc handled) (suc removed) new added messages polls h k = (_, _, refl)

-- When one thread handles a message that comes to a subscription handler, and another an update
-- that removes or adds a channel, then there is an interleaving after which neither can ever move:
-- the message holds the server's mutex alone, and its next action is to take that of the
-- subscriptions; the update holds the mutex of the subscriptions alone, and its next action is to
-- take the server's.
pub message_and_update-deadlocks :
    (kind : BridgeKind) (handled removed new added : ℕ) (messages polls : List Call)
    → 0 < handled
    → 0 < removed + added
    → (message : List Action) × (update : List Action) × Reach
        (message_and_update kind handled removed new added messages polls)
        (crossed message update)
      × IsStuck (crossed message update)
message_and_update-deadlocks kind handled removed new added messages polls h k =
    let (message, update, e) = crosses kind handled removed new added messages polls h k in
    subst Deadlocks (sym e)
      (message, update, reach_crossed message update, crossed-IsStuck message update)
