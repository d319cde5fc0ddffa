-- ===== src/Locks/Ordered.antt =====
-- The calls keep to an order of the mutexes, unless subscriptions and updates meet.
use foxglove_bridge_release.Base.{
  ℕ, zero, suc, ◌<◌, ◌≤◌, ◌≡◌, ◌⊎◌, inl, inr, List, [], ◌∷◌, ◌++◌, arith, ltb, Bool-cases,
  if◌then◌else◌,
}
use foxglove_bridge_release.Locks.{
  Mutex, clients_channel, subscriptions, publications, Mode, exclusive, shared, Lock, System, Reach,
  actions, steps, IsDone,
}
use foxglove_bridge_release.Locks.Calls.{
  locked, repeated, BridgeKind, ros1, ros2, subscription_handler_locks, publication_handler_locks,
  client_message_locks, channel_method_locks, Call, opened, closed, subscribes, advertises,
  published, sends, updates, handle_connection_closed_locks, update_advertised_topics_locks,
  call_locks, calls_locks, threads,
}
use foxglove_bridge_release.Locks.Order.{
  IsBelow, Respects, AllRespect, Prefixes, Prefixes-append, Prefixes-repeated, Prefixes-locked,
  Reach-AllRespect,
}
use foxglove_bridge_release.Locks.Progress.{CanMove, progress}
use foxglove_bridge_release.Locks.Ending.{steps-add-actions}

-- The call is no message that comes to a subscription handler.
abbrev pub NeverSubscribes : Call → Type 0
NeverSubscribes (subscribes handled) = handled ≡ 0
NeverSubscribes _ = Unit

-- The call is no update that removes or adds a channel.
abbrev pub NeverUpdates : Call → Type 0
NeverUpdates (updates removed new added) = (removed ≡ 0) × (added ≡ 0)
NeverUpdates _ = Unit

abbrev pub AllCalls : (Call → Type 0) → List Call → Type 0
AllCalls P [] = Unit
AllCalls P (c ∷ cs) = P c × AllCalls P cs

abbrev pub AllThreads : (Call → Type 0) → List (List Call) → Type 0
AllThreads P [] = Unit
AllThreads P (cs ∷ css) = AllCalls P cs × AllThreads P css

-- the order of updateAdvertisedTopics
abbrev update_rank : Mutex → ℕ
update_rank subscriptions = 0
update_rank clients_channel = 1
update_rank publications = 2

-- the order of handleTextMessage
abbrev message_rank : Mutex → ℕ
message_rank clients_channel = 0
message_rank subscriptions = 1
message_rank publications = 2

Prefixes-nil : (rank : Mutex → ℕ) (held : List Lock) → Prefixes rank held []
Prefixes-nil rank held rest h = h

module _ (rank : Mutex → ℕ) (held : List Lock) (m : Mutex) (mode : Mode)
    (b : IsBelow rank held m) where
  -- a lock that is given back at once
  taken : Prefixes rank held (locked m mode [])
  taken = Prefixes-locked rank held m mode [] b (Prefixes-nil rank _)

  -- a loop of such
  taken_each : (n : ℕ) → Prefixes rank held (repeated n (locked m mode []))
  taken_each n = Prefixes-repeated rank held n (locked m mode []) taken

module _ (rank : Mutex → ℕ) (cp : rank clients_channel < rank publications) where
  -- what the order of the other two mutexes must be for the call
  abbrev IsAllowed : Call → Type 0
  IsAllowed (subscribes handled) = (handled ≡ 0) ⊎ (rank clients_channel < rank subscriptions)
  IsAllowed (updates removed new added) =
      ((removed ≡ 0) × (added ≡ 0)) ⊎ (rank subscriptions < rank clients_channel)
  IsAllowed _ = Unit

  -- a loop of handlers under the mutex of the server
  handled_under :
      (m : Mutex) (mode : Mode) (n : ℕ)
      → (n ≡ 0) ⊎ (rank clients_channel < rank m)
      → Prefixes rank [] (locked clients_channel exclusive (repeated n (locked m mode [])))
  unfolding repeated
  handled_under m mode zero h = taken rank [] clients_channel exclusive tt
  handled_under m mode (suc n) (inl e) = absurd (omega arith)
  handled_under m mode (suc n) (inr lt) =
      Prefixes-locked rank [] clients_channel exclusive (repeated (suc n) (locked m mode [])) tt
        (taken_each rank _ m mode (lt, tt) (suc n))

  broadcast_after : (new : ℕ) → Prefixes rank [] (if ltb 0 new then channel_method_locks else [])
  unfolding channel_method_locks
  broadcast_after new = elim (Bool-cases (ltb 0 new)) [
    | inl e ↦ rw e (taken rank [] clients_channel exclusive tt)
    | inr e ↦ rw e (Prefixes-nil rank [])
  ]

  -- the two loops of updateAdvertisedTopics
  update_loops :
      (removed added : ℕ)
      → ((removed ≡ 0) × (added ≡ 0)) ⊎ (rank subscriptions < rank clients_channel)
      → Prefixes rank
          (record { mutex = subscriptions; mode = exclusive } ∷ [])
          (repeated removed channel_method_locks ++ repeated added channel_method_locks)
  unfolding channel_method_locks repeated
  update_loops zero zero h = Prefixes-nil rank _
  update_loops (suc r) added (inl e) = absurd (omega (arith, e.0))
  update_loops zero (suc a) (inl e) = absurd (omega (arith, e.1))
  update_loops removed added (inr lt) =
      Prefixes-append rank _ (repeated removed channel_method_locks)
        (repeated added channel_method_locks)
        (taken_each rank _ clients_channel exclusive (lt, tt) removed)
        (taken_each rank _ clients_channel exclusive (lt, tt) added)

  call_locks-Prefixes :
      (kind : BridgeKind) (c : Call) → IsAllowed c → Prefixes rank [] (call_locks kind c)
  unfolding call_locks handle_connection_closed_locks update_advertised_topics_locks
      subscription_handler_locks publication_handler_locks client_message_locks
  call_locks-Prefixes kind opened h = taken rank [] clients_channel exclusive tt
  call_locks-Prefixes kind (closed unadvertised unsubscribed) h =
      Prefixes-append rank [] (locked clients_channel exclusive []) _
        (taken rank [] clients_channel exclusive tt)
        (Prefixes-append rank [] (repeated unadvertised publication_handler_locks) _
          (taken_each rank [] publications exclusive tt unadvertised)
          (taken_each rank [] subscriptions exclusive tt unsubscribed))
  call_locks-Prefixes kind (subscribes handled) h = handled_under subscriptions exclusive handled h
  call_locks-Prefixes kind (advertises handled) h =
      handled_under publications exclusive handled (inr cp)
  call_locks-Prefixes ros1 (published handled) h =
      handled_under publications shared handled (inr cp)
  call_locks-Prefixes ros2 (published handled) h =
      handled_under publications exclusive handled (inr cp)
  call_locks-Prefixes kind sends h = taken rank [] clients_channel shared tt
  call_locks-Prefixes kind (updates removed new added) h =
      Prefixes-append rank []
        (locked subscriptions exclusive
          (repeated removed channel_method_locks ++ repeated added channel_method_locks))
        _ (Prefixes-locked rank [] subscriptions exclusive _ tt (update_loops removed added h))
        (broadcast_after new)

  calls_locks-Respects :
      (kind : BridgeKind) (cs : List Call)
      → AllCalls IsAllowed cs
      → Respects rank [] (calls_locks kind cs)
  unfolding calls_locks
  calls_locks-Respects kind [] all = tt
  calls_locks-Respects kind (c ∷ cs) all =
      call_locks-Prefixes kind c all.0 (calls_locks kind cs) (calls_locks-Respects kind cs all.1)

  threads-AllRespect :
      (kind : BridgeKind) (css : List (List Call))
      → AllThreads IsAllowed css
      → AllRespect rank (threads kind css)
  unfolding threads
  threads-AllRespect kind [] all = tt
  threads-AllRespect kind (cs ∷ css) all =
      (calls_locks-Respects kind cs all.0, threads-AllRespect kind css all.1)

  -- From the threads' first steps on, all have ended or one can move.
  moves_on :
      (limit : ℕ)
      → ((m : Mutex) → rank m < limit)
      → (kind : BridgeKind) (css : List (List Call)) → AllThreads IsAllowed css
      → {s : System} → Reach (threads kind css) s
      → IsDone s ⊎ CanMove s
  moves_on limit bounded kind css all {s} r =
      progress rank limit bounded s (Reach-AllRespect rank r (threads-AllRespect kind css all))

module _ {P Q : Call → Type 0} (sub : (c : Call) → P c → Q c) where
  AllCalls-map : (cs : List Call) → AllCalls P cs → AllCalls Q cs
  AllCalls-map [] all = tt
  AllCalls-map (c ∷ cs) all = (sub c all.0, AllCalls-map cs all.1)

  AllThreads-map : (css : List (List Call)) → AllThreads P css → AllThreads Q css
  AllThreads-map [] all = tt
  AllThreads-map (cs ∷ css) all = (AllCalls-map cs all.0, AllThreads-map css all.1)

never_subscribes : (c : Call) → NeverSubscribes c → IsAllowed update_rank (omega arith) c
never_subscribes opened h = tt
never_subscribes (closed u v) h = tt
never_subscribes (subscribes n) h = inl h
never_subscribes (advertises n) h = tt
never_subscribes (published n) h = tt
never_subscribes sends h = tt
never_subscribes (updates r n a) h = inr (omega arith)

never_updates : (c : Call) → NeverUpdates c → IsAllowed message_rank (omega arith) c
never_updates opened h = tt
never_updates (closed u v) h = tt
never_updates (subscribes n) h = inr (omega arith)
never_updates (advertises n) h = tt
never_updates (published n) h = tt
never_updates sends h = tt
never_updates (updates r n a) h = inl h

update_rank_bounded : (m : Mutex) → update_rank m < 3
update_rank_bounded clients_channel = omega arith
update_rank_bounded subscriptions = omega arith
update_rank_bounded publications = omega arith

message_rank_bounded : (m : Mutex) → message_rank m < 3
message_rank_bounded clients_channel = omega arith
message_rank_bounded subscriptions = omega arith
message_rank_bounded publications = omega arith

all_move :
    (kind : BridgeKind) (css : List (List Call))
    → AllThreads NeverSubscribes css ⊎ AllThreads NeverUpdates css
    → {s : System} → Reach (threads kind css) s
    → IsDone s ⊎ CanMove s
all_move kind css (inl h) r =
    moves_on update_rank (omega arith) 3 update_rank_bounded kind css
      (AllThreads-map never_subscribes css h) r
all_move kind css (inr h) r =
    moves_on message_rank (omega arith) 3 message_rank_bounded kind css
      (AllThreads-map never_updates css h) r

-- Any number of threads make any calls of the server and of a bridge, in any interleaving. When no
-- message of theirs comes to a subscription handler, or no update of theirs removes or adds a
-- channel, then at each moment all have ended or one can move, and no run takes more steps than
-- the actions that the calls consist of. So every call comes to its end.
pub calls_end :
    (kind : BridgeKind) (css : List (List Call))
    → AllThreads NeverSubscribes css ⊎ AllThreads NeverUpdates css
    → {s : System} (r : Reach (threads kind css) s)
    → (IsDone s ⊎ CanMove s) × (steps r ≤ actions (threads kind css))
calls_end kind css h r = (all_move kind css h r, omega (arith, steps-add-actions r))
