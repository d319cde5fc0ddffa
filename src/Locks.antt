-- ===== src/Locks.antt =====
-- The mutexes of the server and of the bridges: _clientsChannelMutex of websocket_server.hpp,
-- _subscriptionsMutex of both bridges, and the mutex of the publications
-- (_clientAdvertisementsMutex in ros2_foxglove_bridge.cpp, _publicationsMutex in
-- ros1_foxglove_bridge_nodelet.cpp). A thread is what it holds and the locks and scopes' ends that
-- are still before it; a system is its threads, which take their steps in any order.
pub mod Calls
pub mod Order
pub mod Ending
pub mod Progress
pub mod Ordered
pub mod Deadlock
use mathlib.Core.Option
use foxglove_bridge_release.Base.Lists.{length}
use foxglove_bridge_release.Base.{
  ℕ, zero, suc, ◌+◌, ◌≡◌, Option, none, some, Bool, true, false, not, ◌&&◌, ◌||◌, List, [], ◌∷◌,
  if◌then◌else◌,
}

pub data Mutex : Type 0 where
  clients_channel subscriptions publications : Mutex

pub data Mode : Type 0 where
  exclusive shared : Mode

pub record Lock : Type 0 where
  pub mutex : Mutex
  pub mode : Mode

-- A guard is an object of a scope: the end of a scope gives back what was taken last.
pub data Action : Type 0 where
  acquire : Lock → Action
  release : Action

pub record Thread : Type 0 where
  pub held : List Lock
  pub rest : List Action

abbrev pub System : Type 0
System = List Thread

abbrev pub same_mutex : Mutex → Mutex → Bool
same_mutex clients_channel clients_channel = true
same_mutex clients_channel _ = false
same_mutex subscriptions subscriptions = true
same_mutex subscriptions _ = false
same_mutex publications publications = true
same_mutex publications _ = false

abbrev pub is_shared : Mode → Bool
is_shared exclusive = false
is_shared shared = true

-- Two locks of one mutex exclude each other unless both are shared.
abbrev pub excludes : Lock → Lock → Bool
excludes l k = same_mutex l.mutex k.mutex && not (is_shared l.mode && is_shared k.mode)

unfoldable pub some_excludes : List Lock → Lock → Bool
some_excludes [] k = false
some_excludes (l ∷ held) k = excludes l k || some_excludes held k

unfoldable pub is_free : System → Lock → Bool
is_free [] k = true
is_free (t ∷ ts) k = not (some_excludes t.held k) && is_free ts k

-- What one thread does next, or `none` where it waits or has ended. It waits for a lock of its own
-- as well.
unfoldable pub run_action : System → List Lock → List Action → Option Thread
run_action ts held [] = none
run_action ts held (acquire k ∷ rest) =
    if is_free ts k then some (record { held = k ∷ held; rest = rest }) else none
run_action ts [] (release ∷ rest) = none
run_action ts (l ∷ held) (release ∷ rest) = some (record { held = held; rest = rest })

abbrev pub thread_at : ℕ → System → Option Thread
thread_at i [] = none
thread_at zero (t ∷ ts) = some t
thread_at (suc i) (t ∷ ts) = thread_at i ts

abbrev pub set_thread : ℕ → Thread → System → System
set_thread i u [] = []
set_thread zero u (t ∷ ts) = u ∷ ts
set_thread (suc i) u (t ∷ ts) = t ∷ set_thread i u ts

-- One step of the thread with the number given.
unfoldable pub advance : ℕ → System → Option System
advance i s = elim (thread_at i s) [
  | none ↦ none
  | some t ↦ Option.map (λ u. set_thread i u s) (run_action s t.held t.rest)
]

pub data Step : System → System → Type 0 where
  step_of : {s t : System} (i : ℕ) → advance i s ≡ some t → Step s t

pub data Reach (s : System) : System → Type 0 where
  here : Reach s s
  next : {t u : System} → Reach s t → Step t u → Reach s u

-- the actions that are still to be taken
unfoldable pub actions : System → ℕ
actions [] = 0
actions (t ∷ ts) = length t.rest + actions ts

unfoldable pub steps : {s t : System} → Reach s t → ℕ
steps here = 0
steps (next r st) = suc (steps r)

-- every thread has come to its end
abbrev pub IsDone : System → Type 0
IsDone [] = Unit
IsDone (t ∷ ts) = (t.rest ≡ []) × IsDone ts

abbrev pub IsStuck : System → Type 0
IsStuck s = (i : ℕ) → advance i s ≡ none
