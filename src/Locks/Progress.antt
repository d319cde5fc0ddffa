-- ===== src/Locks/Progress.antt =====
-- Threads that keep to an order of the mutexes never wait for each other for ever.
use foxglove_bridge_release.Base.{
  ℕ, zero, suc, ◌+◌, ◌≤◌, ◌<◌, ◌≡◌, ◌⊎◌, refl, inl, inr, true, false, some, List, [], ◌∷◌, arith,
  Bool-cases,
}
use mathlib.Core.Path.{subst}
use foxglove_bridge_release.Locks.{
  Mutex, clients_channel, subscriptions, publications, Mode, Lock, excludes, acquire, release,
  Thread, System, some_excludes, is_free, run_action, thread_at, set_thread, advance, IsDone,
}
use foxglove_bridge_release.Locks.Calls.{Program}
use foxglove_bridge_release.Locks.Order.{IsBelow, Respects, AllRespect, IfSome, thread_at-Respects}

abbrev pub CanMove : System → Type 0
CanMove s = (i : ℕ) × (t : System) × (advance i s ≡ some t)

-- Where a lock is not free, some thread holds one that excludes it.
find_holder :
    (ts : System) (k : Lock)
    → is_free ts k ≡ false
    → (i : ℕ) × (t : Thread) × (thread_at i ts ≡ some t) × (some_excludes t.held k ≡ true)
unfolding is_free
find_holder [] k e = absurd (cc)
find_holder (t ∷ ts) k e = elim (Bool-cases (some_excludes t.held k)) [
  | inl held ↦ (0, t, refl, held)
  | inr other ↦ let (i, u, at, held) = find_holder ts k (ground arith) in (suc i, u, at, held)
]

acquires :
    (s : System) (i : ℕ) (t : Thread) (k : Lock) (rest : Program)
    → thread_at i s ≡ some t
    → t.rest ≡ acquire k ∷ rest
    → is_free s k ≡ true
    → CanMove s
unfolding advance run_action
acquires s i t k rest at e free =
    (i, set_thread i (record { held = k ∷ t.held; rest = rest }) s, ground arith)

releases :
    (s : System) (i : ℕ) (t : Thread) (l : Lock) (held : List Lock) (rest : Program)
    → thread_at i s ≡ some t
    → t.held ≡ l ∷ held
    → t.rest ≡ release ∷ rest
    → CanMove s
unfolding advance run_action
releases s i t l held rest at e f =
    (i, set_thread i (record { held = held; rest = rest }) s, ground arith)

mutex_rank :
    (rank : Mutex → ℕ) (m n : Mutex) (a b : Mode)
    → excludes (record { mutex = m; mode = a }) (record { mutex = n; mode = b }) ≡ true
    → rank m ≡ rank n
mutex_rank rank clients_channel clients_channel a b e = refl
mutex_rank rank subscriptions subscriptions a b e = refl
mutex_rank rank publications publications a b e = refl
mutex_rank rank clients_channel subscriptions a b e = absurd (cc)
mutex_rank rank clients_channel publications a b e = absurd (cc)
mutex_rank rank subscriptions clients_channel a b e = absurd (cc)
mutex_rank rank subscriptions publications a b e = absurd (cc)
mutex_rank rank publications clients_channel a b e = absurd (cc)
mutex_rank rank publications subscriptions a b e = absurd (cc)

same_rank : (rank : Mutex → ℕ) (l k : Lock) → excludes l k ≡ true → rank l.mutex ≡ rank k.mutex
same_rank rank l k e = mutex_rank rank l.mutex k.mutex l.mode k.mode e

thread_at_lem :
    (rank : Mutex → ℕ) (i : ℕ) (s : System) (t : Thread)
    → AllRespect rank s
    → thread_at i s ≡ some t
    → Respects rank t.held t.rest
thread_at_lem rank i s t all e =
    subst (IfSome (λ u. Respects rank u.held u.rest)) e (thread_at-Respects rank i s all)

shift : (n i : ℕ) → n + 1 + i ≡ n + suc i
shift n i = omega arith

zero_add : {n : ℕ} → 0 + n ≡ n
zero_add = omega arith

module _ (rank : Mutex → ℕ) where
  -- A lock that is above all that is held is above any that one of these excludes.
  above_excluded :
      (held : List Lock) (k : Lock) (m : Mutex)
      → IsBelow rank held m
      → some_excludes held k ≡ true
      → rank k.mutex < rank m
  unfolding some_excludes
  above_excluded [] k m b e = absurd (cc)
  above_excluded (l ∷ held) k m b e = elim (Bool-cases (excludes l k)) [
    | inl same ↦ omega (arith, same_rank rank l k same)
    | inr other ↦ above_excluded held k m b.1 (ground arith)
  ]

  -- A thread that holds a lock gives one back next, or takes a lock of a higher rank.
  holder_next :
      (held : List Lock) (rest : Program) (k : Lock)
      → Respects rank held rest
      → some_excludes held k ≡ true
      → ((l : Lock) × (h : List Lock) × (r : Program) × (held ≡ l ∷ h) × (rest ≡ release ∷ r))
        ⊎ ((k' : Lock) × (r : Program) × (rest ≡ acquire k' ∷ r) × (rank k.mutex < rank k'.mutex))
  unfolding some_excludes
  holder_next [] rest k h e = absurd (cc)
  holder_next (l ∷ held) [] k h e = absurd h
  holder_next (l ∷ held) (release ∷ rest) k h e = inl (l, held, rest, refl, refl)
  holder_next (l ∷ held) (acquire k' ∷ rest) k h e =
      inr (k', rest, refl, above_excluded (l ∷ held) k k'.mutex h.0 e)

  module _ (limit : ℕ) (bounded : (m : Mutex) → rank m < limit) where
    -- Where a thread waits, one that holds its lock may move, or waits for a lock of a higher rank.
    waiting_moves :
        (fuel : ℕ) (s : System) (i : ℕ) (t : Thread) (k : Lock) (rest : Program)
        → AllRespect rank s
        → thread_at i s ≡ some t
        → t.rest ≡ acquire k ∷ rest
        → limit ≤ rank k.mutex + fuel
        → CanMove s
    waiting_moves zero s i t k rest all at e b = absurd (omega (arith, bounded k.mutex))
    waiting_moves (suc fuel) s i t k rest all at e b = elim (Bool-cases (is_free s k)) [
      | inl free ↦ acquires s i t k rest at e free
      | inr taken ↦
          let (j, u, at', holds) = find_holder s k taken in
          let h : Respects rank u.held u.rest = thread_at_lem rank j s u all at' in
          elim (holder_next u.held u.rest k h holds) [
            | inl (l, held, r, f, g) ↦ releases s j u l held r at' f g
            | inr (k', r, f, above) ↦ waiting_moves fuel s j u k' r all at' f (omega arith)
          ]
    ]

    -- A thread whose next action is known moves, or another does.
    thread_moves :
        (s : System) (i : ℕ) (t : Thread) (held : List Lock) (rest : Program)
        → AllRespect rank s
        → thread_at i s ≡ some t
        → t.held ≡ held
        → t.rest ≡ rest
        → Respects rank held rest
        → (rest ≡ []) ⊎ CanMove s
    thread_moves s i t held [] all at e f h = inl refl
    thread_moves s i t held (acquire k ∷ rest) all at e f h =
        inr (waiting_moves limit s i t k rest all at f (omega arith))
    thread_moves s i t [] (release ∷ rest) all at e f h = absurd h
    thread_moves s i t (l ∷ held) (release ∷ rest) all at e f h =
        inr (releases s i t l held rest at e f)

    first_unfinished :
        (s : System)
        → AllRespect rank s
        → (n : ℕ) (ts : System)
        → ((i : ℕ) (t : Thread) → thread_at i ts ≡ some t → thread_at (n + i) s ≡ some t)
        → IsDone ts ⊎ CanMove s
    first_unfinished s all n [] sub = inl tt
    first_unfinished s all n (t ∷ ts) sub =
        let at = sub 0 t refl in
        elim (thread_moves s (n + 0) t t.held t.rest all at refl refl
          (thread_at_lem rank (n + 0) s t all at)) [
            | inr moves ↦ inr moves
            | inl ended ↦
                elim (first_unfinished s all (n + 1) ts
                  (λ i u e. rw (shift n i) (sub (suc i) u e))) [
                    | inl done ↦ inl (ended, done)
                    | inr moves ↦ inr moves
                  ]
          ]

    -- From threads in order: all have ended, or one can move.
    pub progress : (s : System) → AllRespect rank s → IsDone s ⊎ CanMove s
    progress s all = first_unfinished s all 0 s (λ i t e. rw zero_add e)
