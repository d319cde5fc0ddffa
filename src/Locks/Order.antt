-- ===== src/Locks/Order.antt =====
-- Programs that take the mutexes in the order of a rank, and give all of them back.
use foxglove_bridge_release.Base.{
  ℕ, zero, suc, ◌<◌, Option, none, some, List, [], ◌∷◌, ◌++◌, Bool-cases, inl, inr,
}
use mathlib.Core.Option
use mathlib.Core.Path.{subst}
use mathlib.Core.List.{append_assoc}
use foxglove_bridge_release.Locks.{
  Mutex, Mode, Lock, acquire, release, Thread, System, is_free, run_action, thread_at, set_thread,
  advance, Step, step_of, Reach, here, next,
}
use foxglove_bridge_release.Locks.Calls.{Program, locked, repeated}

-- the predicate holds of the value, if there is one
abbrev pub IfSome : {A : Type 0} → (A → Type 0) → Option A → Type 0
IfSome P none = Unit
IfSome P (some a) = P a

module _ (rank : Mutex → ℕ) where
  -- every lock that is held is of a lower rank
  abbrev pub IsBelow : List Lock → Mutex → Type 0
  IsBelow [] m = Unit
  IsBelow (l ∷ held) m = (rank l.mutex < rank m) × IsBelow held m

  -- the actions take locks by rising rank only, and give back all that is held
  abbrev pub Respects : List Lock → Program → Type 0
  Respects [] [] = Unit
  Respects (l ∷ held) [] = ⊥
  Respects held (acquire k ∷ rest) = IsBelow held k.mutex × Respects (k ∷ held) rest
  Respects [] (release ∷ rest) = ⊥
  Respects (l ∷ held) (release ∷ rest) = Respects held rest

  abbrev pub AllRespect : System → Type 0
  AllRespect [] = Unit
  AllRespect (t ∷ ts) = Respects t.held t.rest × AllRespect ts

  -- A piece of a program that may stand before any that respects the rank.
  abbrev pub Prefixes : List Lock → Program → Type 0
  Prefixes held p = (rest : Program) → Respects held rest → Respects held (p ++ rest)

  pub Prefixes-append :
      (held : List Lock) (p q : Program)
      → Prefixes held p
      → Prefixes held q
      → Prefixes held (p ++ q)
  Prefixes-append held p q hp hq rest h = rw append_assoc (hp (q ++ rest) (hq rest h))

  pub Prefixes-repeated :
      (held : List Lock) (n : ℕ) (p : Program) → Prefixes held p → Prefixes held (repeated n p)
  unfolding repeated
  Prefixes-repeated held zero p hp = λ rest h. h
  Prefixes-repeated held (suc n) p hp =
      Prefixes-append held p (repeated n p) hp (Prefixes-repeated held n p hp)

  Respects-acquire :
      (held : List Lock) (k : Lock) (rest : Program)
      → IsBelow held k.mutex
      → Respects (k ∷ held) rest
      → Respects held (acquire k ∷ rest)
  Respects-acquire [] k rest b h = (b, h)
  Respects-acquire (l ∷ held) k rest b h = (b, h)

  pub Prefixes-locked :
      (held : List Lock) (m : Mutex) (mode : Mode) (body : Program)
      → IsBelow held m
      → Prefixes (record { mutex = m; mode = mode } ∷ held) body
      → Prefixes held (locked m mode body)
  unfolding locked
  Prefixes-locked held m mode body b hb rest h =
      Respects-acquire held (record { mutex = m; mode = mode }) ((body ++ release ∷ []) ++ rest) b
        (rw append_assoc (hb (release ∷ rest) h))

  -- What a thread holds after its next action is in order, too.
  run_action-Respects :
      (ts : System) (held : List Lock) (rest : Program)
      → Respects held rest
      → IfSome (λ u. Respects u.held u.rest) (run_action ts held rest)
  unfolding run_action
  run_action-Respects ts [] [] h = tt
  run_action-Respects ts (l ∷ held) [] h = tt
  run_action-Respects ts [] (acquire k ∷ rest) h = elim (Bool-cases (is_free ts k)) [
    | inl e ↦ rw e h.1
    | inr e ↦ rw e tt
  ]
  run_action-Respects ts (l ∷ held) (acquire k ∷ rest) h = elim (Bool-cases (is_free ts k)) [
    | inl e ↦ rw e h.1
    | inr e ↦ rw e tt
  ]
  run_action-Respects ts [] (release ∷ rest) h = tt
  run_action-Respects ts (l ∷ held) (release ∷ rest) h = h

  pub thread_at-Respects :
      (i : ℕ) (ts : System) → AllRespect ts → IfSome (λ t. Respects t.held t.rest) (thread_at i ts)
  thread_at-Respects i [] all = tt
  thread_at-Respects zero (t ∷ ts) all = all.0
  thread_at-Respects (suc i) (t ∷ ts) all = thread_at-Respects i ts all.1

  set_thread-AllRespect :
      (i : ℕ) (u : Thread) (ts : System)
      → Respects u.held u.rest
      → AllRespect ts
      → AllRespect (set_thread i u ts)
  set_thread-AllRespect i u [] h all = tt
  set_thread-AllRespect zero u (t ∷ ts) h all = (h, all.1)
  set_thread-AllRespect (suc i) u (t ∷ ts) h all = (all.0, set_thread-AllRespect i u ts h all.1)

  moved :
      (i : ℕ) (ts : System) (o : Option Thread)
      → AllRespect ts
      → IfSome (λ u. Respects u.held u.rest) o
      → IfSome AllRespect (Option.map (λ u. set_thread i u ts) o)
  moved i ts none all h = tt
  moved i ts (some u) all h = set_thread-AllRespect i u ts h all

  chosen :
      (i : ℕ) (ts : System) (o : Option Thread)
      → AllRespect ts
      → IfSome (λ t. Respects t.held t.rest) o
      → IfSome AllRespect (elim o as (λ _. Option System) [
        | none ↦ none
        | some t ↦ Option.map (λ u. set_thread i u ts) (run_action ts t.held t.rest)
      ])
  chosen i ts none all h = tt
  chosen i ts (some t) all h =
      moved i ts (run_action ts t.held t.rest) all (run_action-Respects ts t.held t.rest h)

  advance-AllRespect : (i : ℕ) (ts : System) → AllRespect ts → IfSome AllRespect (advance i ts)
  unfolding advance
  advance-AllRespect i ts all = chosen i ts (thread_at i ts) all (thread_at-Respects i ts all)

  pub Step-AllRespect : {s t : System} → Step s t → AllRespect s → AllRespect t
  Step-AllRespect {s} {t} (step_of i e) all =
      subst (IfSome AllRespect) e (advance-AllRespect i s all)

  pub Reach-AllRespect : {s t : System} → Reach s t → AllRespect s → AllRespect t
  Reach-AllRespect here all = all
  Reach-AllRespect (next r st) all = Step-AllRespect st (Reach-AllRespect r all)
