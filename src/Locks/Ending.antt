-- ===== src/Locks/Ending.antt =====
-- Each step takes one action, so a run is no longer than the actions that its threads began with.
use mathlib.Core.Option
use mathlib.Core.Path.{subst}
use foxglove_bridge_release.Base.{
  ℕ, zero, suc, ◌+◌, ◌≡◌, refl, inl, inr, Option, none, some, List, [], ◌∷◌, arith, Bool-cases,
}
use foxglove_bridge_release.Base.Lists.{length}
use foxglove_bridge_release.Locks.{
  Lock, Action, acquire, release, Thread, System, is_free, run_action, thread_at, set_thread,
  advance, Step, step_of, Reach, here, next, actions, steps,
}
use foxglove_bridge_release.Locks.Order.{IfSome}

run_action-length :
    (ts : System) (held : List Lock) (rest : List Action)
    → IfSome (λ u. suc (length u.rest) ≡ length rest) (run_action ts held rest)
unfolding run_action
run_action-length ts held [] = tt
run_action-length ts held (acquire k ∷ rest) = elim (Bool-cases (is_free ts k)) [
  | inl e ↦ rw e refl
  | inr e ↦ rw e tt
]
run_action-length ts [] (release ∷ rest) = tt
run_action-length ts (l ∷ held) (release ∷ rest) = refl

-- The thread at a place is exchanged for one with an action less.
set_thread-actions :
    (i : ℕ) (t u : Thread) (ts : System)
    → thread_at i ts ≡ some t
    → suc (length u.rest) ≡ length t.rest
    → suc (actions (set_thread i u ts)) ≡ actions ts
unfolding actions
set_thread-actions i t u [] at e = cc
set_thread-actions zero t u (t' ∷ ts) at e = ground arith
set_thread-actions (suc i) t u (t' ∷ ts) at e = omega (arith, set_thread-actions i t u ts at e)

moved :
    (i : ℕ) (t : Thread) (ts : System) (o : Option Thread)
    → thread_at i ts ≡ some t
    → IfSome (λ u. suc (length u.rest) ≡ length t.rest) o
    → IfSome (λ s. suc (actions s) ≡ actions ts) (Option.map (λ u. set_thread i u ts) o)
moved i t ts none at h = tt
moved i t ts (some u) at h = set_thread-actions i t u ts at h

chosen :
    (i : ℕ) (ts : System) (o : Option Thread)
    → thread_at i ts ≡ o
    → IfSome
        (λ s. suc (actions s) ≡ actions ts)
        (elim o as (λ _. Option System) [
          | none ↦ none
          | some t ↦ Option.map (λ u. set_thread i u ts) (run_action ts t.held t.rest)
        ])
chosen i ts none at = tt
chosen i ts (some t) at =
    moved i t ts (run_action ts t.held t.rest) at (run_action-length ts t.held t.rest)

advance-actions : (i : ℕ) (ts : System) → IfSome (λ s. suc (actions s) ≡ actions ts) (advance i ts)
unfolding advance
advance-actions i ts = chosen i ts (thread_at i ts) refl

Step-actions : {s t : System} → Step s t → suc (actions t) ≡ actions s
Step-actions {s} (step_of i e) =
    subst (IfSome (λ t. suc (actions t) ≡ actions s)) e (advance-actions i s)

pub steps-add-actions : {s t : System} (r : Reach s t) → steps r + actions t ≡ actions s
unfolding steps
steps-add-actions here = omega arith
steps-add-actions (next r st) = omega (arith, steps-add-actions r, Step-actions st)
