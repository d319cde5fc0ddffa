-- ===== src/Base/Exec/Keeps.antt =====
-- What an action keeps, whether it returns or throws: one rule for each way to build an action.
use mathlib.Core.Bool.{Bool, true, false}
use mathlib.Core.Option.{Option, none, some}
use mathlib.Core.List.{List, [], ◌∷◌}
use foxglove_bridge_release.Base.Tests.{if◌then◌else◌}
use foxglove_bridge_release.Base.Exec.{
  Exec, Exception, Result, ok, throws, pure, throw, lift, gets, or_throw, match_option, skip,
  catching, for_each, ◌>>=◌,
}

pub record Keeps {S A : Type 0} (R : S → S → Type 0) (m : Exec S A) : Type 0 where
  pub at : (s₀ s : S) → R s₀ s → R s₀ (m s).1

module _ {S A : Type 0} {R : S → S → Type 0} where
  pub Keeps-lift : (r : Result A) → Keeps R (lift r)
  Keeps-lift r = record { at = λ s₀ s h. h }

  pub Keeps-pure : (a : A) → Keeps R (pure a)
  Keeps-pure a = record { at = λ s₀ s h. h }

  pub Keeps-throw : (x : Exception) → Keeps R (throw {A = A} x)
  Keeps-throw x = record { at = λ s₀ s h. h }

  pub Keeps-gets : (f : S → A) → Keeps R (gets f)
  Keeps-gets f = record { at = λ s₀ s h. h }

  pub Keeps-or_throw : (o : Option A) (x : Exception) → Keeps R (or_throw o x)
  Keeps-or_throw none x = record { at = λ s₀ s h. h }
  Keeps-or_throw (some a) x = record { at = λ s₀ s h. h }

  pub Keeps-if : (b : Bool) (m n : Exec S A) → Keeps R m → Keeps R n → Keeps R (if b then m else n)
  Keeps-if true m n km kn = km
  Keeps-if false m n km kn = kn

module _ {S A B : Type 0} {R : S → S → Type 0} where
  after :
      (f : A → Exec S B)
      → ((a : A) → Keeps R (f a))
      → (s₀ : S) (p : Result A × S) → R s₀ p.1
      → R s₀ (elim p.0 as (λ _. Result B × S) [ ok a ↦ f a p.1 | throws x ↦ (throws x, p.1) ]).1
  after f kf s₀ (ok a, s) h = (kf a).at s₀ s h
  after f kf s₀ (throws x, s) h = h

  pub Keeps-bind :
      (m : Exec S A) (f : A → Exec S B) → Keeps R m → ((a : A) → Keeps R (f a)) → Keeps R (m >>= f)
  Keeps-bind m f km kf = record { at = λ s₀ s h. after f kf s₀ (m s) (km.at s₀ s h) }

module _ {S A B : Type 0} {R : S → S → Type 0} where
  pub Keeps-match_option :
      (o : Option A) (m : Exec S B) (f : A → Exec S B)
      → Keeps R m
      → ((a : A) → Keeps R (f a))
      → Keeps R (match_option o m f)
  Keeps-match_option none m f km kf = km
  Keeps-match_option (some a) m f km kf = kf a

module _ {S A : Type 0} {R : S → S → Type 0} where
  handled :
      (f : Exception → Exec S A)
      → ((x : Exception) → Keeps R (f x))
      → (s₀ : S) (p : Result A × S) → R s₀ p.1
      → R s₀ (elim p.0 as (λ _. Result A × S) [ ok a ↦ (ok a, p.1) | throws x ↦ f x p.1 ]).1
  handled f kf s₀ (ok a, s) h = h
  handled f kf s₀ (throws x, s) h = (kf x).at s₀ s h

  pub Keeps-catching :
      (m : Exec S A) (f : Exception → Exec S A)
      → Keeps R m
      → ((x : Exception) → Keeps R (f x))
      → Keeps R (catching m f)
  Keeps-catching m f km kf = record { at = λ s₀ s h. handled f kf s₀ (m s) (km.at s₀ s h) }

module _ {S : Type 0} {R : S → S → Type 0} where
  pub Keeps-skip : Keeps R (skip {S = S})
  Keeps-skip = record { at = λ s₀ s h. h }

  pub Keeps-for_each :
      {A : Type 0} (xs : List A) (body : A → Exec S (Unit {0}))
      → ((a : A) → Keeps R (body a))
      → Keeps R (for_each xs body)
  unfolding for_each
  Keeps-for_each [] body k = Keeps-skip
  Keeps-for_each (x ∷ xs) body k =
      Keeps-bind (body x) (λ _. for_each xs body) (k x) (λ _. Keeps-for_each xs body k)

pub ruleset keeps_rules = (
  Keeps-lift, Keeps-pure, Keeps-throw, Keeps-gets, Keeps-or_throw, Keeps-if, Keeps-bind,
  Keeps-match_option, Keeps-catching, Keeps-skip, Keeps-for_each,
)
