-- ===== src/Base/Exec.antt =====
-- Stateful code that may throw: the state comes back after a throw too, since what was written
-- stays written.
use Prim.Native.String.{String}
pub mod Keeps
use mathlib.Core.Path.{◌≡◌, refl, ap, ◌∙◌}
use mathlib.Core.Logic.{◌⊎◌, inl, inr}
use mathlib.Core.Option.{Option, none, some}
use mathlib.Core.List.{List, [], ◌∷◌, ◌++◌}
use native.Mathlib.Omega.{arith}

-- DefinitionNotFoundError, and any other std::exception with its what(). The third is no exception
-- of the code: it marks a recursion on fuel that was given too little.
pub data Exception : Type 0 where
  definition_not_found : String → Exception
  failure : String → Exception
  out_of_fuel : Exception

abbrev pub what : Exception → String
what (definition_not_found name) = name
what (failure text) = text
what out_of_fuel = "out of fuel"

pub data Result {ℓ} (A : Type ℓ) : Type ℓ where
  ok : A → Result A
  throws : Exception → Result A

abbrev pub Exec : Type 0 → Type 0 → Type 0
Exec S A = S → Result A × S

module _ {S A : Type 0} where
  abbrev pub pure : A → Exec S A
  pure a s = (ok a, s)

  abbrev pub throw : Exception → Exec S A
  throw x s = (throws x, s)

  abbrev pub lift : Result A → Exec S A
  lift r s = (r, s)

  abbrev pub gets : (S → A) → Exec S A
  gets f s = (ok (f s), s)

  abbrev pub or_throw : Option A → Exception → Exec S A
  or_throw none x s = (throws x, s)
  or_throw (some a) x s = (ok a, s)

-- if (it == end()) { missing } else { found(it->second) }
abbrev pub match_option : {S A B : Type 0} → Option A → Exec S B → (A → Exec S B) → Exec S B
match_option none missing found = missing
match_option (some a) missing found = found a

infixl 5 ◌>>=◌ ◌>>◌
abbrev pub ◌>>=◌ : {S A B : Type 0} → Exec S A → (A → Exec S B) → Exec S B
◌>>=◌ m f s = let (r, s') = m s in elim r [ ok a ↦ f a s' | throws x ↦ (throws x, s') ]

abbrev pub ◌>>◌ : {S A B : Type 0} → Exec S A → Exec S B → Exec S B
m >> k = m >>= λ _. k

abbrev pub modify : {S : Type 0} → (S → S) → Exec S (Unit {0})
modify f s = (ok tt, f s)

abbrev pub skip : {S : Type 0} → Exec S (Unit {0})
skip s = (ok tt, s)

-- try { m } catch (const std::exception& x) { h(x) }
abbrev pub catching : {S A : Type 0} → Exec S A → (Exception → Exec S A) → Exec S A
catching m h s = let (r, s') = m s in elim r [ ok a ↦ (ok a, s') | throws x ↦ h x s' ]

-- for (x : xs) body(x)
unfoldable pub for_each : {S A : Type 0} → List A → (A → Exec S (Unit {0})) → Exec S (Unit {0})
for_each [] body = skip
for_each (x ∷ xs) body = body x >> for_each xs body

pub for_each-nil :
    {S A : Type 0} (body : A → Exec S (Unit {0})) (s : S) → for_each [] body s ≡ (ok tt, s)
unfolding for_each
for_each-nil body s = refl

pub for_each-cons :
    {S A : Type 0} (x : A) (xs : List A) (body : A → Exec S (Unit {0})) (s : S)
    → for_each (x ∷ xs) body s ≡ (body x >> for_each xs body) s
unfolding for_each
for_each-cons x xs body s = refl

module _ {S : Type 0} (f : Exception → Exec S (Unit {0}))
    (f-ok : (x : Exception) (t : S) → (f x t).0 ≡ ok tt) where
  handled-ok :
      (p : Result (Unit {0}) × S)
      → (elim p.0 as (λ _. Result (Unit {0}) × S) [ ok a ↦ (ok a, p.1) | throws x ↦ f x p.1 ]).0
        ≡ ok tt
  handled-ok (ok tt, s) = refl
  handled-ok (throws x, s) = f-ok x s

  -- A handler that never throws leaves nothing to throw.
  pub catching-ok : (m : Exec S (Unit {0})) (s : S) → (catching m f s).0 ≡ ok tt
  catching-ok m s = handled-ok (m s)

-- What follows an action that returns.
bind_result :
    {S A C : Type 0} (f : A → Exec S C) (a : A) (p : Result A × S)
    → p.0 ≡ ok a
    → (elim p.0 as (λ _. Result C × S) [ ok b ↦ f b p.1 | throws x ↦ (throws x, p.1) ]) ≡ f a p.1
bind_result f a (ok b, s) e = ground arith
bind_result f a (throws x, s) e = cc

pub >>=-ok :
    {S A C : Type 0} (m : Exec S A) (f : A → Exec S C) (a : A) (s : S)
    → (m s).0 ≡ ok a
    → (m >>= f) s ≡ f a (m s).1
>>=-ok m f a s e = bind_result f a (m s) e

-- An action whose result is known, and what follows it.
pub >>=-step :
    {S A C : Type 0} (m : Exec S A) (f : A → Exec S C) (s : S) {t : S} {a : A} {r : Result C × S}
    → m s ≡ (ok a, t)
    → f a t ≡ r
    → (m >>= f) s ≡ r
>>=-step {S} {A} {C} m f s e k =
    ap (λ p. elim p.0 as (λ _. Result C × S) [ ok b ↦ f b p.1 | throws x ↦ (throws x, p.1) ]) e ∙ k

pub for_each-ok :
    {S A : Type 0} (xs : List A) (body : A → Exec S (Unit {0}))
    → ((x : A) (s : S) → (body x s).0 ≡ ok tt)
    → (s : S) → (for_each xs body s).0 ≡ ok tt
unfolding for_each
for_each-ok [] body h s = refl
for_each-ok (x ∷ xs) body h s =
    rw (>>=-ok (body x) (λ _. for_each xs body) tt s (h x s)) (for_each-ok xs body h (body x s).1)

after_first :
    {S A : Type 0} (xs ys : List A) (body : A → Exec S (Unit {0})) (t : S)
    (p : Result (Unit {0}) × S)
    → ((u : S) → for_each xs body u ≡ (ok tt, t) → for_each (xs ++ ys) body u ≡ for_each ys body t)
    → (elim p.0 as (λ _. Result (Unit {0}) × S) [
      | ok a ↦ for_each xs body p.1
      | throws x ↦ (throws x, p.1)
    ])
      ≡ (ok tt, t)
    → (elim p.0 as (λ _. Result (Unit {0}) × S) [
      | ok a ↦ for_each (xs ++ ys) body p.1
      | throws x ↦ (throws x, p.1)
    ])
      ≡ for_each ys body t
after_first xs ys body t (ok a, u) rest e = rest u e
after_first xs ys body t (throws x, u) rest e = cc

-- A loop goes on where its first part returned.
pub for_each-append :
    {S A : Type 0} (xs ys : List A) (body : A → Exec S (Unit {0})) (s t : S)
    → for_each xs body s ≡ (ok tt, t)
    → for_each (xs ++ ys) body s ≡ for_each ys body t
unfolding for_each
for_each-append [] ys body s t e = ground arith
for_each-append (x ∷ xs) ys body s t e =
    after_first xs ys body t (body x s) (λ u. for_each-append xs ys body u t) e

pub Result-cases :
    {A : Type 0} (r : Result A) → ((a : A) × (r ≡ ok a)) ⊎ ((x : Exception) × (r ≡ throws x))
Result-cases (ok a) = inl (a, refl)
Result-cases (throws x) = inr (x, refl)

-- What is guarded returns, so no handler runs.
pub catching-lift_ok :
    {S : Type 0} (r : Result (Unit {0})) (f : S → S) (h : Exception → Exec S (Unit {0})) (s : S)
    → r ≡ ok tt
    → catching (lift r >> modify f) h s ≡ (ok tt, f s)
catching-lift_ok (ok tt) f h s e = refl
catching-lift_ok (throws x) f h s e = cc

-- What holds of the rest of a list before each round holds at the end, when no round throws.
pub for_each-invariant :
    {S A : Type 0} (P : List A → S → Type 0) (body : A → Exec S (Unit {0}))
    → ((x : A) (xs : List A) (s : S) → P (x ∷ xs) s → ((body x s).0 ≡ ok tt) × P xs (body x s).1)
    → (xs : List A) (s : S) → P xs s
    → ((for_each xs body s).0 ≡ ok tt) × P [] (for_each xs body s).1
unfolding for_each
for_each-invariant P body step [] s p = (refl, p)
for_each-invariant P body step (x ∷ xs) s p =
    let (returns, rest) = step x xs s p in
    rw (>>=-ok (body x) (λ _. for_each xs body) tt s returns)
      (for_each-invariant P body step xs (body x s).1 rest)
