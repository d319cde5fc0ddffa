-- ===== src/Definitions/Termination.antt =====
-- get_full_text comes to an end: over a finite set of definitions the fuel is enough, since every
-- call of append_recursive below the first has entered a definition that was not seen before.
pub mod Load
pub mod Recursion
use Prim.Native.String.{◌++◌}
use foxglove_bridge_release.Base.{
  ℕ, zero, suc, ◌≤◌, ◌<◌, ◌≡◌, refl, sym, ap, inl, inr, String, Option, none, some, Bool, true,
  false, not, List, [], ◌∷◌, arith, if◌then◌else◌, Option-cases, Bool-cases,
}
use foxglove_bridge_release.Base.Eq.{◌==◌, ==_iff}
use foxglove_bridge_release.Base.Lists.{length}
use foxglove_bridge_release.Base.Map.{
  find, emplace, contains, insert, contains-insert, find-emplace, get_or,
}
use foxglove_bridge_release.Base.Exec.{
  Exec, Exception, Result, ok, throws, definition_not_found, failure, out_of_fuel, pure, or_throw,
  Result-cases, ◌>>=◌, ◌>>◌,
}
use foxglove_bridge_release.Definitions.{
  MessageDefinitionFormat, idl, msg, DefinitionIdentifier, MessageSpec, MessageDefinitionCache,
  Sources, identifier_eq,
}
use foxglove_bridge_release.Definitions.Dependencies.{delimiter}
use foxglove_bridge_release.Definitions.Load.{
  throws≢ok, read_spec, load_message_spec, load_cached, load_read, load_fails,
}
use foxglove_bridge_release.Definitions.FullText.{
  Walk, on_cache, insert_seen, append_dependencies, append_recursive, fall_back, on_error,
  full_text, get_full_text,
}

abbrev pub ran_out : Exception → Bool
ran_out (definition_not_found name) = false
ran_out (failure text) = false
ran_out out_of_fuel = true

abbrev pub is_exhausted : {A : Type 0} → Result A → Bool
is_exhausted (ok a) = false
is_exhausted (throws x) = ran_out x

-- The first definitions that are not in the set yet.
abbrev pub left : List DefinitionIdentifier → List DefinitionIdentifier → ℕ
left [] seen = 0
left (u ∷ us) seen = if contains u seen then left us seen else suc (left us seen)

pub left-length : (us seen : List DefinitionIdentifier) → left us seen ≤ length us
left-length [] seen = omega arith
left-length (u ∷ us) seen = ground (arith, left-length us seen)

pub left-insert_le :
    (us seen : List DefinitionIdentifier) (d : DefinitionIdentifier)
    → left us (insert d seen) ≤ left us seen
left-insert_le [] seen d = omega arith
left-insert_le (u ∷ us) seen d = ground (arith, left-insert_le us seen d, contains-insert d u seen)

pub left-insert_lt :
    (us seen : List DefinitionIdentifier) (d : DefinitionIdentifier)
    → contains d us ≡ true
    → contains d seen ≡ false
    → left us (insert d seen) < left us seen
unfolding contains
left-insert_lt [] seen d e new = cc
left-insert_lt (u ∷ us) seen d e new = ground (
  arith,
  left-insert_lt us seen d,
  left-insert_le us seen d,
  contains-insert d u seen,
  ==_iff u d,
  ==_iff d u,
)

-- Every dependency of a list, in a format, is one of the set.
abbrev pub Within : List DefinitionIdentifier → MessageDefinitionFormat → List String → Type 0
Within us format [] = Unit
Within us format (name ∷ names) =
    (contains (record { format = format; package_resource_name = name }) us ≡ true)
    × Within us format names

-- What the cache holds for the set depends on the set alone.
abbrev pub IsClosedCache : List DefinitionIdentifier → MessageDefinitionCache → Type 0
IsClosedCache us cache =
    (id : DefinitionIdentifier) (spec : MessageSpec)
    → contains id us ≡ true
    → find id cache ≡ some spec
    → Within us id.format spec.dependencies

-- The same of what can be read.
abbrev pub IsClosed : List DefinitionIdentifier → Sources → Type 0
IsClosed us sources =
    (id : DefinitionIdentifier) (cache : MessageDefinitionCache) (spec : MessageSpec)
    → contains id us ≡ true
    → (read_spec sources id cache).0 ≡ ok spec
    → Within us id.format spec.dependencies

-- What a call leaves, begun in `w`: a result that is not about fuel, a cache that still depends on
-- the set alone, and no more definitions to see than before.
pub record Ends {A : Type 0} (us : List DefinitionIdentifier) (w : Walk) (p : Result A × Walk)
    : Type 0 where
  pub returns : is_exhausted p.0 ≡ false
  pub closed : IsClosedCache us p.1.specs
  pub fewer : left us p.1.seen_deps ≤ left us w.seen_deps

pub Ends-bind :
    {A B : Type 0} (us : List DefinitionIdentifier) (w : Walk) (f : A → Exec Walk B)
    (p : Result A × Walk)
    → Ends us w p
    → ((a : A) → p.0 ≡ ok a → Ends us w (f a p.1))
    → Ends us w (elim p.0 as (λ _. Result B × Walk) [ ok a ↦ f a p.1 | throws x ↦ (throws x, p.1) ])
Ends-bind us w f (ok a, v) e k = k a refl
Ends-bind us w f (throws x, v) e k = record {
  returns = e.returns;
  closed = e.closed;
  fewer = e.fewer;
}

-- A call that begins where another has ended.
pub Ends-trans :
    {A B : Type 0} (us : List DefinitionIdentifier) (w : Walk) (p : Result A × Walk)
    (q : Result B × Walk)
    → Ends us w p
    → Ends us p.1 q
    → Ends us w q
Ends-trans us w p q d e = record {
  returns = e.returns;
  closed = e.closed;
  fewer = omega (arith, d.fewer, e.fewer);
}
