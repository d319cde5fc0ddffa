-- ===== src/Definitions/Termination/Load.antt =====
-- load_message_spec throws nothing that is about fuel, and keeps the cache within the set.
use foxglove_bridge_release.Base.{
  ◌≡◌, refl, sym, inl, inr, Option, none, some, true, false, List, arith, Option-cases, Bool-cases,
}
use foxglove_bridge_release.Base.Eq.{◌==◌, ==_iff}
use foxglove_bridge_release.Base.Map.{find, emplace, contains, find-emplace}
use foxglove_bridge_release.Base.Exec.{
  Exec, Exception, Result, ok, throws, pure, or_throw, Result-cases, ◌>>=◌,
}
use foxglove_bridge_release.Definitions.{
  DefinitionIdentifier, MessageSpec, MessageDefinitionCache, Sources, identifier_eq,
}
use foxglove_bridge_release.Definitions.Load.{
  throws≢ok, read_spec, load_message_spec, load_cached, load_read, load_fails,
}
use foxglove_bridge_release.Definitions.FullText.{Walk, on_cache}
use foxglove_bridge_release.Definitions.Termination.{
  ran_out, is_exhausted, Within, IsClosedCache, IsClosed, Ends,
}

-- Nothing that load_message_spec throws is about fuel.
record Fine {S A : Type 0} (m : Exec S A) : Type 0 where
  at : (s : S) → is_exhausted (m s).0 ≡ false

module _ {S A : Type 0} where
  Fine-pure : (a : A) → Fine {S = S} (pure a)
  Fine-pure a = record { at = λ s. refl }

  Fine-or_throw : (o : Option A) (x : Exception) → ran_out x ≡ false → Fine {S = S} (or_throw o x)
  Fine-or_throw none x e = record { at = λ s. e }
  Fine-or_throw (some a) x e = record { at = λ s. refl }

Fine-after :
    {S A B : Type 0} (f : A → Exec S B) (p : Result A × S)
    → is_exhausted p.0 ≡ false
    → ((a : A) → Fine (f a))
    → is_exhausted
        (elim p.0 as (λ _. Result B × S) [ ok a ↦ f a p.1 | throws x ↦ (throws x, p.1) ]).0
      ≡ false
Fine-after f (ok a, s) e k = (k a).at s
Fine-after f (throws x, s) e k = e

Fine-bind :
    {S A B : Type 0} (m : Exec S A) (f : A → Exec S B)
    → Fine m
    → ((a : A) → Fine (f a))
    → Fine (m >>= f)
Fine-bind m f k l = record { at = λ s. Fine-after f (m s) (k.at s) l }

ruleset fine_rules = (Fine-pure, Fine-or_throw, Fine-bind)

read_spec-Fine : (sources : Sources) (id : DefinitionIdentifier) → Fine (read_spec sources id)
unfolding read_spec
read_spec-Fine sources id = search fine_rules depth 12

module _ (sources : Sources) (us : List DefinitionIdentifier) (closed : IsClosed us sources) where
  emplace-IsClosedCache :
      (id : DefinitionIdentifier) (spec : MessageSpec) (cache : MessageDefinitionCache)
      → IsClosedCache us cache
      → Within us id.format spec.dependencies
      → find id cache ≡ none
      → IsClosedCache us (emplace id spec cache)
  emplace-IsClosedCache id spec cache c within new j other e f = elim (Bool-cases (id == j)) [
    | inl same ↦
        let p : id ≡ j = (==_iff id j).0 same in
        let q : spec ≡ other = ground (arith, find-emplace id j spec cache, f, new, same) in
        rw (sym p) (rw (sym q) within)
    | inr differs ↦ c j other e (ground (arith, find-emplace id j spec cache, f, differs))
  ]

  pub load-Ends :
      (id : DefinitionIdentifier) (w : Walk)
      → IsClosedCache us w.specs
      → contains id us ≡ true
      → let p = on_cache (load_message_spec sources id) w in
        Ends us w p × ((spec : MessageSpec) → p.0 ≡ ok spec → Within us id.format spec.dependencies)
  unfolding on_cache
  load-Ends id w c e = elim (Option-cases (find id w.specs)) [
    | inr (spec, f) ↦ rw (load_cached id w.specs spec sources f) (
      record { returns = refl; closed = c; fewer = omega arith },
      λ s q. c id s e (ground (arith, f, q)),
    )
    | inl f ↦ elim (Result-cases (read_spec sources id w.specs).0) [
      | inl (spec, r) ↦
          let within = closed id w.specs spec e r in
          rw (load_read sources id w.specs spec f r) (
            record {
              returns = refl;
              closed = emplace-IsClosedCache id spec w.specs c within f;
              fewer = omega arith;
            },
            λ s q. closed id w.specs s e (ground (arith, r, q)),
          )
      | inr (x, r) ↦
          let fine : ran_out x ≡ false =
            ground (arith, r, (read_spec-Fine sources id).at w.specs) in
          rw (load_fails sources id w.specs x f r) (
            record { returns = fine; closed = c; fewer = omega arith },
            λ s q. absurd (throws≢ok x s q),
          )
    ]
  ]
