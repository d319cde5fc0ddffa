-- ===== src/Definitions/Termination/Recursion.antt =====
-- append_recursive and get_full_text: enough fuel, by induction on it.
use Prim.Native.String.{◌++◌}
use foxglove_bridge_release.Base.{
  ℕ, zero, suc, ◌≤◌, ◌<◌, ◌≡◌, refl, inl, inr, String, true, false, List, [], ◌∷◌, arith,
  Bool-cases,
}
use foxglove_bridge_release.Base.Lists.{length}
use foxglove_bridge_release.Base.Map.{contains, insert}
use foxglove_bridge_release.Base.Exec.{
  Exec, Result, ok, throws, definition_not_found, failure, out_of_fuel, pure, ◌>>=◌,
}
use foxglove_bridge_release.Definitions.{
  MessageDefinitionFormat, idl, msg, DefinitionIdentifier, MessageDefinitionCache, Sources,
  identifier_eq,
}
use foxglove_bridge_release.Definitions.Dependencies.{delimiter}
use foxglove_bridge_release.Definitions.Load.{load_message_spec}
use foxglove_bridge_release.Definitions.FullText.{
  Walk, on_cache, insert_seen, append_dependencies, append_recursive, fall_back, on_error,
  full_text, get_full_text,
}
use foxglove_bridge_release.Definitions.Termination.{
  is_exhausted, left, left-length, left-insert_le, left-insert_lt, Within, IsClosedCache, IsClosed,
  Ends, Ends-bind, Ends-trans,
}
use foxglove_bridge_release.Definitions.Termination.Load.{load-Ends}

module _ (recurse : DefinitionIdentifier → Exec Walk String) (format : MessageDefinitionFormat)
    (name : String) (names : List String) (result : String) (w : Walk) where
  abbrev dep : DefinitionIdentifier
  dep = record { format = format; package_resource_name = name }

  abbrev entered : Walk
  entered = record w { seen_deps = insert dep w.seen_deps }

  step_seen :
      contains dep w.seen_deps ≡ true
      → append_dependencies recurse format (name ∷ names) result w
        ≡ append_dependencies recurse format names result entered
  unfolding append_dependencies insert_seen
  step_seen e = rw e refl

  step_new :
      contains dep w.seen_deps ≡ false
      → append_dependencies recurse format (name ∷ names) result w
        ≡ (recurse dep >>= λ text.
              append_dependencies recurse format names
                (result ++ ("\n" ++ (delimiter dep ++ text))))
            entered
  unfolding append_dependencies insert_seen
  step_new e = rw e refl

module _ (us : List DefinitionIdentifier) (n : ℕ)
    (recurse : DefinitionIdentifier → Exec Walk String) (format : MessageDefinitionFormat)
    (recurse-Ends : (id : DefinitionIdentifier) (w : Walk)
      → IsClosedCache us w.specs
      → contains id us ≡ true
      → left us w.seen_deps < n
      → Ends us w (recurse id w)) where
  loop-Ends :
      (names : List String) (result : String) (w : Walk)
      → Within us format names
      → IsClosedCache us w.specs
      → left us w.seen_deps ≤ n
      → Ends us w (append_dependencies recurse format names result w)
  loop-Ends [] result w within c le =
      unfold append_dependencies in record { returns = refl; closed = c; fewer = omega arith }
  loop-Ends (name ∷ names) result w within c le =
      let d : DefinitionIdentifier = record { format = format; package_resource_name = name } in
      let w' : Walk = record w { seen_deps = insert d w.seen_deps } in
      let start : Ends us w (ok tt, w') = record {
        returns = refl;
        closed = c;
        fewer = left-insert_le us w.seen_deps d;
      } in
      elim (Bool-cases (contains d w.seen_deps)) [
        | inl e ↦ rw (step_seen recurse format name names result w e) (
            Ends-trans us w (ok tt, w') _ start
              (loop-Ends names result w' within.1 c (omega (arith, start.fewer))))
        | inr e ↦
            let longer : String → String = λ text. result ++ ("\n" ++ (delimiter d ++ text)) in
            let fewer = left-insert_lt us w.seen_deps d within.0 e in
            let first = recurse-Ends d w' c within.0 (omega (arith, fewer)) in
            rw (step_new recurse format name names result w e) (
              Ends-trans us w (ok tt, w') _ start
                (Ends-bind us w' (λ text. append_dependencies recurse format names (longer text))
                  (recurse d w') first
                  (λ text q. Ends-trans us w' (recurse d w') _ first (
                    loop-Ends names (longer text) (recurse d w').1 within.1 first.closed
                      (omega (arith, first.fewer, start.fewer))))))
      ]

module _ (sources : Sources) (us : List DefinitionIdentifier) (closed : IsClosed us sources) where
  pub append_recursive-Ends :
      (fuel : ℕ) (id : DefinitionIdentifier) (w : Walk)
      → IsClosedCache us w.specs
      → contains id us ≡ true
      → left us w.seen_deps < fuel
      → Ends us w (append_recursive sources fuel id w)
  unfolding append_recursive
  append_recursive-Ends zero id w c e lt = absurd (omega (arith, lt))
  append_recursive-Ends (suc fuel) id w c e lt =
      let l = load-Ends sources us closed id w c e in
      Ends-bind us w
        (λ spec.
          append_dependencies (append_recursive sources fuel) id.format spec.dependencies spec.text)
        (on_cache (load_message_spec sources id) w) l.0
        (λ spec q. Ends-trans us w (on_cache (load_message_spec sources id) w) _ l.0 (
          loop-Ends us fuel (append_recursive sources fuel) id.format (append_recursive-Ends fuel)
            spec.dependencies spec.text (on_cache (load_message_spec sources id) w).1 (l.1 spec q)
            l.0.closed (omega (arith, l.0.fewer))))

  module _ (fuel : ℕ) (root : String) (room : length us < fuel)
      (has_msg : contains (record { format = msg; package_resource_name = root }) us ≡ true)
      (has_idl : contains (record { format = idl; package_resource_name = root }) us ≡ true) where
    fall_back-Ends :
        (w : Walk) → IsClosedCache us w.specs → Ends us w (fall_back sources fuel root w)
    unfolding fall_back
    fall_back-Ends w c =
        let id : DefinitionIdentifier = record { format = idl; package_resource_name = root } in
        let e =
          append_recursive-Ends fuel id w c has_idl (omega (arith, left-length us w.seen_deps)) in
        Ends-bind us w (λ text. pure (idl, delimiter id ++ text))
          (append_recursive sources fuel id w) e
          (λ text q. record { returns = refl; closed = e.closed; fewer = e.fewer })

    after_msg :
        (w : Walk) (p : Result String × Walk)
        → Ends us w p
        → Ends us w (elim p.0 as (λ _. Result (MessageDefinitionFormat × String) × Walk) [
          | ok text ↦ (ok (msg, text), p.1)
          | throws x ↦ on_error sources fuel root x p.1
        ])
    after_msg w (ok text, v) e = record { returns = refl; closed = e.closed; fewer = e.fewer }
    after_msg w (throws (definition_not_found name), v) e =
        let p : Result String × Walk = (throws (definition_not_found name), v) in
        Ends-trans us w p (fall_back sources fuel root v) e (fall_back-Ends v e.closed)
    after_msg w (throws (failure text), v) e = record {
      returns = refl;
      closed = e.closed;
      fewer = e.fewer;
    }
    after_msg w (throws out_of_fuel, v) e = record {
      returns = e.returns;
      closed = e.closed;
      fewer = e.fewer;
    }

    -- When a finite set of definitions has the root in both formats and every dependency of what
    -- the sources or the cache give for one of the set, fuel above the size of the set is enough:
    -- get_full_text never runs out of it, and the cache it leaves satisfies the condition again.
    pub get_full_text-returns :
        (cache : MessageDefinitionCache)
        → IsClosedCache us cache
        → (is_exhausted (get_full_text sources fuel root cache).0 ≡ false)
          × IsClosedCache us (get_full_text sources fuel root cache).1
    unfolding get_full_text full_text
    get_full_text-returns cache c =
        let w : Walk = record { specs = cache; seen_deps = [] } in
        let id : DefinitionIdentifier = record { format = msg; package_resource_name = root } in
        let first = append_recursive-Ends fuel id w c has_msg (omega (arith, left-length us [])) in
        let e = after_msg w (append_recursive sources fuel id w) first in (e.returns, e.closed)
