-- ===== src/Definitions/FullText.antt =====
-- MessageDefinitionCache::get_full_text.
use Prim.Native.String.{◌++◌}
use foxglove_bridge_release.Base.{ℕ, zero, suc, String, Bool, not, List, [], ◌∷◌, if◌then◌else◌}
use foxglove_bridge_release.Base.Map.{contains, insert}
use foxglove_bridge_release.Base.Exec.{
  Exec, ok, throws, Exception, definition_not_found, failure, out_of_fuel, gets, modify, pure,
  throw, ◌>>=◌, ◌>>◌,
}
use foxglove_bridge_release.Definitions.{
  MessageDefinitionFormat, idl, msg, DefinitionIdentifier, MessageDefinitionCache, Sources,
  identifier_eq,
}
use foxglove_bridge_release.Definitions.Dependencies.{delimiter}
use foxglove_bridge_release.Definitions.Load.{load_message_spec}

-- What append_recursive works on: the cache, and the set it captures.
pub record Walk : Type 0 where
  pub specs : MessageDefinitionCache
  pub seen_deps : List DefinitionIdentifier

unfoldable pub on_cache : {A : Type 0} → Exec MessageDefinitionCache A → Exec Walk A
on_cache m w = let (r, c) = m w.specs in (r, record w { specs = c })

-- seen_deps.insert(dep).second
unfoldable pub insert_seen : DefinitionIdentifier → Exec Walk Bool
insert_seen dep = do
  known ← gets (λ w. contains dep w.seen_deps)
  modify (λ w. record w { seen_deps = insert dep w.seen_deps })
  pure (not known)

-- The loop over the dependencies, with the text so far; `recurse` is append_recursive.
unfoldable pub append_dependencies :
    (DefinitionIdentifier → Exec Walk String)
    → MessageDefinitionFormat
    → List String
    → String
    → Exec Walk String
append_dependencies recurse format [] result = pure result
append_dependencies recurse format (dep_name ∷ names) result = do
  let dep : DefinitionIdentifier = record { format = format; package_resource_name = dep_name }
  inserted ← insert_seen dep
  if inserted
      then recurse dep >>= (λ text.
        append_dependencies recurse format names (result ++ ("\n" ++ (delimiter dep ++ text))))
      else append_dependencies recurse format names result

-- The fuel bounds the depth of the recursion.
unfoldable pub append_recursive : Sources → ℕ → DefinitionIdentifier → Exec Walk String
unfolding on_cache
append_recursive sources zero id = throw out_of_fuel
append_recursive sources (suc fuel) id = do
  spec ← on_cache (load_message_spec sources id)
  append_dependencies (append_recursive sources fuel) id.format spec.dependencies spec.text

-- The body of the catch block.
unfoldable pub fall_back : Sources → ℕ → String → Exec Walk (MessageDefinitionFormat × String)
fall_back sources fuel root = do
  let id : DefinitionIdentifier = record { format = idl; package_resource_name = root }
  text ← append_recursive sources fuel id
  pure (idl, delimiter id ++ text)

abbrev pub on_error :
    Sources → ℕ → String → Exception → Exec Walk (MessageDefinitionFormat × String)
on_error sources fuel root (definition_not_found name) = fall_back sources fuel root
on_error sources fuel root (failure text) = throw (failure text)
on_error sources fuel root out_of_fuel = throw out_of_fuel

unfoldable pub full_text : Sources → ℕ → String → Exec Walk (MessageDefinitionFormat × String)
full_text sources fuel root w =
    let (r, w') =
      append_recursive sources fuel (record { format = msg; package_resource_name = root }) w in
    elim r [ ok text ↦ (ok (msg, text), w') | throws x ↦ on_error sources fuel root x w' ]

unfoldable pub get_full_text :
    Sources → ℕ → String → Exec MessageDefinitionCache (MessageDefinitionFormat × String)
get_full_text sources fuel root cache =
    let (r, w) = full_text sources fuel root (record { specs = cache; seen_deps = [] }) in
    (r, w.specs)
