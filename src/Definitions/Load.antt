-- ===== src/Definitions/Load.antt =====
-- MessageDefinitionCache::load_message_spec.
use Prim.Native.String.{◌++◌}
use foxglove_bridge_release.Base.{
  ◌≡◌, refl, sym, ap, ◌∙◌, inl, inr, String, Option, none, some, List, [], ◌∷◌, arith,
  if◌then◌else◌, Option-cases,
}
use foxglove_bridge_release.Base.Eq.{◌==◌, ==_iff, string_eq}
use foxglove_bridge_release.Base.Map.{find, emplace, find-emplace}
use foxglove_bridge_release.Base.Exec.{
  Exception, Exec, ok, throws, definition_not_found, failure, match_option, gets, or_throw, modify,
  pure, ◌>>=◌, ◌>>◌, Result-cases,
}
use foxglove_bridge_release.Base.Exec.Keeps.{Keeps, keeps_rules}
use foxglove_bridge_release.Definitions.{
  MessageDefinitionFormat, DefinitionIdentifier, MessageSpec, MessageDefinitionCache, Sources,
  identifier_eq,
}
use foxglove_bridge_release.Definitions.Split.{split_string}
use foxglove_bridge_release.Definitions.Dependencies.{parse_dependencies, extension_for_format}

-- std::find_if over the lines
unfoldable pub find_line : Sources → String → List String → Option String
find_line sources filename [] = none
find_line sources filename (line ∷ lines) =
    if sources.filename line == filename then some line else find_line sources filename lines

-- MessageSpec::MessageSpec
unfoldable pub message_spec : Sources → MessageDefinitionFormat → String → String → MessageSpec
message_spec sources format text package_context = record {
  dependencies = parse_dependencies sources format text package_context;
  text = text;
  format = format;
}

-- What follows the lookup, up to the emplace: the definition is read from its package.
unfoldable pub read_spec : Sources → DefinitionIdentifier → Exec MessageDefinitionCache MessageSpec
read_spec sources id = do
  (pkg, type) ←
      or_throw (sources.package_typename id.package_resource_name)
        (failure ("Invalid package resource name: " ++ id.package_resource_name))
  share_dir ←
      or_throw (sources.get_package_share_directory pkg) (failure (sources.package_not_found pkg))
  index_contents ←
      or_throw (sources.get_resource "rosidl_interfaces" pkg)
        (definition_not_found id.package_resource_name)
  line ←
      or_throw
        (find_line sources (type ++ extension_for_format id.format)
          (split_string index_contents "\n"))
        (definition_not_found id.package_resource_name)
  contents ←
      or_throw (sources.read_file (share_dir ++ ("/" ++ line)))
        (definition_not_found id.package_resource_name)
  pure (message_spec sources id.format contents pkg)

unfoldable pub load_message_spec :
    Sources → DefinitionIdentifier → Exec MessageDefinitionCache MessageSpec
load_message_spec sources id = do
  cached ← gets (find id)
  match_option cached (do spec ← read_spec sources id; modify (emplace id spec); pure spec) pure

module _ (id : DefinitionIdentifier) (cache : MessageDefinitionCache) (spec : MessageSpec) where
  pub load_cached :
      (sources : Sources)
      → find id cache ≡ some spec
      → load_message_spec sources id cache ≡ (ok spec, cache)
  unfolding load_message_spec
  load_cached sources e = ground arith

emplaced :
    (id : DefinitionIdentifier) (cache : MessageDefinitionCache) (spec : MessageSpec)
    → find id cache ≡ none
    → find id (emplace id spec cache) ≡ some spec
emplaced id cache spec e = ground (arith, find-emplace id id spec cache, ==_iff id id)

module _ (sources : Sources) (id : DefinitionIdentifier) (cache : MessageDefinitionCache) where
  pub read_spec-cache : (read_spec sources id cache).1 ≡ cache
  unfolding read_spec
  read_spec-cache =
      let k : Keeps (λ s t. t ≡ s) (read_spec sources id) = search keeps_rules depth 14 in
      k.at cache cache refl

  pub load_read :
      (spec : MessageSpec)
      → find id cache ≡ none
      → (read_spec sources id cache).0 ≡ ok spec
      → load_message_spec sources id cache ≡ (ok spec, emplace id spec cache)
  unfolding load_message_spec
  load_read spec e r = ground (arith, read_spec-cache)

  pub load_fails :
      (x : Exception)
      → find id cache ≡ none
      → (read_spec sources id cache).0 ≡ throws x
      → load_message_spec sources id cache ≡ (throws x, cache)
  unfolding load_message_spec
  load_fails x e r = ground (arith, read_spec-cache)

pub throws≢ok : {A : Type 0} (x : Exception) (a : A) → throws x ≡ ok a → ⊥
throws≢ok x a e = cc

module _ (sources later : Sources) (id : DefinitionIdentifier)
    (cache cache' : MessageDefinitionCache) (spec : MessageSpec)
    (loaded : load_message_spec sources id cache ≡ (ok spec, cache')) where
  loaded-find : find id cache' ≡ some spec
  loaded-find = elim (Option-cases (find id cache)) [
    | inr (old, e) ↦ ground (arith, load_cached id cache old sources e, loaded)
    | inl e ↦ elim (Result-cases (read_spec sources id cache).0) [
      | inl (read, r) ↦
          ground (arith, load_read sources id cache read e r, loaded, emplaced id cache read e)
      | inr (x, r) ↦
          absurd
            (throws≢ok x spec (ap (λ p. p.0) (sym (load_fails sources id cache x e r) ∙ loaded)))
    ]
  ]

  -- Once a definition is loaded, it is answered from the cache: whatever the packages and the files
  -- are later, the same definition comes back, and the cache stays as it is.
  pub load_message_spec-again : load_message_spec later id cache' ≡ (ok spec, cache')
  load_message_spec-again = load_cached id cache' spec later loaded-find
