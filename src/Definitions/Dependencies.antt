-- ===== src/Definitions/Dependencies.antt =====
-- parse_dependencies of message_definition_cache.cpp, and the names it makes.
use Prim.Native.Nat.{Ordering}
use text.Mathlib.TextLemmas.{append_assoc}
use text.Mathlib.TextEquality.{path_by_compare}
use Prim.Native.String.{◌++◌, compare, find, len}
use foxglove_bridge_release.Base.{
  ◌||◌, ◌≡◌, refl, String, Bool, true, false, List, [], ◌∷◌, ◌&&◌, not, arith, ltb, leb,
  if◌then◌else◌,
}
use foxglove_bridge_release.Base.Eq.{◌==◌, ==_iff, string_eq}
use foxglove_bridge_release.Base.Map.{contains}
use foxglove_bridge_release.Definitions.{
  MessageDefinitionFormat, idl, msg, DefinitionIdentifier, Sources,
}

abbrev pub primitive_types : List String
primitive_types =
    "bool" ∷ "byte" ∷ "char" ∷ "float32" ∷ "float64" ∷ "int8" ∷ "uint8" ∷ "int16" ∷ "uint16"
    ∷ "int32" ∷ "uint32" ∷ "int64" ∷ "uint64" ∷ "string" ∷ []

-- std::set<std::string>::insert: the set in order, which is that of the bytes
unfoldable pub set_insert : String → List String → List String
set_insert x [] = x ∷ []
set_insert x (y ∷ ys) = elim (compare x y) [
  | Ordering.lt ↦ x ∷ y ∷ ys
  | Ordering.eq ↦ y ∷ ys
  | Ordering.gt ↦ y ∷ set_insert x ys
]

-- type.find('/') == std::string::npos
abbrev pub is_unqualified : String → Bool
is_unqualified type = ltb (len type) (find type "/")

unfoldable pub qualify : String → String → String
qualify package_context type =
    if is_unqualified type then package_context ++ ("/" ++ type) else type

-- The loop over the matches, with the set built so far.
unfoldable pub collect_msg : String → List String → List String → List String
collect_msg package_context [] dependencies = dependencies
collect_msg package_context (type ∷ types) dependencies = collect_msg package_context types (
    if contains type primitive_types
    then dependencies
    else set_insert (qualify package_context type) dependencies)

unfoldable pub collect_idl : List String → List String → List String
collect_idl [] dependencies = dependencies
collect_idl (type ∷ types) dependencies = collect_idl types (set_insert type dependencies)

unfoldable pub parse_msg_dependencies : Sources → String → String → List String
parse_msg_dependencies sources text package_context =
    collect_msg package_context (sources.msg_field_types text) []

unfoldable pub parse_idl_dependencies : Sources → String → List String
parse_idl_dependencies sources text = collect_idl (sources.idl_field_types text) []

unfoldable pub parse_dependencies :
    Sources → MessageDefinitionFormat → String → String → List String
parse_dependencies sources msg text package_context =
    parse_msg_dependencies sources text package_context
parse_dependencies sources idl text package_context = parse_idl_dependencies sources text

unfoldable pub extension_for_format : MessageDefinitionFormat → String
extension_for_format msg = ".msg"
extension_for_format idl = ".idl"

unfoldable pub delimiter : DefinitionIdentifier → String
delimiter id =
    "================================================================================\n"
    ++ ((elim id.format [ msg ↦ "MSG: " | idl ↦ "IDL: " ]) ++ (id.package_resource_name ++ "\n"))

contains-set_insert :
    (k j : String) (s : List String)
    → contains j (set_insert k s) ≡ (if k == j then true else contains j s)
unfolding contains set_insert
contains-set_insert k j [] = refl
contains-set_insert k j (i ∷ s) =
    ground
      (arith, ==_iff k j, ==_iff i k, ==_iff i j, path_by_compare k i, contains-set_insert k j s)

-- A field of this type asks for a dependency: the type itself, where a slash is found in it, and else
-- the type behind the package of the text and a slash.
abbrev pub is_named_by : String → String → String → Bool
is_named_by package_context dep type =
    if leb (find type "/") (len type) then type == dep else package_context ++ "/" ++ type == dep

-- Whether a field of the text asks for a dependency: its type is not primitive, and names it.
abbrev pub is_asked_for : String → String → List String → Bool
is_asked_for package_context dep [] = false
is_asked_for package_context dep (type ∷ types) =
    (not (contains type primitive_types) && is_named_by package_context dep type)
    || is_asked_for package_context dep types

qualify_lem :
    (package_context dep type : String)
    → (qualify package_context type == dep) ≡ is_named_by package_context dep type
unfolding qualify
qualify_lem package_context dep type = ground (arith, append_assoc package_context "/" type)

contains-collect_msg :
    (package_context dep : String) (types s : List String)
    → contains dep (collect_msg package_context types s)
      ≡ (contains dep s || is_asked_for package_context dep types)
unfolding collect_msg
contains-collect_msg package_context dep [] s = ground arith
contains-collect_msg package_context dep (type ∷ types) s = ground (
  arith,
  contains-collect_msg package_context dep types
      (if contains type primitive_types then s else set_insert (qualify package_context type) s),
  contains-set_insert (qualify package_context type) dep s,
  qualify_lem package_context dep type,
)

-- The dependencies of a .msg text are the types of its fields, the primitive types excepted: a type
-- as it stands where it holds a slash, and else behind the package of the text and a slash.
pub contains-parse_msg_dependencies :
    (sources : Sources) (text package_context dep : String)
    → contains dep (parse_msg_dependencies sources text package_context)
      ≡ is_asked_for package_context dep (sources.msg_field_types text)
unfolding parse_msg_dependencies contains
contains-parse_msg_dependencies sources text package_context dep =
    contains-collect_msg package_context dep (sources.msg_field_types text) []
