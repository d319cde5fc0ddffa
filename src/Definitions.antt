-- ===== src/Definitions.antt =====
-- ros2_foxglove_bridge/src/message_definition_cache.cpp and its header
-- foxglove_bridge_base/include/foxglove_bridge/message_definition_cache.hpp: the data.
-- std::regex, ament_index, std::filesystem and the files are parameters (`Sources`).
pub mod Split
pub mod Dependencies
pub mod Load
pub mod FullText
pub mod Termination
use foxglove_bridge_release.Base.{
  ℕ, ◌≡◌, refl, ◌↔◌, String, Option, Bool, true, false, List, ◌&&◌, arith,
}
use foxglove_bridge_release.Base.Eq.{Eq, ◌==◌, ==_iff, string_eq}
use foxglove_bridge_release.Base.Map.{Map}
use foxglove_bridge_release.Base.Exec.{Result}

pub data MessageDefinitionFormat : Type 0 where
  idl msg : MessageDefinitionFormat

pub record DefinitionIdentifier : Type 0 where
  pub format : MessageDefinitionFormat
  pub package_resource_name : String

pub record MessageSpec : Type 0 where
  pub dependencies : List String
  pub text : String
  pub format : MessageDefinitionFormat

-- _msg_specs_by_definition_identifier
abbrev pub MessageDefinitionCache : Type 0
MessageDefinitionCache = Map DefinitionIdentifier MessageSpec

pub record Sources : Type 0 where
  -- the first groups of the matches of MSG_FIELD_TYPE_REGEX and of IDL_FIELD_TYPE_REGEX, in order
  pub msg_field_types : String → List String
  pub idl_field_types : String → List String
  -- the two groups of a match of PACKAGE_TYPENAME_REGEX
  pub package_typename : String → Option (String × String)
  -- ament_index_cpp::get_package_share_directory, with `none` where it throws
  -- PackageNotFoundError, and what() of that
  pub get_package_share_directory : String → Option String
  pub package_not_found : String → String
  -- ament_index_cpp::get_resource, with `none` for false
  pub get_resource : String → String → Option String
  -- std::filesystem::path(line).filename()
  pub filename : String → String
  -- the contents of a file, with `none` where it is not good
  pub read_file : String → Option String

abbrev pub format_test : MessageDefinitionFormat → MessageDefinitionFormat → Bool
format_test idl idl = true
format_test msg msg = true
format_test _ _ = false

-- DefinitionIdentifier::operator==
abbrev pub identifier_test : DefinitionIdentifier → DefinitionIdentifier → Bool
identifier_test a b =
    format_test a.format b.format && (a.package_resource_name == b.package_resource_name)

format_test_iff : (f g : MessageDefinitionFormat) → (format_test f g ≡ true) ↔ (f ≡ g)
format_test_iff f g = ground arith

pub identifier_test_iff : (a b : DefinitionIdentifier) → (identifier_test a b ≡ true) ↔ (a ≡ b)
identifier_test_iff a b = ground (
  arith,
  format_test_iff a.format b.format,
  ==_iff a.package_resource_name b.package_resource_name,
)

instance abbrev pub identifier_eq : Eq DefinitionIdentifier
identifier_eq = record { test = identifier_test; test_iff = identifier_test_iff }
