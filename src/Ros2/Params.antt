-- ===== src/Ros2/Params.antt =====
-- ros2_foxglove_bridge.cpp: the parameters that the constructor declares, and how it reads them.
-- rclcpp is a parameter: what declare_parameter answers, whose documented behaviour is `Laws`.
pub mod Declared
use foxglove_bridge_release.Base.{
  ℕ, zero, suc, ◌+◌, ◌-◌, ◌^◌, ◌%◌, ◌≤◌, ◌≡◌, String, Bool, true, false, Option, none, some, List,
  [], ◌∷◌, if◌then◌else◌,
}
use foxglove_bridge_release.Base.Eq.{string_eq}
use foxglove_bridge_release.Base.Map.{Map, find, emplace, is_some}
use foxglove_bridge_release.Base.Exec.{
  Exec, Result, ok, throws, failure, throw, lift, gets, modify, or_throw, for_each, ◌>>=◌, ◌>>◌,
}

-- int64_t; `negsuc n` is -(n + 1).
pub data ℤ : Type 0 where
  pos negsuc : ℕ → ℤ

pub data ParameterType : Type 0 where
  integer_type string_type bool_type string_array_type : ParameterType

pub data ParameterValue : Type 0 where
  integer_value : ℤ → ParameterValue
  string_value : String → ParameterValue
  bool_value : Bool → ParameterValue
  string_array_value : List String → ParameterValue

abbrev pub type_of : ParameterValue → ParameterType
type_of (integer_value n) = integer_type
type_of (string_value s) = string_type
type_of (bool_value b) = bool_type
type_of (string_array_value ss) = string_array_type

pub record IntegerRange : Type 0 where
  pub from_value : ℕ
  pub to_value : ℕ
  pub step : ℕ

pub record ParameterDescriptor : Type 0 where
  pub name : String
  pub type : ParameterType
  pub description : String
  pub read_only : Bool
  pub additional_constraints : String
  pub integer_range : Option IntegerRange

-- a value within the range; the ranges of the bridge begin at 0
abbrev pub IsWithin : IntegerRange → ParameterValue → Type 0
IsWithin r (integer_value (pos n)) = (r.from_value ≤ n) × (n ≤ r.to_value)
IsWithin r _ = ⊥

abbrev pub Declaration : Type 0
Declaration = ParameterDescriptor × ParameterValue

-- What declare_parameter gives: the value that the user has set, or else the default.
abbrev pub Declare : Type 0
Declare = ParameterDescriptor → ParameterValue → Result ParameterValue

-- A parameter keeps the type of its default, and a value outside the range of its descriptor makes
-- declare_parameter throw.
pub record Laws (declare : Declare) : Type 0 where
  pub typed :
      (d : ParameterDescriptor) (v w : ParameterValue) → declare d v ≡ ok w → type_of w ≡ type_of v
  pub ranged :
      (d : ParameterDescriptor) (v w : ParameterValue) (r : IntegerRange)
      → declare d v ≡ ok w
      → d.integer_range ≡ some r
      → IsWithin r w

abbrev pub default_port : ℕ
default_port = 8_765

abbrev pub default_address : String
default_address = "0.0.0.0"

abbrev pub default_max_qos_depth : ℕ
default_max_qos_depth = 10

-- DEFAULT_SEND_BUFFER_LIMIT_BYTES of websocket_server.hpp
abbrev pub default_send_buffer_limit_bytes : ℕ
default_send_buffer_limit_bytes = 10_000_000

-- a read-only parameter with no range
abbrev plain : String → ParameterType → String → ParameterDescriptor
plain name type description = record {
  name = name;
  type = type;
  description = description;
  read_only = true;
  additional_constraints = "";
  integer_range = none;
}

abbrev pub range_to : ℕ → ℕ → Option IntegerRange
range_to to_value step = some (record { from_value = 0; to_value = to_value; step = step })

abbrev pub port_declaration : Declaration
port_declaration = (
  record {
    name = "port";
    type = integer_type;
    description = "The TCP port to bind the WebSocket server to";
    read_only = true;
    additional_constraints = "Must be a valid TCP port number, or 0 to use a random port";
    integer_range = range_to 65_535 1;
  },
  integer_value (pos default_port),
)

abbrev pub address_declaration : Declaration
address_declaration = (
  plain "address" string_type "The host address to bind the WebSocket server to",
  string_value default_address,
)

abbrev pub tls_declaration : Declaration
tls_declaration = (
  plain "tls" bool_type "Use Transport Layer Security for encrypted communication",
  bool_value false,
)

abbrev pub certfile_declaration : Declaration
certfile_declaration =
    (plain "certfile" string_type "Path to the certificate to use for TLS", string_value "")

abbrev pub keyfile_declaration : Declaration
keyfile_declaration =
    (plain "keyfile" string_type "Path to the private key to use for TLS", string_value "")

abbrev pub max_qos_depth_declaration : Declaration
max_qos_depth_declaration = (
  record {
    name = "max_qos_depth";
    type = integer_type;
    description = "Maximum depth used for the QoS profile of subscriptions.";
    read_only = true;
    additional_constraints = "Must be a non-negative integer";
    integer_range = range_to (2 ^ 31 - 1) 1;
  },
  integer_value (pos default_max_qos_depth),
)

abbrev pub topic_whitelist_declaration : Declaration
topic_whitelist_declaration = (
  plain "topic_whitelist" string_array_type
      "List of regular expressions (ECMAScript) of whitelisted topic names.",
  string_array_value (".*" ∷ []),
)

abbrev pub send_buffer_limit_declaration : Declaration
send_buffer_limit_declaration = (
  record {
    name = "send_buffer_limit";
    type = integer_type;
    description =
        "Connection send buffer limit in bytes. Messages will be dropped when a connection's send buffer reaches this limit to avoid a queue of outdated messages building up.";
    read_only = true;
    additional_constraints = "";
    integer_range = range_to (2 ^ 63 - 1) 0;
  },
  integer_value (pos default_send_buffer_limit_bytes),
)

-- in the order of the constructor
abbrev pub declarations : List Declaration
declarations =
    port_declaration ∷ address_declaration ∷ tls_declaration ∷ certfile_declaration
    ∷ keyfile_declaration ∷ max_qos_depth_declaration ∷ topic_whitelist_declaration
    ∷ send_buffer_limit_declaration ∷ []

-- the parameters of the node
abbrev pub Parameters : Type 0
Parameters = Map String ParameterValue

module _ (declare : Declare) where
  -- declare_parameter throws on a name that is declared already.
  unfoldable pub declare_parameter : Declaration → Exec Parameters (Unit {0})
  declare_parameter (d, v) = do
    known ← gets (λ ps. find d.name ps)
    value ← lift (declare d v)
    if is_some known
        then throw (failure "parameter has already been declared")
        else modify (emplace d.name value)

  unfoldable pub declare_parameters : Exec Parameters (Unit {0})
  declare_parameters = for_each declarations declare_parameter

abbrev wrong_type : {A : Type 0} → Result A
wrong_type = throws (failure "parameter has an invalid type")

-- get_parameter(name).as_int() and the like
abbrev get_as : {A : Type 0} → (ParameterValue → Result A) → String → Exec Parameters A
get_as as_type name = do
  value ← gets (λ ps. find name ps)
  found ← or_throw value (failure "parameter is not declared")
  lift (as_type found)

abbrev as_int : ParameterValue → Result ℤ
as_int (integer_value n) = ok n
as_int _ = wrong_type

abbrev as_string : ParameterValue → Result String
as_string (string_value s) = ok s
as_string _ = wrong_type

abbrev as_bool : ParameterValue → Result Bool
as_bool (bool_value b) = ok b
as_bool _ = wrong_type

abbrev as_string_array : ParameterValue → Result (List String)
as_string_array (string_array_value ss) = ok ss
as_string_array _ = wrong_type

unfoldable pub get_int : String → Exec Parameters ℤ
get_int = get_as as_int

unfoldable pub get_string : String → Exec Parameters String
get_string = get_as as_string

unfoldable pub get_bool : String → Exec Parameters Bool
get_bool = get_as as_bool

unfoldable pub get_string_array : String → Exec Parameters (List String)
get_string_array = get_as as_string_array

-- static_cast<size_t> of an int64_t
unfoldable pub size_of_int64 : ℤ → ℕ
size_of_int64 (pos n) = n
size_of_int64 (negsuc n) = 2 ^ 64 - suc n

-- uint16_t of an int64_t
unfoldable pub u16_of_int64 : ℤ → ℕ
u16_of_int64 (pos n) = n % 2 ^ 16
u16_of_int64 (negsuc n) = 2 ^ 16 - 1 - n % 2 ^ 16
