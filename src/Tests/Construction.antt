-- ===== src/Tests/Construction.antt =====
-- The parameters and the constructor of the ROS 2 bridge at concrete inputs.
use foxglove_bridge_release.Base.{
  ◌^◌, ◌≡◌, refl, String, Option, none, some, Bool, true, false, ◌&&◌, List, [], ◌∷◌, arith, leb,
  if◌then◌else◌,
}
use foxglove_bridge_release.Base.Eq.{id_eq, string_eq}
use foxglove_bridge_release.Base.Map.{find, emplace}
use foxglove_bridge_release.Base.Exec.{Result, ok, throws, failure, for_each}
use foxglove_bridge_release.Ros2.Params.{
  pos, negsuc, integer_value, string_value, bool_value, string_array_value, IntegerRange, IsWithin,
  ParameterValue, Parameters, Declare, Laws, type_of, declare_parameter, declare_parameters,
  get_string, get_bool, get_string_array, size_of_int64, u16_of_int64,
}
use foxglove_bridge_release.Ros2.Params.Declared.{ReadsBelow, declared_parameters_read}
use foxglove_bridge_release.Ros2.Construction.{Rclcpp, Node}
use foxglove_bridge_release.Tests.Lifecycle.{SampleEndpoint}

abbrev checked : Option IntegerRange → ParameterValue → Result ParameterValue
checked none v = ok v
checked (some r) (integer_value (pos n)) =
    if leb r.from_value n && leb n r.to_value
    then ok (integer_value (pos n))
    else throws (failure "out of range")
checked (some r) (integer_value (negsuc n)) = throws (failure "out of range")
checked (some r) (string_value s) = throws (failure "out of range")
checked (some r) (bool_value b) = throws (failure "out of range")
checked (some r) (string_array_value ss) = throws (failure "out of range")

-- No value is set by the user, and a default out of its range throws.
abbrev sample_declare : Declare
sample_declare d v = checked d.integer_range v

checked_typed :
    (o : Option IntegerRange) (v w : ParameterValue) → checked o v ≡ ok w → type_of w ≡ type_of v
checked_typed none v w e = ground arith
checked_typed (some r) (integer_value (pos n)) w e = ground arith
checked_typed (some r) (integer_value (negsuc n)) w e = cc
checked_typed (some r) (string_value s) w e = cc
checked_typed (some r) (bool_value b) w e = cc
checked_typed (some r) (string_array_value ss) w e = cc

checked_ranged :
    (r : IntegerRange) (v w : ParameterValue) → checked (some r) v ≡ ok w → IsWithin r w
checked_ranged r (integer_value (pos n)) (integer_value (pos m)) e = ground arith
checked_ranged r (integer_value (pos n)) (integer_value (negsuc m)) e = ground arith
checked_ranged r (integer_value (pos n)) (string_value s) e = ground arith
checked_ranged r (integer_value (pos n)) (bool_value b) e = ground arith
checked_ranged r (integer_value (pos n)) (string_array_value ss) e = ground arith
checked_ranged r (integer_value (negsuc n)) w e = absurd (cc)
checked_ranged r (string_value s) w e = absurd (cc)
checked_ranged r (bool_value b) w e = absurd (cc)
checked_ranged r (string_array_value ss) w e = absurd (cc)

sample_declare-Laws : Laws sample_declare
sample_declare-Laws = record {
  typed = λ d v w e. checked_typed d.integer_range v w e;
  ranged = λ d v w r e f. checked_ranged r v w (rw f at e);
}

abbrev sample_rclcpp : Rclcpp
sample_rclcpp = record {
  declare = sample_declare;
  set_parameter = λ name v ps. emplace name v ps;
  create_clock_subscription = ok tt;
}

abbrev sim_parameters : Parameters
sim_parameters = ("use_sim_time", bool_value true) ∷ []

abbrev declared_parameters : Parameters
declared_parameters = (declare_parameters sample_declare sim_parameters).1

declared : declare_parameters sample_declare sim_parameters ≡ (ok tt, declared_parameters)
unfolding declare_parameters declare_parameter for_each emplace find
declared = refl

abbrev sample_node : Node SampleEndpoint
sample_node = record {
  parameters = sim_parameters;
  use_sim_time = false;
  host = none;
  poll_thread = false;
  clock_subscription = false;
}

declared_parameters_read_example :
    ReadsBelow declared_parameters u16_of_int64 "port" (2 ^ 16)
    × ReadsBelow declared_parameters size_of_int64 "max_qos_depth" (2 ^ 31)
    × ReadsBelow declared_parameters size_of_int64 "send_buffer_limit" (2 ^ 63)
    × ((t : String) × (get_string "address" declared_parameters ≡ (ok t, declared_parameters)))
    × ((b : Bool) × (get_bool "tls" declared_parameters ≡ (ok b, declared_parameters)))
    × ((t : String) × (get_string "certfile" declared_parameters ≡ (ok t, declared_parameters)))
    × ((t : String) × (get_string "keyfile" declared_parameters ≡ (ok t, declared_parameters)))
    × ((ts : List String) × (get_string_array "topic_whitelist" declared_parameters
          ≡ (ok ts, declared_parameters)))
declared_parameters_read_example =
    declared_parameters_read sample_declare sample_declare-Laws sim_parameters declared_parameters
      declared
