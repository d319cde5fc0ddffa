-- ===== src/Ros2.antt =====
-- ros2_foxglove_bridge/src/ros2_foxglove_bridge.cpp: the state of FoxgloveBridge.
-- rclcpp is a parameter: what it answers at the moment (`Ros`) is a field of the state, so that it
-- may differ between calls. Log writes are not part of the state.
pub mod Profile
pub mod Handlers
pub mod Topics
pub mod Subscriptions
pub mod Publications
pub mod Refused
pub mod Messages
pub mod Advertised
pub mod Updates
pub mod Params
pub mod Flow
pub mod Start
pub mod Construction
pub mod Polling
use foxglove_bridge_release.Base.{ℕ, String, Bool, List}
use foxglove_bridge_release.Base.Map.{Map}
use foxglove_bridge_release.Base.Exec.{Result}
use foxglove_bridge_release.Server.{Channel}
use foxglove_bridge_release.Definitions.{MessageDefinitionCache}

pub data ReliabilityPolicy : Type 0 where
  reliable best_effort : ReliabilityPolicy

pub data DurabilityPolicy : Type 0 where
  transient_local volatile : DurabilityPolicy

-- rclcpp::QoS, as far as the bridge reads or sets it
pub record Qos : Type 0 where
  pub depth : ℕ
  pub reliability : ReliabilityPolicy
  pub durability : DurabilityPolicy

-- A generic subscription, with what is bound to its callback: the channel and the client.
pub record Subscription : Type 0 where
  pub topic : String
  pub datatype : String
  pub qos : Qos
  pub channel : Channel
  pub client_handle : ℕ

-- A generic publisher.
pub record Publication : Type 0 where
  pub topic_name : String
  pub topic_type : String

pub record Ros : Type 0 where
  -- rclcpp::ok()
  pub is_ok : Bool
  -- the profiles of get_publishers_info_by_topic, which may throw
  pub publishers_qos : String → Result (List Qos)
  -- whether create_generic_subscription and create_generic_publisher throw, by topic and type
  pub create_generic_subscription : String → String → Qos → Result (Unit {0})
  pub create_generic_publisher : String → String → Result (Unit {0})
  -- whether publish throws
  pub publish : Publication → List ℕ → Result (Unit {0})
  -- get_topic_names_and_types(), which may throw
  pub topic_names_and_types : Result (Map String (List String))

abbrev pub TopicAndDatatype : Type 0
TopicAndDatatype = String × String

pub record Bridge : Type 0 where
  pub message_definition_cache : MessageDefinitionCache
  -- a compiled pattern: std::regex_match with it
  pub topic_whitelist_patterns : List (String → Bool)
  pub advertised_topics : Map TopicAndDatatype Channel
  pub channel_to_topic_and_datatype : Map ℕ TopicAndDatatype
  pub subscriptions : Map ℕ (Map ℕ Subscription)
  pub client_advertised_topics : Map ℕ (Map ℕ Publication)
  pub max_qos_depth : ℕ
  pub ros : Ros
  -- the calls of publish so far, in order
  pub published : List (Publication × List ℕ)
