-- ===== src/Ros1.antt =====
-- ros1_foxglove_bridge/src/ros1_foxglove_bridge_nodelet.cpp: the state of FoxgloveBridge.
-- roscpp and ros_babel_fish are parameters: what they answer at the moment (`Ros`) is a field of the
-- state, so that it may differ between calls. Log writes are not part of the state.
pub mod Handlers
pub mod Topics
pub mod Advertised
pub mod Outcome
pub mod Updates
pub mod Subscriptions
pub mod Publications
pub mod Backoff
pub mod Start
use foxglove_bridge_release.Base.{ℕ, String, Option, Bool, List}
use foxglove_bridge_release.Base.Map.{Map}
use foxglove_bridge_release.Base.Exec.{Result}
use foxglove_bridge_release.Server.{Channel, ClientMessage}
use foxglove_bridge_release.Ros2.{TopicAndDatatype}

abbrev pub default_port : ℕ
default_port = 8_765

abbrev pub default_address : String
default_address = "0.0.0.0"

abbrev pub default_max_update_ms : ℕ
default_max_update_ms = 5_000

abbrev pub ros1_channel_encoding : String
ros1_channel_encoding = "ros1"

abbrev pub subscription_queue_length : ℕ
subscription_queue_length = 10

-- in milliseconds; the double of the code is a whole number
abbrev pub min_update_period_ms : ℕ
min_update_period_ms = 100

abbrev pub publication_queue_length : ℕ
publication_queue_length = 10

-- A ros::Subscriber, with what is bound to its callback: the channel and the client.
pub record Subscription : Type 0 where
  pub topic : String
  pub queue_length : ℕ
  pub channel : Channel
  pub client_handle : ℕ

-- ros::AdvertiseOptions, which stands for the ros::Publisher that is made of it as well.
pub record AdvertiseOptions : Type 0 where
  pub datatype : String
  pub has_header : Bool
  pub latch : Bool
  pub md5sum : String
  pub message_definition : String
  pub queue_size : ℕ
  pub topic : String

-- what the bridge reads of ros_babel_fish::MessageDescription
pub record MessageDescription : Type 0 where
  pub md5 : String
  pub message_definition : String

pub record Ros : Type 0 where
  -- ros::ok()
  pub is_ok : Bool
  -- ros::master::getTopics, with `none` where it returns false
  pub topics : Option (List TopicAndDatatype)
  -- whether NodeHandle::subscribe throws, by topic and queue length
  pub subscribe : String → ℕ → Result (Unit {0})
  -- getMessageDescription, with `none` for a null pointer
  pub message_description : String → Result (Option MessageDescription)
  -- whether NodeHandle::advertise throws, and whether the publisher is valid
  pub advertise : AdvertiseOptions → Result Bool
  -- the bytes that BabelFishMessage::read takes of a client's message
  pub read : ClientMessage → List ℕ
  -- whether Publisher::publish throws
  pub publish : AdvertiseOptions → List ℕ → Result (Unit {0})
  -- whether createTimer and ros::Duration throw, by the period in milliseconds
  pub create_timer : ℕ → Result (Unit {0})
  -- what `size_t(1) << n` gives for an n of 64 or more, which C++ leaves undefined
  pub shift_out_of_range : ℕ → ℕ

pub record Bridge : Type 0 where
  -- a compiled pattern: std::regex_match with it
  pub topic_whitelist_patterns : List (String → Bool)
  pub advertised_topics : Map TopicAndDatatype Channel
  pub channel_to_topic_and_datatype : Map ℕ TopicAndDatatype
  pub subscriptions : Map ℕ (Map ℕ Subscription)
  pub client_advertised_topics : Map ℕ (Map ℕ AdvertiseOptions)
  -- the period in milliseconds of the timer that calls updateAdvertisedTopics, if it runs
  pub update_timer : Option ℕ
  pub max_update_ms : ℕ
  pub update_count : ℕ
  -- whether /clock is subscribed to
  pub clock_subscription : Bool
  pub use_sim_time : Bool
  pub ros : Ros
  -- the calls of publish so far, in order
  pub published : List (AdvertiseOptions × List ℕ)
