-- ===== src/Wire.antt =====
-- foxglove_bridge_base/include/foxglove_bridge/common.hpp: ids, opcodes and the client's
-- advertisement.
pub mod Serialization
pub mod Fnv
use foxglove_bridge_release.Base.{ℕ, ◌^◌, ◌<◌, String, List}

-- uint32_t, the type of channel, client channel and subscription ids
abbrev pub IsU32 : ℕ → Type 0
IsU32 n = n < 2 ^ 32

abbrev pub IsU64 : ℕ → Type 0
IsU64 n = n < 2 ^ 64

abbrev pub supported_subprotocol : String
supported_subprotocol = "foxglove.websocket.v1"

abbrev pub capability_client_publish : String
capability_client_publish = "clientPublish"

abbrev pub capability_time : String
capability_time = "time"

pub data BinaryOpcode : Type 0 where
  message_data time_data : BinaryOpcode

abbrev pub binary_opcode_value : BinaryOpcode → ℕ
binary_opcode_value message_data = 1
binary_opcode_value time_data = 2

-- ClientBinaryOpcode::MESSAGE_DATA
abbrev pub client_message_data : ℕ
client_message_data = 1

pub record ClientAdvertisement : Type 0 where
  pub channel_id : ℕ
  pub topic : String
  pub encoding : String
  pub schema_name : String
  pub schema : List ℕ
