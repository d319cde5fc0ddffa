-- ===== src/Logging.antt =====
-- foxglove_bridge_base/include/foxglove_bridge/websocket_logging.hpp: CallbackLogger, the logger that
-- websocketpp is given. The numbers of websocketpp's levels are a parameter; a level is a 32-bit mask.
pub mod Silence
use Prim.Native.Nat.{bit_and, bit_or}
use foxglove_bridge_release.Base.{
  ℕ, ◌-◌, ◌^◌, String, Option, none, some, Bool, not, List, [], ◌∷◌, ◌++◌, if◌then◌else◌,
}
use foxglove_bridge_release.Base.Text.{concat}
use foxglove_bridge_release.Base.Eq.{◌==◌, id_eq}

pub data WebSocketLogLevel : Type 0 where
  debug info warn error critical : WebSocketLogLevel

-- asio::ip::address
pub record IpAddress : Type 0 where
  pub is_v6 : Bool
  pub text : String

unfoldable pub ip_address_to_string : IpAddress → String
ip_address_to_string addr = if addr.is_v6 then concat ("[" ∷ addr.text ∷ "]" ∷ []) else addr.text

-- websocketpp's channel_type_hint::access and the levels of elevel
pub record Levels : Type 0 where
  pub access : ℕ
  pub devel : ℕ
  pub library : ℕ
  pub info_level : ℕ
  pub warn_level : ℕ
  pub rerror : ℕ
  pub fatal : ℕ

pub record CallbackLogger : Type 0 where
  pub static_channels : ℕ
  pub dynamic_channels : ℕ
  pub channel_type_hint : ℕ
  -- the calls of the callback so far, in order
  pub called : List (WebSocketLogLevel × String)

abbrev pub all_channels : ℕ
all_channels = 2 ^ 32 - 1

unfoldable pub callback_logger : ℕ → ℕ → CallbackLogger
callback_logger channels hint = record {
  static_channels = channels;
  dynamic_channels = 0;
  channel_type_hint = hint;
  called = [];
}

-- ~channels
abbrev pub complement : ℕ → ℕ
complement channels = all_channels - channels

unfoldable pub clear_channels : ℕ → CallbackLogger → CallbackLogger
clear_channels channels l = record l {
  dynamic_channels = bit_and l.dynamic_channels (complement channels);
}

unfoldable pub set_channels : ℕ → CallbackLogger → CallbackLogger
set_channels channels l = if channels == 0 then clear_channels all_channels l else record l {
  dynamic_channels = bit_or l.dynamic_channels (bit_and channels l.static_channels);
}

unfoldable pub static_test : ℕ → CallbackLogger → Bool
static_test channel l = not (bit_and channel l.static_channels == 0)

unfoldable pub dynamic_test : ℕ → CallbackLogger → Bool
dynamic_test channel l = not (bit_and channel l.dynamic_channels == 0)

module _ (levels : Levels) where
  -- the level that write gives the callback, if it calls it
  unfoldable pub level_of : ℕ → ℕ → Option WebSocketLogLevel
  level_of hint channel =
      if hint == levels.access
      then some info
      else if channel == levels.devel
      then some debug
      else if channel == levels.library
      then some debug
      else if channel == levels.info_level
      then some info
      else if channel == levels.warn_level
      then some warn
      else if channel == levels.rerror
      then some error
      else if channel == levels.fatal
      then some critical
      else none

  unfoldable pub write : ℕ → String → CallbackLogger → CallbackLogger
  write channel msg l =
      if dynamic_test channel l
      then elim (level_of l.channel_type_hint channel) [
        | none ↦ l
        | some level ↦ record l { called = l.called ++ (level, msg) ∷ [] }
      ]
      else l
