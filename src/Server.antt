-- ===== src/Server.antt =====
-- foxglove_bridge_base/include/foxglove_bridge/websocket_server.hpp: the state of `Server`.
-- websocketpp is a parameter: what a connection handle stands for (`Network`), and the order in
-- which it calls the handlers. A connection handle is a number; equal numbers are owner-equal.
-- The fields that the constructor hands to websocketpp, and log writes, are not part of the state.
pub mod Send
pub mod Text
pub mod Binary
pub mod Connections
pub mod Channels
pub mod Run
pub mod Invariant
pub mod Isolation
pub mod Delivery
pub mod Subscriptions
pub mod Closing
pub mod Dispatch
pub mod Ids
pub mod Advertising
pub mod Publications
pub mod Effects
pub mod Lifecycle
pub mod Contract
pub mod Construction
use foxglove_bridge_release.Base.{ℕ, String, Option, none, some, List}
use foxglove_bridge_release.Base.Map.{Map}
use foxglove_bridge_release.Base.Exec.{Result, Exec, skip}
use foxglove_bridge_release.Wire.{ClientAdvertisement}

pub record ChannelWithoutId : Type 0 where
  pub topic : String
  pub encoding : String
  pub schema_name : String
  pub schema : String

pub record Channel : Type 0 where
  pub base : ChannelWithoutId
  pub open base use *
  pub id : ℕ

pub record ClientMessage : Type 0 where
  pub log_time : ℕ
  pub publish_time : ℕ
  pub sequence : ℕ
  pub advertisement : ClientAdvertisement
  pub data_length : ℕ
  pub payload : List ℕ

pub data StatusLevel : Type 0 where
  info warning error : StatusLevel

abbrev pub status_level_value : StatusLevel → ℕ
status_level_value info = 0
status_level_value warning = 1
status_level_value error = 2

-- What a std::function of the bridge does: it runs on the bridge's own state, and may throw.
abbrev pub Callback : Type 0 → Type 0 → Type 0
Callback B A = A → ℕ → Exec B (Unit {0})

-- An empty std::function is `none`.
pub record Handlers (B : Type 0) : Type 0 where
  pub subscribe_handler : Option (Callback B ℕ)
  pub unsubscribe_handler : Option (Callback B ℕ)
  pub client_advertise_handler : Option (Callback B ClientAdvertisement)
  pub client_unadvertise_handler : Option (Callback B ℕ)
  pub client_message_handler : Option (Callback B ClientMessage)

pub record ClientInfo : Type 0 where
  pub name : String
  pub handle : ℕ
  pub subscriptions_by_channel : Map ℕ ℕ
  pub advertised_channels : List ℕ

-- What is passed to websocketpp's send: a text or a binary frame for a connection.
pub data Frame : Type 0 where
  text : String → Frame
  binary : List ℕ → Frame

pub record Server (B : Type 0) : Type 0 where
  pub name : String
  pub capabilities : List String
  pub send_buffer_limit_bytes : ℕ
  pub next_channel_id : ℕ
  pub clients : Map ℕ ClientInfo
  pub channels : Map ℕ Channel
  pub client_channels : Map ℕ (Map ℕ ClientAdvertisement)
  pub handlers : Handlers B
  -- the state that the handlers run on
  pub bridge : B
  -- the calls of send so far, in order
  pub sent : List (ℕ × Frame)

-- What websocketpp tells of a connection.
pub record Connection : Type 0 where
  pub remote_endpoint : String
  pub resource : String
  pub requested_subprotocols : List String
  pub buffered_amount : ℕ

-- get_con_from_hdl
abbrev pub Network : Type 0
Network = ℕ → Option Connection

unfoldable pub remote_endpoint_string : Network → ℕ → String
remote_endpoint_string net h = elim (net h) [ none ↦ "(unknown)" | some con ↦ con.remote_endpoint ]

module _ {B A : Type 0} where
  on_bridge : Callback B A → A → ℕ → Exec (Server B) (Unit {0})
  on_bridge f a h s = let (r, b) = f a h s.bridge in (r, record s { bridge = b })

  -- if (handler) { handler(a, h); }
  unfoldable pub call : Option (Callback B A) → A → ℕ → Exec (Server B) (Unit {0})
  unfolding on_bridge
  call none a h = skip
  call (some f) a h = on_bridge f a h
