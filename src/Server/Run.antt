-- ===== src/Server/Run.antt =====
-- The server under any sequence of what websocketpp and the bridge call, one at a time: the methods
-- hold _clientsChannelMutex, but for parts of handleConnectionClosed and the setters of handlers.
use foxglove_bridge_release.Base.{ℕ, String, List, [], ◌∷◌}
use foxglove_bridge_release.Base.Exec.{Exec, skip, ◌>>=◌}
use foxglove_bridge_release.Json.{JsonLib}
use foxglove_bridge_release.Server.{Server, ChannelWithoutId, Network, Handlers}
use foxglove_bridge_release.Server.Binary.{OpCode, handle_message}
use foxglove_bridge_release.Server.Connections.{handle_connection_opened, handle_connection_closed}
use foxglove_bridge_release.Server.Channels.{
  add_channel, remove_channel, broadcast_channels, send_message, broadcast_time,
}

pub data Event : Type 0 where
  opened : Network → ℕ → Event
  closed : ℕ → Event
  message : ℕ → ℕ → OpCode → String → List ℕ → Event
  channel_added : ChannelWithoutId → Event
  channel_removed : ℕ → Event
  channels_broadcast : Event
  message_sent : Network → ℕ → ℕ → ℕ → List ℕ → Event
  time_broadcast : ℕ → Event

module _ {Json B : Type 0} (J : JsonLib Json) where
  unfoldable pub perform : Event → Exec (Server B) (Unit {0})
  perform (opened net hdl) = handle_connection_opened J net hdl
  perform (closed hdl) = handle_connection_closed hdl
  perform (message now hdl op text_payload bytes) = handle_message J now hdl op text_payload bytes
  perform (channel_added channel) = add_channel channel >>= λ id. skip
  perform (channel_removed id) = remove_channel J id
  perform channels_broadcast = broadcast_channels J
  perform (message_sent net hdl chan now bytes) = send_message net hdl chan now bytes
  perform (time_broadcast now) = broadcast_time now

  -- What a method throws goes to its caller, and the state it left stays.
  unfoldable pub run : List Event → Server B → Server B
  run [] s = s
  run (e ∷ es) s = run es (perform e s).1

-- A server as constructed.
unfoldable pub init : {B : Type 0} → String → List String → ℕ → Handlers B → B → Server B
init name capabilities limit handlers bridge = record {
  name = name;
  capabilities = capabilities;
  send_buffer_limit_bytes = limit;
  next_channel_id = 0;
  clients = [];
  channels = [];
  client_channels = [];
  handlers = handlers;
  bridge = bridge;
  sent = [];
}
