-- ===== src/Server/Send.antt =====
-- websocket_server.hpp: sendJson, sendJsonRaw, sendBinary, sendStatus and the document that
-- advertises the channels. What websocketpp throws in `send` is caught there and only logged, so a
-- call of `send` is the whole effect.
use foxglove_bridge_release.Base.{ℕ, String, List, [], ◌∷◌, ◌++◌}
use foxglove_bridge_release.Base.Map.{Map}
use foxglove_bridge_release.Base.Exec.{Exec, Result, ok, throws, modify}
use foxglove_bridge_release.Json.{JsonLib}
use foxglove_bridge_release.Server.{
  Server, Frame, text, binary, Channel, StatusLevel, status_level_value,
}

module _ {B : Type 0} where
  abbrev pub post : List (ℕ × Frame) → Exec (Server B) (Unit {0})
  post frames = modify (λ s. record s { sent = s.sent ++ frames })

  abbrev pub send : ℕ → Frame → Exec (Server B) (Unit {0})
  send hdl frame = post ((hdl, frame) ∷ [])

  unfoldable pub send_json_raw : ℕ → String → Exec (Server B) (Unit {0})
  send_json_raw hdl payload = send hdl (text payload)

  unfoldable pub send_binary : ℕ → List ℕ → Exec (Server B) (Unit {0})
  send_binary hdl payload = send hdl (binary payload)

module _ {Json : Type 0} (J : JsonLib Json) where
  pub status_payload : StatusLevel → String → Json
  status_payload level message = J.object (
      ("op", J.string "status")
      ∷ ("level", J.number (status_level_value level))
      ∷ ("message", J.string message)
      ∷ [])

-- the frame of a text, if there is one
abbrev pub dumped : ℕ → Result String → List (ℕ × Frame)
dumped hdl (ok message) = (hdl, text message) ∷ []
dumped hdl (throws x) = []

module _ {Json B : Type 0} (J : JsonLib Json) where
  -- the try block: where dump throws, the exception is caught, and nothing is sent
  unfoldable pub send_json : ℕ → Json → Exec (Server B) (Unit {0})
  send_json hdl payload = post (dumped hdl (J.dump payload))

  unfoldable pub send_status : ℕ → StatusLevel → String → Exec (Server B) (Unit {0})
  unfolding send_json
  send_status hdl level message = send_json hdl (status_payload J level message)

module _ {Json : Type 0} (J : JsonLib Json) where
  -- to_json(json&, const Channel&)
  unfoldable pub channel_to_json : Channel → Json
  channel_to_json channel = J.object (
      ("id", J.number channel.id)
      ∷ ("topic", J.string channel.topic)
      ∷ ("encoding", J.string channel.encoding)
      ∷ ("schemaName", J.string channel.schema_name)
      ∷ ("schema", J.string channel.schema)
      ∷ [])

  -- json channels; for (const auto& [id, channel] : _channels) channels.push_back(channel);
  unfoldable pub push_channels : Json → Map ℕ Channel → Json
  unfolding channel_to_json
  push_channels j [] = j
  push_channels j ((id, channel) ∷ rest) =
      push_channels (J.push_back j (channel_to_json channel)) rest

  unfoldable pub channels_json : Map ℕ Channel → Json
  unfolding push_channels
  channels_json = push_channels J.null

  unfoldable pub advertise_payload : Map ℕ Channel → Json
  unfolding channels_json
  advertise_payload channels =
      J.object (("op", J.string "advertise") ∷ ("channels", channels_json channels) ∷ [])
