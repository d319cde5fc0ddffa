-- ===== src/Server/Binary.antt =====
-- websocket_server.hpp: handleBinaryMessage and handleMessage. The time of receipt is an argument.
use foxglove_bridge_release.Base.{ℕ, ◌+◌, ◌-◌, ◌%◌, ◌^◌, String, List, [], ◌∷◌, if◌then◌else◌, ltb}
use foxglove_bridge_release.Base.Eq.{◌==◌, id_eq}
use foxglove_bridge_release.Base.Lists.{length, drop}
use foxglove_bridge_release.Base.Map.{find}
use foxglove_bridge_release.Base.Text.{concat, to_string}
use foxglove_bridge_release.Base.Exec.{
  Exception, Exec, what, gets, skip, catching, match_option, ◌>>=◌,
}
use foxglove_bridge_release.Json.{JsonLib}
use foxglove_bridge_release.Wire.{ClientAdvertisement, client_message_data}
use foxglove_bridge_release.Wire.Serialization.{read_u32_le}
use foxglove_bridge_release.Server.{Server, ClientMessage, error, call}
use foxglove_bridge_release.Server.Send.{send_status}
use foxglove_bridge_release.Server.Text.{handle_text_message, publications}

abbrev pub msg_payload_offset : ℕ
msg_payload_offset = 5

-- data + MSG_PAYLOAD_OFFSET
unfoldable pub get_data : ClientMessage → List ℕ
get_data message = drop msg_payload_offset message.payload

-- dataLength - MSG_PAYLOAD_OFFSET, a size_t
unfoldable pub get_length : ClientMessage → ℕ
get_length message = (message.data_length + 2 ^ 64 - msg_payload_offset) % 2 ^ 64

abbrev pub client_message : ℕ → ClientAdvertisement → List ℕ → ClientMessage
client_message timestamp advertisement msg = record {
  log_time = timestamp % 2 ^ 64;
  publish_time = timestamp % 2 ^ 64;
  sequence = 0;
  advertisement = advertisement;
  data_length = length msg;
  payload = msg;
}

-- static_cast<ClientBinaryOpcode>(msg[0])
abbrev pub first_byte : List ℕ → ℕ
first_byte [] = 0
first_byte (b ∷ rest) = b

-- OpCode of websocketpp
pub data OpCode : Type 0 where
  text_op binary_op : OpCode
  other_op : ℕ → OpCode

module _ {Json B : Type 0} (J : JsonLib Json) (timestamp hdl : ℕ) where
  -- The case MESSAGE_DATA, for a client with publications.
  unfoldable pub handle_message_data : List ℕ → Exec (Server B) (Unit {0})
  handle_message_data msg = do
    let channel_id = read_u32_le (drop 1 msg)
    publication ← gets (λ s. find channel_id (publications hdl s))
    handler ← gets (λ s. s.handlers.client_message_handler)
    if ltb (length msg) 5
        then send_status J hdl error
            (concat ("Invalid message length " ∷ to_string (length msg) ∷ []))
        else match_option publication
            (send_status J hdl error
              (concat ("Channel " ∷ to_string channel_id ∷ " is not advertised" ∷ [])))
            (λ advertisement. call handler (client_message timestamp advertisement msg) hdl)

  unfoldable pub handle_binary_message : List ℕ → Exec (Server B) (Unit {0})
  handle_binary_message msg = do
    clients_publications ← gets (λ s. find hdl s.client_channels)
    if ltb (length msg) 1
        then send_status J hdl error "Received an empty binary message"
        else match_option clients_publications
            (send_status J hdl error "Client has no advertised channels")
            (λ _.
              if first_byte msg == client_message_data
              then handle_message_data msg
              else send_status J hdl error
                  (concat ("Unrecognized client opcode " ∷ to_string (first_byte msg) ∷ [])))

  abbrev pub by_opcode : OpCode → String → List ℕ → Exec (Server B) (Unit {0})
  by_opcode text_op text_payload bytes = handle_text_message J hdl text_payload
  by_opcode binary_op text_payload bytes = handle_binary_message bytes
  by_opcode (other_op n) text_payload bytes = skip

  -- The catch block.
  unfoldable pub report_exception : Exception → Exec (Server B) (Unit {0})
  unfolding send_status
  report_exception ex = send_status J hdl error (concat ("Error parsing message: " ∷ what ex ∷ []))

  -- The payload of a message is one buffer, read as a text or as bytes.
  unfoldable pub handle_message : OpCode → String → List ℕ → Exec (Server B) (Unit {0})
  handle_message op text_payload bytes = catching (by_opcode op text_payload bytes) report_exception
