-- ===== src/Server/Channels.antt =====
-- websocket_server.hpp: addChannel, removeChannel, broadcastChannels, sendMessage, broadcastTime,
-- and the setters of the handlers.
use foxglove_bridge_release.Base.{
  ℕ, ◌+◌, ◌%◌, ◌^◌, Option, none, some, List, [], ◌∷◌, ◌++◌, if◌then◌else◌, ltb,
}
use foxglove_bridge_release.Base.Eq.{id_eq}
use foxglove_bridge_release.Base.Lists.{is_empty}
use foxglove_bridge_release.Base.Map.{find, emplace, erase}
use foxglove_bridge_release.Base.Exec.{
  Exec, lift, match_option, pure, gets, modify, skip, for_each, ◌>>=◌, ◌>>◌,
}
use foxglove_bridge_release.Json.{JsonLib}
use foxglove_bridge_release.Wire.{message_data, time_data, binary_opcode_value, ClientAdvertisement}
use foxglove_bridge_release.Wire.Serialization.{write_uint32_le, write_uint64_le}
use foxglove_bridge_release.Server.{Server, ChannelWithoutId, Callback, ClientMessage, Network}
use foxglove_bridge_release.Server.Text.{set_client}
use foxglove_bridge_release.Server.Send.{send_json, send_json_raw, send_binary, advertise_payload}

-- message[0], then the subscription id, the timestamp and the data
unfoldable pub message_frame : ℕ → ℕ → List ℕ → List ℕ
message_frame sub_id timestamp bytes =
    binary_opcode_value message_data
    ∷ (write_uint32_le sub_id ++ (write_uint64_le timestamp ++ bytes))

unfoldable pub time_frame : ℕ → List ℕ
time_frame timestamp = binary_opcode_value time_data ∷ write_uint64_le timestamp

module _ {Json : Type 0} (J : JsonLib Json) where
  unfoldable pub unadvertise_payload : ℕ → Json
  unadvertise_payload chan_id =
      J.object
        (("op", J.string "unadvertise") ∷ ("channelIds", J.array (J.number chan_id ∷ [])) ∷ [])

module _ {B : Type 0} where
  unfoldable pub add_channel : ChannelWithoutId → Exec (Server B) ℕ
  add_channel channel = do
    modify (λ s. record s { next_channel_id = (s.next_channel_id + 1) % 2 ^ 32 })
    new_id ← gets (λ s. s.next_channel_id)
    modify (λ s. record s {
      channels = emplace new_id (record { base = channel; id = new_id }) s.channels;
    })
    pure new_id

module _ {Json B : Type 0} (J : JsonLib Json) where
  -- The body of the loop over the clients.
  unfoldable pub remove_from_client : ℕ → ℕ → Exec (Server B) (Unit {0})
  unfolding send_json
  remove_from_client chan_id hdl = do
    set_client hdl
        (λ c. record c { subscriptions_by_channel = erase chan_id c.subscriptions_by_channel })
    send_json J hdl (unadvertise_payload J chan_id)

  unfoldable pub remove_channel : ℕ → Exec (Server B) (Unit {0})
  remove_channel chan_id = do
    modify (λ s. record s { channels = erase chan_id s.channels })
    clients ← gets (λ s. s.clients)
    for_each clients (λ p. remove_from_client chan_id p.0)

  unfoldable pub broadcast_channels : Exec (Server B) (Unit {0})
  broadcast_channels = do
    clients ← gets (λ s. s.clients)
    channels ← gets (λ s. s.channels)
    if is_empty clients then skip else (do
      message ← lift (J.dump (advertise_payload J channels))
      for_each clients (λ p. send_json_raw p.0 message))

module _ {B : Type 0} where
  -- the subscription id of the client for the channel, if both are there
  unfoldable pub subscription_of : ℕ → ℕ → Server B → Option ℕ
  subscription_of hdl chan_id s = elim (find hdl s.clients) [
    | none ↦ none
    | some client ↦ find chan_id client.subscriptions_by_channel
  ]

  unfoldable pub send_message : Network → ℕ → ℕ → ℕ → List ℕ → Exec (Server B) (Unit {0})
  unfolding subscription_of
  send_message net hdl chan_id timestamp bytes = do
    limit ← gets (λ s. s.send_buffer_limit_bytes)
    subscription ← gets (subscription_of hdl chan_id)
    match_option (net hdl) skip (λ con.
        if ltb con.buffered_amount limit
        then match_option subscription skip
            (λ sub_id. send_binary hdl (message_frame sub_id timestamp bytes))
        else skip)

  unfoldable pub broadcast_time : ℕ → Exec (Server B) (Unit {0})
  broadcast_time timestamp = do
    clients ← gets (λ s. s.clients)
    for_each clients (λ p. send_binary p.0 (time_frame timestamp))

  unfoldable pub set_subscribe_handler : Option (Callback B ℕ) → Exec (Server B) (Unit {0})
  set_subscribe_handler handler =
      modify (λ s. record s { handlers = record (s.handlers) { subscribe_handler = handler } })

  unfoldable pub set_unsubscribe_handler : Option (Callback B ℕ) → Exec (Server B) (Unit {0})
  set_unsubscribe_handler handler =
      modify (λ s. record s { handlers = record (s.handlers) { unsubscribe_handler = handler } })

  unfoldable pub set_client_advertise_handler :
      Option (Callback B ClientAdvertisement) → Exec (Server B) (Unit {0})
  set_client_advertise_handler handler =
      modify
        (λ s. record s { handlers = record (s.handlers) { client_advertise_handler = handler } })

  unfoldable pub set_client_unadvertise_handler : Option (Callback B ℕ) → Exec (Server B) (Unit {0})
  set_client_unadvertise_handler handler =
      modify
        (λ s. record s { handlers = record (s.handlers) { client_unadvertise_handler = handler } })

  unfoldable pub set_client_message_handler :
      Option (Callback B ClientMessage) → Exec (Server B) (Unit {0})
  set_client_message_handler handler =
      modify (λ s. record s { handlers = record (s.handlers) { client_message_handler = handler } })
