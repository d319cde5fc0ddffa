-- ===== src/Client.antt =====
-- foxglove_bridge_base/include/foxglove_bridge/websocket_client.hpp: the test client, and what the
-- test of foxglove_bridge_base/src/test/test_client.cpp takes from a binary message.
-- The endpoint and its connection are websocketpp's: a connection is a number, and a send is
-- recorded with the connection it is made on.
pub mod Requests
pub mod Subscribing
pub mod Unsubscribing
pub mod Connection
use foxglove_bridge_release.Base.{ℕ, ◌+◌, String, Option, none, some, List, [], ◌∷◌, ◌++◌, map}
use foxglove_bridge_release.Base.Lists.{drop}
use foxglove_bridge_release.Base.Exec.{
  Exec, lift, modify, match_option, skip, throw, failure, gets, ◌>>=◌, ◌>>◌,
}
use foxglove_bridge_release.Base.Text.{concat}
use foxglove_bridge_release.Json.{JsonLib}
use foxglove_bridge_release.Wire.{ClientAdvertisement, client_message_data, supported_subprotocol}
use foxglove_bridge_release.Wire.Serialization.{write_uint32_le}
use foxglove_bridge_release.Server.{Frame, text, binary}

-- What a message handler of the client's user does: it runs on the user's own state.
pub record Client (U : Type 0) : Type 0 where
  pub con : Option ℕ
  pub text_message_handler : Option (String → Exec U (Unit {0}))
  pub binary_message_handler : Option (List ℕ → Exec U (Unit {0}))
  pub user : U
  pub sent : List (Option ℕ × Frame)
  pub closed : List ℕ

module _ {U : Type 0} where
  on_user : Exec U (Unit {0}) → Exec (Client U) (Unit {0})
  on_user m c = let (r, u) = m c.user in (r, record c { user = u })

  unfoldable pub close : Exec (Client U) (Unit {0})
  close = do
    con ← gets (λ c. c.con)
    match_option con skip (λ n. modify (λ c. record c { closed = c.closed ++ n ∷ []; con = none }))

  unfoldable pub send_frame : Frame → Exec (Client U) (Unit {0})
  send_frame frame = modify (λ c. record c { sent = c.sent ++ (c.con, frame) ∷ [] })

  unfoldable pub message_handler : Frame → Exec (Client U) (Unit {0})
  unfolding on_user
  message_handler (text payload) = do
    handler ← gets (λ c. c.text_message_handler)
    match_option handler skip (λ f. on_user (f payload))
  message_handler (binary payload) = do
    handler ← gets (λ c. c.binary_message_handler)
    match_option handler skip (λ f. on_user (f payload))

  unfoldable pub set_text_message_handler :
      Option (String → Exec U (Unit {0})) → Exec (Client U) (Unit {0})
  set_text_message_handler handler = modify (λ c. record c { text_message_handler = handler })

  unfoldable pub set_binary_message_handler :
      Option (List ℕ → Exec U (Unit {0})) → Exec (Client U) (Unit {0})
  set_binary_message_handler handler = modify (λ c. record c { binary_message_handler = handler })

module _ {Json : Type 0} (J : JsonLib Json) where
  -- {{"id", subId}, {"channelId", channelId}}
  unfoldable pub subscription_json : ℕ × ℕ → Json
  subscription_json (sub_id, channel_id) =
      J.object (("id", J.number sub_id) ∷ ("channelId", J.number channel_id) ∷ [])

  unfoldable pub push_subscriptions : Json → List (ℕ × ℕ) → Json
  unfolding subscription_json
  push_subscriptions j [] = j
  push_subscriptions j (p ∷ ps) = push_subscriptions (J.push_back j (subscription_json p)) ps

  unfoldable pub subscribe_payload : List (ℕ × ℕ) → Json
  subscribe_payload subscriptions = J.object (
      ("op", J.string "subscribe")
      ∷ ("subscriptions", push_subscriptions J.null subscriptions)
      ∷ [])

  unfoldable pub unsubscribe_payload : List ℕ → Json
  unsubscribe_payload ids =
      J.object
        (("op", J.string "unsubscribe") ∷ ("subscriptionIds", J.array (map J.number ids)) ∷ [])

  -- to_json(nlohmann::json&, const ClientAdvertisement&)
  unfoldable pub advertisement_json : ClientAdvertisement → Json
  advertisement_json p = J.object (
      ("id", J.number p.channel_id)
      ∷ ("topic", J.string p.topic)
      ∷ ("encoding", J.string p.encoding)
      ∷ ("schemaName", J.string p.schema_name)
      ∷ [])

  unfoldable pub client_advertise_payload : List ClientAdvertisement → Json
  client_advertise_payload channels =
      J.object (
        ("op", J.string "advertise") ∷ ("channels", J.array (map advertisement_json channels)) ∷ [])

  unfoldable pub client_unadvertise_payload : List ℕ → Json
  client_unadvertise_payload ids =
      J.object (("op", J.string "unadvertise") ∷ ("channelIds", J.array (map J.number ids)) ∷ [])

module _ {Json U : Type 0} (J : JsonLib Json) where
  unfoldable pub subscribe : List (ℕ × ℕ) → Exec (Client U) (Unit {0})
  subscribe subscriptions =
      lift (J.dump (subscribe_payload J subscriptions)) >>= λ message. send_frame (text message)

  unfoldable pub unsubscribe : List ℕ → Exec (Client U) (Unit {0})
  unsubscribe ids =
      lift (J.dump (unsubscribe_payload J ids)) >>= λ message. send_frame (text message)

  unfoldable pub advertise : List ClientAdvertisement → Exec (Client U) (Unit {0})
  advertise channels =
      lift (J.dump (client_advertise_payload J channels)) >>= λ message. send_frame (text message)

  unfoldable pub unadvertise : List ℕ → Exec (Client U) (Unit {0})
  unadvertise ids =
      lift (J.dump (client_unadvertise_payload J ids)) >>= λ message. send_frame (text message)

unfoldable pub publish_frame : ℕ → List ℕ → List ℕ
publish_frame channel_id buffer = client_message_data ∷ (write_uint32_le channel_id ++ buffer)

unfoldable pub publish : {U : Type 0} → ℕ → List ℕ → Exec (Client U) (Unit {0})
unfolding publish_frame
publish channel_id buffer = send_frame (binary (publish_frame channel_id buffer))

-- connectClientAndReceiveMsg: the data of a binary message, behind opcode, id and timestamp
unfoldable pub received_data : List ℕ → List ℕ
received_data message = drop (1 + 4 + 8) message
