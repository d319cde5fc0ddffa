-- ===== src/Server/Connections.antt =====
-- websocket_server.hpp: validateConnection, handleConnectionOpened, handleConnectionClosed.
use foxglove_bridge_release.Base.{
  ℕ, String, Option, none, some, Bool, true, false, List, [], ◌∷◌, map, if◌then◌else◌,
}
use foxglove_bridge_release.Base.Eq.{id_eq, string_eq}
use foxglove_bridge_release.Base.Map.{Map, find, emplace, erase, contains}
use foxglove_bridge_release.Base.Exec.{
  Exception, Result, ok, throws, Exec, failure, lift, or_throw, match_option, gets, modify, skip,
  for_each, ◌>>=◌, ◌>>◌,
}
use foxglove_bridge_release.Json.{JsonLib}
use foxglove_bridge_release.Wire.{supported_subprotocol}
use foxglove_bridge_release.Server.{Server, ClientInfo, text, Network, remote_endpoint_string, call}
use foxglove_bridge_release.Server.Send.{send, send_json, advertise_payload}

-- get_con_from_hdl throws on a handle that stands for no connection.
abbrev pub bad_connection : Exception
bad_connection = failure "Bad Connection"

-- The answer, and the subprotocol that is selected on the connection.
unfoldable pub validate_connection : Network → ℕ → Result (Bool × Option String)
validate_connection net hdl = elim (net hdl) [
  | none ↦ throws bad_connection
  | some con ↦
      if contains supported_subprotocol con.requested_subprotocols
      then ok (true, some supported_subprotocol)
      else ok (false, none)
]

module _ {Json : Type 0} (J : JsonLib Json) where
  unfoldable pub server_info_payload : String → List String → Json
  server_info_payload name capabilities = J.object (
      ("op", J.string "serverInfo")
      ∷ ("name", J.string name)
      ∷ ("capabilities", J.array (map J.string capabilities))
      ∷ [])

module _ {Json B : Type 0} (J : JsonLib Json) where
  unfoldable pub handle_connection_opened : Network → ℕ → Exec (Server B) (Unit {0})
  unfolding send_json
  handle_connection_opened net hdl = do
    con ← or_throw (net hdl) bad_connection
    modify (λ s. record s {
      clients =
          emplace hdl
            (record {
              name = remote_endpoint_string net hdl;
              handle = hdl;
              subscriptions_by_channel = [];
              advertised_channels = [];
            })
            s.clients;
    })
    server_info ← gets (λ s. server_info_payload J s.name s.capabilities)
    message ← lift (J.dump server_info)
    send hdl (text message)
    advertise ← gets (λ s. advertise_payload J s.channels)
    send_json J hdl advertise

module _ {B : Type 0} where
  -- the loop over oldAdvertisedChannels
  unfoldable pub unadvertise_all : ℕ → List ℕ → Exec (Server B) (Unit {0})
  unadvertise_all hdl ids = do
    handler ← gets (λ s. s.handlers.client_unadvertise_handler)
    for_each ids (λ id. call handler id hdl)

  -- the loop over oldSubscriptionsByChannel
  unfoldable pub unsubscribe_all : ℕ → Map ℕ ℕ → Exec (Server B) (Unit {0})
  unsubscribe_all hdl subscriptions = do
    handler ← gets (λ s. s.handlers.unsubscribe_handler)
    for_each subscriptions (λ p. call handler p.0 hdl)

  -- what follows that loop
  unfoldable pub forget_client : ℕ → Map ℕ ℕ → Exec (Server B) (Unit {0})
  forget_client hdl subscriptions = do
    modify (λ s. record s { client_channels = erase hdl s.client_channels })
    unsubscribe_all hdl subscriptions

  -- what follows the locked block, for the entry that was erased
  unfoldable pub release_client : ℕ → ClientInfo → Exec (Server B) (Unit {0})
  release_client hdl client = do
    unadvertise_all hdl client.advertised_channels
    forget_client hdl client.subscriptions_by_channel

  unfoldable pub handle_connection_closed : ℕ → Exec (Server B) (Unit {0})
  handle_connection_closed hdl = do
    client ← gets (λ s. find hdl s.clients)
    match_option client skip (λ client_info.
        modify (λ s. record s { clients = erase hdl s.clients }) >> release_client hdl client_info)
