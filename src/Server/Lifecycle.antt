-- ===== src/Server/Lifecycle.antt =====
-- websocket_server.hpp: start, stop and localEndpoint. websocketpp's endpoint is a parameter: its
-- own state `E` with the calls that the server makes of it (`Websocketpp`). Two of them run handlers
-- of the server, so they act on the whole state (`Host`): poll_one, and what happens until the run
-- loop, which start hands to a thread of its own, has ended and join returns.
pub mod Stopping
pub mod Starting
use foxglove_bridge_release.Base.{
  ℕ, zero, suc, ◌+◌, String, Bool, true, false, not, ◌&&◌, Option, none, some, List, [], ◌∷◌, ◌⊎◌,
  inl, inr, if◌then◌else◌, ltb,
}
use foxglove_bridge_release.Base.Lists.{is_empty}
use foxglove_bridge_release.Base.Map.{Map}
use foxglove_bridge_release.Base.Text.{concat, to_string}
use foxglove_bridge_release.Base.Exec.{
  Exec, ok, failure, throw, gets, modify, skip, match_option, ◌>>=◌, ◌>>◌,
}
use foxglove_bridge_release.Server.{Server, ClientInfo}

-- asio::ip::tcp::endpoint
pub record TcpEndpoint : Type 0 where
  pub address : String
  pub port : ℕ

-- An error code is the text of its message(), or `none` for success.
pub record Websocketpp (E : Type 0) : Type 0 where
  pub stopped : E → Bool
  pub is_listening : E → Bool
  pub listen : String → String → E → Option String × E
  pub start_accept : E → Option String × E
  pub get_local_endpoint : E → String ⊎ TcpEndpoint
  pub stop_perpetual : E → E
  pub stop_listening : E → E
  -- whether get_con_from_hdl finds a connection
  pub get_con_from_hdl : ℕ → E → Bool
  pub close : ℕ → E → E
  pub terminate : ℕ → E → E
  pub stop : E → E

pub record Host (E B : Type 0) : Type 0 where
  pub endpoint : E
  pub server : Server B
  -- whether _serverThread is set
  pub server_thread : Bool

abbrev pub max_shutdown_ms : ℕ
max_shutdown_ms = 1_000

abbrev pub sleep_ms : ℕ
sleep_ms = 10

module _ {E B : Type 0} where
  abbrev pub on_endpoint : (E → E) → Host E B → Host E B
  on_endpoint f h = record h { endpoint = f h.endpoint }

  abbrev on_endpoint_ec : (E → Option String × E) → Exec (Host E B) (Option String)
  on_endpoint_ec f = do
    r ← gets (λ h. f h.endpoint)
    modify (on_endpoint (λ e. r.1))
    λ h. (ok (r.0), h)

module _ {E : Type 0} (W : Websocketpp E) where
  -- the handles of the clients that still have a connection
  unfoldable pub connections_of : E → Map ℕ ClientInfo → List ℕ
  connections_of e [] = []
  connections_of e ((hdl, client) ∷ clients) =
      let rest = connections_of e clients in if W.get_con_from_hdl hdl e then hdl ∷ rest else rest

  -- for (const auto& connection : connections) connection->close(...)
  unfoldable pub close_all : List ℕ → E → E
  close_all [] e = e
  close_all (hdl ∷ hdls) e = close_all hdls (W.close hdl e)

  unfoldable pub terminate_all : List ℕ → E → E
  terminate_all [] e = e
  terminate_all (hdl ∷ hdls) e =
      terminate_all hdls (if W.get_con_from_hdl hdl e then W.terminate hdl e else e)

module _ {E B : Type 0} (W : Websocketpp E) where
  unfoldable pub force_stop : List ℕ → Host E B → Host E B
  force_stop connections h =
      if W.stopped h.endpoint
      then h
      else on_endpoint (λ e. W.stop (terminate_all W connections e)) h

  -- up to where the connections are collected
  unfoldable pub stop_accepting : Host E B → Host E B
  stop_accepting h =
      let perpetual = on_endpoint W.stop_perpetual h in
      if W.is_listening perpetual.endpoint
      then on_endpoint W.stop_listening perpetual
      else perpetual

module _ {E B : Type 0} (W : Websocketpp E) (poll_one : Host E B → Host E B) where
  -- The loop that waits for the connections to close; the sleep is not modelled. It gives the
  -- duration that it counted, too.
  unfoldable pub wait_loop : ℕ → ℕ → Host E B → ℕ × Host E B
  wait_loop zero duration_ms h = (duration_ms, h)
  wait_loop (suc fuel) duration_ms h =
      let rest = wait_loop fuel (duration_ms + sleep_ms) (poll_one h) in
      if not (W.stopped h.endpoint) && ltb duration_ms max_shutdown_ms
      then rest
      else (duration_ms, h)

  -- if (!connections.empty()) { ... }; a round of the loop takes 10 of the 1000 ms.
  unfoldable pub close_connections : List ℕ → Host E B → Host E B
  close_connections connections h =
      if is_empty connections
      then h
      else force_stop W connections (wait_loop 100 0 (on_endpoint (close_all W connections) h)).1

unfoldable pub join_thread : {E B : Type 0} → (Host E B → Host E B) → Host E B → Host E B
join_thread join h = if h.server_thread then record (join h) { server_thread = false } else h

module _ {E B : Type 0} (W : Websocketpp E) (poll_one join : Host E B → Host E B) where
  -- Behind the test of stopped().
  unfoldable pub stop_running : Host E B → Host E B
  stop_running h =
      let accepting = stop_accepting W h in
      let connections = connections_of W accepting.endpoint accepting.server.clients in
      let joined = join_thread join (close_connections W poll_one connections accepting) in
      record joined { server = record (joined.server) { clients = [] } }

  unfoldable pub stop : Host E B → Host E B
  stop h = if W.stopped h.endpoint then h else stop_running h

module _ {E B : Type 0} (W : Websocketpp E) where
  -- from the creation of the thread on
  unfoldable pub run_server : ℕ → Exec (Host E B) (Unit {0})
  run_server port = do
    modify (λ h. record h { server_thread = true })
    listening ← gets (λ h. W.is_listening h.endpoint)
    resolved ← gets (λ h. W.get_local_endpoint h.endpoint)
    if listening
        then elim resolved [
          | inl message ↦
              throw (failure (concat ("Failed to resolve the local endpoint: " ∷ message ∷ [])))
          | inr endpoint ↦ skip
        ]
        else throw
            (failure (concat ("WebSocket server failed to listen on port " ∷ to_string port ∷ [])))

  unfoldable pub start_accepting : ℕ → Exec (Host E B) (Unit {0})
  start_accepting port = do
    ec ← on_endpoint_ec W.start_accept
    elim ec [
      | some message ↦
          throw (failure (concat ("Failed to start accepting connections: " ∷ message ∷ [])))
      | none ↦ run_server port
    ]

  -- Behind the test of the thread.
  unfoldable pub start_listening : String → ℕ → Exec (Host E B) (Unit {0})
  start_listening host port = do
    ec ← on_endpoint_ec (W.listen host (to_string port))
    elim ec [
      | some message ↦
          throw
            (failure (concat ("Failed to listen on port " ∷ to_string port ∷ ": " ∷ message ∷ [])))
      | none ↦ start_accepting port
    ]

  unfoldable pub start : String → ℕ → Exec (Host E B) (Unit {0})
  start host port = do
    started ← gets (λ h. h.server_thread)
    if started then throw (failure "Server already started") else start_listening host port

  unfoldable pub local_endpoint : Host E B → Option TcpEndpoint
  local_endpoint h = elim (W.get_local_endpoint h.endpoint) [
    | inl message ↦ none
    | inr endpoint ↦ some endpoint
  ]

-- a call of a method of the server
abbrev pub on_server : {E B A : Type 0} → Exec (Server B) A → Exec (Host E B) A
on_server m h = let (r, s) = m h.server in (r, record h { server = s })
