-- ===== src/Ros2/Construction/Serving.antt =====
-- The second half of the constructor: the handlers, and the start of the server.
use foxglove_bridge_release.Base.{
  ℕ, ◌^◌, ◌%◌, ◌≡◌, refl, String, some, true, false, arith, inl, inr,
}
use foxglove_bridge_release.Base.Eq.{id_eq, string_eq}
use foxglove_bridge_release.Base.Exec.{Result, ok}
use foxglove_bridge_release.Server.{Server, Handlers}
use foxglove_bridge_release.Server.Channels.{
  set_subscribe_handler, set_unsubscribe_handler, set_client_advertise_handler,
  set_client_unadvertise_handler, set_client_message_handler,
}
use foxglove_bridge_release.Server.Lifecycle.{Websocketpp, Host, start, local_endpoint, TcpEndpoint}
use foxglove_bridge_release.Server.Lifecycle.Starting.{IsStarted, start_lem}
use foxglove_bridge_release.Ros2.{Bridge}
use foxglove_bridge_release.Ros2.Handlers.{
  subscribe_handler, unsubscribe_handler, client_advertise_handler, client_unadvertise_handler,
  client_message_handler,
}
use foxglove_bridge_release.Ros2.Start.{set_handlers, serve}

abbrev pub bridge_handlers : Handlers Bridge
bridge_handlers = record {
  subscribe_handler = some subscribe_handler;
  unsubscribe_handler = some unsubscribe_handler;
  client_advertise_handler = some client_advertise_handler;
  client_unadvertise_handler = some client_unadvertise_handler;
  client_message_handler = some client_message_handler;
}

-- The setters of the handlers change nothing else.
set_handlers_lem :
    (s : Server Bridge) → set_handlers s ≡ (ok tt, record s { handlers = bridge_handlers })
unfolding set_handlers set_subscribe_handler set_unsubscribe_handler set_client_advertise_handler
    set_client_unadvertise_handler set_client_message_handler
set_handlers_lem s = refl

abbrev pub with_handlers : {E : Type 0} → Host E Bridge → Host E Bridge
with_handlers h = record h { server = record (h.server) { handlers = bridge_handlers } }

module _ {E : Type 0} (W : Websocketpp E) where
  -- the outcomes of start that are left, for a call that returns
  returned :
      {Good : Type 0} (h : Host E Bridge) (p : Result (Unit {0}) × Host E Bridge)
      → IsStarted W Good h p
      → p.0 ≡ ok tt
      → (p.1.server ≡ h.server)
        × (p.1.server_thread ≡ true)
        × ((endpoint : TcpEndpoint) × (local_endpoint W p.1 ≡ some endpoint))
  returned h p (same, inl (good, e, thread, there)) r = (same, thread, there)
  returned h p (same, inr (bad, message, e)) r = cc

  started_host :
      (address : String) (port : ℕ) (h : Host E Bridge)
      → h.server_thread ≡ false
      → (start W address port h).0 ≡ ok tt
      → ((start W address port h).1.server ≡ h.server)
        × ((start W address port h).1.server_thread ≡ true)
        × ((endpoint : TcpEndpoint) × (local_endpoint W (start W address port h).1 ≡ some endpoint))
  started_host address port h fresh r = elim (start_lem W address port h) [
    | inl (e, s) ↦ returned h (start W address port h) s r
    | inr (e, s) ↦ cc
  ]

  -- When start returns, serve gives the port of the endpoint, and of the server only the handlers
  -- are changed.
  pub serve_lem :
      (address : String) (port : ℕ) (h : Host E Bridge)
      → h.server_thread ≡ false
      → (start W address (port % 2 ^ 16) (with_handlers h)).0 ≡ ok tt
      → (listening : ℕ) × (h' : Host E Bridge) × (serve W address port h ≡ (ok listening, h'))
        × (h'.server ≡ record (h.server) { handlers = bridge_handlers })
        × (h'.server_thread ≡ true)
  unfolding serve
  serve_lem address port h fresh r =
      let (same, thread, (endpoint, there)) =
        started_host address (port % 2 ^ 16) (with_handlers h) fresh r in
      let t : Host E Bridge = (start W address (port % 2 ^ 16) (with_handlers h)).1 in
      (endpoint.port, t, ground (arith, set_handlers_lem h.server, r, there), same, thread)

-- Every start of the endpoint returns, where no thread runs.
abbrev pub Starts : {E : Type 0} → Websocketpp E → E → Type 0
Starts {E} W e =
    (address : String) (port : ℕ) (h : Host E Bridge)
    → h.endpoint ≡ e
    → h.server_thread ≡ false
    → (start W address port h).0 ≡ ok tt
