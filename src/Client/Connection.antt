-- ===== src/Client/Connection.antt =====
-- websocket_client.hpp: the constructor and the destructor of the client, connect in both forms, and
-- what a connection is set up with. websocketpp's endpoint is a parameter where it answers, and a
-- list of what it is told where it does not.
pub mod Handshake
use foxglove_bridge_release.Base.{
  ℕ, zero, suc, String, Bool, true, false, Option, none, some, List, [], ◌∷◌, ◌++◌, ◌⊎◌, inl, inr,
  if◌then◌else◌,
}
use foxglove_bridge_release.Base.Eq.{◌==◌, id_eq}
use foxglove_bridge_release.Base.Lists.{length}
use foxglove_bridge_release.Base.Text.{concat}
use foxglove_bridge_release.Base.Map.{Map, find, emplace, update}
use foxglove_bridge_release.Base.Exec.{
  Exec, Result, ok, failure, throw, gets, modify, skip, match_option, pure, ◌>>=◌, ◌>>◌,
}
use foxglove_bridge_release.Wire.{supported_subprotocol}
use foxglove_bridge_release.Client.{Client, close}

-- What runs when a connection opens: a function of the user, or the fulfilment of the promise with
-- the number given.
pub data OpenHandler (U : Type 0) : Type 0 where
  user_function : Exec U (Unit {0}) → OpenHandler U
  set_value : ℕ → OpenHandler U

-- what a connection is set up with
pub record ConnectionSetup (U : Type 0) : Type 0 where
  pub open_handler : Option (OpenHandler U)
  pub close_handler : Option (Exec U (Unit {0}))
  pub subprotocols : List String

-- What the endpoint is told.
pub data EndpointCall : Type 0 where
  clear_access_channels clear_error_channels init_asio start_perpetual : EndpointCall
  set_message_handler run stop_perpetual join : EndpointCall
  connect_con : ℕ → EndpointCall

pub record Connecting (U : Type 0) : Type 0 where
  pub client : Client U
  pub setups : Map ℕ (ConnectionSetup U)
  pub calls : List EndpointCall
  -- whether the promise with each number is fulfilled
  pub promises : List Bool

abbrev pub no_setup : {U : Type 0} → ConnectionSetup U
no_setup = record { open_handler = none; close_handler = none; subprotocols = [] }

unfoldable pub fulfil : ℕ → List Bool → List Bool
fulfil i [] = []
fulfil zero (b ∷ bs) = true ∷ bs
fulfil (suc i) (b ∷ bs) = b ∷ fulfil i bs

-- future.wait_for(0) == ready
unfoldable pub is_ready : ℕ → List Bool → Bool
is_ready i [] = false
is_ready zero (b ∷ bs) = b
is_ready (suc i) (b ∷ bs) = is_ready i bs

module _ {U : Type 0} where
  abbrev told : EndpointCall → Exec (Connecting U) (Unit {0})
  told call = modify (λ c. record c { calls = c.calls ++ call ∷ [] })

  -- Client()
  unfoldable pub construct : Exec (Connecting U) (Unit {0})
  construct = do
    told clear_access_channels
    told clear_error_channels
    told init_asio
    told start_perpetual
    told set_message_handler
    told run

  abbrev on_client : {A : Type 0} → Exec (Client U) A → Exec (Connecting U) A
  on_client m c = let (r, d) = m c.client in (r, record c { client = d })

  -- ~Client()
  unfoldable pub destroy : Exec (Connecting U) (Unit {0})
  destroy = do on_client close; told stop_perpetual; told join

  abbrev set_up : ℕ → (ConnectionSetup U → ConnectionSetup U) → Exec (Connecting U) (Unit {0})
  set_up con f = modify (λ c. record c { setups = update con f c.setups })

  abbrev set_con : Option ℕ → Exec (Connecting U) (Unit {0})
  set_con con = modify (λ c. record c { client = record (c.client) { con = con } })

  -- connect for a new connection, behind the test of the error code
  unfoldable pub connect_new :
      ℕ → Option (OpenHandler U) → Option (Exec U (Unit {0})) → Exec (Connecting U) (Unit {0})
  connect_new con on_open on_close = do
    set_con (some con)
    modify (λ c. record c { setups = emplace con no_setup c.setups })
    match_option on_open skip (λ h. set_up con (λ p. record p { open_handler = some h }))
    match_option on_close skip (λ h. set_up con (λ p. record p { close_handler = some h }))
    set_up con (λ p. record p { subprotocols = p.subprotocols ++ supported_subprotocol ∷ [] })
    told (connect_con con)

  -- connect(uri, onOpenHandler, onCloseHandler), for what get_connection answers: an error, with
  -- no connection, or a new connection.
  unfoldable pub connect :
      (String → String ⊎ ℕ)
      → String
      → Option (OpenHandler U)
      → Option (Exec U (Unit {0}))
      → Exec (Connecting U) (Unit {0})
  connect get_connection uri on_open on_close = elim (get_connection uri) [
    | inl message ↦
        set_con none >> throw (failure (concat ("Failed to get connection from URI " ∷ uri ∷ [])))
    | inr con ↦ connect_new con on_open on_close
  ]

  -- connect(uri), which gives the number of the promise
  unfoldable pub connect_future : (String → String ⊎ ℕ) → String → Exec (Connecting U) ℕ
  connect_future get_connection uri = do
    promise ← gets (λ c. length c.promises)
    modify (λ c. record c { promises = c.promises ++ false ∷ [] })
    connect get_connection uri (some (set_value promise)) none
    pure promise

  -- What websocketpp does when a connection has opened: it calls the handler that was set.
  unfoldable pub run_open_handler : OpenHandler U → Exec (Connecting U) (Unit {0})
  run_open_handler (user_function f) =
      on_client (λ c. let (r, u) = f c.user in (r, record c { user = u }))
  run_open_handler (set_value i) = modify (λ c. record c { promises = fulfil i c.promises })

  unfoldable pub connection_opened : ℕ → Exec (Connecting U) (Unit {0})
  connection_opened con = do
    setup ← gets (λ c. find con c.setups)
    match_option setup skip (λ p. match_option p.open_handler skip run_open_handler)
