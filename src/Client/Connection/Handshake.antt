-- ===== src/Client/Connection/Handshake.antt =====
-- A connection of the client, from connect to the handlers of the client and of the server.
use mathlib.Core.Path.{subst}
use foxglove_bridge_release.Base.{
  ℕ, ◌≡◌, refl, ap, ◌∙◌, String, Bool, true, false, none, some, List, [], ◌∷◌, ◌++◌, ◌⊎◌, inr,
  arith,
}
use foxglove_bridge_release.Base.Eq.{==_iff, id_eq, string_eq}
use foxglove_bridge_release.Base.Lists.{length}
use foxglove_bridge_release.Base.Map.{find, emplace, update, contains, find-emplace, find-update}
use foxglove_bridge_release.Base.Exec.{ok}
use foxglove_bridge_release.Wire.{supported_subprotocol}
use foxglove_bridge_release.Server.{Network, Connection}
use foxglove_bridge_release.Server.Connections.{validate_connection}
use foxglove_bridge_release.Client.Connection.{
  Connecting, ConnectionSetup, set_value, connect_con, no_setup, fulfil, is_ready, connect_new,
  connect, connect_future, connection_opened, run_open_handler,
}

is_ready-new : (bs : List Bool) → is_ready (length bs) (bs ++ false ∷ []) ≡ false
unfolding is_ready
is_ready-new [] = refl
is_ready-new (b ∷ bs) = is_ready-new bs

is_ready-fulfil-new :
    (bs : List Bool) → is_ready (length bs) (fulfil (length bs) (bs ++ false ∷ [])) ≡ true
unfolding is_ready fulfil
is_ready-fulfil-new [] = refl
is_ready-fulfil-new (b ∷ bs) = is_ready-fulfil-new bs

supported : contains supported_subprotocol (supported_subprotocol ∷ []) ≡ true
unfolding contains
supported = refl

-- The setup of the connection that connect(uri) makes.
abbrev pub future_setup : {U : Type 0} → ℕ → ConnectionSetup U
future_setup promise = record {
  open_handler = some (set_value promise);
  close_handler = none;
  subprotocols = supported_subprotocol ∷ [];
}

module _ {U : Type 0} (get_connection : String → String ⊎ ℕ) (uri : String) (con : ℕ)
    (answer : get_connection uri ≡ inr con) (c : Connecting U)
    (new : find con c.setups ≡ none) where
  connected :
      (c' : Connecting U) × (connect_future get_connection uri c ≡ (ok (length c.promises), c'))
      × (c'.promises ≡ c.promises ++ false ∷ [])
      × (c'.client.con ≡ some con)
      × (find con c'.setups ≡ some (future_setup (length c.promises)))
  unfolding connect_future connect connect_new
  connected =
      let handled : ConnectionSetup U → ConnectionSetup U =
        λ p. record p { open_handler = some (set_value (length c.promises)) } in
      let offered : ConnectionSetup U → ConnectionSetup U =
        λ p. record p { subprotocols = p.subprotocols ++ supported_subprotocol ∷ [] } in
      let made = emplace con no_setup c.setups in
      (
        record c {
          client = record (c.client) { con = some con };
          setups = update con offered (update con handled made);
          calls = c.calls ++ connect_con con ∷ [];
          promises = c.promises ++ false ∷ [];
        },
        ground (arith, answer),
        refl,
        refl,
        ground (
          arith,
          new,
          ==_iff con con,
          find-update con con offered (update con handled made),
          find-update con con handled made,
          find-emplace con con no_setup c.setups,
        ),
      )

  -- what the server's side knows of the connection: it offers what the client has set up
  abbrev pub OffersSetup : Network → ℕ → Connecting U → Type 0
  OffersSetup net hdl c' =
      (k : Connection) × (p : ConnectionSetup U) × (net hdl ≡ some k)
      × (find con c'.setups ≡ some p)
      × (k.requested_subprotocols ≡ p.subprotocols)

  accepted :
      (net : Network) (hdl : ℕ) (c' : Connecting U)
      → find con c'.setups ≡ some (future_setup (length c.promises))
      → OffersSetup net hdl c'
      → validate_connection net hdl ≡ ok (true, some supported_subprotocol)
  unfolding validate_connection
  accepted net hdl c' e (k, p, there, set, offers) =
      let same : p ≡ future_setup (length c.promises) = ground (arith, set, e) in
      let names : k.requested_subprotocols ≡ supported_subprotocol ∷ [] =
        ground (arith, same, offers) in
      let found : contains supported_subprotocol k.requested_subprotocols ≡ true =
        ap (contains supported_subprotocol) names ∙ supported in
      ground (arith, there, found)

  opens :
      (c' : Connecting U)
      → c'.promises ≡ c.promises ++ false ∷ []
      → find con c'.setups ≡ some (future_setup (length c.promises))
      → connection_opened con c'
        ≡ (ok tt, record c' { promises = fulfil (length c.promises) (c.promises ++ false ∷ []) })
  unfolding connection_opened run_open_handler
  opens c' e f = ground (arith, f, e)

  -- When get_connection gives a new connection, connect(uri) returns a future that is not ready. A
  -- server at which the connection comes in with the subprotocols that connect has set accepts it
  -- and selects the supported one, and once the client's side has opened the future is ready.
  pub connect_future-accepted :
      (net : Network) (hdl : ℕ)
      → OffersSetup net hdl (connect_future get_connection uri c).1
      → let promise = length c.promises in
        let c' = (connect_future get_connection uri c).1 in
        ((connect_future get_connection uri c).0 ≡ ok promise)
        × (is_ready promise c'.promises ≡ false)
        × (validate_connection net hdl ≡ ok (true, some supported_subprotocol))
        × (is_ready promise (connection_opened con c').1.promises ≡ true)
  connect_future-accepted net hdl offers =
      let (c', e, promises, client, setup) = connected in
      let s : (connect_future get_connection uri c).1 ≡ c' = ap (λ p. p.1) e in
      (
        ap (λ p. p.0) e,
        rw (s, promises) (is_ready-new c.promises),
        accepted net hdl c' setup (subst (OffersSetup net hdl) s offers),
        rw (s, opens c' promises setup) (is_ready-fulfil-new c.promises),
      )
