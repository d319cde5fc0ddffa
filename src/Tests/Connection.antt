-- ===== src/Tests/Connection.antt =====
-- The connection of the client and the setup of the server at concrete inputs.
use foxglove_bridge_release.Base.{
  ℕ, ◌≡◌, ◌↔◌, refl, String, true, false, none, some, List, [], ◌∷◌, ◌⊎◌, inl, inr, if◌then◌else◌,
}
use foxglove_bridge_release.Base.Eq.{◌==◌, string_eq, id_eq}
use foxglove_bridge_release.Base.Map.{find, emplace, update}
use foxglove_bridge_release.Base.Text.{concat}
use foxglove_bridge_release.Base.Exec.{ok, throws, failure}
use foxglove_bridge_release.Wire.{supported_subprotocol}
use foxglove_bridge_release.Server.{Connection}
use foxglove_bridge_release.Server.Connections.{validate_connection}
use foxglove_bridge_release.Server.Construction.{
  Ssl, ciphers, alog_callback, elog_callback, construct, tls_init,
}
use foxglove_bridge_release.Server.Construction.Tls.{GoesWell, with_key, tls_init_lem}
use foxglove_bridge_release.Client.Connection.{
  Connecting, connect, connect_new, connect_future, connection_opened, is_ready,
}
use foxglove_bridge_release.Client.Connection.Handshake.{future_setup, connect_future-accepted}

abbrev idle_client : Connecting ℕ
idle_client = record {
  client = record {
    con = none;
    text_message_handler = none;
    binary_message_handler = none;
    user = 0;
    sent = [];
    closed = [];
  };
  setups = [];
  calls = [];
  promises = true ∷ [];
}

abbrev connections : String → String ⊎ ℕ
connections uri = if uri == "ws://localhost:8765" then inr 4 else inl "invalid uri"

-- With no connection, connect throws, and the client has none.
connect_invalid : connect connections "localhost" none none idle_client ≡ (
  throws (failure (concat ("Failed to get connection from URI " ∷ "localhost" ∷ []))),
  idle_client,
)
unfolding connect
connect_invalid = refl

-- the connection as the server sees it
abbrev offered : Connection
offered = record {
  remote_endpoint = "[::1]:1234";
  resource = "/";
  requested_subprotocols = supported_subprotocol ∷ [];
  buffered_amount = 0;
}

connect_future-accepted_example :
    let c' = (connect_future connections "ws://localhost:8765" idle_client).1 in
    ((connect_future connections "ws://localhost:8765" idle_client).0 ≡ ok 1)
    × (is_ready 1 c'.promises ≡ false)
    × (validate_connection (λ h. some offered) 6 ≡ ok (true, some supported_subprotocol))
    × (is_ready 1 (connection_opened 4 c').1.promises ≡ true)
connect_future-accepted_example =
    connect_future-accepted connections "ws://localhost:8765" 4 refl idle_client
      (unfold find in refl) (λ h. some offered) 6
      (
        offered,
        future_setup 1,
        refl,
        unfold connect_future connect connect_new find emplace update in refl,
        refl,
      )

-- An endpoint of asio that cannot be made leaves the handlers unset.
construct_fails : construct (some "no threads") true (record { settings = []; log = [] }) ≡ (
  throws (failure (concat ("Failed to initialize websocket server: " ∷ "no threads" ∷ []))),
  record { settings = alog_callback ∷ elog_callback ∷ []; log = [] },
)
unfolding construct
construct_fails = refl

-- A context that knows its files; the key is not readable.
abbrev sample_ssl : Ssl (List String)
sample_ssl = record {
  sslv23 = ok [];
  set_options = λ options c. (ok tt, c);
  use_certificate_chain_file = λ file c. (ok tt, file ∷ c);
  use_private_key_file = λ file c. (throws (failure "no such file"), c);
  set_cipher_list = λ names c. (true, c);
}

tls_init_lem_example :
    (context : List String) × ((tls_init sample_ssl "cert.pem" "key.pem").0 ≡ ok context)
    × (((tls_init sample_ssl "cert.pem" "key.pem").1 ≡ []) ↔ (
        GoesWell sample_ssl "cert.pem" "key.pem" []
        × (context
            ≡ (sample_ssl.set_cipher_list ciphers
                (with_key sample_ssl "cert.pem" "key.pem" [])).1)))
tls_init_lem_example = tls_init_lem sample_ssl "cert.pem" "key.pem" [] refl
