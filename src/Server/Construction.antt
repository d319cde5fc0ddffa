-- ===== src/Server/Construction.antt =====
-- websocket_server.hpp: what the constructor of Server tells websocketpp, the handlers for a new
-- socket and for TLS, and the texts of the log. asio's SSL context is a parameter.
pub mod Tls
use foxglove_bridge_release.Base.{
  ℕ, ◌+◌, String, Bool, true, false, Option, none, some, List, [], ◌∷◌, ◌++◌, if◌then◌else◌,
}
use foxglove_bridge_release.Base.Text.{concat}
use foxglove_bridge_release.Base.Exec.{
  Exec, Exception, Result, ok, throws, what, failure, throw, lift, gets, modify, skip, catching,
  match_option, or_throw, ◌>>=◌, ◌>>◌,
}
use foxglove_bridge_release.Server.{StatusLevel, info, warning, error, Network}
use foxglove_bridge_release.Server.Connections.{bad_connection}

-- StatusLevelToString
unfoldable pub status_level_to_string : StatusLevel → String
status_level_to_string info = "INFO"
status_level_to_string warning = "WARN"
status_level_to_string error = "ERROR"

-- APP = websocketpp::log::alevel::app, RECOVERABLE = websocketpp::log::elevel::rerror
pub data LogLevel : Type 0 where
  app recoverable : LogLevel

-- What the constructor sets on the endpoint, in order; the handlers are the methods of the server.
pub data Setting : Type 0 where
  alog_callback elog_callback : Setting
  clear_all_access_channels : Setting
  access_channels : LogLevel → Setting
  tcp_pre_init_handler tls_init_handler validate_handler : Setting
  open_handler close_handler message_handler : Setting
  reuse_addr : Bool → Setting
  listen_backlog : ℕ → Setting

pub record Endpoint : Type 0 where
  pub settings : List Setting
  pub log : List (LogLevel × String)

abbrev pub write_log : LogLevel → String → Exec Endpoint (Unit {0})
write_log level text = modify (λ e. record e { log = e.log ++ (level, text) ∷ [] })

abbrev pub set : Setting → Exec Endpoint (Unit {0})
set setting = modify (λ e. record e { settings = e.settings ++ setting ∷ [] })

-- setupTlsHandler of WebSocketTls and of WebSocketNoTls
unfoldable pub setup_tls_handler : (uses_tls : Bool) → Exec Endpoint (Unit {0})
setup_tls_handler true = set tls_init_handler
setup_tls_handler false = write_log app "Server running without TLS"

-- The constructor, behind the members, for the error code of init_asio.
unfoldable pub construct : Option String → (uses_tls : Bool) → Exec Endpoint (Unit {0})
construct init_asio uses_tls = do
  set alog_callback
  set elog_callback
  match_option init_asio skip (λ message.
      throw (failure (concat ("Failed to initialize websocket server: " ∷ message ∷ []))))
  set clear_all_access_channels
  set (access_channels app)
  set tcp_pre_init_handler
  setup_tls_handler uses_tls
  set validate_handler
  set open_handler
  set close_handler
  set message_handler
  set (reuse_addr true)
  set (listen_backlog 128)

-- socketInit, for the error code of set_option
unfoldable pub socket_init : Network → (ℕ → Option String) → ℕ → Exec Endpoint (Unit {0})
socket_init net set_no_delay hdl = do
  con ← or_throw (net hdl) bad_connection
  match_option (set_no_delay hdl) skip
      (λ message. write_log recoverable (concat ("Failed to set TCP_NODELAY: " ∷ message ∷ [])))

pub data SslOption : Type 0 where
  default_workarounds no_tlsv1 no_sslv2 no_sslv3 : SslOption

-- asio::ssl::context, of which sslv23 constructs one; all but set_cipher_list may throw, which says
-- whether it went well.
pub record Ssl (C : Type 0) : Type 0 where
  pub sslv23 : Result C
  pub set_options : List SslOption → Exec C (Unit {0})
  pub use_certificate_chain_file : String → Exec C (Unit {0})
  pub use_private_key_file : String → Exec C (Unit {0})
  pub set_cipher_list : String → C → Bool × C

abbrev pub ciphers : String
ciphers =
    "ECDHE-RSA-AES128-GCM-SHA256:ECDHE-ECDSA-AES128-GCM-SHA256:ECDHE-RSA-AES256-GCM-SHA384:ECDHE-ECDSA-AES256-GCM-SHA384:DHE-RSA-AES128-GCM-SHA256:DHE-DSS-AES128-GCM-SHA256:kEDH+AESGCM:ECDHE-RSA-AES128-SHA256:ECDHE-ECDSA-AES128-SHA256:ECDHE-RSA-AES128-SHA:ECDHE-ECDSA-AES128-SHA:ECDHE-RSA-AES256-SHA384:ECDHE-ECDSA-AES256-SHA384:ECDHE-RSA-AES256-SHA:ECDHE-ECDSA-AES256-SHA:DHE-RSA-AES128-SHA256:DHE-RSA-AES128-SHA:DHE-DSS-AES128-SHA256:DHE-RSA-AES256-SHA256:DHE-DSS-AES256-SHA:DHE-RSA-AES256-SHA:!aNULL:!eNULL:!EXPORT:!DES:!RC4:!3DES:!MD5:!PSK"

-- a new context and the log, while TLS is set up for a connection
pub record TlsInit (C : Type 0) : Type 0 where
  pub context : C
  pub log : List (LogLevel × String)

module _ {C : Type 0} (ssl : Ssl C) (certfile keyfile : String) where
  abbrev on_context : Exec C (Unit {0}) → Exec (TlsInit C) (Unit {0})
  on_context m t = let (r, c) = m t.context in (r, record t { context = c })

  abbrev tls_log : String → Exec (TlsInit C) (Unit {0})
  tls_log text = modify (λ t. record t { log = t.log ++ (recoverable, text) ∷ [] })

  unfoldable pub set_ciphers : Exec (TlsInit C) (Unit {0})
  set_ciphers = do
    set_well ← gets (λ t. (ssl.set_cipher_list ciphers t.context).0)
    modify (λ t. record t { context = (ssl.set_cipher_list ciphers t.context).1 })
    if set_well then skip else tls_log "Error setting cipher list"

  -- the try block of the handler
  unfoldable pub prepare_context : Exec (TlsInit C) (Unit {0})
  prepare_context = do
    on_context (ssl.set_options (default_workarounds ∷ no_tlsv1 ∷ no_sslv2 ∷ no_sslv3 ∷ []))
    on_context (ssl.use_certificate_chain_file certfile)
    on_context (ssl.use_private_key_file keyfile)
    set_ciphers

  -- the catch block
  abbrev pub log_exception : Exception → Exec (TlsInit C) (Unit {0})
  log_exception ex = tls_log (concat ("Exception in TLS handshake: " ∷ what ex ∷ []))

  -- from the try block on, with the context that is returned
  unfoldable pub tls_context : Exec (TlsInit C) C
  tls_context = do catching prepare_context log_exception; gets (λ t. t.context)

  -- The handler: what it answers, and what it writes to the log. What the constructor of the context
  -- throws is not caught.
  unfoldable pub tls_init : Result C × List (LogLevel × String)
  tls_init = elim ssl.sslv23 [
    | throws x ↦ (throws x, [])
    | ok context ↦ let (r, t) = tls_context (record { context = context; log = [] }) in (r, t.log)
  ]
