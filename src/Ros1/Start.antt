-- ===== src/Ros1/Start.antt =====
-- ros1_foxglove_bridge_nodelet.cpp: onInit and the destructor.
use foxglove_bridge_release.Base.{
  ℕ, ◌+◌, ◌-◌, ◌%◌, ◌^◌, String, Option, none, some, Bool, true, false, List, [], ◌∷◌, ltb,
  if◌then◌else◌,
}
use foxglove_bridge_release.Base.Exec.{
  Exec, Result, throws, throw, failure, lift, gets, modify, skip, catching, ◌>>=◌, ◌>>◌,
}
use foxglove_bridge_release.Json.{JsonLib}
use foxglove_bridge_release.Wire.{capability_client_publish, capability_time}
use foxglove_bridge_release.Server.{Server, Handlers}
use foxglove_bridge_release.Server.Run.{init}
use foxglove_bridge_release.Server.Channels.{
  set_subscribe_handler, set_unsubscribe_handler, set_client_advertise_handler,
  set_client_unadvertise_handler, set_client_message_handler,
}
use foxglove_bridge_release.Server.Lifecycle.{Websocketpp, Host, start, on_server}
use foxglove_bridge_release.Ros1.{Bridge, Ros, default_port, default_address, default_max_update_ms}
use foxglove_bridge_release.Ros1.Handlers.{
  subscribe_handler, unsubscribe_handler, client_advertise_handler, client_unadvertise_handler,
  client_message_handler,
}
use foxglove_bridge_release.Ros1.Topics.{set_bridge, update_advertised_topics}

-- DEFAULT_SEND_BUFFER_LIMIT_BYTES of websocket_server.hpp
abbrev pub default_send_buffer_limit_bytes : ℕ
default_send_buffer_limit_bytes = 10_000_000

-- What the parameters are; an int is a number below 2 ^ 32, its two's complement.
pub record Params : Type 0 where
  pub address : String
  pub port : ℕ
  pub send_buffer_limit : ℕ
  pub tls : Bool
  pub certfile : String
  pub keyfile : String
  pub max_update_ms : ℕ
  pub use_sim_time : Bool
  pub topic_whitelist : List String

-- the parameters where none is set
abbrev pub default_params : Params
default_params = record {
  address = default_address;
  port = default_port;
  send_buffer_limit = default_send_buffer_limit_bytes;
  tls = false;
  certfile = "";
  keyfile = "";
  max_update_ms = default_max_update_ms;
  use_sim_time = false;
  topic_whitelist = ".*" ∷ [];
}

-- static_cast<size_t> of an int
unfoldable pub size_of_int : ℕ → ℕ
size_of_int n = if ltb n (2 ^ 31) then n else n + (2 ^ 64 - 2 ^ 32)

-- The loop over the patterns, with the constructor of std::regex as a parameter: `none` where it
-- throws.
unfoldable pub compile_patterns :
    (String → Option (String → Bool)) → List String → List (String → Bool)
compile_patterns regex [] = []
compile_patterns regex (pattern ∷ patterns) =
    let rest = compile_patterns regex patterns in
    elim (regex pattern) [ none ↦ rest | some compiled ↦ compiled ∷ rest ]

unfoldable pub server_capabilities : Bool → List String
server_capabilities use_sim_time =
    if use_sim_time
    then capability_client_publish ∷ capability_time ∷ []
    else capability_client_publish ∷ []

abbrev pub no_handlers : {B : Type 0} → Handlers B
no_handlers = record {
  subscribe_handler = none;
  unsubscribe_handler = none;
  client_advertise_handler = none;
  client_unadvertise_handler = none;
  client_message_handler = none;
}

-- The bridge as constructed, with what onInit reads of the parameters.
unfoldable pub initial_bridge : (String → Option (String → Bool)) → Params → Ros → Bridge
initial_bridge regex params ros = record {
  topic_whitelist_patterns = compile_patterns regex params.topic_whitelist;
  advertised_topics = [];
  channel_to_topic_and_datatype = [];
  subscriptions = [];
  client_advertised_topics = [];
  update_timer = none;
  max_update_ms = size_of_int params.max_update_ms;
  update_count = 0;
  clock_subscription = false;
  use_sim_time = params.use_sim_time;
  ros = ros;
  published = [];
}

-- with the server that is made
unfoldable pub initial_host :
    {E : Type 0} → (String → Option (String → Bool)) → Params → Ros → E → Host E Bridge
initial_host regex params ros endpoint = record {
  endpoint = endpoint;
  server =
      init "foxglove_bridge" (server_capabilities params.use_sim_time)
        (size_of_int params.send_buffer_limit) no_handlers (initial_bridge regex params ros);
  server_thread = false;
}

unfoldable pub set_handlers : Exec (Server Bridge) (Unit {0})
set_handlers = do
  set_subscribe_handler (some subscribe_handler)
  set_unsubscribe_handler (some unsubscribe_handler)
  set_client_advertise_handler (some client_advertise_handler)
  set_client_unadvertise_handler (some client_unadvertise_handler)
  set_client_message_handler (some client_message_handler)

-- From `if (_useSimTime)` on.
unfoldable pub subscribe_to_clock : Exec (Server Bridge) (Unit {0})
subscribe_to_clock = do
  use_sim_time ← gets (λ s. s.bridge.use_sim_time)
  created ← gets (λ s. s.bridge.ros.subscribe "/clock" 10)
  if use_sim_time
      then (lift created >> set_bridge (λ b. record b { clock_subscription = true }))
      else skip

-- a call of the server that is made, if it is there
abbrev on_host :
    {E : Type 0} → Exec (Host E Bridge) (Unit {0}) → Exec (Option (Host E Bridge)) (Unit {0})
on_host m none = (throws (failure "undefined: no server"), none)
on_host m (some h) = let (r, h') = m h in (r, some h')

-- `make_endpoint` is what the constructors of websocketpp give, from whether TLS is used and from the
-- paths of the certificate and the key.
module _ {Json E : Type 0} (J : JsonLib Json) (W : Websocketpp E)
    (make_endpoint : Bool → String → String → Result E) (regex : String → Option (String → Bool))
    (ros : Ros) where
  -- onInit, on the pointer to the server. What is thrown again is a std::exception copied from the
  -- one that was caught, so its what() is that of the base class, `base_what`.
  unfoldable pub on_init : String → Params → Exec (Option (Host E Bridge)) (Unit {0})
  on_init base_what params =
      catching
        (do
          endpoint ← lift (make_endpoint params.tls params.certfile params.keyfile)
          modify (λ h. some (initial_host regex params ros endpoint))
          on_host (
              on_server set_handlers
              >> start W params.address (params.port % 2 ^ 16)
              >> on_server (update_advertised_topics J)
              >> on_server subscribe_to_clock))
        (λ err. throw (failure base_what))
