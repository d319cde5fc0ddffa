-- ===== src/Ros2/Construction.antt =====
-- ros2_foxglove_bridge.cpp: the whole constructor of FoxgloveBridge, and its destructor.
-- rclcpp and the constructor of the server's endpoint are parameters.
pub mod Ready
pub mod Serving
use foxglove_bridge_release.Base.{
  ℕ, String, Option, none, some, Bool, true, false, not, List, [], ◌∷◌, if◌then◌else◌,
}
use foxglove_bridge_release.Base.Eq.{◌==◌, id_eq}
use foxglove_bridge_release.Base.Exec.{
  Exec, Result, ok, failure, throw, lift, gets, modify, match_option, skip, ◌>>=◌, ◌>>◌,
}
use foxglove_bridge_release.Server.{Handlers}
use foxglove_bridge_release.Server.Run.{init}
use foxglove_bridge_release.Server.Lifecycle.{Websocketpp, Host, stop, on_server}
use foxglove_bridge_release.Ros2.{Bridge, Ros}
use foxglove_bridge_release.Ros2.Params.{
  ℤ, pos, integer_value, ParameterValue, Parameters, Declare, declare_parameters, get_int,
  get_string, get_bool, get_string_array, size_of_int64, u16_of_int64, default_max_qos_depth,
}
use foxglove_bridge_release.Ros2.Start.{server_capabilities, compile_patterns, serve}
use foxglove_bridge_release.Ros2.Topics.{set_bridge}

pub record Rclcpp : Type 0 where
  pub declare : Declare
  -- set_parameter, whose result the constructor does not look at
  pub set_parameter : String → ParameterValue → Parameters → Parameters
  -- whether create_subscription throws for the clock
  pub create_clock_subscription : Result (Unit {0})

-- The node while it is constructed and destroyed.
pub record Node (E : Type 0) : Type 0 where
  pub parameters : Parameters
  pub use_sim_time : Bool
  -- _server with its bridge, `none` for nullptr
  pub host : Option (Host E Bridge)
  -- whether _rosgraphPollThread is set
  pub poll_thread : Bool
  -- whether _clockSubscription is set
  pub clock_subscription : Bool

abbrev pub no_handlers : Handlers Bridge
no_handlers = record {
  subscribe_handler = none;
  unsubscribe_handler = none;
  client_advertise_handler = none;
  client_unadvertise_handler = none;
  client_message_handler = none;
}

-- the members of the bridge when the server is made
unfoldable pub initial_bridge : List (String → Bool) → Ros → Bridge
initial_bridge patterns ros = record {
  message_definition_cache = [];
  topic_whitelist_patterns = patterns;
  advertised_topics = [];
  channel_to_topic_and_datatype = [];
  subscriptions = [];
  client_advertised_topics = [];
  max_qos_depth = default_max_qos_depth;
  ros = ros;
  published = [];
}

unfoldable pub initial_host :
    {E : Type 0} → List (String → Bool) → Bool → ℕ → Ros → E → Host E Bridge
initial_host patterns use_sim_time limit ros endpoint = record {
  endpoint = endpoint;
  server =
      init "foxglove_bridge" (server_capabilities use_sim_time) limit no_handlers
        (initial_bridge patterns ros);
  server_thread = false;
}

module _ {E A : Type 0} where
  abbrev pub on_parameters : Exec Parameters A → Exec (Node E) A
  on_parameters m n = let (r, ps) = m n.parameters in (r, record n { parameters = ps })

  hosted : Exec (Host E Bridge) A → Node E → Option (Host E Bridge) → Result A × Node E
  hosted m n none = throw (failure "undefined: nullptr") n
  hosted m n (some h) = let (r, h') = m h in (r, record n { host = some h' })

  -- a call through _server
  unfoldable pub on_host : Exec (Host E Bridge) A → Exec (Node E) A
  unfolding hosted
  on_host m n = hosted m n n.host

module _ {E : Type 0} (R : Rclcpp) where
  -- if (port != listeningPort) { ... }
  unfoldable pub reassign_port : ℕ → ℕ → Exec (Node E) (Unit {0})
  reassign_port port listening =
      if port == listening
      then skip
      else modify (λ n. record n {
        parameters = R.set_parameter "port" (integer_value (pos listening)) n.parameters;
      })

  -- if (_useSimTime) { ... }
  unfoldable pub subscribe_to_clock : Exec (Node E) (Unit {0})
  subscribe_to_clock = do
    use_sim_time ← gets (λ n. n.use_sim_time)
    if use_sim_time
        then (lift R.create_clock_subscription
            >> modify (λ n. record n { clock_subscription = true }))
        else skip

module _ {E : Type 0} (R : Rclcpp) (W : Websocketpp E)
    (make_endpoint : Bool → String → String → Result E) (regex : String → Option (String → Bool))
    (ros : Ros) where
  -- up to the creation of the server
  unfoldable pub configure : Exec (Node E) (Unit {0})
  configure = do
    on_parameters (declare_parameters R.declare)
    patterns ← on_parameters (get_string_array "topic_whitelist")
    limit ← on_parameters (get_int "send_buffer_limit")
    tls ← on_parameters (get_bool "tls")
    certfile ← on_parameters (get_string "certfile")
    keyfile ← on_parameters (get_string "keyfile")
    use_sim_time ← on_parameters (get_bool "use_sim_time")
    endpoint ← lift (make_endpoint tls certfile keyfile)
    modify (λ n. record n {
      use_sim_time = use_sim_time;
      host = some (
          initial_host (compile_patterns regex patterns) use_sim_time (size_of_int64 limit) ros
            endpoint);
    })

  -- from the setters of the handlers on
  unfoldable pub launch : Exec (Node E) (Unit {0})
  launch = do
    address ← on_parameters (get_string "address")
    port ← on_parameters (get_int "port")
    listening ← on_host (serve W address (u16_of_int64 port))
    reassign_port R (u16_of_int64 port) listening
    depth ← on_parameters (get_int "max_qos_depth")
    on_host (on_server (set_bridge (λ b. record b { max_qos_depth = size_of_int64 depth })))
    modify (λ n. record n { poll_thread = true })
    subscribe_to_clock R

  unfoldable pub foxglove_bridge : Exec (Node E) (Unit {0})
  foxglove_bridge = configure >> launch

-- The destructor. What happens until join returns is a parameter: the poll thread runs on.
unfoldable pub destroy :
    {E : Type 0}
    → Websocketpp E
    → (poll_one join : Host E Bridge → Host E Bridge) → (join_poll : Node E → Node E)
    → Exec (Node E) (Unit {0})
destroy W poll_one join join_poll = do
  polling ← gets (λ n. n.poll_thread)
  (if polling then modify join_poll else skip)
  on_host (λ h. (ok tt, stop W poll_one join h))
