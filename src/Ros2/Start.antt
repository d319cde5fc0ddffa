-- ===== src/Ros2/Start.antt =====
-- ros2_foxglove_bridge.cpp: parts of the constructor, and rosgraphPollThread.
use foxglove_bridge_release.Base.{
  ℕ, ◌%◌, ◌^◌, String, Option, none, some, Bool, List, [], ◌∷◌, if◌then◌else◌,
}
use foxglove_bridge_release.Base.Eq.{id_eq}
use foxglove_bridge_release.Base.Exec.{Exec, ok, failure, or_throw, gets, skip, ◌>>=◌, ◌>>◌}
use foxglove_bridge_release.Json.{JsonLib}
use foxglove_bridge_release.Wire.{capability_client_publish, capability_time}
use foxglove_bridge_release.Definitions.{Sources}
use foxglove_bridge_release.Server.{Server}
use foxglove_bridge_release.Server.Channels.{
  set_subscribe_handler, set_unsubscribe_handler, set_client_advertise_handler,
  set_client_unadvertise_handler, set_client_message_handler,
}
use foxglove_bridge_release.Server.Lifecycle.{Websocketpp, Host, start, local_endpoint, on_server}
use foxglove_bridge_release.Ros2.{Bridge, Ros}
use foxglove_bridge_release.Ros2.Handlers.{
  subscribe_handler, unsubscribe_handler, client_advertise_handler, client_unadvertise_handler,
  client_message_handler,
}
use foxglove_bridge_release.Ros2.Topics.{set_bridge, update_advertised_topics}

unfoldable pub server_capabilities : Bool → List String
server_capabilities use_sim_time =
    if use_sim_time
    then capability_client_publish ∷ capability_time ∷ []
    else capability_client_publish ∷ []

unfoldable pub set_handlers : Exec (Server Bridge) (Unit {0})
set_handlers = do
  set_subscribe_handler (some subscribe_handler)
  set_unsubscribe_handler (some unsubscribe_handler)
  set_client_advertise_handler (some client_advertise_handler)
  set_client_unadvertise_handler (some client_unadvertise_handler)
  set_client_message_handler (some client_message_handler)

-- The loop over the patterns, with the constructor of std::regex as a parameter: `none` where it
-- throws.
unfoldable pub compile_patterns :
    (String → Option (String → Bool)) → List String → List (String → Bool)
compile_patterns regex [] = []
compile_patterns regex (pattern ∷ patterns) =
    let rest = compile_patterns regex patterns in
    elim (regex pattern) [ none ↦ rest | some compiled ↦ compiled ∷ rest ]

module _ {E : Type 0} (W : Websocketpp E) where
  -- From the setters of the handlers on to the port that the server listens on. The code reads
  -- localEndpoint without a test; with no endpoint its behaviour is undefined, a failure here.
  unfoldable pub serve : String → ℕ → Exec (Host E Bridge) ℕ
  serve address port = do
    on_server set_handlers
    start W address (port % 2 ^ 16)
    endpoint ← gets (local_endpoint W)
    listening ← or_throw endpoint (failure "undefined: std::nullopt")
    λ h. (ok (listening.port), h)

-- What rclcpp answers in one round of the loop of rosgraphPollThread, and whether the graph has
-- changed.
pub record Round : Type 0 where
  pub ros : Ros
  pub triggered : Bool

module _ {Json : Type 0} (J : JsonLib Json) (sources : Sources) (fuel : ℕ) where
  -- The body of the loop, behind its test.
  unfoldable pub poll_round : Round → Exec (Server Bridge) (Unit {0})
  poll_round round = if round.triggered then update_advertised_topics J sources fuel else skip

  -- The loop, for the rounds that it goes through; waits are not modelled.
  unfoldable pub poll_loop : List Round → Exec (Server Bridge) (Unit {0})
  poll_loop [] = skip
  poll_loop (round ∷ rounds) =
      let rest = poll_loop rounds in
      set_bridge (λ b. record b { ros = round.ros })
      >> (if round.ros.is_ok then poll_round round >> rest else skip)

  unfoldable pub rosgraph_poll_thread : List Round → Exec (Server Bridge) (Unit {0})
  rosgraph_poll_thread rounds = update_advertised_topics J sources fuel >> poll_loop rounds
