-- ===== src/Ros2/Construction/Ready.antt =====
-- What the constructor leaves.
use foxglove_bridge_release.Base.{ℕ, ◌≡◌, String, some, Bool, true, false, List}
use foxglove_bridge_release.Base.Eq.{◌==◌, id_eq, string_eq}
use foxglove_bridge_release.Base.Map.{find}
use foxglove_bridge_release.Server.Lifecycle.{Host}
use foxglove_bridge_release.Ros2.{Bridge, Ros}
use foxglove_bridge_release.Ros2.Start.{server_capabilities}
use foxglove_bridge_release.Server.Run.{init}
use foxglove_bridge_release.Ros2.Params.{Parameters, Laws, ParameterValue}
use foxglove_bridge_release.Ros2.Construction.{Rclcpp, Node, initial_bridge}
use foxglove_bridge_release.Ros2.Construction.Serving.{bridge_handlers}

-- The documented behaviour of rclcpp that the constructor relies on: declarations keep to types and
-- ranges, and a parameter that is set leaves those of other names.
pub record RclcppLaws (R : Rclcpp) : Type 0 where
  pub declarations : Laws R.declare
  pub others :
      (name k : String) (v : ParameterValue) (ps : Parameters)
      → (name == k) ≡ false
      → find k (R.set_parameter name v ps) ≡ find k ps

-- What the node is ready with: a server with its thread, the handlers of the bridge and empty
-- tables, the settings, the poll thread, and the clock if time is simulated.
pub record IsReady {E : Type 0} (patterns : List (String → Bool)) (use_sim_time : Bool)
    (limit depth : ℕ) (ros : Ros) (n : Node E) : Type 0 where
  pub host : Host E Bridge
  pub made : n.host ≡ some host
  pub running : host.server_thread ≡ true
  pub server :
      host.server
      ≡ init "foxglove_bridge"
          (server_capabilities use_sim_time)
          limit
          bridge_handlers
          (record (initial_bridge patterns ros) { max_qos_depth = depth })
  pub polls : n.poll_thread ≡ true
  pub clock : n.clock_subscription ≡ use_sim_time
