-- ===== src/Tests/Lifecycle.antt =====
-- The start and the stop of the server at concrete inputs.
use foxglove_bridge_release.Base.{ℕ, ◌≡◌, ◌⊎◌, refl, inr, Bool, true, false, none, [], ◌∷◌}
use foxglove_bridge_release.Base.Exec.{throws, failure}
use foxglove_bridge_release.Server.Lifecycle.{
  Websocketpp, Host, wait_loop, start, stop, connections_of, stop_accepting,
}
use foxglove_bridge_release.Server.Lifecycle.Stopping.{stop_lem}
use foxglove_bridge_release.Server.Lifecycle.Starting.{CanStart, IsStarted, start_lem}
use foxglove_bridge_release.Tests.Server.{sample_init}

-- An endpoint that is stopped or not, and that listens or not.
abbrev pub SampleEndpoint : Type 0
SampleEndpoint = Bool × Bool

abbrev pub sample_websocketpp : Websocketpp SampleEndpoint
sample_websocketpp = record {
  stopped = λ e. e.0;
  is_listening = λ e. e.1;
  listen = λ host port e. (none, (e.0, true));
  start_accept = λ e. (none, e);
  get_local_endpoint = λ e. inr (record { address = "0.0.0.0"; port = 8_765 });
  stop_perpetual = λ e. e;
  stop_listening = λ e. (e.0, false);
  get_con_from_hdl = λ hdl e. true;
  close = λ hdl e. e;
  terminate = λ hdl e. e;
  stop = λ e. (true, e.1);
}

-- One client is connected, and the run loop is in its thread.
abbrev serving : Host SampleEndpoint ℕ
serving = record {
  endpoint = (false, true);
  server = record sample_init {
    clients =
        (
          5,
          record {
            name = "[::1]:1234";
            handle = 5;
            subscriptions_by_channel = [];
            advertised_channels = [];
          },
        )
        ∷ [];
  };
  server_thread = true;
}

-- No connection ever closes, and the run loop ends at once when it is stopped.
abbrev idle_poll : Host SampleEndpoint ℕ → Host SampleEndpoint ℕ
idle_poll h = h

abbrev waited : ℕ × Host SampleEndpoint ℕ
waited = wait_loop sample_websocketpp idle_poll 200 0 serving

abbrev after_stop : Host SampleEndpoint ℕ
after_stop = stop sample_websocketpp idle_poll idle_poll serving

stop_lem_example :
    (after_stop.endpoint.0 ≡ true)
    × (after_stop.server_thread ≡ false)
    × (after_stop.server.clients ≡ [])
    × (stop sample_websocketpp idle_poll idle_poll after_stop ≡ after_stop)
stop_lem_example =
    stop_lem sample_websocketpp idle_poll idle_poll (λ e. refl) (λ h e. e) serving refl
      (unfold connections_of stop_accepting in refl)

abbrev idle : Host SampleEndpoint ℕ
idle = record { endpoint = (false, false); server = sample_init; server_thread = false }

start_lem_example :
    ((idle.server_thread ≡ false)
      × IsStarted sample_websocketpp
          (CanStart sample_websocketpp "0.0.0.0" 8_765 idle.endpoint)
          idle
          (start sample_websocketpp "0.0.0.0" 8_765 idle))
    ⊎ ((idle.server_thread ≡ true)
        × (start sample_websocketpp "0.0.0.0" 8_765 idle
            ≡ (throws (failure "Server already started"), idle)))
start_lem_example = start_lem sample_websocketpp "0.0.0.0" 8_765 idle
