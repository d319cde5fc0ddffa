-- ===== src/Tests/Contract.antt =====
-- The contract of subscriptions at a concrete sequence of calls.
use foxglove_bridge_release.Base.{◌≡◌, refl, some, List, [], ◌∷◌}
use foxglove_bridge_release.Base.Eq.{id_eq}
use foxglove_bridge_release.Base.Map.{find, emplace, update}
use foxglove_bridge_release.Server.{call}
use foxglove_bridge_release.Server.Send.{send_status}
use foxglove_bridge_release.Server.Run.{run, init}
use foxglove_bridge_release.Server.Text.{subscribe_channel, find_subscription_by_sub_id}
use foxglove_bridge_release.Server.Connections.{handle_connection_opened}
use foxglove_bridge_release.Server.Channels.{add_channel, subscription_of}
use foxglove_bridge_release.Server.Invariant.{IsValid}
use foxglove_bridge_release.Server.Invariant.Run.{run-init-IsValid}
use foxglove_bridge_release.Server.Contract.{
  view, Call, subscribe, unsubscribe, add, remove, open_connection, close_connection, AllowedRun,
  execute, execute_all,
}
use foxglove_bridge_release.Server.Contract.Run.{execute_all_refines}
use foxglove_bridge_release.Tests.Server.{
  sample_lib, sample_net, sample_channel, sample_handlers, sample_init,
}

-- The second subscription comes under a new id for the same channel, and the third under an id that
-- is in use.
abbrev subscribing : List Call
subscribing =
    open_connection sample_net 5
    ∷ add sample_channel
    ∷ add sample_channel
    ∷ subscribe 5 7 1
    ∷ subscribe 5 8 1
    ∷ subscribe 5 7 2
    ∷ []

abbrev calls : List Call
calls = open_connection sample_net 6 ∷ unsubscribe 5 7 ∷ remove 1 ∷ close_connection 5 ∷ subscribing

subscribing_test : (view (execute_all sample_lib subscribing sample_init)).subscribed 5 1 ≡ some 7
unfolding execute_all execute handle_connection_opened add_channel subscribe_channel
    find_subscription_by_sub_id subscription_of find emplace update init call send_status
subscribing_test = refl

init-IsValid : IsValid sample_init
unfolding run
init-IsValid = run-init-IsValid sample_lib "foxglove_bridge" [] 100 sample_handlers 0 []

execute_all_refines_example :
    AllowedRun calls (view sample_init) (view (execute_all sample_lib calls sample_init))
execute_all_refines_example = execute_all_refines sample_lib calls sample_init init-IsValid
