-- ===== src/Server/Contract/Run.antt =====
-- Any sequence of calls that bear on subscriptions refines the contract.
use foxglove_bridge_release.Base.{refl, List, [], ◌∷◌}
use foxglove_bridge_release.Json.{JsonLib}
use foxglove_bridge_release.Server.{Server}
use foxglove_bridge_release.Server.Run.{channel_added, channel_removed, opened, closed, perform}
use foxglove_bridge_release.Server.Invariant.{IsValid}
use foxglove_bridge_release.Server.Invariant.Messages.{
  subscribe_channel-StaysValid, unsubscribe_id-StaysValid,
}
use foxglove_bridge_release.Server.Invariant.Run.{perform-StaysValid}
use foxglove_bridge_release.Server.Contract.{
  view, Call, subscribe, unsubscribe, add, remove, open_connection, close_connection, Allowed,
  AllowedRun, execute, execute_all,
}
use foxglove_bridge_release.Server.Contract.Refines.{subscribe-Allowed, unsubscribe-Allowed}
use foxglove_bridge_release.Server.Contract.Connections.{add-Allowed, open-Allowed, close-Allowed}
use foxglove_bridge_release.Server.Contract.Removal.{remove-Allowed}

module _ {Json B : Type 0} (J : JsonLib Json) where
  execute-Allowed :
      (call : Call) (s : Server B) → IsValid s → Allowed call (view s) (view (execute J call s).1)
  unfolding execute
  execute-Allowed (subscribe h sub chan) s v = subscribe-Allowed J s v h sub chan
  execute-Allowed (unsubscribe h sub) s v = unsubscribe-Allowed J s v h sub
  execute-Allowed (add base) s v = add-Allowed J s base
  execute-Allowed (remove chan) s v = remove-Allowed J chan s v
  execute-Allowed (open_connection net h) s v = open-Allowed J s net h
  execute-Allowed (close_connection h) s v = close-Allowed J s h

  execute-IsValid : (call : Call) (s : Server B) → IsValid s → IsValid (execute J call s).1
  unfolding execute perform
  execute-IsValid (subscribe h sub chan) s v = (subscribe_channel-StaysValid J h sub chan).at s s v
  execute-IsValid (unsubscribe h sub) s v = (unsubscribe_id-StaysValid J h sub).at s s v
  execute-IsValid (add base) s v = (perform-StaysValid J (channel_added base)).at s s v
  execute-IsValid (remove chan) s v = (perform-StaysValid J (channel_removed chan)).at s s v
  execute-IsValid (open_connection net h) s v = (perform-StaysValid J (opened net h)).at s s v
  execute-IsValid (close_connection h) s v = (perform-StaysValid J (closed h)).at s s v

  -- Any sequence of subscriptions, unsubscriptions, added and removed channels, opened and closed
  -- connections on a server with valid tables, whatever the bridge's handlers do to the bridge or
  -- throw, passes through views of who is connected, what is available and who has what under
  -- which id, each step of which the contract allows.
  pub execute_all_refines :
      (calls : List Call) (s : Server B)
      → IsValid s
      → AllowedRun calls (view s) (view (execute_all J calls s))
  unfolding execute_all
  execute_all_refines [] s v = (λ h. refl, λ c. refl, λ h c. refl)
  execute_all_refines (call ∷ calls) s v = (
    view (execute J call s).1,
    (
      execute-Allowed call s v,
      execute_all_refines calls (execute J call s).1 (execute-IsValid call s v),
    ),
  )
