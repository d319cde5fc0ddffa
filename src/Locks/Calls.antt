-- ===== src/Locks/Calls.antt =====
-- What each call does with the mutexes. How often a loop of a call comes to a handler or to a
-- method of the server is an argument; a call that throws gives its locks back early, which is a
-- call with smaller numbers. A call that returns before it takes a lock is no call here.
use foxglove_bridge_release.Base.{ℕ, zero, suc, List, [], ◌∷◌, ◌++◌, if◌then◌else◌, ltb}
use foxglove_bridge_release.Locks.{
  Mutex, clients_channel, subscriptions, publications, Mode, exclusive, shared, Action, acquire,
  release, System,
}

abbrev pub Program : Type 0
Program = List Action

-- { std::unique_lock lock(m); body }, and its shared form
unfoldable pub locked : Mutex → Mode → Program → Program
locked m mode body = acquire (record { mutex = m; mode = mode }) ∷ body ++ release ∷ []

unfoldable pub repeated : ℕ → Program → Program
repeated zero body = []
repeated (suc n) body = body ++ repeated n body

-- What the handlers of the bridge do: ROS 2 takes the mutex of the publications alone for a
-- message, ROS 1 shares it.
pub data BridgeKind : Type 0 where
  ros1 ros2 : BridgeKind

-- subscribeHandler, unsubscribeHandler
unfoldable pub subscription_handler_locks : Program
unfolding locked
subscription_handler_locks = locked subscriptions exclusive []

-- clientAdvertiseHandler, clientUnadvertiseHandler
unfoldable pub publication_handler_locks : Program
unfolding locked
publication_handler_locks = locked publications exclusive []

unfoldable pub client_message_locks : BridgeKind → Program
unfolding locked
client_message_locks ros1 = locked publications shared []
client_message_locks ros2 = locked publications exclusive []

-- The calls that come from websocketpp, from ROS, and from the thread or timer that follows the
-- graph.
pub data Call : Type 0 where
  -- handleConnectionOpened
  opened : Call
  -- handleConnectionClosed, with the numbers of its calls of the two handlers
  closed : (unadvertised unsubscribed : ℕ) → Call
  -- handleTextMessage with "subscribe" or "unsubscribe", with the number of its calls of the handler
  subscribes : (handled : ℕ) → Call
  -- handleTextMessage with "advertise", "unadvertise" or an unknown operation
  advertises : (handled : ℕ) → Call
  -- handleBinaryMessage, with the number of its calls of the handler
  published : (handled : ℕ) → Call
  -- rosMessageHandler, broadcastTime
  sends : Call
  -- updateAdvertisedTopics, with the numbers of the removed topics, of the new ones, and of those
  -- among the new ones that come to addChannel
  updates : (removed new added : ℕ) → Call

unfoldable pub handle_connection_closed_locks : ℕ → ℕ → Program
unfolding locked repeated publication_handler_locks subscription_handler_locks
handle_connection_closed_locks unadvertised unsubscribed =
    locked clients_channel exclusive []
    ++ repeated unadvertised publication_handler_locks
    ++ repeated unsubscribed subscription_handler_locks

-- removeChannel, addChannel, broadcastChannels
unfoldable pub channel_method_locks : Program
unfolding locked
channel_method_locks = locked clients_channel exclusive []

unfoldable pub update_advertised_topics_locks : ℕ → ℕ → ℕ → Program
unfolding locked repeated channel_method_locks
update_advertised_topics_locks removed new added =
    locked subscriptions exclusive
      (repeated removed channel_method_locks ++ repeated added channel_method_locks)
    ++ (if ltb 0 new then channel_method_locks else [])

unfoldable pub call_locks : BridgeKind → Call → Program
unfolding locked
call_locks kind opened = locked clients_channel exclusive []
call_locks kind (closed unadvertised unsubscribed) =
    handle_connection_closed_locks unadvertised unsubscribed
call_locks kind (subscribes handled) =
    locked clients_channel exclusive (repeated handled subscription_handler_locks)
call_locks kind (advertises handled) =
    locked clients_channel exclusive (repeated handled publication_handler_locks)
call_locks kind (published handled) =
    locked clients_channel exclusive (repeated handled (client_message_locks kind))
call_locks kind sends = locked clients_channel shared []
call_locks kind (updates removed new added) = update_advertised_topics_locks removed new added

-- A thread makes its calls one after the other.
unfoldable pub calls_locks : BridgeKind → List Call → Program
unfolding call_locks
calls_locks kind [] = []
calls_locks kind (c ∷ cs) = call_locks kind c ++ calls_locks kind cs

-- the threads before their first steps
unfoldable pub threads : BridgeKind → List (List Call) → System
unfolding calls_locks
threads kind [] = []
threads kind (cs ∷ css) = record { held = []; rest = calls_locks kind cs } ∷ threads kind css
