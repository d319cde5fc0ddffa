-- ===== src/Lib.antt =====
-- Verification of the Foxglove bridge: a server of the Foxglove WebSocket protocol
-- (foxglove.websocket.v1), and the ROS 2 node and the ROS 1 nodelet that connect it to the topics of a
-- ROS graph.
--
-- The parts, and how they interact. The server (foxglove_bridge_base/include/foxglove_bridge/
-- websocket_server.hpp) keeps a table of clients with their subscriptions, a table of channels, and
-- for each client the channels that it publishes. websocketpp calls its handlers when a connection
-- opens, closes or sends a message; each may send frames and call one of five handlers that the
-- bridge has set. The bridge (ros2_foxglove_bridge/src/ros2_foxglove_bridge.cpp) creates and drops
-- ROS subscriptions and publishers in these handlers, polls the ROS graph, adds and removes the
-- server's channels to follow it, and hands every ROS message to `sendMessage`. The schema of a
-- channel comes from the message definition cache
-- (ros2_foxglove_bridge/src/message_definition_cache.cpp). The ROS 1 bridge
-- (ros1_foxglove_bridge/src/ros1_foxglove_bridge_nodelet.cpp) does the same with roscpp, asks
-- ros_babel_fish for the schemas, and follows the graph from a timer with a growing period.
--
-- Which file models which part:
--   Wire         common.hpp: ids, opcodes, constants; Wire/Serialization: serialization.hpp;
--                Wire/Fnv: the hash that the server switches on
--   Logging      websocket_logging.hpp: CallbackLogger; Logging/Silence: a proof
--   Json         nlohmann::json, a parameter: a record of its operations and a record of the
--                documented laws that some proofs use
--   Server       the state; Server/Send: status and payloads; Server/Text: handleTextMessage;
--                Server/Binary: handleBinaryMessage and handleMessage; Server/Connections:
--                handleConnectionOpened and handleConnectionClosed; Server/Channels: addChannel,
--                removeChannel, sendMessage, broadcasts, setters; Server/Lifecycle: start,
--                stop, localEndpoint; Server/Construction: the constructor, socketInit and the TLS
--                handler; Server/Run: sequences of calls; Server/Contract: the subscriptions
--                without the tables, and what a call may make of them. The other files below Server
--                hold proofs
--   Client       websocket_client.hpp: the client that the repository's tests use;
--                Client/Connection: its constructor, destructor and connect; Client/Requests,
--                Client/Subscribing, Client/Unsubscribing, Client/Connection/Handshake: proofs
--   Definitions  the data of the cache; Definitions/Split: split_string; Definitions/Dependencies:
--                parse_dependencies; Definitions/Load: load_message_spec; Definitions/FullText:
--                get_full_text; Definitions/Termination: proofs on its recursion
--   Ros2         the state of FoxgloveBridge; Ros2/Profile: the selection of a QoS profile;
--                Ros2/Handlers: the five handlers and rosMessageHandler; Ros2/Topics:
--                updateAdvertisedTopics; Ros2/Params: the parameters that are declared;
--                Ros2/Construction: the constructor and the destructor; Ros2/Start: parts of the
--                constructor and rosgraphPollThread; Ros2/Params/Declared,
--                Ros2/Construction/Serving, Ros2/Construction/Ready, Ros2/Subscriptions,
--                Ros2/Publications, Ros2/Refused, Ros2/Messages, Ros2/Flow, Ros2/Advertised,
--                Ros2/Updates, Ros2/Polling: proofs
--   Ros1         the state of the nodelet; Ros1/Handlers: the five handlers and rosMessageHandler;
--                Ros1/Topics: updateAdvertisedTopics and the timer; Ros1/Start: onInit;
--                Ros1/Advertised, Ros1/Outcome, Ros1/Updates, Ros1/Backoff, Ros1/Subscriptions,
--                Ros1/Publications: proofs
--   Tables       what both bridges advertise, as an interface (_advertisedTopics,
--                _channelToTopicAndDatatype and the server's _channels); Tables/Laws, Tables/Loops,
--                Tables/Update: the two loops of updateAdvertisedTopics for any bodies with its laws
--   Locks        the mutexes, threads and their steps; Locks/Calls: which mutexes each call takes;
--                Locks/Order, Locks/Progress, Locks/Ending, Locks/Ordered, Locks/Deadlock: proofs
--   Base         maps and sets as association lists, stateful code that may throw, lists, texts
--   Tests        concrete inputs
--
-- How the code is read. Names are the source's in snake_case. A method is a function from the state
-- to a result and the state that it leaves, also when it throws (`Exec` in Base/Exec). A connection
-- handle is a number. std::map and std::unordered_map are association lists, in which each key
-- stands once; where the code iterates over an unordered container, the order of insertion stands
-- for the unspecified one. A handler of the bridge is any function on a state of its own that may
-- throw, so what is said of the server holds for every bridge. The bytes and the text of a WebSocket
-- message are two arguments of handleMessage, since both read the same payload. Ids are natural
-- numbers; the counter of channel ids and the sizes in size_t wrap around as written.
--
-- Fuel. split_string runs on one unit per byte, and one more: each turn passes over a delimiter.
-- get_full_text takes a bound on the depth of its recursion as an argument; where that is too small
-- it ends with `out_of_fuel`, which nothing in the code throws. Each call below the first enters a
-- definition into the set of those seen, so a bound above the number of definitions is enough.
--
-- The wait of stop counts 10 ms for a round up to 1000 ms, so 100 rounds are enough.
--
-- What is not modelled: what threads do to the data of each other (outside Locks a call is taken to
-- end before the next one begins, and the rounds of rosgraphPollThread follow each other with no
-- other call between them; Locks has the interleavings, and of the calls only their locks), what
-- the handlers of the server and the bridges log, callback groups, the entry points, and what
-- the system itself may throw where memory or threads run out. A call of a library that is
-- documented to throw gives a result, and what the code does not catch goes on to the caller: so
-- dump in broadcastChannels, the queries of the ROS 2 graph and the timer of ROS 1.
-- websocketpp, asio, rclcpp, roscpp, ros_babel_fish, ament_index, std::regex and the file system
-- are parameters. The period of the ROS 1 timer is a number of milliseconds, exact below 2 ^ 53;
-- what a shift by 64 or more gives is a parameter, since C++ leaves it undefined.
pub mod Base
pub mod Wire
pub mod Logging
pub mod Locks
pub mod Json
pub mod Server
pub mod Client
pub mod Definitions
pub mod Ros2
pub mod Tables
pub mod Ros1
pub mod Tests
