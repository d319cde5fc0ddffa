-- ===== src/Tests/Topics.antt =====
-- The topics of the ROS 2 bridge at concrete inputs.
use foxglove_bridge_release.Base.{String, refl, true, List, [], ◌∷◌, arith}
use foxglove_bridge_release.Base.Eq.{string_eq, id_eq, pair_eq}
use foxglove_bridge_release.Base.Map.{Map, find, emplace, erase, contains, insert}
use foxglove_bridge_release.Base.Exec.{ok, throws, failure, for_each}
use foxglove_bridge_release.Server.{Server, Channel, ChannelWithoutId}
use foxglove_bridge_release.Server.Channels.{add_channel, remove_channel, broadcast_channels}
use foxglove_bridge_release.Definitions.Load.{load_message_spec, message_spec, find_line, read_spec}
use foxglove_bridge_release.Definitions.FullText.{
  get_full_text, full_text, append_recursive, on_cache, append_dependencies, insert_seen,
}
use foxglove_bridge_release.Tables.{IsTracked, entered-IsTracked}
use foxglove_bridge_release.Tables.Laws.{IsTrackedIn}
use foxglove_bridge_release.Ros2.{Bridge, TopicAndDatatype}
use foxglove_bridge_release.Ros2.Topics.{
  is_whitelisted, insert_datatypes, collect_topics, latest_topics, new_topics, removed_topics,
  remove_topic, new_channel, full_text_of, enter_channel, advertise_topic, update_topics,
  update_known_topics, update_advertised_topics,
}
use foxglove_bridge_release.Ros2.Advertised.{tables}
use foxglove_bridge_release.Ros2.Start.{Round, poll_round, rosgraph_poll_thread}
use foxglove_bridge_release.Ros2.Polling.{HasRoom, HaveRoom, rosgraph_poll_thread-IsTracked}
use foxglove_bridge_release.Ros1.Start.{no_handlers}
use foxglove_bridge_release.Tests.Server.{sample_lib}
use foxglove_bridge_release.Tests.Bridge.{sample_ros, sample_bridge, no_sources}

abbrev pub chatter : TopicAndDatatype
chatter = ("/chatter", "std_msgs/String")

abbrev pub chatter_base : ChannelWithoutId
chatter_base = record {
  topic = "/chatter";
  encoding = "cdr";
  schema_name = "std_msgs/String";
  schema = "string data\n";
}

abbrev pub chatter_channel : Channel
chatter_channel = record { base = chatter_base; id = 1 }

-- The graph has the topic that is advertised and a new one.
abbrev sample_graph : Map String (List String)
sample_graph = ("/chatter", "std_msgs/String" ∷ []) ∷ ("/pair", "demo/Pair" ∷ []) ∷ []

abbrev pub topics_bridge : Bridge
topics_bridge = record sample_bridge {
  advertised_topics = emplace chatter chatter_channel [];
  channel_to_topic_and_datatype = emplace 1 chatter [];
  ros = record sample_ros { topic_names_and_types = ok sample_graph };
}

abbrev pub topics_server : Server Bridge
topics_server = record {
  name = "foxglove_bridge";
  capabilities = [];
  send_buffer_limit_bytes = 100;
  next_channel_id = 1;
  clients = [];
  channels = emplace 1 chatter_channel [];
  client_channels = [];
  handlers = no_handlers;
  bridge = topics_bridge;
  sent = [];
}

pub no_topics : IsTracked [] [] [] 0
unfolding find
no_topics = record {
  distinct = tt;
  listed = λ t ch e. cc;
  tracked = λ i t e. cc;
  fresh = λ i ch e. cc;
}

tracked_one : IsTrackedIn tables topics_server
unfolding find
tracked_one = entered-IsTracked [] [] [] 0 no_topics chatter chatter_base refl

has_room : HasRoom sample_lib no_sources 4 topics_server
unfolding latest_topics collect_topics insert_datatypes is_whitelisted insert new_topics find
    emplace
has_room = omega arith

abbrev after : Server Bridge
after = (update_advertised_topics sample_lib no_sources 4 topics_server).1

-- In the first round the graph is empty, and in the second the look-up throws.
abbrev sample_rounds : List Round
sample_rounds =
    record { ros = record sample_ros { topic_names_and_types = ok [] }; triggered = true }
    ∷ record {
      ros = record sample_ros { topic_names_and_types = throws (failure "no graph") };
      triggered = true;
    }
    ∷ []

have_room : HaveRoom sample_lib no_sources 4 sample_rounds after
unfolding update_advertised_topics update_topics update_known_topics latest_topics collect_topics
    insert_datatypes is_whitelisted insert new_topics removed_topics contains find emplace erase
    for_each remove_topic remove_channel advertise_topic full_text_of new_channel enter_channel
    add_channel broadcast_channels poll_round get_full_text full_text append_recursive on_cache
    append_dependencies insert_seen load_message_spec read_spec message_spec find_line
have_room = (omega arith, (omega arith, tt))

rosgraph_poll_thread-IsTracked_example :
    IsTrackedIn tables (rosgraph_poll_thread sample_lib no_sources 4 sample_rounds topics_server).1
rosgraph_poll_thread-IsTracked_example =
    rosgraph_poll_thread-IsTracked sample_lib no_sources 4 sample_rounds topics_server tracked_one
      has_room have_room
