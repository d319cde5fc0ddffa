-- ===== src/Tests/Ros1.antt =====
-- The ROS 1 bridge at concrete inputs.
use foxglove_bridge_release.Base.{
  ◌+◌, ◌%◌, ◌^◌, ◌≤◌, ◌<◌, ◌≡◌, refl, none, some, true, false, List, [], ◌∷◌, if◌then◌else◌, arith,
}
use foxglove_bridge_release.Base.Eq.{◌==◌, string_eq, id_eq, pair_eq}
use foxglove_bridge_release.Base.Map.{find, emplace, contains, insert, erase}
use foxglove_bridge_release.Base.Map.Nested.{Updated, entry_at}
use foxglove_bridge_release.Base.Exec.{ok, for_each}
use foxglove_bridge_release.Wire.{ClientAdvertisement}
use foxglove_bridge_release.Server.{Server, Channel, ChannelWithoutId}
use foxglove_bridge_release.Ros2.{TopicAndDatatype}
use foxglove_bridge_release.Base.Lists.{length}
use foxglove_bridge_release.Server.Channels.{add_channel, remove_channel, broadcast_channels}
use foxglove_bridge_release.Ros2.Topics.{is_whitelisted, new_topics, removed_topics}
use foxglove_bridge_release.Tables.{IsTracked, entered-IsTracked}
use foxglove_bridge_release.Tables.Laws.{IsTrackedIn}
use foxglove_bridge_release.Ros1.{Bridge, Ros, MessageDescription, min_update_period_ms}
use foxglove_bridge_release.Ros1.Handlers.{
  advertise_options, subscribe_handler, unsubscribe_handler, client_advertise_handler,
}
use foxglove_bridge_release.Ros1.Topics.{
  latest_topics, next_update_ms, new_channel, update_topics, remove_topic, advertise_topic,
  enter_channel, schedule_update, shift_one, update_advertised_topics, std_min, std_max,
}
use foxglove_bridge_release.Ros1.Advertised.{tables}
use foxglove_bridge_release.Ros1.Outcome.{outcome}
use foxglove_bridge_release.Ros1.Updates.{
  new_in_graph, answered, update_advertised_topics-IsTracked, update_timer_lem,
}
use foxglove_bridge_release.Ros1.Backoff.{next_update_ms_lem}
use foxglove_bridge_release.Ros1.Subscriptions.{
  new_subscription, unsubscribe_handler-subscribe_handler,
}
use foxglove_bridge_release.Ros1.Publications.{after_advertise, client_advertise_handler_lem}
use foxglove_bridge_release.Ros1.Start.{no_handlers}
use foxglove_bridge_release.Tests.Server.{sample_lib}

abbrev text_description : MessageDescription
text_description = record { md5 = "992c"; message_definition = "string data\n" }

-- The master names three topics, of which the whitelist keeps one out; /chatter is gone.
abbrev names : List TopicAndDatatype
names =
    ("/text", "std_msgs/String")
    ∷ ("/secret", "std_msgs/String")
    ∷ ("/rosout", "rosgraph_msgs/Log")
    ∷ []

abbrev sample_ros1 : Ros
sample_ros1 = record {
  is_ok = true;
  topics = some names;
  subscribe = λ topic queue. ok tt;
  message_description =
      λ type. if type == "std_msgs/String" then ok (some text_description) else ok none;
  advertise = λ options. ok true;
  read = λ message. [];
  publish = λ options bytes. ok tt;
  create_timer = λ ms. ok tt;
  shift_out_of_range = λ n. 2 ^ (n % 64);
}

abbrev chatter : TopicAndDatatype
chatter = ("/chatter", "std_msgs/String")

abbrev chatter_base : ChannelWithoutId
chatter_base = record {
  topic = "/chatter";
  encoding = "ros1";
  schema_name = "std_msgs/String";
  schema = "string data\n";
}

abbrev chatter_channel : Channel
chatter_channel = record { base = chatter_base; id = 1 }

abbrev ros1_bridge : Bridge
ros1_bridge = record {
  topic_whitelist_patterns = (λ topic. if topic == "/secret" then false else true) ∷ [];
  advertised_topics = emplace chatter chatter_channel [];
  channel_to_topic_and_datatype = emplace 1 chatter [];
  subscriptions = [];
  client_advertised_topics = [];
  update_timer = some 100;
  max_update_ms = 5_000;
  update_count = 6;
  clock_subscription = false;
  use_sim_time = false;
  ros = sample_ros1;
  published = [];
}

abbrev ros1_server : Server Bridge
ros1_server = record {
  name = "foxglove_bridge";
  capabilities = [];
  send_buffer_limit_bytes = 100;
  next_channel_id = 1;
  clients = [];
  channels = emplace 1 chatter_channel [];
  client_channels = [];
  handlers = no_handlers;
  bridge = ros1_bridge;
  sent = [];
}

no_topics : IsTracked [] [] [] 0
unfolding find
no_topics = record {
  distinct = tt;
  listed = λ t ch e. cc;
  tracked = λ i t e. cc;
  fresh = λ i ch e. cc;
}

tracked_one : IsTrackedIn tables ros1_server
unfolding find
tracked_one = entered-IsTracked [] [] [] 0 no_topics chatter chatter_base refl

-- The topic that is gone is removed, the two new ones get the ids 2 and 3, and the timer runs.
update_test :
    (update_advertised_topics sample_lib ros1_server).1.bridge.channel_to_topic_and_datatype
    ≡ (2, ("/text", "std_msgs/String")) ∷ (3, ("/rosout", "rosgraph_msgs/Log")) ∷ []
unfolding update_advertised_topics update_topics latest_topics is_whitelisted insert new_topics
    removed_topics contains find emplace erase for_each remove_topic remove_channel advertise_topic
    new_channel enter_channel add_channel broadcast_channels schedule_update
update_test = refl

has_room : ros1_server.next_channel_id + length (new_in_graph sample_lib ros1_server) < 2 ^ 32
unfolding latest_topics is_whitelisted insert new_topics find emplace
has_room = omega arith

update_advertised_topics-IsTracked_example :
    IsTrackedIn tables (update_advertised_topics sample_lib ros1_server).1
update_advertised_topics-IsTracked_example =
    update_advertised_topics-IsTracked sample_lib ros1_server tracked_one has_room

abbrev after : Server Bridge
after = (update_advertised_topics sample_lib ros1_server).1

abbrev latest : List TopicAndDatatype
latest = latest_topics ros1_bridge.topic_whitelist_patterns names []

update_timer_lem_example :
    outcome (update_advertised_topics sample_lib ros1_server)
    ≡ answered sample_lib ros1_server (update_advertised_topics sample_lib ros1_server).1
update_timer_lem_example = update_timer_lem sample_lib ros1_server tracked_one has_room

period_test : next_update_ms sample_ros1 7 5_000 ≡ 128
unfolding next_update_ms shift_one
period_test = refl

next_update_ms_lem_example :
    (min_update_period_ms ≤ next_update_ms sample_ros1 64 5_000)
    × (next_update_ms sample_ros1 64 5_000 ≤ std_max min_update_period_ms 5_000)
    × (next_update_ms sample_ros1 7 5_000 ≡ std_max min_update_period_ms (std_min (2 ^ 7) 5_000))
    × (next_update_ms sample_ros1 7 5_000 ≤ next_update_ms sample_ros1 (7 + 6) 5_000)
next_update_ms_lem_example = next_update_ms_lem sample_ros1 5_000 64 7 6 (omega arith)

abbrev subscribed : Bridge
subscribed = (subscribe_handler 1 5 ros1_bridge).1

unsubscribe_handler-subscribe_handler_example :
    ((subscribe_handler 1 5 ros1_bridge).0 ≡ ok tt)
    × Updated 1 5
        (some (new_subscription 1 5 ros1_bridge "/chatter" "std_msgs/String" chatter_channel))
        []
        subscribed.subscriptions
    × ((unsubscribe_handler 1 5 subscribed).0 ≡ ok tt)
    × Updated 1 5 none [] (unsubscribe_handler 1 5 subscribed).1.subscriptions
unsubscribe_handler-subscribe_handler_example =
    unsubscribe_handler-subscribe_handler 1 5 ros1_bridge "/chatter" "std_msgs/String"
      chatter_channel refl (unfold find emplace in refl) (unfold find emplace in refl)
      (unfold find in refl)

abbrev advertised : ClientAdvertisement
advertised = record {
  channel_id = 9;
  topic = "/text";
  encoding = "ros1";
  schema_name = "std_msgs/String";
  schema = [];
}

client_advertise_handler_lem_example :
    Updated 5 9
      (after_advertise advertised 5 ros1_bridge (entry_at 5 9 ros1_bridge.client_advertised_topics))
      []
      (client_advertise_handler advertised 5 ros1_bridge).1.client_advertised_topics
client_advertise_handler_lem_example = client_advertise_handler_lem advertised 5 ros1_bridge

advertise_test :
    after_advertise advertised 5 ros1_bridge none
    ≡ some (record {
      datatype = "std_msgs/String";
      has_header = false;
      latch = false;
      md5sum = "992c";
      message_definition = "string data\n";
      queue_size = 10;
      topic = "/text";
    })
unfolding advertise_options
advertise_test = refl
