-- ===== src/Ros1/Topics.antt =====
-- ros1_foxglove_bridge_nodelet.cpp: updateAdvertisedTopics, on the server that the bridge owns.
use foxglove_bridge_release.Base.{
  ℕ, ◌+◌, ◌%◌, ◌^◌, String, Option, none, some, Bool, List, [], ◌∷◌, if◌then◌else◌, ltb,
}
use foxglove_bridge_release.Base.Eq.{id_eq, pair_eq}
use foxglove_bridge_release.Base.Lists.{is_empty}
use foxglove_bridge_release.Base.Map.{find, emplace, erase, insert}
use foxglove_bridge_release.Base.Exec.{
  Exec, Result, ok, throws, failure, lift, gets, modify, skip, match_option, or_throw, for_each,
  ◌>>=◌, ◌>>◌,
}
use foxglove_bridge_release.Json.{JsonLib}
use foxglove_bridge_release.Server.{Server, ChannelWithoutId}
use foxglove_bridge_release.Server.Channels.{add_channel, remove_channel, broadcast_channels}
use foxglove_bridge_release.Ros2.{TopicAndDatatype}
use foxglove_bridge_release.Ros2.Topics.{is_whitelisted, new_topics, removed_topics}
use foxglove_bridge_release.Ros1.{
  Bridge, Ros, MessageDescription, min_update_period_ms, ros1_channel_encoding,
}

abbrev pub set_bridge : (Bridge → Bridge) → Exec (Server Bridge) (Unit {0})
set_bridge f = modify (λ s. record s { bridge = f s.bridge })

-- the loop that fills latestTopics
unfoldable pub latest_topics :
    List (String → Bool) → List TopicAndDatatype → List TopicAndDatatype → List TopicAndDatatype
latest_topics patterns [] latest = latest
latest_topics patterns ((topic_name, datatype) ∷ rest) latest =
    latest_topics patterns rest
      (if is_whitelisted patterns topic_name then insert (topic_name, datatype) latest else latest)

-- size_t(1) << n
unfoldable pub shift_one : Ros → ℕ → ℕ
shift_one ros n = if ltb n 64 then 2 ^ n else ros.shift_out_of_range n

abbrev pub std_min : ℕ → ℕ → ℕ
std_min a b = if ltb b a then b else a

abbrev pub std_max : ℕ → ℕ → ℕ
std_max a b = if ltb a b then b else a

-- Exact for values below 2 ^ 53, and for every power of two.
unfoldable pub next_update_ms : Ros → ℕ → ℕ → ℕ
next_update_ms ros update_count max_update_ms =
    std_max min_update_period_ms (std_min (shift_one ros update_count) max_update_ms)

-- The timer that is assigned replaces the one before; what createTimer throws is not caught.
unfoldable pub schedule_update : Exec (Server Bridge) (Unit {0})
schedule_update = do
  set_bridge (λ b. record b { update_count = (b.update_count + 1) % 2 ^ 64 })
  next_ms ← gets (λ s. next_update_ms s.bridge.ros s.bridge.update_count s.bridge.max_update_ms)
  created ← gets (λ s. s.bridge.ros.create_timer next_ms)
  lift created
  set_bridge (λ b. record b { update_timer = some next_ms })

module _ {Json : Type 0} (J : JsonLib Json) where
  unfoldable pub remove_topic : TopicAndDatatype → Exec (Server Bridge) (Unit {0})
  remove_topic topic = do
    advertised ← gets (λ s. find topic s.bridge.advertised_topics)
    channel ← or_throw advertised (failure "unordered_map::at")
    remove_channel J channel.id
    set_bridge (λ b. record b {
      subscriptions = erase channel.id b.subscriptions;
      channel_to_topic_and_datatype = erase channel.id b.channel_to_topic_and_datatype;
      advertised_topics = erase topic b.advertised_topics;
    })

-- What the try block and its catch block make of the new channel; `none` for `continue`.
unfoldable pub new_channel :
    TopicAndDatatype → Result (Option MessageDescription) → Option ChannelWithoutId
new_channel (topic, datatype) (ok (some description)) = some (record {
  topic = topic;
  encoding = ros1_channel_encoding;
  schema_name = datatype;
  schema = description.message_definition;
})
new_channel (topic, datatype) (ok none) = some (record {
  topic = topic;
  encoding = ros1_channel_encoding;
  schema_name = datatype;
  schema = "";
})
new_channel (topic, datatype) (throws err) = none

unfoldable pub enter_channel : TopicAndDatatype → ChannelWithoutId → Exec (Server Bridge) (Unit {0})
enter_channel topic base = do
  id ← add_channel base
  set_bridge (λ b. record b {
    advertised_topics = emplace topic (record { base = base; id = id }) b.advertised_topics;
    channel_to_topic_and_datatype = emplace id topic b.channel_to_topic_and_datatype;
  })

unfoldable pub advertise_topic : TopicAndDatatype → Exec (Server Bridge) (Unit {0})
advertise_topic topic = do
  description ← gets (λ s. s.bridge.ros.message_description topic.1)
  match_option (new_channel topic description) skip (enter_channel topic)

module _ {Json : Type 0} (J : JsonLib Json) where
  -- For the topics that the master has named.
  unfoldable pub update_topics : List TopicAndDatatype → Exec (Server Bridge) (Unit {0})
  update_topics topic_names_and_types = do
    latest ← gets (λ s. latest_topics s.bridge.topic_whitelist_patterns topic_names_and_types [])
    added ← gets (λ s. new_topics s.bridge.advertised_topics latest)
    removed ← gets (λ s. removed_topics latest s.bridge.advertised_topics)
    for_each removed (remove_topic J)
    for_each added advertise_topic
    if is_empty added then skip else broadcast_channels J
    schedule_update

  unfoldable pub update_advertised_topics : Exec (Server Bridge) (Unit {0})
  update_advertised_topics = do
    set_bridge (λ b. record b { update_timer = none })
    ros ← gets (λ s. s.bridge.ros)
    if ros.is_ok then match_option ros.topics skip update_topics else skip
