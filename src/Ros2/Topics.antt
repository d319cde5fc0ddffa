-- ===== src/Ros2/Topics.antt =====
-- ros2_foxglove_bridge.cpp: updateAdvertisedTopics, on the server that the bridge owns.
use foxglove_bridge_release.Base.{
  ℕ, String, Option, none, some, Bool, false, List, [], ◌∷◌, ◌||◌, if◌then◌else◌,
}
use foxglove_bridge_release.Base.Eq.{id_eq, pair_eq}
use foxglove_bridge_release.Base.Lists.{is_empty}
use foxglove_bridge_release.Base.Map.{Map, find, emplace, erase, is_some, contains, insert}
use foxglove_bridge_release.Base.Exec.{
  Exec, Result, ok, throws, lift, definition_not_found, failure, out_of_fuel, gets, modify, skip,
  match_option, or_throw, for_each, ◌>>=◌, ◌>>◌,
}
use foxglove_bridge_release.Json.{JsonLib}
use foxglove_bridge_release.Server.{Server, Channel, ChannelWithoutId}
use foxglove_bridge_release.Server.Channels.{add_channel, remove_channel, broadcast_channels}
use foxglove_bridge_release.Definitions.{MessageDefinitionFormat, Sources}
use foxglove_bridge_release.Definitions.FullText.{get_full_text}
use foxglove_bridge_release.Ros2.{Bridge, TopicAndDatatype}

abbrev pub set_bridge : (Bridge → Bridge) → Exec (Server Bridge) (Unit {0})
set_bridge f = modify (λ s. record s { bridge = f s.bridge })

unfoldable pub is_whitelisted : List (String → Bool) → String → Bool
is_whitelisted [] topic_name = false
is_whitelisted (pattern ∷ patterns) topic_name =
    pattern topic_name || is_whitelisted patterns topic_name

-- latestTopics.emplace(topicName, datatype), for each datatype
unfoldable pub insert_datatypes :
    String → List String → List TopicAndDatatype → List TopicAndDatatype
insert_datatypes topic_name [] latest = latest
insert_datatypes topic_name (datatype ∷ datatypes) latest =
    insert_datatypes topic_name datatypes (insert (topic_name, datatype) latest)

unfoldable pub collect_topics :
    List (String → Bool) → Map String (List String) → List TopicAndDatatype → List TopicAndDatatype
collect_topics patterns [] latest = latest
collect_topics patterns ((topic_name, datatypes) ∷ rest) latest = collect_topics patterns rest (
    if is_whitelisted patterns topic_name
    then insert_datatypes topic_name datatypes latest
    else latest)

unfoldable pub latest_topics :
    List (String → Bool) → Map String (List String) → List TopicAndDatatype
latest_topics patterns topic_names_and_types = collect_topics patterns topic_names_and_types []

unfoldable pub new_topics :
    Map TopicAndDatatype Channel → List TopicAndDatatype → List TopicAndDatatype
new_topics advertised [] = []
new_topics advertised (topic ∷ rest) =
    let more = new_topics advertised rest in
    if is_some (find topic advertised) then more else topic ∷ more

unfoldable pub removed_topics :
    List TopicAndDatatype → Map TopicAndDatatype Channel → List TopicAndDatatype
removed_topics latest [] = []
removed_topics latest ((topic, channel) ∷ rest) =
    let more = removed_topics latest rest in if contains topic latest then more else topic ∷ more

module _ {Json : Type 0} (J : JsonLib Json) where
  unfoldable pub remove_topic : TopicAndDatatype → Exec (Server Bridge) (Unit {0})
  remove_topic topic = do
    advertised ← gets (λ s. find topic s.bridge.advertised_topics)
    channel ← or_throw advertised (failure "unordered_map::at")
    remove_channel J channel.id
    set_bridge (λ b. record b { subscriptions = erase channel.id b.subscriptions })
    set_bridge (λ b. record b {
      channel_to_topic_and_datatype = erase channel.id b.channel_to_topic_and_datatype;
    })
    set_bridge (λ b. record b { advertised_topics = erase topic b.advertised_topics })

-- What the try block and its catch blocks make of the new channel; `none` for `continue`.
unfoldable pub new_channel :
    TopicAndDatatype → Result (MessageDefinitionFormat × String) → Option ChannelWithoutId
new_channel (topic, datatype) (ok (format, schema)) =
    some (record { topic = topic; encoding = "cdr"; schema_name = datatype; schema = schema })
new_channel (topic, datatype) (throws (definition_not_found name)) =
    some (record { topic = topic; encoding = ""; schema_name = datatype; schema = "" })
new_channel (topic, datatype) (throws (failure text)) = none
new_channel (topic, datatype) (throws out_of_fuel) = none

-- What is thrown is an answer here, since it is caught; the cache keeps what was loaded.
unfoldable pub full_text_of :
    Sources → ℕ → String → Exec (Server Bridge) (Result (MessageDefinitionFormat × String))
full_text_of sources fuel datatype s =
    let (r, cache) = get_full_text sources fuel datatype s.bridge.message_definition_cache in
    (ok r, record s { bridge = record (s.bridge) { message_definition_cache = cache } })

unfoldable pub enter_channel : TopicAndDatatype → ChannelWithoutId → Exec (Server Bridge) (Unit {0})
enter_channel topic base = do
  id ← add_channel base
  set_bridge (λ b. record b {
    advertised_topics = emplace topic (record { base = base; id = id }) b.advertised_topics;
    channel_to_topic_and_datatype = emplace id topic b.channel_to_topic_and_datatype;
  })

unfoldable pub advertise_topic : Sources → ℕ → TopicAndDatatype → Exec (Server Bridge) (Unit {0})
advertise_topic sources fuel topic = do
  result ← full_text_of sources fuel topic.1
  match_option (new_channel topic result) skip (enter_channel topic)

module _ {Json : Type 0} (J : JsonLib Json) (sources : Sources) (fuel : ℕ) where
  -- For the topics that rclcpp has named.
  unfoldable pub update_known_topics : Map String (List String) → Exec (Server Bridge) (Unit {0})
  update_known_topics topic_names_and_types = do
    latest ← gets (λ s. latest_topics s.bridge.topic_whitelist_patterns topic_names_and_types)
    added ← gets (λ s. new_topics s.bridge.advertised_topics latest)
    removed ← gets (λ s. removed_topics latest s.bridge.advertised_topics)
    for_each removed (remove_topic J)
    for_each added (advertise_topic sources fuel)
    if is_empty added then skip else broadcast_channels J

  -- Behind the test of rclcpp::ok(); what get_topic_names_and_types throws is not caught.
  unfoldable pub update_topics : Exec (Server Bridge) (Unit {0})
  update_topics = do
    graph ← gets (λ s. s.bridge.ros.topic_names_and_types)
    topic_names_and_types ← lift graph
    update_known_topics topic_names_and_types

  unfoldable pub update_advertised_topics : Exec (Server Bridge) (Unit {0})
  update_advertised_topics = do
    running ← gets (λ s. s.bridge.ros.is_ok)
    if running then update_topics else skip
