-- ===== src/Ros2/Handlers.antt =====
-- ros2_foxglove_bridge.cpp: the handlers that the bridge gives to the server, and rosMessageHandler.
use foxglove_bridge_release.Base.{
  ℕ, Option, none, some, List, [], ◌∷◌, ◌++◌, ◌&&◌, not, if◌then◌else◌,
}
use foxglove_bridge_release.Base.Eq.{id_eq, pair_eq}
use foxglove_bridge_release.Base.Lists.{take, is_empty}
use foxglove_bridge_release.Base.Map.{Map, find, emplace, erase, update, is_some, get_or}
use foxglove_bridge_release.Base.Exec.{
  Exec, lift, gets, modify, skip, catching, match_option, ◌>>=◌, ◌>>◌,
}
use foxglove_bridge_release.Wire.{ClientAdvertisement}
use foxglove_bridge_release.Server.{Server, Channel, ClientMessage, Network}
use foxglove_bridge_release.Server.Binary.{get_data, get_length}
use foxglove_bridge_release.Server.Channels.{send_message}
use foxglove_bridge_release.Ros2.{Bridge, Subscription, Publication, TopicAndDatatype}
use foxglove_bridge_release.Ros2.Profile.{select_qos}

abbrev pub set_subscriptions :
    (Map ℕ (Map ℕ Subscription) → Map ℕ (Map ℕ Subscription)) → Exec Bridge (Unit {0})
set_subscriptions f = modify (λ b. record b { subscriptions = f b.subscriptions })

abbrev pub set_client_advertised_topics :
    (Map ℕ (Map ℕ Publication) → Map ℕ (Map ℕ Publication)) → Exec Bridge (Unit {0})
set_client_advertised_topics f =
    modify (λ b. record b { client_advertised_topics = f b.client_advertised_topics })

-- From the query for the publishers on: the subscription is created with the selected QoS profile
-- and entered, and an exception on the way is logged; what the query throws is not caught.
unfoldable pub create_subscription : ℕ → ℕ → TopicAndDatatype → Channel → Exec Bridge (Unit {0})
create_subscription channel_id client_handle (topic, datatype) channel = do
  publishers_info ← gets (λ b. b.ros.publishers_qos topic)
  publishers ← lift publishers_info
  qos ← gets (λ b. select_qos b.max_qos_depth publishers)
  created ← gets (λ b. b.ros.create_generic_subscription topic datatype qos)
  catching
      (lift created
        >> set_subscriptions (
            update channel_id (
              emplace client_handle (record {
                topic = topic;
                datatype = datatype;
                qos = qos;
                channel = channel;
                client_handle = client_handle;
              }))))
      (λ ex. skip)

-- For a channel that is advertised.
unfoldable pub subscribe_client : ℕ → ℕ → TopicAndDatatype → Channel → Exec Bridge (Unit {0})
subscribe_client channel_id client_handle topic_and_datatype channel = do
  first_subscription ← gets (λ b. not (is_some (find channel_id b.subscriptions)))
  set_subscriptions (emplace channel_id [])
  subscriptions_by_client ← gets (λ b. get_or [] (find channel_id b.subscriptions))
  if not first_subscription && is_some (find client_handle subscriptions_by_client)
      then skip
      else create_subscription channel_id client_handle topic_and_datatype channel

unfoldable pub subscribe_handler : ℕ → ℕ → Exec Bridge (Unit {0})
subscribe_handler channel_id client_handle = do
  topic_and_datatype ← gets (λ b. find channel_id b.channel_to_topic_and_datatype)
  match_option topic_and_datatype skip (λ topic. do
    channel ← gets (λ b. find topic b.advertised_topics)
    match_option channel skip (subscribe_client channel_id client_handle topic))

unfoldable pub unsubscribe_handler : ℕ → ℕ → Exec Bridge (Unit {0})
unsubscribe_handler channel_id client_handle = do
  subscriptions ← gets (λ b. find channel_id b.subscriptions)
  match_option subscriptions skip (λ subscriptions_by_client.
      match_option (find client_handle subscriptions_by_client) skip (λ subscription. do
        set_subscriptions (update channel_id (erase client_handle))
        if is_empty (erase client_handle subscriptions_by_client)
            then set_subscriptions (erase channel_id)
            else skip))

unfoldable pub client_advertise_handler : ClientAdvertisement → ℕ → Exec Bridge (Unit {0})
client_advertise_handler advertisement hdl = do
  is_first_publication ← gets (λ b. not (is_some (find hdl b.client_advertised_topics)))
  set_client_advertised_topics (emplace hdl [])
  client_publications ← gets (λ b. get_or [] (find hdl b.client_advertised_topics))
  created ← gets (λ b. b.ros.create_generic_publisher advertisement.topic advertisement.schema_name)
  if not is_first_publication && is_some (find advertisement.channel_id client_publications)
      then skip
      else (lift created
          >> set_client_advertised_topics (
              update hdl (
                emplace advertisement.channel_id (record {
                  topic_name = advertisement.topic;
                  topic_type = advertisement.schema_name;
                }))))

unfoldable pub client_unadvertise_handler : ℕ → ℕ → Exec Bridge (Unit {0})
client_unadvertise_handler channel_id hdl = do
  publications ← gets (λ b. find hdl b.client_advertised_topics)
  match_option publications skip (λ client_publications.
      match_option (find channel_id client_publications) skip (λ publisher. do
        set_client_advertised_topics (update hdl (erase channel_id))
        if is_empty (erase channel_id client_publications)
            then set_client_advertised_topics (erase hdl)
            else skip))

-- the publisher that is called, if there is one
unfoldable pub publisher_of : ℕ → ℕ → Bridge → Option Publication
publisher_of channel_id hdl b = elim (find hdl b.client_advertised_topics) [
  | none ↦ none
  | some client_publications ↦ find channel_id client_publications
]

unfoldable pub client_message_handler : ClientMessage → ℕ → Exec Bridge (Unit {0})
unfolding publisher_of
client_message_handler message hdl = do
  publication ← gets (publisher_of message.advertisement.channel_id hdl)
  match_option publication skip (λ publisher. do
    let serialized_message = take (get_length message) (get_data message)
    result ← gets (λ b. b.ros.publish publisher serialized_message)
    lift result
    modify (λ b. record b { published = b.published ++ (publisher, serialized_message) ∷ [] }))

-- The callback of a subscription; the time of receipt is an argument.
unfoldable pub ros_message_handler :
    Network → ℕ → Channel → ℕ → List ℕ → Exec (Server Bridge) (Unit {0})
ros_message_handler net timestamp channel client_handle payload =
    send_message net client_handle channel.id timestamp payload
