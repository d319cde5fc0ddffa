-- ===== src/Ros1/Handlers.antt =====
-- ros1_foxglove_bridge_nodelet.cpp: the handlers that the bridge gives to the server, and
-- rosMessageHandler.
use foxglove_bridge_release.Base.{ℕ, Option, false, List, [], ◌∷◌, ◌++◌, ◌&&◌, not, if◌then◌else◌}
use foxglove_bridge_release.Base.Eq.{◌==◌, id_eq, string_eq, pair_eq}
use foxglove_bridge_release.Base.Lists.{is_empty}
use foxglove_bridge_release.Base.Map.{Map, find, emplace, erase, update, is_some, get_or}
use foxglove_bridge_release.Base.Exec.{
  Exec, lift, gets, modify, skip, catching, match_option, ◌>>=◌, ◌>>◌,
}
use foxglove_bridge_release.Wire.{ClientAdvertisement}
use foxglove_bridge_release.Server.{Server, Channel, ClientMessage, Network}
use foxglove_bridge_release.Server.Channels.{send_message}
use foxglove_bridge_release.Ros2.{TopicAndDatatype}
use foxglove_bridge_release.Ros1.{
  Bridge, Subscription, AdvertiseOptions, MessageDescription, subscription_queue_length,
  ros1_channel_encoding, publication_queue_length,
}

abbrev pub set_subscriptions :
    (Map ℕ (Map ℕ Subscription) → Map ℕ (Map ℕ Subscription)) → Exec Bridge (Unit {0})
set_subscriptions f = modify (λ b. record b { subscriptions = f b.subscriptions })

abbrev pub set_client_advertised_topics :
    (Map ℕ (Map ℕ AdvertiseOptions) → Map ℕ (Map ℕ AdvertiseOptions)) → Exec Bridge (Unit {0})
set_client_advertised_topics f =
    modify (λ b. record b { client_advertised_topics = f b.client_advertised_topics })

-- The try block; an exception in it is logged.
unfoldable pub create_subscription : ℕ → ℕ → TopicAndDatatype → Channel → Exec Bridge (Unit {0})
create_subscription channel_id client_handle (topic, datatype) channel = do
  created ← gets (λ b. b.ros.subscribe topic subscription_queue_length)
  catching
      (lift created
        >> set_subscriptions (
            update channel_id (
              emplace client_handle (record {
                topic = topic;
                queue_length = subscription_queue_length;
                channel = channel;
                client_handle = client_handle;
              }))))
      (λ ex. skip)

-- For a channel that is advertised.
unfoldable pub subscribe_client : ℕ → ℕ → TopicAndDatatype → Channel → Exec Bridge (Unit {0})
subscribe_client channel_id client_handle topic_and_datatype channel = do
  first_subscription ← gets (λ b. not (is_some (find channel_id b.subscriptions)))
  set_subscriptions (emplace channel_id [])
  subscriptions_by_client ← gets (λ b. get_or [] (find channel_id b.subscriptions))
  if not first_subscription && is_some (find client_handle subscriptions_by_client)
      then skip
      else create_subscription channel_id client_handle topic_and_datatype channel

unfoldable pub subscribe_handler : ℕ → ℕ → Exec Bridge (Unit {0})
subscribe_handler channel_id client_handle = do
  topic_and_datatype ← gets (λ b. find channel_id b.channel_to_topic_and_datatype)
  match_option topic_and_datatype skip (λ topic. do
    channel ← gets (λ b. find topic b.advertised_topics)
    match_option channel skip (subscribe_client channel_id client_handle topic))

unfoldable pub unsubscribe_handler : ℕ → ℕ → Exec Bridge (Unit {0})
unsubscribe_handler channel_id client_handle = do
  subscriptions ← gets (λ b. find channel_id b.subscriptions)
  match_option subscriptions skip (λ subscriptions_by_client.
      match_option (find client_handle subscriptions_by_client) skip (λ subscription. do
        set_subscriptions (update channel_id (erase client_handle))
        if is_empty (erase client_handle subscriptions_by_client)
            then set_subscriptions (erase channel_id)
            else skip))

unfoldable pub advertise_options : ClientAdvertisement → MessageDescription → AdvertiseOptions
advertise_options channel msg_description = record {
  datatype = channel.schema_name;
  has_header = false;
  latch = false;
  md5sum = msg_description.md5;
  message_definition = msg_description.message_definition;
  queue_size = publication_queue_length;
  topic = channel.topic;
}

-- From the test of the description on.
unfoldable pub create_publisher :
    ClientAdvertisement → ℕ → Option MessageDescription → Exec Bridge (Unit {0})
create_publisher channel client_handle msg_description =
    match_option msg_description skip (λ description. do
      result ← gets (λ b. b.ros.advertise (advertise_options channel description))
      publisher ← lift result
      if publisher
          then set_client_advertised_topics (
              update client_handle
                (emplace channel.channel_id (advertise_options channel description)))
          else skip)

-- Behind the test of the encoding.
unfoldable pub advertise_client : ClientAdvertisement → ℕ → Exec Bridge (Unit {0})
advertise_client channel client_handle = do
  is_first_publication ← gets (λ b. not (is_some (find client_handle b.client_advertised_topics)))
  set_client_advertised_topics (emplace client_handle [])
  client_publications ← gets (λ b. get_or [] (find client_handle b.client_advertised_topics))
  msg_description ← gets (λ b. b.ros.message_description channel.schema_name)
  if not is_first_publication && is_some (find channel.channel_id client_publications)
      then skip
      else (lift msg_description >>= create_publisher channel client_handle)

unfoldable pub client_advertise_handler : ClientAdvertisement → ℕ → Exec Bridge (Unit {0})
client_advertise_handler channel client_handle =
    if channel.encoding == ros1_channel_encoding
    then advertise_client channel client_handle
    else skip

unfoldable pub client_unadvertise_handler : ℕ → ℕ → Exec Bridge (Unit {0})
client_unadvertise_handler channel_id client_handle = do
  publications ← gets (λ b. find client_handle b.client_advertised_topics)
  match_option publications skip (λ client_publications.
      match_option (find channel_id client_publications) skip (λ publisher. do
        set_client_advertised_topics (update client_handle (erase channel_id))
        if is_empty (erase channel_id client_publications)
            then set_client_advertised_topics (erase client_handle)
            else skip))

unfoldable pub client_message_handler : ClientMessage → ℕ → Exec Bridge (Unit {0})
client_message_handler client_msg client_handle = do
  msg ← gets (λ b. b.ros.read client_msg)
  publications ← gets (λ b. find client_handle b.client_advertised_topics)
  match_option publications skip (λ client_publications.
      match_option (find client_msg.advertisement.channel_id client_publications) skip (λ publisher.
        do
          result ← gets (λ b. b.ros.publish publisher msg)
          lift result
          modify (λ b. record b { published = b.published ++ (publisher, msg) ∷ [] })))

-- The callback of a subscription; the time of receipt and the bytes of the message are arguments.
unfoldable pub ros_message_handler :
    Network → ℕ → Channel → ℕ → List ℕ → Exec (Server Bridge) (Unit {0})
ros_message_handler net receipt_time_ns channel client_handle bytes =
    send_message net client_handle channel.id receipt_time_ns bytes
