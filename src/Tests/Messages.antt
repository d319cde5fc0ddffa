-- ===== src/Tests/Messages.antt =====
-- The server with the bridge's handlers, and messages in both directions.
use foxglove_bridge_release.Base.{List, ℕ, ◌≡◌, refl, some, [], ◌∷◌, arith}
use foxglove_bridge_release.Base.Eq.{id_eq}
use foxglove_bridge_release.Base.Map.{find}
use foxglove_bridge_release.Base.Exec.{ok, for_each}
use foxglove_bridge_release.Wire.Serialization.{write_uint32_le}
use foxglove_bridge_release.Server.{Server, Handlers, binary}
use foxglove_bridge_release.Server.Binary.{handle_binary_message}
use foxglove_bridge_release.Server.Channels.{message_frame, subscription_of}
use foxglove_bridge_release.Server.Delivery.{read_frame}
use foxglove_bridge_release.Client.{
  publish_frame, subscribe_payload, push_subscriptions, subscription_json,
}
use foxglove_bridge_release.Client.Subscribing.{handle_text_message-subscribe_payload}
use foxglove_bridge_release.Json.{JsonLib}
use foxglove_bridge_release.Server.Text.{handle_text_message, subscribe_channel}
use foxglove_bridge_release.Tests.Json.{Doc, lib, lib-JsonLaws}
use foxglove_bridge_release.Tests.Server.{parse_sample}
use foxglove_bridge_release.Ros2.{Bridge, Publication}
use foxglove_bridge_release.Ros2.Handlers.{
  subscribe_handler, unsubscribe_handler, client_advertise_handler, client_unadvertise_handler,
  client_message_handler, publisher_of, ros_message_handler,
}
use foxglove_bridge_release.Ros2.Messages.{publish-published, ros_message_handler-received}
use foxglove_bridge_release.Tests.Server.{sample_lib, sample_net}
use foxglove_bridge_release.Tests.Calls.{
  subscriber, publisher, advertisement, channel, second_channel, connection,
}
use foxglove_bridge_release.Tests.Bridge.{sample_bridge}

-- as the constructor of the bridge sets them
abbrev bridge_handlers : Handlers Bridge
bridge_handlers = record {
  subscribe_handler = some subscribe_handler;
  unsubscribe_handler = some unsubscribe_handler;
  client_advertise_handler = some client_advertise_handler;
  client_unadvertise_handler = some client_unadvertise_handler;
  client_message_handler = some client_message_handler;
}

abbrev cmd_publisher : Publication
cmd_publisher = record { topic_name = "/cmd"; topic_type = "std_msgs/String" }

abbrev publishing_bridge : Bridge
publishing_bridge = record sample_bridge {
  client_advertised_topics = (6, (3, cmd_publisher) ∷ []) ∷ [];
}

abbrev pub bridge_server : Server Bridge
bridge_server = record {
  name = "foxglove_bridge";
  capabilities = [];
  send_buffer_limit_bytes = 100;
  next_channel_id = 2;
  clients = (5, subscriber) ∷ (6, publisher) ∷ [];
  channels = (1, channel) ∷ (2, second_channel) ∷ [];
  client_channels = (6, (3, advertisement) ∷ []) ∷ [];
  handlers = bridge_handlers;
  bridge = publishing_bridge;
  sent = [];
}

publish-published_example :
    handle_binary_message sample_lib 9 6 (publish_frame 3 (1 ∷ 2 ∷ [])) bridge_server ≡ (
      ok tt,
      record bridge_server {
        bridge = record publishing_bridge { published = (cmd_publisher, 1 ∷ 2 ∷ []) ∷ [] };
      },
    )
publish-published_example =
    publish-published sample_lib 6 9 bridge_server 3 (1 ∷ 2 ∷ []) ((3, advertisement) ∷ [])
      advertisement cmd_publisher (omega arith)
      (unfold publish_frame write_uint32_le in omega arith) refl (unfold find in refl)
      (unfold find in refl) (unfold publisher_of find in refl) refl

ros_message_handler-received_example :
    (ros_message_handler sample_net 9 channel 5 (4 ∷ []) bridge_server
      ≡ (ok tt, record bridge_server { sent = (5, binary (message_frame 7 9 (4 ∷ []))) ∷ [] }))
    × (read_frame (message_frame 7 9 (4 ∷ [])) ≡ (1, 7, 9, 4 ∷ []))
ros_message_handler-received_example =
    ros_message_handler-received 5 9 bridge_server sample_net channel (4 ∷ []) connection 7 refl
      (omega arith) (unfold subscription_of find in refl) (omega arith) (omega arith)

-- A library whose only text is that of the request for channel 1 under the id 7.
abbrev pub request_lib : JsonLib Doc
request_lib = lib parse_sample (λ d. "sub")

abbrev request : List (ℕ × ℕ)
request = (7, 1) ∷ []

handle_text_message-subscribe_payload_example :
    handle_text_message request_lib 6 "sub" bridge_server
    ≡ for_each request (λ p. subscribe_channel request_lib 6 p.0 p.1) bridge_server
handle_text_message-subscribe_payload_example =
    handle_text_message-subscribe_payload request_lib (lib-JsonLaws parse_sample (λ d. "sub")) 6
      request "sub" bridge_server publisher refl
      (unfold subscribe_payload push_subscriptions subscription_json in refl) (unfold find in refl)
      ((omega arith, omega arith), tt)
