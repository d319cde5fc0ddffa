-- ===== src/Tests/Flow.antt =====
-- A client subscribes over the server and the bridge, and a message of the topic reaches it.
use foxglove_bridge_release.Base.{◌≡◌, refl, some, [], ◌∷◌, ◌++◌, arith}
use foxglove_bridge_release.Base.Eq.{id_eq, string_eq, pair_eq}
use foxglove_bridge_release.Base.Map.{find, emplace}
use foxglove_bridge_release.Base.Map.Nested.{entry_at}
use foxglove_bridge_release.Base.Exec.{ok}
use foxglove_bridge_release.Server.{Server, ClientInfo, binary}
use foxglove_bridge_release.Server.Channels.{message_frame}
use foxglove_bridge_release.Server.Text.{find_subscription_by_sub_id}
use foxglove_bridge_release.Server.Delivery.{read_frame}
use foxglove_bridge_release.Client.{subscribe_payload, push_subscriptions, subscription_json}
use foxglove_bridge_release.Tables.{entered-IsTracked}
use foxglove_bridge_release.Ros2.{Bridge}
use foxglove_bridge_release.Ros2.Handlers.{ros_message_handler}
use foxglove_bridge_release.Ros2.Subscriptions.{new_subscription}
use foxglove_bridge_release.Ros2.Construction.Serving.{bridge_handlers}
use foxglove_bridge_release.Ros2.Flow.{IsFirstRequest, subscribed, subscribed-received}
use foxglove_bridge_release.Tests.Json.{lib-JsonLaws}
use foxglove_bridge_release.Tests.Server.{parse_sample, sample_net}
use foxglove_bridge_release.Tests.Calls.{connection}
use foxglove_bridge_release.Tests.Bridge.{offered}
use foxglove_bridge_release.Tests.Messages.{request_lib}
use foxglove_bridge_release.Tests.Topics.{
  topics_server, topics_bridge, chatter, chatter_base, chatter_channel, no_topics,
}

abbrev new_client : ClientInfo
new_client = record {
  name = "[::1]:1234";
  handle = 6;
  subscriptions_by_channel = [];
  advertised_channels = [];
}

abbrev pub flow_server : Server Bridge
flow_server = record topics_server {
  clients = (6, new_client) ∷ [];
  handlers = bridge_handlers;
  send_buffer_limit_bytes = 100;
}

-- The client asks for channel 1 under the id 7.
first_request :
    IsFirstRequest request_lib
      (lib-JsonLaws parse_sample (λ d. "sub"))
      6
      7
      "sub"
      flow_server
      new_client
      "/chatter"
      "std_msgs/String"
      chatter_channel
      offered
unfolding find find_subscription_by_sub_id emplace subscribe_payload push_subscriptions
    subscription_json
first_request = record {
  printed = refl;
  parsed = refl;
  connected = refl;
  unused = refl;
  unsubscribed = refl;
  handled = refl;
  agree = entered-IsTracked [] [] [] 0 no_topics chatter chatter_base refl;
  advertised = refl;
  offered = refl;
  created = refl;
  new = refl;
  sub_small = omega arith;
  id_small = omega arith;
}

abbrev flow_subscribed : Server Bridge
flow_subscribed =
    subscribed request_lib (lib-JsonLaws parse_sample (λ d. "sub")) 6 7 "sub" flow_server new_client
      "/chatter" "std_msgs/String" chatter_channel offered

subscribed-received_example :
    (entry_at 1 6 flow_subscribed.bridge.subscriptions
      ≡ some
          (new_subscription 1 6 topics_bridge "/chatter" "std_msgs/String" chatter_channel offered))
    × (ros_message_handler sample_net 9 chatter_channel 6 (4 ∷ 5 ∷ []) flow_subscribed ≡ (
      ok tt,
      record flow_subscribed {
        sent = flow_subscribed.sent ++ (6, binary (message_frame 7 9 (4 ∷ 5 ∷ []))) ∷ [];
      },
    ))
    × (read_frame (message_frame 7 9 (4 ∷ 5 ∷ [])) ≡ (1, 7, 9, 4 ∷ 5 ∷ []))
subscribed-received_example =
    subscribed-received request_lib (lib-JsonLaws parse_sample (λ d. "sub")) 6 7 "sub" flow_server
      new_client "/chatter" "std_msgs/String" chatter_channel offered first_request sample_net 9
      (4 ∷ 5 ∷ []) connection refl (omega arith) (omega arith)
