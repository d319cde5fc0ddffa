-- ===== src/Tests/Calls.antt =====
-- Single calls of the server and of the client at concrete inputs.
use foxglove_bridge_release.Base.{ℕ, ◌+◌, ◌++◌, ◌≡◌, ◌≢◌, refl, none, some, List, [], ◌∷◌, arith}
use foxglove_bridge_release.Base.Eq.{string_eq, id_eq}
use foxglove_bridge_release.Base.Map.{find, contains}
use foxglove_bridge_release.Base.Map.Distinct.{Every}
use foxglove_bridge_release.Base.Text.{concat, to_string}
use foxglove_bridge_release.Base.Exec.{ok, throws, failure, for_each}
use foxglove_bridge_release.Wire.{ClientAdvertisement}
use foxglove_bridge_release.Server.{
  Server, ClientInfo, Channel, Connection, Callback, warning, call,
}
use foxglove_bridge_release.Server.Send.{send_status}
use foxglove_bridge_release.Server.Text.{
  subscribe_channel, subscribe_item, unsubscribe_id, handle_subscribe, handle_unsubscribe,
  handle_advertise, handle_unadvertise, dispatch, find_subscription_by_sub_id, unadvertise_id,
  publications,
}
use foxglove_bridge_release.Server.Binary.{text_op, handle_message}
use foxglove_bridge_release.Server.Channels.{remove_channel, send_message, subscription_of}
use foxglove_bridge_release.Server.Connections.{handle_connection_closed}
use foxglove_bridge_release.Server.Run.{run}
use foxglove_bridge_release.Server.Invariant.{IsValid}
use foxglove_bridge_release.Server.Invariant.Run.{run-init-IsValid}
use foxglove_bridge_release.Server.Invariant.Removal.{remove_channel_lem}
use foxglove_bridge_release.Server.Isolation.{Touches, handle_message_isolated}
use foxglove_bridge_release.Server.Delivery.{send_message_drops}
use foxglove_bridge_release.Server.Subscriptions.{resubscribe_lost}
use foxglove_bridge_release.Server.Closing.{handle_connection_closed_lem}
use foxglove_bridge_release.Server.Dispatch.{dispatch_collisions, handle_subscribe_partial}
use foxglove_bridge_release.Server.Ids.{IsFresh, run-init-IsFresh}
use foxglove_bridge_release.Server.Publications.{after_calls, unadvertise_kept}
use foxglove_bridge_release.Client.{publish_frame}
use foxglove_bridge_release.Tests.Json.{Doc, nil, cons, end, member, number, string, array, object}
use foxglove_bridge_release.Tests.Server.{
  subscribe_doc, sample_lib, sample_handlers, sample_net, sample_channel, sample_events,
  sample_init,
}

-- Client 5 is subscribed to channel 1 under the id 7; client 6 has published channel 3.
abbrev pub subscriber : ClientInfo
subscriber = record {
  name = "[::1]:1234";
  handle = 5;
  subscriptions_by_channel = (1, 7) ∷ [];
  advertised_channels = [];
}

abbrev pub publisher : ClientInfo
publisher = record {
  name = "[::1]:1234";
  handle = 6;
  subscriptions_by_channel = [];
  advertised_channels = 3 ∷ [];
}

abbrev pub advertisement : ClientAdvertisement
advertisement = record {
  channel_id = 3;
  topic = "/cmd";
  encoding = "cdr";
  schema_name = "std_msgs/String";
  schema = [];
}

abbrev pub channel : Channel
channel = record { base = sample_channel; id = 1 }

abbrev pub second_channel : Channel
second_channel = record { base = sample_channel; id = 2 }

abbrev pub sample_server : Server ℕ
sample_server = record {
  name = "foxglove_bridge";
  capabilities = [];
  send_buffer_limit_bytes = 100;
  next_channel_id = 2;
  clients = (5, subscriber) ∷ (6, publisher) ∷ [];
  channels = (1, channel) ∷ (2, second_channel) ∷ [];
  client_channels = (6, (3, advertisement) ∷ []) ∷ [];
  handlers = sample_handlers;
  bridge = 0;
  sent = [];
}

abbrev pub connection : Connection
connection = record {
  remote_endpoint = "[::1]:1234";
  resource = "/";
  requested_subprotocols = [];
  buffered_amount = 0;
}

handle_message_isolated_example :
    Touches 5 sample_server (handle_message sample_lib 0 5 text_op "sub" [] sample_server).1
    × ((handle_message sample_lib 0 5 text_op "sub" [] sample_server).0 ≡ ok tt)
handle_message_isolated_example =
    handle_message_isolated sample_lib 5 0 text_op "sub" [] sample_server

send_message_drops_example :
    send_message sample_net 5 2 9 (4 ∷ []) sample_server ≡ (ok tt, sample_server)
send_message_drops_example =
    send_message_drops sample_net 5 2 9 (4 ∷ []) sample_server
      (λ con sub e room h. unfold subscription_of find in cc)

-- The request names channel 1 once more, under the id 8.
resubscribe_lost_example :
    let t = (subscribe_channel sample_lib 5 8 1 sample_server).1 in
    (find 5 t.clients ≡ some subscriber)
    × (t.sent ≡ [])
    × (unsubscribe_id sample_lib 5 8 t
        ≡ send_status sample_lib 5 warning
            (concat (
              "Client subscription id "
              ∷ to_string 8
              ∷ " did not exist; ignoring unsubscription"
              ∷ []))
            t)
unfolding find_subscription_by_sub_id
resubscribe_lost_example =
    resubscribe_lost sample_lib 5 sample_server subscriber (unfold find in refl) 8 1 7 channel refl
      (unfold find in refl) (unfold find in refl)

handle_connection_closed_lem_example :
    let t = (handle_connection_closed 5 sample_server).1 in
    (find 5 t.clients ≡ none)
    × ((h : ℕ) → 5 ≢ h → find h t.clients ≡ find h sample_server.clients)
    × ((h : ℕ) → 5 ≢ h → find h t.client_channels ≡ find h sample_server.client_channels)
    × (t.channels ≡ sample_server.channels)
    × (t.sent ≡ [])
handle_connection_closed_lem_example = handle_connection_closed_lem 5 sample_server

dispatch_collisions_example :
    (dispatch sample_lib 5 "inieabrb" subscribe_doc sample_server
      ≡ handle_subscribe sample_lib 5 subscribe_doc sample_server)
    × (dispatch sample_lib 5 "hiwmcnlg" subscribe_doc sample_server
        ≡ handle_unsubscribe sample_lib 5 subscribe_doc sample_server)
    × (dispatch sample_lib 5 "mjtiacez" subscribe_doc sample_server
        ≡ handle_advertise sample_lib 5 subscribe_doc sample_server)
    × (dispatch sample_lib 5 "wrsqaavm" subscribe_doc sample_server
        ≡ handle_unadvertise sample_lib 5 subscribe_doc sample_server)
dispatch_collisions_example = dispatch_collisions sample_lib 5 subscribe_doc sample_server

run-init-IsFresh_example :
    let t = run sample_lib sample_events sample_init in IsFresh t × (t.next_channel_id ≡ 1)
run-init-IsFresh_example =
    run-init-IsFresh sample_lib "foxglove_bridge" [] 100 sample_handlers 0 sample_events
      (omega arith)

abbrev published : List ℕ
published = publish_frame 3 (1 ∷ 2 ∷ [])

remove_channel_lem_example :
    let s = run sample_lib sample_events sample_init in
    let t = (remove_channel sample_lib 1 s).1 in
    IsValid t
    × (find 1 t.channels ≡ none)
    × Every (λ h c. find 1 c.subscriptions_by_channel ≡ none) t.clients
remove_channel_lem_example =
    remove_channel_lem sample_lib 1 (run sample_lib sample_events sample_init)
      (run-init-IsValid sample_lib "foxglove_bridge" [] 100 sample_handlers 0 sample_events)

-- The second item of the list has no "id".
abbrev partial_list : Doc
partial_list = array (
    cons (object (member "id" (number 8) (member "channelId" (number 2) end)))
      (cons (object end) nil))

abbrev partial_doc : Doc
partial_doc = object (member "op" (string "subscribe") (member "subscriptions" partial_list end))

handle_subscribe_partial_example :
    handle_subscribe sample_lib 5 partial_doc sample_server
    ≡ (throws (failure "key not found"), (subscribe_channel sample_lib 5 8 2 sample_server).1)
unfolding subscribe_item subscribe_channel call
handle_subscribe_partial_example =
    handle_subscribe_partial sample_lib 5 partial_doc sample_server partial_list (object end)
      (object (member "id" (number 8) (member "channelId" (number 2) end)) ∷ []) []
      (failure "key not found") (subscribe_channel sample_lib 5 8 2 sample_server).1 refl refl
      (unfold for_each find find_subscription_by_sub_id in refl) refl

-- The bridge counts the calls of the unadvertise handler.
abbrev counting : Callback ℕ ℕ
counting id h n = (ok tt, n + 1)

abbrev counting_server : Server ℕ
counting_server = record sample_server {
  handlers = record sample_handlers { client_unadvertise_handler = some counting };
}

unadvertise_kept_example :
    let t = (unadvertise_id sample_lib 6 3 counting_server).1 in
    (find 3 (publications 6 t) ≡ none)
    × (find 6 t.clients ≡ some publisher)
    × (t.bridge ≡ 1)
    × ((handle_connection_closed 6 t).1.bridge ≡ after_calls counting 6 (3 ∷ []) t.bridge)
    × ((before : List ℕ) × (after : List ℕ) × (3 ∷ [] ≡ before ++ 3 ∷ after))
unadvertise_kept_example =
    unadvertise_kept sample_lib 6 counting_server publisher counting 3 ((3, advertisement) ∷ [])
      advertisement (λ id h b. refl) refl (unfold find in refl) refl (unfold contains in refl)
      (unfold find in refl) (unfold find in refl)
