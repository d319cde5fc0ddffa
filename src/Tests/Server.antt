-- ===== src/Tests/Server.antt =====
-- The server's theorems at concrete inputs.
use foxglove_bridge_release.Base.{ℕ, suc, String, none, some, List, [], ◌∷◌, if◌then◌else◌}
use foxglove_bridge_release.Base.Eq.{◌==◌, string_eq}
use foxglove_bridge_release.Base.Exec.{Result, ok, throws, failure}
use foxglove_bridge_release.Json.{JsonLib}
use foxglove_bridge_release.Server.{Server, Handlers, Network, ChannelWithoutId}
use foxglove_bridge_release.Server.Binary.{text_op}
use foxglove_bridge_release.Server.Run.{
  Event, opened, closed, message, channel_added, channel_removed, run, init,
}
use foxglove_bridge_release.Server.Invariant.{IsValid}
use foxglove_bridge_release.Server.Invariant.Run.{run-init-IsValid}
use foxglove_bridge_release.Tests.Json.{
  Doc, nil, cons, end, member, number, string, array, object, lib,
}

-- {"op": "subscribe", "subscriptions": [{"id": 7, "channelId": 1}]}
abbrev pub subscribe_doc : Doc
subscribe_doc = object (
    member "op" (string "subscribe") (
      member "subscriptions"
        (array (cons (object (member "id" (number 7) (member "channelId" (number 1) end))) nil))
        end))

abbrev pub parse_sample : String → Result Doc
parse_sample s = if s == "sub" then ok subscribe_doc else throws (failure "parse error")

abbrev pub sample_lib : JsonLib Doc
sample_lib = lib parse_sample (λ d. "{}")

-- The bridge of the tests counts the calls of its handlers.
abbrev pub sample_handlers : Handlers ℕ
sample_handlers = record {
  subscribe_handler = some (λ a h n. (ok tt, suc n));
  unsubscribe_handler = some (λ a h n. (ok tt, suc n));
  client_advertise_handler = none;
  client_unadvertise_handler = none;
  client_message_handler = none;
}

abbrev pub sample_net : Network
sample_net h = some (record {
  remote_endpoint = "[::1]:1234";
  resource = "/";
  requested_subprotocols = [];
  buffered_amount = 0;
})

abbrev pub sample_channel : ChannelWithoutId
sample_channel = record {
  topic = "/chatter";
  encoding = "cdr";
  schema_name = "std_msgs/String";
  schema = "";
}

abbrev pub sample_events : List Event
sample_events =
    channel_added sample_channel
    ∷ opened sample_net 5
    ∷ message 0 5 text_op "sub" []
    ∷ channel_removed 1
    ∷ closed 5
    ∷ []

abbrev pub sample_init : Server ℕ
sample_init = init "foxglove_bridge" [] 100 sample_handlers 0

run-init-IsValid_example : IsValid (run sample_lib sample_events sample_init)
run-init-IsValid_example =
    run-init-IsValid sample_lib "foxglove_bridge" [] 100 sample_handlers 0 sample_events
