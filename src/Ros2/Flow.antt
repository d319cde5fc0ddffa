-- ===== src/Ros2/Flow.antt =====
-- From the subscribe request of a client over the server and the bridge to the messages of the topic.
use foxglove_bridge_release.Base.{
  ℕ, ◌^◌, ◌<◌, ◌≡◌, refl, ap, ◌∙◌, String, none, some, List, [], ◌∷◌, ◌++◌, arith,
}
use foxglove_bridge_release.Base.Eq.{==_refl, id_eq, pair_eq}
use foxglove_bridge_release.Base.Map.{find, emplace, update}
use foxglove_bridge_release.Base.Map.Nested.{entry_at}
use foxglove_bridge_release.Base.Exec.{Exec, Result, ok, throws, for_each}
use foxglove_bridge_release.Json.{JsonLib, JsonLaws}
use foxglove_bridge_release.Server.{Server, Channel, ClientInfo, Network, Connection, binary, call}
use foxglove_bridge_release.Server.Text.{
  handle_text_message, subscribe_channel, find_subscription_by_sub_id,
}
use foxglove_bridge_release.Server.Text.Cases.{subscribe_accepted}
use foxglove_bridge_release.Server.Channels.{subscription_of, message_frame}
use foxglove_bridge_release.Server.Subscriptions.{subscription_of-subscribe}
use foxglove_bridge_release.Server.Delivery.{read_frame}
use foxglove_bridge_release.Client.{subscribe_payload}
use foxglove_bridge_release.Client.Subscribing.{handle_text_message-subscribe_payload}
use foxglove_bridge_release.Tables.Laws.{IsTrackedIn}
use foxglove_bridge_release.Ros2.{Bridge, Qos}
use foxglove_bridge_release.Ros2.Handlers.{subscribe_handler, ros_message_handler}
use foxglove_bridge_release.Ros2.Subscriptions.{new_subscription, subscribe_handler_lem}
use foxglove_bridge_release.Ros2.Messages.{ros_message_handler-received}
use foxglove_bridge_release.Ros2.Advertised.{tables}

-- A loop of one round leaves what the round leaves.
after_round :
    {S : Type 0} (p : Result (Unit {0}) × S)
    → (elim p.0 as (λ _. Result (Unit {0}) × S) [
      | ok a ↦ (ok tt, p.1)
      | throws x ↦ (throws x, p.1)
    ]).1
      ≡ p.1
after_round (ok tt, s) = refl
after_round (throws x, s) = refl

one_round :
    {S A : Type 0} (x : A) (body : A → Exec S (Unit {0})) (s : S)
    → (for_each (x ∷ []) body s).1 ≡ (body x s).1
unfolding for_each
one_round x body s = after_round (body x s)

module _ {Json : Type 0} (J : JsonLib Json) (laws : JsonLaws J) (hdl sub : ℕ) (message : String)
    (s : Server Bridge) (c : ClientInfo) (topic datatype : String) (channel : Channel)
    (publishers : List Qos) where
  abbrev request : Json
  request = subscribe_payload J ((sub, channel.id) ∷ [])

  -- the state once the server has handled the request
  abbrev pub subscribed : Server Bridge
  subscribed = (handle_text_message J hdl message s).1

  -- The request is one of a connected client with no subscription to the channel, on a server that
  -- calls the handler of the bridge and agrees with it on the channels.
  pub record IsFirstRequest : Type 0 where
    pub printed : J.dump request ≡ ok message
    pub parsed : J.parse message ≡ ok request
    pub connected : find hdl s.clients ≡ some c
    pub unused : find_subscription_by_sub_id sub c.subscriptions_by_channel ≡ none
    pub unsubscribed : find channel.id c.subscriptions_by_channel ≡ none
    pub handled : s.handlers.subscribe_handler ≡ some subscribe_handler
    pub agree : IsTrackedIn tables s
    pub advertised : find (topic, datatype) s.bridge.advertised_topics ≡ some channel
    pub offered : s.bridge.ros.publishers_qos topic ≡ ok publishers
    pub created :
        s.bridge.ros.create_generic_subscription topic datatype
          (new_subscription channel.id hdl s.bridge topic datatype channel publishers).qos
        ≡ ok tt
    pub new : entry_at channel.id hdl s.bridge.subscriptions ≡ none
    pub sub_small : sub < 2 ^ 32
    pub id_small : channel.id < 2 ^ 32

  module _ (r : IsFirstRequest) where
    subscribed_channel : subscribed ≡ (subscribe_channel J hdl sub channel.id s).1
    subscribed_channel =
        ap (λ p. p.1)
          (handle_text_message-subscribe_payload J laws hdl ((sub, channel.id) ∷ []) message s c
            r.printed r.parsed r.connected ((r.sub_small, r.id_small), tt))
        ∙ one_round (sub, channel.id) (λ p. subscribe_channel J hdl p.0 p.1) s

    there : find channel.id s.channels ≡ some channel
    there = (r.agree.listed (topic, datatype) channel r.advertised).1

    known : find channel.id s.bridge.channel_to_topic_and_datatype ≡ some (topic, datatype)
    known = (r.agree.listed (topic, datatype) channel r.advertised).0

    with_client : Server Bridge
    with_client = record s {
      clients =
          update hdl
            (λ d. record d {
              subscriptions_by_channel = emplace channel.id sub d.subscriptions_by_channel;
            })
            s.clients;
      bridge = (subscribe_handler channel.id hdl s.bridge).1;
    }

    subscribed_lem : subscribed ≡ with_client
    unfolding call with_client
    subscribed_lem =
        subscribed_channel
        ∙ ap (λ p. p.1)
            (subscribe_accepted J hdl s sub channel.id c channel r.connected r.unused there)
        ∙ ap (λ f. (call f channel.id hdl (record with_client { bridge = s.bridge })).1) r.handled

    entered :
        entry_at channel.id hdl subscribed.bridge.subscriptions
        ≡ some (new_subscription channel.id hdl s.bridge topic datatype channel publishers)
    unfolding with_client
    entered =
        ap (λ t. entry_at channel.id hdl t.bridge.subscriptions) subscribed_lem
        ∙ (subscribe_handler_lem channel.id hdl s.bridge topic datatype channel publishers r.offered
              r.created known r.advertised r.new).1
            channel.id hdl
        ∙ rw (==_refl channel.id, ==_refl hdl) refl

    subscription : subscription_of hdl channel.id subscribed ≡ some sub
    subscription =
        let before : subscription_of hdl channel.id s ≡ none =
          unfold subscription_of in ground (arith, r.connected, r.unsubscribed) in
        ap (subscription_of hdl channel.id) subscribed_channel
        ∙ subscription_of-subscribe J hdl s c r.connected sub channel.id channel.id channel r.unused
            there
        ∙ rw (==_refl channel.id, before) refl

    -- When a connected client asks for a channel that the bridge has advertised, and to which it has
    -- no subscription, rclcpp tells the profiles of the publishers and creates the subscription and the JSON library keeps its laws, the
    -- bridge has the subscription with the topic, the type and the selected profile. Each message
    -- that this subscription then receives (at a time below 2 ^ 64, the client below its buffer limit) is
    -- sent to the client in one frame, from which it reads the id of its request, the time and
    -- exactly the payload.
    pub subscribed-received :
        (net : Network) (now : ℕ) (payload : List ℕ) (con : Connection)
        → net hdl ≡ some con
        → con.buffered_amount < s.send_buffer_limit_bytes
        → now < 2 ^ 64
        → let frame = message_frame sub now payload in
          (entry_at channel.id hdl subscribed.bridge.subscriptions
            ≡ some (new_subscription channel.id hdl s.bridge topic datatype channel publishers))
          × (ros_message_handler net now channel hdl payload subscribed
              ≡ (ok tt, record subscribed { sent = subscribed.sent ++ (hdl, binary frame) ∷ [] }))
          × (read_frame frame ≡ (1, sub, now, payload))
    subscribed-received net now payload con e room time =
        let limit : subscribed.send_buffer_limit_bytes ≡ s.send_buffer_limit_bytes =
          ap (λ t. t.send_buffer_limit_bytes) subscribed_lem ∙ unfold with_client in refl in
        let (sent, read) =
          ros_message_handler-received hdl now subscribed net channel payload con sub e
            (rw limit room) subscription r.sub_small time in
        (entered, sent, read)
