-- ===== src/Server/Text.antt =====
-- websocket_server.hpp: handleTextMessage. The fields of the client's entry are read through the
-- map each time, as the reference `clientInfo` does.
pub mod Cases
use foxglove_bridge_release.Base.{
  ℕ, String, Option, none, some, Bool, not, ◌&&◌, List, [], ◌∷◌, if◌then◌else◌,
}
use foxglove_bridge_release.Base.Eq.{◌==◌, id_eq}
use foxglove_bridge_release.Base.Map.{Map, find, emplace, erase, update, insert, is_some, get_or}
use foxglove_bridge_release.Base.Text.{concat, to_string}
use foxglove_bridge_release.Base.Exec.{
  Exec, failure, lift, or_throw, match_option, gets, modify, skip, for_each, ◌>>=◌, ◌>>◌,
}
use foxglove_bridge_release.Json.{JsonLib}
use foxglove_bridge_release.Wire.{ClientAdvertisement}
use foxglove_bridge_release.Wire.Fnv.{integer}
use foxglove_bridge_release.Server.{Server, ClientInfo, warning, error, call}
use foxglove_bridge_release.Server.Send.{send_status}

-- findSubscriptionBySubId: std::find_if over the entries
unfoldable pub find_subscription_by_sub_id : ℕ → Map ℕ ℕ → Option (ℕ × ℕ)
find_subscription_by_sub_id sub_id [] = none
find_subscription_by_sub_id sub_id ((channel, sub) ∷ subs) =
    if sub == sub_id then some (channel, sub) else find_subscription_by_sub_id sub_id subs

module _ {B : Type 0} where
  -- _clients.at(hdl)
  abbrev pub client_at : ℕ → Exec (Server B) ClientInfo
  client_at hdl s = or_throw (find hdl s.clients) (failure "map::at") s

  abbrev pub set_client : ℕ → (ClientInfo → ClientInfo) → Exec (Server B) (Unit {0})
  set_client hdl f = modify (λ s. record s { clients = update hdl f s.clients })

  abbrev pub publications : ℕ → Server B → Map ℕ ClientAdvertisement
  publications hdl s = get_or [] (find hdl s.client_channels)

  abbrev pub set_publications :
      ℕ → (Map ℕ ClientAdvertisement → Map ℕ ClientAdvertisement) → Exec (Server B) (Unit {0})
  set_publications hdl f =
      modify (λ s. record s { client_channels = update hdl f s.client_channels })

module _ {Json B : Type 0} (J : JsonLib Json) (hdl : ℕ) where
  -- The body of the loop over "subscriptions", once the two ids are read.
  unfoldable pub subscribe_channel : ℕ → ℕ → Exec (Server B) (Unit {0})
  subscribe_channel sub_id channel_id = do
    client ← client_at hdl
    channel ← gets (λ s. find channel_id s.channels)
    handler ← gets (λ s. s.handlers.subscribe_handler)
    if is_some (find_subscription_by_sub_id sub_id client.subscriptions_by_channel)
        then send_status J hdl error (
            concat (
              "Client subscription id "
              ∷ to_string sub_id
              ∷ " was already used; ignoring subscription"
              ∷ []))
        else if not (is_some channel)
        then send_status J hdl warning (
            concat
              ("Channel " ∷ to_string channel_id ∷ " is not available; ignoring subscription" ∷ []))
        else (set_client hdl (λ c. record c {
          subscriptions_by_channel = emplace channel_id sub_id c.subscriptions_by_channel;
        })
            >> call handler channel_id hdl)

  unfoldable pub subscribe_item : Json → Exec (Server B) (Unit {0})
  subscribe_item sub = do
    id ← lift (J.at sub "id")
    sub_id ← lift (J.get_u32 id)
    channel ← lift (J.at sub "channelId")
    channel_id ← lift (J.get_u32 channel)
    subscribe_channel sub_id channel_id

  -- The body of the loop over "subscriptionIds", once the id is read.
  unfoldable pub unsubscribe_id : ℕ → Exec (Server B) (Unit {0})
  unsubscribe_id sub_id = do
    client ← client_at hdl
    handler ← gets (λ s. s.handlers.unsubscribe_handler)
    match_option (find_subscription_by_sub_id sub_id client.subscriptions_by_channel)
        (send_status J hdl warning (
          concat (
            "Client subscription id "
            ∷ to_string sub_id
            ∷ " did not exist; ignoring unsubscription"
            ∷ [])))
        (λ p.
          set_client hdl
            (λ c. record c { subscriptions_by_channel = erase p.0 c.subscriptions_by_channel })
          >> call handler p.0 hdl)

  unfoldable pub unsubscribe_item : Json → Exec (Server B) (Unit {0})
  unsubscribe_item sub_id_json = do sub_id ← lift (J.get_u32 sub_id_json); unsubscribe_id sub_id

  -- The rest of the body of the loop over "channels", for an id that is not advertised yet.
  unfoldable pub publish_channel : ClientAdvertisement → Exec (Server B) (Unit {0})
  publish_channel advertisement = do
    set_publications hdl (emplace advertisement.channel_id advertisement)
    set_client hdl (λ c. record c {
      advertised_channels = insert advertisement.channel_id c.advertised_channels;
    })
    handler ← gets (λ s. s.handlers.client_advertise_handler)
    call handler advertisement hdl

  unfoldable pub advertise_item : Bool → Json → Exec (Server B) (Unit {0})
  advertise_item is_first_publication chan = do
    id ← lift (J.at chan "id")
    channel_id ← lift (J.get_u32 id)
    known ← gets (λ s. is_some (find channel_id (publications hdl s)))
    if not is_first_publication && known
        then send_status J hdl error
            (concat ("Channel " ∷ to_string channel_id ∷ " was already advertised" ∷ []))
        else (do
          topic_json ← lift (J.at chan "topic")
          topic ← lift (J.get_string topic_json)
          encoding_json ← lift (J.at chan "encoding")
          encoding ← lift (J.get_string encoding_json)
          schema_json ← lift (J.at chan "schemaName")
          schema_name ← lift (J.get_string schema_json)
          publish_channel (record {
            channel_id = channel_id;
            topic = topic;
            encoding = encoding;
            schema_name = schema_name;
            schema = [];
          }))

  -- The body of the loop over "channelIds", once the id is read.
  unfoldable pub unadvertise_id : ℕ → Exec (Server B) (Unit {0})
  unadvertise_id channel_id = do
    known ← gets (λ s. is_some (find channel_id (publications hdl s)))
    handler ← gets (λ s. s.handlers.client_unadvertise_handler)
    if known then (set_publications hdl (erase channel_id) >> call handler channel_id hdl) else skip

  unfoldable pub unadvertise_item : Json → Exec (Server B) (Unit {0})
  unadvertise_item chan_id_json = do
    channel_id ← lift (J.get_u32 chan_id_json)
    unadvertise_id channel_id

  -- The four cases of the switch, and its default.
  unfoldable pub handle_subscribe : Json → Exec (Server B) (Unit {0})
  handle_subscribe payload = do
    subscriptions ← lift (J.at payload "subscriptions")
    for_each (J.items subscriptions) subscribe_item

  unfoldable pub handle_unsubscribe : Json → Exec (Server B) (Unit {0})
  handle_unsubscribe payload = do
    ids ← lift (J.at payload "subscriptionIds")
    for_each (J.items ids) unsubscribe_item

  unfoldable pub handle_advertise : Json → Exec (Server B) (Unit {0})
  handle_advertise payload = do
    is_first_publication ← gets (λ s. not (is_some (find hdl s.client_channels)))
    modify (λ s. record s { client_channels = emplace hdl [] s.client_channels })
    channels ← lift (J.at payload "channels")
    for_each (J.items channels) (advertise_item is_first_publication)

  unfoldable pub handle_unadvertise : Json → Exec (Server B) (Unit {0})
  handle_unadvertise payload = do
    known ← gets (λ s. is_some (find hdl s.client_channels))
    if known
        then (do ids ← lift (J.at payload "channelIds"); for_each (J.items ids) unadvertise_item)
        else send_status J hdl error "Client has no advertised channels"

  -- The switch on the hash of "op".
  unfoldable pub dispatch : String → Json → Exec (Server B) (Unit {0})
  dispatch op payload =
      if integer op == integer "subscribe"
      then handle_subscribe payload
      else if integer op == integer "unsubscribe"
      then handle_unsubscribe payload
      else if integer op == integer "advertise"
      then handle_advertise payload
      else if integer op == integer "unadvertise"
      then handle_unadvertise payload
      else send_status J hdl error (concat ("Unrecognized client opcode \"" ∷ op ∷ "\"" ∷ []))

  unfoldable pub handle_text_message : String → Exec (Server B) (Unit {0})
  handle_text_message msg = do
    payload ← lift (J.parse msg)
    op_json ← lift (J.at payload "op")
    op ← lift (J.get_string op_json)
    client_info ← client_at hdl
    dispatch op payload
