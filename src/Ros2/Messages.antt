-- ===== src/Ros2/Messages.antt =====
-- Messages from end to end: from a client to a ROS publisher, and from a ROS topic to a client.
use foxglove_bridge_release.Base.{ℕ, ◌^◌, ◌<◌, ◌≡◌, refl, ap, ◌∙◌, some, List, [], ◌∷◌, ◌++◌}
use foxglove_bridge_release.Base.Eq.{id_eq}
use foxglove_bridge_release.Base.Lists.{length, take}
use foxglove_bridge_release.Base.Map.{Map, find}
use foxglove_bridge_release.Base.Exec.{Result, ok, lift, modify, ◌>>◌, >>=-ok}
use foxglove_bridge_release.Json.{JsonLib}
use foxglove_bridge_release.Wire.{ClientAdvertisement}
use foxglove_bridge_release.Server.{
  Server, Channel, ClientMessage, Network, Connection, binary, call,
}
use foxglove_bridge_release.Server.Binary.{
  handle_binary_message, client_message, get_data, get_length,
}
use foxglove_bridge_release.Server.Channels.{subscription_of, message_frame}
use foxglove_bridge_release.Server.Delivery.{read_frame, read-message_frame, send_message_delivers}
use foxglove_bridge_release.Client.{publish_frame}
use foxglove_bridge_release.Client.Requests.{publish-handle_binary_message}
use foxglove_bridge_release.Ros2.{Bridge, Publication}
use foxglove_bridge_release.Ros2.Handlers.{
  publisher_of, client_message_handler, ros_message_handler,
}

take_all : (xs : List ℕ) → take (length xs) xs ≡ xs
take_all [] = refl
take_all (x ∷ xs) = rw (take_all xs) refl

lift_ok :
    {S : Type 0} (r : Result (Unit {0})) (f : S → S) (s : S)
    → r ≡ ok tt
    → (lift r >> modify f) s ≡ (ok tt, f s)
lift_ok r f s e = >>=-ok (lift r) (λ u. modify f) tt s e

module _ (b : Bridge) (hdl : ℕ) (message : ClientMessage) (publisher : Publication)
    (buffer : List ℕ) where
  abbrev serialized : List ℕ
  serialized = take (get_length message) (get_data message)

  -- the state with one more call of publish
  abbrev after_publish : List ℕ → Bridge
  after_publish bytes = record b { published = b.published ++ (publisher, bytes) ∷ [] }

  publishes_serialized :
      publisher_of message.advertisement.channel_id hdl b ≡ some publisher
      → b.ros.publish publisher serialized ≡ ok tt
      → client_message_handler message hdl b ≡ (ok tt, after_publish serialized)
  unfolding client_message_handler
  publishes_serialized there accepted = rw there (
      lift_ok (b.ros.publish publisher serialized)
        (λ t. record t { published = t.published ++ (publisher, serialized) ∷ [] }) b accepted)

  publishes :
      publisher_of message.advertisement.channel_id hdl b ≡ some publisher
      → get_data message ≡ buffer
      → get_length message ≡ length buffer
      → b.ros.publish publisher buffer ≡ ok tt
      → client_message_handler message hdl b ≡ (ok tt, after_publish buffer)
  publishes there found size accepted =
      let same : serialized ≡ buffer = rw size (rw found (take_all buffer)) in
      publishes_serialized there (ap (λ w. b.ros.publish publisher w) same ∙ accepted)
      ∙ ap (λ w. (ok tt, after_publish w)) same

module _ {Json : Type 0} (J : JsonLib Json) (hdl now : ℕ) (s : Server Bridge) where
  -- When the server calls the bridge's handler, a client has advertised a channel to both, and the
  -- publisher takes the bytes, the client's frame of `publish` (id below 2 ^ 32, length below
  -- 2 ^ 64) makes the bridge publish exactly these bytes once, and nothing else changes.
  pub publish-published :
      (chan : ℕ) (buffer : List ℕ) (pubs : Map ℕ ClientAdvertisement) (a : ClientAdvertisement)
      (publisher : Publication)
      → chan < 2 ^ 32
      → length (publish_frame chan buffer) < 2 ^ 64
      → s.handlers.client_message_handler ≡ some client_message_handler
      → find hdl s.client_channels ≡ some pubs
      → find chan pubs ≡ some a
      → publisher_of a.channel_id hdl s.bridge ≡ some publisher
      → s.bridge.ros.publish publisher buffer ≡ ok tt
      → handle_binary_message J now hdl (publish_frame chan buffer) s ≡ (
        ok tt,
        record s {
          bridge = record (s.bridge) { published = s.bridge.published ++ (publisher, buffer) ∷ [] };
        },
      )
  unfolding call
  publish-published chan buffer pubs a publisher h size set own there made accepted =
      let m = client_message now a (publish_frame chan buffer) in
      let r = publish-handle_binary_message J hdl now s chan buffer pubs a h size own there in
      r.0 ∙ rw set (rw (publishes s.bridge hdl m publisher buffer made r.1 r.2 accepted) refl)

module _ (hdl now : ℕ) (s : Server Bridge) where
  -- A message of a ROS topic whose subscription was made for a client that is connected, below its
  -- buffer limit and subscribed to the channel is sent to that client in one frame, from which the
  -- client reads its subscription id, the time of receipt (below 2 ^ 64) and exactly the payload.
  pub ros_message_handler-received :
      (net : Network) (channel : Channel) (payload : List ℕ) (con : Connection) (sub : ℕ)
      → net hdl ≡ some con
      → con.buffered_amount < s.send_buffer_limit_bytes
      → subscription_of hdl channel.id s ≡ some sub
      → sub < 2 ^ 32
      → now < 2 ^ 64
      → let frame = message_frame sub now payload in
        (ros_message_handler net now channel hdl payload s
          ≡ (ok tt, record s { sent = s.sent ++ (hdl, binary frame) ∷ [] }))
        × (read_frame frame ≡ (1, sub, now, payload))
  unfolding ros_message_handler
  ros_message_handler-received net channel payload con sub e room h small time = (
    send_message_delivers net hdl channel.id now payload s con sub e room h,
    read-message_frame sub now payload small time,
  )
