-- ===== src/Client/Requests.antt =====
-- What the client sends, as the server takes it.
use foxglove_bridge_release.Base.{ℕ, ◌<◌, ◌^◌, ◌≡◌, refl, some, List, ◌∷◌, arith, false, ltb}
use foxglove_bridge_release.Base.Eq.{id_eq, string_eq}
use foxglove_bridge_release.Base.Lists.{length, drop}
use foxglove_bridge_release.Base.Map.{Map, find}
use foxglove_bridge_release.Json.{JsonLib}
use foxglove_bridge_release.Wire.{ClientAdvertisement, client_message_data}
use foxglove_bridge_release.Wire.Serialization.{read_u32_le, write_uint32_le}
use foxglove_bridge_release.Server.{Server, call}
use foxglove_bridge_release.Server.Binary.{
  client_message, get_data, get_length, handle_binary_message, handle_message_data,
}
use foxglove_bridge_release.Client.{publish_frame}

read-frame :
    (chan : ℕ) (buffer : List ℕ)
    → chan < 2 ^ 32
    → read_u32_le (drop 1 (publish_frame chan buffer)) ≡ chan
unfolding publish_frame read_u32_le write_uint32_le
read-frame chan buffer h = omega arith

module _ (now : ℕ) (a : ClientAdvertisement) (chan : ℕ) (buffer : List ℕ) where
  publish-get_data : get_data (client_message now a (publish_frame chan buffer)) ≡ buffer
  unfolding get_data publish_frame write_uint32_le
  publish-get_data = refl

  publish-get_length :
      length (publish_frame chan buffer) < 2 ^ 64
      → get_length (client_message now a (publish_frame chan buffer)) ≡ length buffer
  unfolding get_length publish_frame write_uint32_le
  publish-get_length size = omega arith

-- Any frame of a sufficient length is taken by its first byte and its channel id.
module _ {Json B : Type 0} (J : JsonLib Json) (hdl now : ℕ) (s : Server B) where
  message_data-accepted :
      (chan : ℕ) (rest : List ℕ) (pubs : Map ℕ ClientAdvertisement) (a : ClientAdvertisement)
      → read_u32_le rest ≡ chan
      → ltb (length (client_message_data ∷ rest)) 5 ≡ false
      → find hdl s.client_channels ≡ some pubs
      → find chan pubs ≡ some a
      → handle_binary_message J now hdl (client_message_data ∷ rest) s
        ≡ call s.handlers.client_message_handler
            (client_message now a (client_message_data ∷ rest))
            hdl
            s
  unfolding handle_binary_message handle_message_data
  message_data-accepted chan rest pubs a read long own there = ground arith

module _ {Json B : Type 0} (J : JsonLib Json) (hdl now : ℕ) (s : Server B) where
  -- A frame of `publish` for a channel that the client has advertised, with an id below 2 ^ 32 and
  -- a length below 2 ^ 64, makes the server call the message handler, which finds in the message
  -- exactly the bytes that were published, and their number.
  pub publish-handle_binary_message :
      (chan : ℕ) (buffer : List ℕ) (pubs : Map ℕ ClientAdvertisement) (a : ClientAdvertisement)
      → chan < 2 ^ 32
      → length (publish_frame chan buffer) < 2 ^ 64
      → find hdl s.client_channels ≡ some pubs
      → find chan pubs ≡ some a
      → let m = client_message now a (publish_frame chan buffer) in
        (handle_binary_message J now hdl (publish_frame chan buffer) s
          ≡ call s.handlers.client_message_handler m hdl s)
        × (get_data m ≡ buffer)
        × (get_length m ≡ length buffer)
  publish-handle_binary_message chan buffer pubs a h size own there = (
    unfold publish_frame write_uint32_le in
        message_data-accepted J hdl now s chan _ pubs a (read-frame chan buffer h) (ground arith)
          own there,
    publish-get_data now a chan buffer,
    publish-get_length now a chan buffer size,
  )
