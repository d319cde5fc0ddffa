-- ===== src/Server/Advertising.antt =====
-- The "channels" of an advertise message: what the documented laws of the JSON library make of it.
use foxglove_bridge_release.Base.{ℕ, ◌≡◌, List, [], ◌∷◌, ◌++◌}
use mathlib.Core.List.{append_assoc, append-nil}
use foxglove_bridge_release.Base.Map.{Map}
use foxglove_bridge_release.Json.{JsonLib, JsonLaws}
use foxglove_bridge_release.Server.{Channel}
use foxglove_bridge_release.Server.Send.{channel_to_json, push_channels, channels_json}

module _ {Json : Type 0} (J : JsonLib Json) (laws : JsonLaws J) where
  -- the elements of the message, in the order of the table
  abbrev pub listed : Map ℕ Channel → List Json
  listed [] = []
  listed ((id, channel) ∷ rest) = channel_to_json J channel ∷ listed rest

  push_channels-array :
      (js : List Json) (m : Map ℕ Channel)
      → push_channels J (J.array js) m ≡ J.array (js ++ listed m)
  unfolding push_channels
  push_channels-array js [] = rw append-nil
  push_channels-array js ((id, channel) ∷ rest) =
      rw laws.push_back-array
        (rw (push_channels-array (js ++ channel_to_json J channel ∷ []) rest) (rw append_assoc))

  channels_json-cons :
      (id : ℕ) (channel : Channel) (rest : Map ℕ Channel)
      → channels_json J ((id, channel) ∷ rest) ≡ J.array (channel_to_json J channel ∷ listed rest)
  unfolding channels_json push_channels
  channels_json-cons id channel rest =
      rw laws.push_back-null (push_channels-array (channel_to_json J channel ∷ []) rest)

  -- By the documented laws of the JSON library, a reader that loops over the "channels" of an
  -- advertise message meets every channel once, in the order of the table, also when there is none
  -- and the member is null.
  pub items-channels_json : (m : Map ℕ Channel) → J.items (channels_json J m) ≡ listed m
  unfolding channels_json push_channels
  items-channels_json [] = laws.items-null
  items-channels_json ((id, channel) ∷ rest) =
      rw (channels_json-cons id channel rest) (laws.items-array _)
