-- ===== src/Ros2/Refused.antt =====
-- A client channel whose publisher cannot be created.
use foxglove_bridge_release.Base.{ℕ, ◌≡◌, refl, ap, ◌∙◌, none, some, [], ◌∷◌, false, arith}
use foxglove_bridge_release.Base.Eq.{==_refl, id_eq}
use foxglove_bridge_release.Base.Map.{Map, find, emplace, update, insert, find-emplace, find-update}
use foxglove_bridge_release.Base.Map.Nested.{entry_at}
use foxglove_bridge_release.Base.Text.{concat, to_string}
use foxglove_bridge_release.Base.Exec.{Exception, throws, ok}
use foxglove_bridge_release.Json.{JsonLib}
use foxglove_bridge_release.Wire.{ClientAdvertisement}
use foxglove_bridge_release.Server.{Server, error, call}
use foxglove_bridge_release.Server.Send.{send_status}
use foxglove_bridge_release.Server.Text.{publish_channel, advertise_item, publications}
use foxglove_bridge_release.Server.Text.Cases.{publish_lem}
use foxglove_bridge_release.Ros2.{Bridge}
use foxglove_bridge_release.Ros2.Handlers.{client_advertise_handler}
use foxglove_bridge_release.Ros2.Publications.{client_advertise_handler_lem}

-- The server answers a channel that the client has advertised with a status.
already_advertised :
    {Json B : Type 0} (J : JsonLib Json) (hdl id : ℕ) (chan id_json : Json)
    (a : ClientAdvertisement) (s : Server B)
    → J.at chan "id" ≡ ok id_json
    → J.get_u32 id_json ≡ ok id
    → find id (publications hdl s) ≡ some a
    → advertise_item J hdl false chan s
      ≡ send_status J hdl error
          (concat ("Channel " ∷ to_string id ∷ " was already advertised" ∷ []))
          s
unfolding advertise_item
already_advertised J hdl id chan id_json a s e f g = ground arith

module _ {Json : Type 0} (J : JsonLib Json) (hdl : ℕ) (s : Server Bridge) (a : ClientAdvertisement)
    (ps : Map ℕ ClientAdvertisement) where
  abbrev with_channel : Server Bridge
  with_channel = record s {
    client_channels = update hdl (emplace a.channel_id a) s.client_channels;
    clients =
        update hdl
          (λ d. record d { advertised_channels = insert a.channel_id d.advertised_channels })
          s.clients;
  }

  handed_over :
      s.handlers.client_advertise_handler ≡ some client_advertise_handler
      → publish_channel J hdl a s ≡ (
        (client_advertise_handler a hdl s.bridge).0,
        record with_channel { bridge = (client_advertise_handler a hdl s.bridge).1 },
      )
  unfolding call
  handed_over e = publish_lem J hdl s a ∙ ap (λ f. call f a hdl with_channel) e

  entered :
      find hdl s.client_channels ≡ some ps
      → find a.channel_id ps ≡ none
      → find a.channel_id (publications hdl with_channel) ≡ some a
  entered e new = ground (
    arith,
    e,
    new,
    ==_refl hdl,
    ==_refl a.channel_id,
    find-update hdl hdl (emplace a.channel_id a) s.client_channels,
    find-emplace a.channel_id a.channel_id a ps,
  )

  -- When a client with a table of channels advertises a new channel and create_generic_publisher
  -- throws for its topic and type, what publishes it throws that exception and the bridge
  -- has no publisher, but the server has the channel as advertised: an item of a next request that
  -- advertises the id again, whatever its topic and type, is answered with the status that the
  -- channel was already advertised, and does nothing else.
  pub refused_channel_kept :
      (x : Exception) (chan id_json : Json)
      → s.handlers.client_advertise_handler ≡ some client_advertise_handler
      → find hdl s.client_channels ≡ some ps
      → find a.channel_id ps ≡ none
      → entry_at hdl a.channel_id s.bridge.client_advertised_topics ≡ none
      → s.bridge.ros.create_generic_publisher a.topic a.schema_name ≡ throws x
      → J.at chan "id" ≡ ok id_json
      → J.get_u32 id_json ≡ ok a.channel_id
      → let s' = (publish_channel J hdl a s).1 in
        ((publish_channel J hdl a s).0 ≡ throws x)
        × (entry_at hdl a.channel_id s'.bridge.client_advertised_topics ≡ none)
        × (find a.channel_id (publications hdl s') ≡ some a)
        × (advertise_item J hdl false chan s'
            ≡ send_status J hdl error
                (concat ("Channel " ∷ to_string a.channel_id ∷ " was already advertised" ∷ []))
                s')
  refused_channel_kept x chan id_json handled table fresh new refused e f =
      let (answer, left) = client_advertise_handler_lem a hdl s.bridge in
      let thrown : (client_advertise_handler a hdl s.bridge).0 ≡ throws x =
        answer ∙ rw (new, refused) refl in
      let absent : entry_at hdl a.channel_id
            (client_advertise_handler a hdl s.bridge).1.client_advertised_topics
          ≡ none =
        left hdl a.channel_id ∙ rw (==_refl hdl, ==_refl a.channel_id, new, refused) refl in
      let there : find a.channel_id (publications hdl (publish_channel J hdl a s).1) ≡ some a =
        rw (handed_over handled) (entered table fresh) in
      (
        rw (handed_over handled) thrown,
        rw (handed_over handled) absent,
        there,
        already_advertised J hdl a.channel_id chan id_json a _ e f there,
      )
