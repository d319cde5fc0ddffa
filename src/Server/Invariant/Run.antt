-- ===== src/Server/Invariant/Run.antt =====
-- Every method of the server keeps the tables valid, so they are valid after any sequence of calls.
use foxglove_bridge_release.Base.{ℕ, ◌+◌, ◌%◌, ◌^◌, refl, String, List, [], ◌∷◌, arith}
use foxglove_bridge_release.Base.Eq.{id_eq}
use foxglove_bridge_release.Base.Map.{Map, find, emplace, erase, find-emplace}
use foxglove_bridge_release.Base.Map.Distinct.{Every, emplace-Every, erase-Every}
use foxglove_bridge_release.Base.Exec.{modify}
use foxglove_bridge_release.Base.Exec.Keeps.{Keeps, keeps_rules}
use foxglove_bridge_release.Json.{JsonLib}
use foxglove_bridge_release.Server.{
  Server, ClientInfo, Channel, ChannelWithoutId, Network, Handlers, Frame,
}
use foxglove_bridge_release.Server.Send.{post, send_json_raw, send_binary}
use foxglove_bridge_release.Server.Connections.{
  handle_connection_opened, handle_connection_closed, release_client, forget_client,
  unadvertise_all, unsubscribe_all,
}
use foxglove_bridge_release.Server.Channels.{
  add_channel, broadcast_channels, send_message, broadcast_time,
}
use foxglove_bridge_release.Server.Run.{
  Event, opened, closed, message, channel_added, channel_removed, channels_broadcast, message_sent,
  time_broadcast, perform, run, init,
}
use foxglove_bridge_release.Server.Invariant.{IsValid, IsValidClient, HasOwnId, IsPublicationOf}
use foxglove_bridge_release.Server.Invariant.Messages.{
  StaysValid, handle_message-StaysValid, call-StaysValid,
}
use foxglove_bridge_release.Server.Invariant.Removal.{remove_channel_lem}

new_client-IsValidClient :
    (channels : Map ℕ Channel) (name : String) (h : ℕ)
    → IsValidClient channels h (record {
      name = name;
      handle = h;
      subscriptions_by_channel = [];
      advertised_channels = [];
    })
new_client-IsValidClient channels name h = record {
  own = refl;
  distinct = tt;
  unique = λ i j sub p q. unfold find in cc;
  known = λ i sub p. unfold find in cc;
}

-- More channels are no harm to a client.
more-IsValidClient :
    (i : ℕ) (ch : Channel) (channels : Map ℕ Channel) (h : ℕ) (c : ClientInfo)
    → IsValidClient channels h c
    → IsValidClient (emplace i ch channels) h c
more-IsValidClient i ch channels h c v = record {
  own = v.own;
  distinct = v.distinct;
  unique = v.unique;
  known = λ j sub p. ground (arith, find-emplace i j ch channels, v.known j sub p);
}

module _ {B : Type 0} where
  post-StaysValid : (fs : List (ℕ × Frame)) → Keeps (StaysValid {B = B}) (post fs)
  post-StaysValid fs = record { at = λ s₀ s v. v }

  erase_client-StaysValid :
      (h : ℕ) → Keeps (StaysValid {B = B}) (modify (λ s. record s { clients = erase h s.clients }))
  erase_client-StaysValid h = record {
    at = λ s₀ s v. record {
      clients_valid = erase-Every (IsValidClient s.channels) h s.clients v.clients_valid;
      channel_ids = v.channel_ids;
      publication_ids = v.publication_ids;
    };
  }

  erase_publications-StaysValid :
      (h : ℕ)
      → Keeps
          (StaysValid {B = B})
          (modify (λ s. record s { client_channels = erase h s.client_channels }))
  erase_publications-StaysValid h = record {
    at = λ s₀ s v. record {
      clients_valid = v.clients_valid;
      channel_ids = v.channel_ids;
      publication_ids =
          erase-Every (λ k. Every IsPublicationOf) h s.client_channels v.publication_ids;
    };
  }

  new_client-StaysValid :
      (h : ℕ) (name : String)
      → Keeps (StaysValid {B = B}) (
          modify (λ s. record s {
            clients =
                emplace h
                  (record {
                    name = name;
                    handle = h;
                    subscriptions_by_channel = [];
                    advertised_channels = [];
                  })
                  s.clients;
          }))
  new_client-StaysValid h name = record {
    at = λ s₀ s v. record {
      clients_valid =
          emplace-Every (IsValidClient s.channels) h _ s.clients
            (new_client-IsValidClient s.channels name h) v.clients_valid;
      channel_ids = v.channel_ids;
      publication_ids = v.publication_ids;
    };
  }

  next_id-StaysValid :
      Keeps
        (StaysValid {B = B})
        (modify (λ s. record s { next_channel_id = (s.next_channel_id + 1) % 2 ^ 32 }))
  next_id-StaysValid = record { at = λ s₀ s v. v }

  new_channel-StaysValid :
      (i : ℕ) (base : ChannelWithoutId)
      → Keeps (StaysValid {B = B}) (
          modify
            (λ s. record s { channels = emplace i (record { base = base; id = i }) s.channels }))
  new_channel-StaysValid i base = record {
    at = λ s₀ s v. record {
      clients_valid = λ h c e. more-IsValidClient i _ s.channels h c (v.clients_valid h c e);
      channel_ids = emplace-Every HasOwnId i _ s.channels refl v.channel_ids;
      publication_ids = v.publication_ids;
    };
  }

  ruleset methods_valid = (
    keeps_rules, call-StaysValid, post-StaysValid, erase_client-StaysValid,
    erase_publications-StaysValid, new_client-StaysValid, next_id-StaysValid,
    new_channel-StaysValid,
  )

  release_client-StaysValid :
      (h : ℕ) (c : ClientInfo) → Keeps (StaysValid {B = B}) (release_client h c)
  unfolding release_client forget_client unadvertise_all unsubscribe_all
  release_client-StaysValid h c = search methods_valid depth 8

  closed-StaysValid : (h : ℕ) → Keeps (StaysValid {B = B}) (handle_connection_closed h)
  unfolding handle_connection_closed
  closed-StaysValid h = search (methods_valid, release_client-StaysValid)

  add_channel-StaysValid : (base : ChannelWithoutId) → Keeps (StaysValid {B = B}) (add_channel base)
  unfolding add_channel
  add_channel-StaysValid base = search methods_valid depth 8

  send_message-StaysValid :
      (net : Network) (h chan now : ℕ) (bytes : List ℕ)
      → Keeps (StaysValid {B = B}) (send_message net h chan now bytes)
  unfolding send_message send_binary
  send_message-StaysValid net h chan now bytes = search methods_valid depth 8

  broadcast_time-StaysValid : (now : ℕ) → Keeps (StaysValid {B = B}) (broadcast_time now)
  unfolding broadcast_time send_binary
  broadcast_time-StaysValid now = search methods_valid

module _ {Json B : Type 0} (J : JsonLib Json) where
  opened-StaysValid :
      (net : Network) (h : ℕ) → Keeps (StaysValid {B = B}) (handle_connection_opened J net h)
  unfolding handle_connection_opened
  opened-StaysValid net h = search methods_valid depth 12

  broadcast_channels-StaysValid : Keeps (StaysValid {B = B}) (broadcast_channels J)
  unfolding broadcast_channels send_json_raw
  broadcast_channels-StaysValid = search methods_valid depth 8

  pub perform-StaysValid : (e : Event) → Keeps (StaysValid {B = B}) (perform J e)
  unfolding perform
  perform-StaysValid (opened net hdl) = opened-StaysValid net hdl
  perform-StaysValid (closed hdl) = closed-StaysValid hdl
  perform-StaysValid (message now hdl op payload bytes) =
      handle_message-StaysValid J hdl now op payload bytes
  perform-StaysValid (channel_added channel) = search (methods_valid, add_channel-StaysValid)
  perform-StaysValid (channel_removed id) = record {
    at = λ s₀ s v. (remove_channel_lem J id s v).0;
  }
  perform-StaysValid channels_broadcast = broadcast_channels-StaysValid
  perform-StaysValid (message_sent net hdl chan now bytes) =
      send_message-StaysValid net hdl chan now bytes
  perform-StaysValid (time_broadcast now) = broadcast_time-StaysValid now

  run-keeps : (es : List Event) (s : Server B) → IsValid s → IsValid (run J es s)
  unfolding run
  run-keeps [] s v = v
  run-keeps (e ∷ es) s v = run-keeps es _ ((perform-StaysValid e).at s s v)

  -- From a server as constructed, after any calls: each client's entry stands under its handle,
  -- names each channel once, uses each subscription id once, and is subscribed only to channels
  -- that exist; each channel and each publication stands under its own id.
  pub run-init-IsValid :
      (name : String) (capabilities : List String) (limit : ℕ) (handlers : Handlers B) (bridge : B)
      (es : List Event)
      → IsValid (run J es (init name capabilities limit handlers bridge))
  run-init-IsValid name capabilities limit handlers bridge es = run-keeps es _ (
      unfold init find in
      record {
        clients_valid = λ h c e. cc;
        channel_ids = λ i ch e. cc;
        publication_ids = λ h m e. cc;
      })
