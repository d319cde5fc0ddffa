-- ===== src/Server/Effects.antt =====
-- addChannel, removeChannel and broadcastChannels as their callers see them: how they end, and
-- what they leave alone.
use foxglove_bridge_release.Base.{
  List, if◌then◌else◌, ℕ, ◌+◌, ◌%◌, ◌^◌, ◌<◌, ◌≡◌, refl, ◌∙◌, String, arith, Bool-cases, inl, inr,
}
use foxglove_bridge_release.Base.Eq.{id_eq}
use foxglove_bridge_release.Base.Lists.{is_empty}
use foxglove_bridge_release.Base.Map.{emplace, erase}
use foxglove_bridge_release.Base.Exec.{Exec, Result, skip, ok, throws, for_each-ok, Result-cases}
use foxglove_bridge_release.Base.Exec.Keeps.{Keeps, Keeps-for_each, keeps_rules}
use foxglove_bridge_release.Json.{JsonLib}
use foxglove_bridge_release.Server.{Server, ChannelWithoutId, ClientInfo, Frame}
use foxglove_bridge_release.Server.Send.{post, send_json_raw, advertise_payload}
use foxglove_bridge_release.Server.Text.{set_client}
use foxglove_bridge_release.Server.Channels.{
  add_channel, remove_channel, remove_from_client, broadcast_channels,
}

-- The channels, the counter and the bridge are the same.
pub record OnlyClients {B : Type 0} (s t : Server B) : Type 0 where
  pub channels : t.channels ≡ s.channels
  pub next_channel_id : t.next_channel_id ≡ s.next_channel_id
  pub bridge : t.bridge ≡ s.bridge

-- Nothing but the frames differs, as far as callers ask.
pub record OnlySent {B : Type 0} (s t : Server B) : Type 0 where
  pub clients : t.clients ≡ s.clients
  pub channels : t.channels ≡ s.channels
  pub next_channel_id : t.next_channel_id ≡ s.next_channel_id
  pub bridge : t.bridge ≡ s.bridge

-- whether there is a text, or what was thrown
abbrev pub without_text : Result String → Result (Unit {0})
without_text (ok message) = ok tt
without_text (throws x) = throws x

module _ {B : Type 0} where
  post-OnlySent : (fs : List (ℕ × Frame)) → Keeps (OnlySent {B = B}) (post fs)
  post-OnlySent fs = record {
    at = λ s₀ s v. record {
      clients = v.clients;
      channels = v.channels;
      next_channel_id = v.next_channel_id;
      bridge = v.bridge;
    };
  }

  same-OnlySent : (s : Server B) → OnlySent s s
  same-OnlySent s = record {
    clients = refl;
    channels = refl;
    next_channel_id = refl;
    bridge = refl;
  }

  post-OnlyClients : (fs : List (ℕ × Frame)) → Keeps (OnlyClients {B = B}) (post fs)
  post-OnlyClients fs = record {
    at = λ s₀ s v. record {
      channels = v.channels;
      next_channel_id = v.next_channel_id;
      bridge = v.bridge;
    };
  }

  set_client-OnlyClients :
      (h : ℕ) (f : ClientInfo → ClientInfo) → Keeps (OnlyClients {B = B}) (set_client h f)
  set_client-OnlyClients h f = record {
    at = λ s₀ s v. record {
      channels = v.channels;
      next_channel_id = v.next_channel_id;
      bridge = v.bridge;
    };
  }

  pub same-OnlyClients : (s : Server B) → OnlyClients s s
  same-OnlyClients s = record { channels = refl; next_channel_id = refl; bridge = refl }

  -- addChannel short of the end of the counter's 32 bits.
  pub add_channel-below :
      (base : ChannelWithoutId) (s : Server B)
      → s.next_channel_id + 1 < 2 ^ 32
      → add_channel base s ≡ (
        ok (s.next_channel_id + 1),
        record s {
          next_channel_id = s.next_channel_id + 1;
          channels =
              emplace
                (s.next_channel_id + 1)
                (record { base = base; id = s.next_channel_id + 1 })
                s.channels;
        },
      )
  unfolding add_channel
  add_channel-below base s room =
      let same : (s.next_channel_id + 1) % 2 ^ 32 ≡ s.next_channel_id + 1 = omega arith in
      rw same refl

module _ {Json B : Type 0} (J : JsonLib Json) where
  remove_from_client-OnlyClients :
      (chan h : ℕ) → Keeps (OnlyClients {B = B}) (remove_from_client J chan h)
  unfolding remove_from_client
  remove_from_client-OnlyClients chan h =
      search (keeps_rules, post-OnlyClients, set_client-OnlyClients) depth 8

  remove_from_client-ok : (chan h : ℕ) (s : Server B) → (remove_from_client J chan h s).0 ≡ ok tt
  unfolding remove_from_client
  remove_from_client-ok chan h s = refl

  -- removeChannel returns, and takes the channel out.
  pub remove_channel-ok :
      (chan : ℕ) (s : Server B)
      → ((remove_channel J chan s).0 ≡ ok tt)
        × OnlyClients (record s { channels = erase chan s.channels }) (remove_channel J chan s).1
  unfolding remove_channel
  remove_channel-ok chan s =
      let s' : Server B = record s { channels = erase chan s.channels } in
      (
        for_each-ok s.clients (λ p. remove_from_client J chan p.0)
            (λ p t. remove_from_client-ok chan p.0 t) s',
        (Keeps-for_each s.clients (λ p. remove_from_client J chan p.0)
              (λ p. remove_from_client-OnlyClients chan p.0)).at
            s' s' (same-OnlyClients s'),
      )

  broadcast_channels-OnlySent : Keeps (OnlySent {B = B}) (broadcast_channels J)
  unfolding broadcast_channels send_json_raw
  broadcast_channels-OnlySent = search (keeps_rules, post-OnlySent) depth 10

  send_json_raw-ok :
      (h : ℕ) (payload : String) (s : Server B) → (send_json_raw h payload s).0 ≡ ok tt
  unfolding send_json_raw
  send_json_raw-ok h payload s = refl

  -- what dump makes of the channels, where there is a client to send their text to
  abbrev pub announced : Server B → Result (Unit {0})
  announced s =
      if is_empty s.clients then ok tt else without_text (J.dump (advertise_payload J s.channels))

  -- broadcastChannels throws what dump throws, and sends alone.
  pub broadcast_channels_lem :
      (s : Server B)
      → ((broadcast_channels J s).0 ≡ announced s) × OnlySent s (broadcast_channels J s).1
  unfolding broadcast_channels
  broadcast_channels_lem s = (
    elim (Bool-cases (is_empty s.clients)) [
      | inl e ↦ ground (arith, e)
      | inr e ↦ elim (Result-cases (J.dump (advertise_payload J s.channels))) [
        | inr (x, d) ↦ rw (e, d) refl
        | inl (message, d) ↦
            rw (e, d)
              (for_each-ok s.clients (λ p. send_json_raw p.0 message)
                (λ p t. send_json_raw-ok p.0 message t) s)
      ]
    ],
    broadcast_channels-OnlySent.at s s (same-OnlySent s),
  )

module _ {Json B A : Type 0} (J : JsonLib Json) where
  -- The end of updateAdvertisedTopics of both bridges.
  unfoldable pub broadcast_new : List A → Exec (Server B) (Unit {0})
  broadcast_new added = if is_empty added then skip else broadcast_channels J

  -- how it ends
  abbrev pub broadcast_answer : List A → Server B → Result (Unit {0})
  broadcast_answer added s = if is_empty added then ok tt else announced J s

  pub broadcast_new_lem :
      (added : List A) (s : Server B)
      → ((broadcast_new added s).0 ≡ broadcast_answer added (broadcast_new added s).1)
        × OnlySent s (broadcast_new added s).1
  unfolding broadcast_new
  broadcast_new_lem added s = elim (Bool-cases (is_empty added)) [
    | inl e ↦ rw e (refl, same-OnlySent s)
    | inr e ↦
        let (answer, same) = broadcast_channels_lem J s in
        rw e (answer ∙ rw (same.clients, same.channels) refl, same)
  ]
