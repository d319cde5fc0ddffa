-- ===== src/Server/Ids.antt =====
-- addChannel gives every channel an id of its own, for fewer than 2 ^ 32 additions.
use foxglove_bridge_release.Base.{
  ℕ, ◌+◌, ◌%◌, ◌^◌, ◌≤◌, ◌<◌, ◌≡◌, ◌≢◌, refl, String, Option, none, some, List, [], ◌∷◌, arith, inl,
  inr, Option-cases,
}
use foxglove_bridge_release.Base.Eq.{==_iff, id_eq}
use foxglove_bridge_release.Base.Map.{find, emplace, erase, find-emplace, find-erase}
use foxglove_bridge_release.Base.Exec.{ok, Exec, modify, skip, ◌>>=◌, >>=-ok}
use foxglove_bridge_release.Base.Exec.Keeps.{Keeps, keeps_rules}
use foxglove_bridge_release.Json.{JsonLib}
use foxglove_bridge_release.Server.{
  Server, Channel, ChannelWithoutId, ClientInfo, Frame, Network, Handlers, Callback, call,
}
use foxglove_bridge_release.Server.Send.{post, send_json_raw, send_binary}
use foxglove_bridge_release.Server.Text.{set_client}
use foxglove_bridge_release.Server.Connections.{
  handle_connection_opened, handle_connection_closed, release_client, forget_client,
  unadvertise_all, unsubscribe_all,
}
use foxglove_bridge_release.Server.Channels.{
  add_channel, remove_channel, remove_from_client, broadcast_channels, send_message, broadcast_time,
}
use foxglove_bridge_release.Server.Binary.{OpCode, handle_message}
use foxglove_bridge_release.Server.Isolation.{handle_message_isolated}
use foxglove_bridge_release.Server.Run.{
  Event, opened, closed, message, channel_added, channel_removed, channels_broadcast, message_sent,
  time_broadcast, perform, run, init,
}

-- No id above the counter is in use.
abbrev pub IsFresh : {B : Type 0} → Server B → Type 0
IsFresh s = (i : ℕ) (ch : Channel) → find i s.channels ≡ some ch → i ≤ s.next_channel_id

-- Channels are at most removed.
abbrev Shrinks : {B : Type 0} → Server B → Server B → Type 0
Shrinks s t =
    ((i : ℕ) (ch : Channel) → find i t.channels ≡ some ch → find i s.channels ≡ some ch)
    × (t.next_channel_id ≡ s.next_channel_id)

module _ {B : Type 0} (base : ChannelWithoutId) (s : Server B) (fresh : IsFresh s)
    (room : s.next_channel_id + 1 < 2 ^ 32) where
  add_channel_lem : add_channel base s ≡ (
    ok (s.next_channel_id + 1),
    record s {
      next_channel_id = s.next_channel_id + 1;
      channels =
          emplace
            (s.next_channel_id + 1)
            (record { base = base; id = s.next_channel_id + 1 })
            s.channels;
    },
  )
  unfolding add_channel
  add_channel_lem =
      let same : (s.next_channel_id + 1) % 2 ^ 32 ≡ s.next_channel_id + 1 = omega arith in
      rw same refl

  unused : find (s.next_channel_id + 1) s.channels ≡ none
  unused = elim (Option-cases (find (s.next_channel_id + 1) s.channels)) [
    | inl e ↦ e
    | inr (ch, e) ↦ absurd (omega (arith, fresh _ ch e))
  ]

  -- When no channel has an id above the counter and the counter is not at the end of its 32 bits,
  -- addChannel returns the next number, which no channel had; the new channel stands under it, and
  -- every other channel is as it was.
  pub add_channel-IsFresh :
      let id = s.next_channel_id + 1 in
      let t = (add_channel base s).1 in
      ((add_channel base s).0 ≡ ok id)
      × (find id s.channels ≡ none)
      × (find id t.channels ≡ some (record { base = base; id = id }))
      × ((j : ℕ) → id ≢ j → find j t.channels ≡ find j s.channels)
      × IsFresh t
  add_channel-IsFresh =
      let id = s.next_channel_id + 1 in
      let new : Channel = record { base = base; id = id } in
      rw add_channel_lem (
        refl,
        unused,
        ground (arith, unused, find-emplace id id new s.channels, ==_iff id id),
        λ j ne. ground (arith, find-emplace id j new s.channels, ==_iff id j),
        λ j ch e. ground (arith, find-emplace id j new s.channels, ==_iff id j, fresh j ch),
      )

module _ {B : Type 0} where
  call-Shrinks :
      {A : Type 0} (f : Option (Callback B A)) (a : A) (h : ℕ)
      → Keeps (Shrinks {B = B}) (call f a h)
  unfolding call
  call-Shrinks none a h = record { at = λ s₀ s v. v }
  call-Shrinks (some f) a h = record { at = λ s₀ s v. v }

  post-Shrinks : (fs : List (ℕ × Frame)) → Keeps (Shrinks {B = B}) (post fs)
  post-Shrinks fs = record { at = λ s₀ s v. v }

  set_client-Shrinks :
      (h : ℕ) (f : ClientInfo → ClientInfo) → Keeps (Shrinks {B = B}) (set_client h f)
  set_client-Shrinks h f = record { at = λ s₀ s v. v }

  erase_channel-Shrinks :
      (i : ℕ) → Keeps (Shrinks {B = B}) (modify (λ s. record s { channels = erase i s.channels }))
  erase_channel-Shrinks i = record {
    at = λ s₀ s v. (λ j ch e. v.0 j ch (ground (arith, find-erase i j s.channels)), v.1);
  }

  new_client-Shrinks :
      (h : ℕ) (c : ClientInfo)
      → Keeps (Shrinks {B = B}) (modify (λ s. record s { clients = emplace h c s.clients }))
  new_client-Shrinks h c = record { at = λ s₀ s v. v }

  erase_client-Shrinks :
      (h : ℕ) → Keeps (Shrinks {B = B}) (modify (λ s. record s { clients = erase h s.clients }))
  erase_client-Shrinks h = record { at = λ s₀ s v. v }

  erase_publications-Shrinks :
      (h : ℕ)
      → Keeps
          (Shrinks {B = B})
          (modify (λ s. record s { client_channels = erase h s.client_channels }))
  erase_publications-Shrinks h = record { at = λ s₀ s v. v }

  ruleset shrinking = (
    keeps_rules, call-Shrinks, post-Shrinks, set_client-Shrinks, erase_channel-Shrinks,
    new_client-Shrinks, erase_client-Shrinks, erase_publications-Shrinks,
  )

  closed-Shrinks : (h : ℕ) → Keeps (Shrinks {B = B}) (handle_connection_closed h)
  unfolding handle_connection_closed release_client forget_client unadvertise_all unsubscribe_all
  closed-Shrinks h = search shrinking depth 14

  send_message-Shrinks :
      (net : Network) (h chan now : ℕ) (bytes : List ℕ)
      → Keeps (Shrinks {B = B}) (send_message net h chan now bytes)
  unfolding send_message send_binary
  send_message-Shrinks net h chan now bytes = search shrinking depth 8

  broadcast_time-Shrinks : (now : ℕ) → Keeps (Shrinks {B = B}) (broadcast_time now)
  unfolding broadcast_time send_binary
  broadcast_time-Shrinks now = search shrinking

module _ {Json B : Type 0} (J : JsonLib Json) where
  opened-Shrinks :
      (net : Network) (h : ℕ) → Keeps (Shrinks {B = B}) (handle_connection_opened J net h)
  unfolding handle_connection_opened
  opened-Shrinks net h = search shrinking depth 12

  broadcast_channels-Shrinks : Keeps (Shrinks {B = B}) (broadcast_channels J)
  unfolding broadcast_channels send_json_raw
  broadcast_channels-Shrinks = search shrinking depth 8

  remove_channel-Shrinks : (i : ℕ) → Keeps (Shrinks {B = B}) (remove_channel J i)
  unfolding remove_channel remove_from_client
  remove_channel-Shrinks i = search shrinking depth 8

  message-Shrinks :
      (now h : ℕ) (op : OpCode) (payload : String) (msg : List ℕ) (s : Server B)
      → Shrinks s (handle_message J now h op payload msg s).1
  message-Shrinks now h op payload msg s =
      let r = (handle_message_isolated J h now op payload msg s).0 in
      (λ i ch e. rw r.channels at e, r.next_channel_id)

-- How many channels a call adds, and a sequence of calls.
abbrev pub gain : Event → ℕ
gain (channel_added base) = 1
gain _ = 0

abbrev pub additions : List Event → ℕ
additions [] = 0
additions (e ∷ es) = gain e + additions es

abbrev FreshAt : {B : Type 0} → ℕ → Server B → Type 0
FreshAt n s = IsFresh s × (s.next_channel_id ≡ n)

module _ {B : Type 0} (s : Server B) (n : ℕ) (now : FreshAt n s) where
  shrunk : (t : Server B) → Shrinks s t → FreshAt (n + 0) t
  shrunk t r = (λ i ch e. rw r.1 (now.0 i ch (r.0 i ch e)), omega (arith, r.1, now.1))

  kept : {A : Type 0} (m : Exec (Server B) A) → Keeps Shrinks m → FreshAt (n + 0) (m s).1
  kept m k = shrunk (m s).1 (k.at s s (λ i ch e. e, refl))

  added :
      (base : ChannelWithoutId)
      → n + 1 < 2 ^ 32
      → FreshAt (n + 1) ((add_channel base >>= λ id. skip) s).1
  added base room =
      let room' : s.next_channel_id + 1 < 2 ^ 32 = omega (arith, now.1) in
      rw
        (>>=-ok (add_channel base) (λ id. skip) (s.next_channel_id + 1) s
          (add_channel-IsFresh base s now.0 room').0)
        (
          (add_channel-IsFresh base s now.0 room').4,
          rw (add_channel_lem base s now.0 room') (omega (arith, now.1)),
        )

module _ {Json B : Type 0} (J : JsonLib Json) where
  perform-FreshAt :
      (e : Event) (s : Server B) (n : ℕ)
      → FreshAt n s
      → n + gain e < 2 ^ 32
      → FreshAt (n + gain e) (perform J e s).1
  unfolding perform
  perform-FreshAt (opened net h) s n f room = kept s n f _ (opened-Shrinks J net h)
  perform-FreshAt (closed h) s n f room = kept s n f _ (closed-Shrinks h)
  perform-FreshAt (message now h op payload msg) s n f room =
      shrunk s n f (handle_message J now h op payload msg s).1
        (message-Shrinks J now h op payload msg s)
  perform-FreshAt (channel_added base) s n f room = added s n f base room
  perform-FreshAt (channel_removed i) s n f room = kept s n f _ (remove_channel-Shrinks J i)
  perform-FreshAt channels_broadcast s n f room = kept s n f _ (broadcast_channels-Shrinks J)
  perform-FreshAt (message_sent net h chan now bytes) s n f room =
      kept s n f _ (send_message-Shrinks net h chan now bytes)
  perform-FreshAt (time_broadcast now) s n f room = kept s n f _ (broadcast_time-Shrinks now)

  run-FreshAt :
      (es : List Event) (s : Server B) (n : ℕ)
      → FreshAt n s
      → n + additions es < 2 ^ 32
      → FreshAt (n + additions es) (run J es s)
  unfolding run
  run-FreshAt [] s n f room = (f.0, omega (arith, f.1))
  run-FreshAt (e ∷ es) s n f room =
      let r =
        run-FreshAt es (perform J e s).1 (n + gain e) (perform-FreshAt e s n f (omega arith))
          (omega arith) in
      (r.0, omega (arith, r.1))

  -- From a server as constructed, after any calls with fewer than 2 ^ 32 additions: the counter is
  -- the number of channels added, and no channel has an id above it, so the next id is unused.
  pub run-init-IsFresh :
      (name : String) (capabilities : List String) (limit : ℕ) (handlers : Handlers B) (bridge : B)
      (es : List Event)
      → additions es < 2 ^ 32
      → let t = run J es (init name capabilities limit handlers bridge) in
        IsFresh t × (t.next_channel_id ≡ additions es)
  run-init-IsFresh name capabilities limit handlers bridge es room =
      let start : FreshAt 0 (init name capabilities limit handlers bridge) =
        unfold init find in (λ i ch e. cc, refl) in
      let r = run-FreshAt es _ 0 start (omega arith) in (r.0, omega (arith, r.1))
