-- ===== src/Server/Closing.antt =====
-- handleConnectionOpened and handleConnectionClosed: what a connection leaves behind.
use foxglove_bridge_release.Base.{
  ℕ, ◌≡◌, ◌≢◌, refl, inl, inr, Option, none, some, List, arith, Option-cases,
}
use foxglove_bridge_release.Base.Eq.{==_iff, id_eq}
use foxglove_bridge_release.Base.Map.{Map, find, erase, find-erase}
use foxglove_bridge_release.Base.Exec.{ok, modify, for_each-ok, >>=-ok}
use foxglove_bridge_release.Base.Exec.Keeps.{Keeps, keeps_rules}
use foxglove_bridge_release.Server.{Server, ClientInfo, call, Callback}
use foxglove_bridge_release.Server.Connections.{
  handle_connection_closed, release_client, forget_client, unadvertise_all, unsubscribe_all,
}

-- Nothing but the bridge's state and the publications of `hdl` differs.
pub record ClosesOnly {B : Type 0} (hdl : ℕ) (s t : Server B) : Type 0 where
  pub clients : t.clients ≡ s.clients
  pub channels : t.channels ≡ s.channels
  pub sent : t.sent ≡ s.sent
  pub other_publications : (h : ℕ) → hdl ≢ h → find h t.client_channels ≡ find h s.client_channels

module _ {B : Type 0} (hdl : ℕ) where
  call-ClosesOnly :
      {A : Type 0} (f : Option (Callback B A)) (a : A) (h : ℕ)
      → Keeps (ClosesOnly {B = B} hdl) (call f a h)
  unfolding call
  call-ClosesOnly none a h = record { at = λ s₀ s v. v }
  call-ClosesOnly (some f) a h = record {
    at = λ s₀ s v. record {
      clients = v.clients;
      channels = v.channels;
      sent = v.sent;
      other_publications = v.other_publications;
    };
  }

  erase-ClosesOnly :
      Keeps
        (ClosesOnly {B = B} hdl)
        (modify (λ s. record s { client_channels = erase hdl s.client_channels }))
  erase-ClosesOnly = record {
    at = λ s₀ s v. record {
      clients = v.clients;
      channels = v.channels;
      sent = v.sent;
      other_publications = λ h ne.
          ground
            (arith, find-erase hdl h s.client_channels, ==_iff hdl h, v.other_publications h ne);
    };
  }

  release-ClosesOnly : (c : ClientInfo) → Keeps (ClosesOnly {B = B} hdl) (release_client hdl c)
  unfolding release_client forget_client unadvertise_all unsubscribe_all
  release-ClosesOnly c = search (keeps_rules, call-ClosesOnly, erase-ClosesOnly) depth 10

closed_unknown :
    {B : Type 0} (hdl : ℕ) (s : Server B)
    → find hdl s.clients ≡ none
    → handle_connection_closed hdl s ≡ (ok tt, s)
unfolding handle_connection_closed
closed_unknown hdl s e = ground arith

pub closed_known :
    {B : Type 0} (hdl : ℕ) (s : Server B) (c : ClientInfo)
    → find hdl s.clients ≡ some c
    → handle_connection_closed hdl s
      ≡ release_client hdl c (record s { clients = erase hdl s.clients })
unfolding handle_connection_closed
closed_known hdl s c e = ground arith

-- After handleConnectionClosed, whatever the handlers do to the bridge and whether they throw, the
-- connection has no entry, the entries and the publications of all others are as before, and so
-- are the channels and the frames sent.
pub handle_connection_closed_lem :
    {B : Type 0} (hdl : ℕ) (s : Server B)
    → let t = (handle_connection_closed hdl s).1 in
      (find hdl t.clients ≡ none)
      × ((h : ℕ) → hdl ≢ h → find h t.clients ≡ find h s.clients)
      × ((h : ℕ) → hdl ≢ h → find h t.client_channels ≡ find h s.client_channels)
      × (t.channels ≡ s.channels)
      × (t.sent ≡ s.sent)
handle_connection_closed_lem hdl s = elim (Option-cases (find hdl s.clients)) [
  | inl e ↦ rw (closed_unknown hdl s e) (e, λ h ne. refl, λ h ne. refl, refl, refl)
  | inr (c, e) ↦
      let s' = record s { clients = erase hdl s.clients } in
      let r = (release-ClosesOnly hdl c).at s' s' (record {
        clients = refl;
        channels = refl;
        sent = refl;
        other_publications = λ h ne. refl;
      }) in
      rw (closed_known hdl s c e) (
        rw r.clients (ground (arith, find-erase hdl hdl s.clients, ==_iff hdl hdl)),
        λ h ne. rw r.clients (ground (arith, find-erase hdl h s.clients, ==_iff hdl h)),
        r.other_publications,
        r.channels,
        r.sent,
      )
]

-- An empty std::function, or one that never throws.
abbrev pub Returns : {B A : Type 0} → Option (Callback B A) → Type 0
Returns none = Unit
Returns {B} {A} (some f) = (a : A) (h : ℕ) (b : B) → (f a h b).0 ≡ ok tt

call-ok :
    {B A : Type 0} (f : Option (Callback B A)) (a : A) (h : ℕ) (s : Server B)
    → Returns f
    → (call f a h s).0 ≡ ok tt
unfolding call
call-ok none a h s r = refl
call-ok (some f) a h s r = r a h s.bridge

unadvertise_all-ok :
    {B : Type 0} (hdl : ℕ) (ids : List ℕ) (s : Server B)
    → Returns s.handlers.client_unadvertise_handler
    → (unadvertise_all hdl ids s).0 ≡ ok tt
unfolding unadvertise_all
unadvertise_all-ok hdl ids s r =
    for_each-ok ids (λ id. call s.handlers.client_unadvertise_handler id hdl)
      (λ id t. call-ok s.handlers.client_unadvertise_handler id hdl t r) s

abbrev Forgotten : {B : Type 0} → ℕ → Server B → Server B → Type 0
Forgotten hdl s t = find hdl t.client_channels ≡ none

call-Forgotten :
    {B A : Type 0} (hdl : ℕ) (f : Option (Callback B A)) (a : A) (h : ℕ)
    → Keeps (Forgotten {B = B} hdl) (call f a h)
unfolding call
call-Forgotten hdl none a h = record { at = λ s₀ s v. v }
call-Forgotten hdl (some f) a h = record { at = λ s₀ s v. v }

unsubscribe_all-Forgotten :
    {B : Type 0} (hdl : ℕ) (m : Map ℕ ℕ) → Keeps (Forgotten {B = B} hdl) (unsubscribe_all hdl m)
unfolding unsubscribe_all
unsubscribe_all-Forgotten hdl m = search (keeps_rules, call-Forgotten)

released_publications :
    {B : Type 0} (hdl : ℕ) (s : Server B) (c : ClientInfo)
    → Returns s.handlers.client_unadvertise_handler
    → find hdl (release_client hdl c s).1.client_channels ≡ none
unfolding release_client forget_client
released_publications {B} hdl s c r =
    let t : Server B = (unadvertise_all hdl c.advertised_channels s).1 in
    rw
      (>>=-ok (unadvertise_all hdl c.advertised_channels)
        (λ _. forget_client hdl c.subscriptions_by_channel) tt s
        (unadvertise_all-ok hdl c.advertised_channels s r))
      ((unsubscribe_all-Forgotten hdl c.subscriptions_by_channel).at t
        (record t { client_channels = erase hdl t.client_channels })
        (ground (arith, find-erase hdl hdl t.client_channels, ==_iff hdl hdl)))

-- When a connection that has an entry closes and the unadvertise handler is empty or never throws,
-- the publications of the connection are erased.
pub closed_publications :
    {B : Type 0} (hdl : ℕ) (s : Server B) (c : ClientInfo)
    → find hdl s.clients ≡ some c
    → Returns s.handlers.client_unadvertise_handler
    → find hdl (handle_connection_closed hdl s).1.client_channels ≡ none
closed_publications {B} hdl s c e r =
    let s' : Server B = record s { clients = erase hdl s.clients } in
    rw (closed_known hdl s c e) (released_publications hdl s' c r)
