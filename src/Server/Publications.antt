-- ===== src/Server/Publications.antt =====
-- What an "unadvertise" request leaves in the two tables that hold a client's publications.
use foxglove_bridge_release.Base.{
  ℕ, ◌≡◌, refl, ap, ◌∙◌, none, some, true, List, [], ◌∷◌, ◌++◌, inl, inr, Bool-cases, arith,
}
use foxglove_bridge_release.Base.Eq.{◌==◌, ==_iff, id_eq}
use foxglove_bridge_release.Base.Map.{Map, find, erase, update, contains, find-erase, find-update}
use foxglove_bridge_release.Json.{JsonLib}
use foxglove_bridge_release.Wire.{ClientAdvertisement}
use foxglove_bridge_release.Server.{Server, ClientInfo, Callback, call}
use foxglove_bridge_release.Server.Text.{unadvertise_id, publications}
use foxglove_bridge_release.Server.Text.Cases.{unadvertise_accepted}
use foxglove_bridge_release.Server.Connections.{
  handle_connection_closed, release_client, unadvertise_all, forget_client, unsubscribe_all,
}
use foxglove_bridge_release.Base.Exec.{ok, for_each, >>=-ok, >>=-step}
use foxglove_bridge_release.Server.Closing.{closed_known}

listed_at :
    (x : ℕ) (xs : List ℕ)
    → contains x xs ≡ true
    → (before : List ℕ) × (after : List ℕ) × (xs ≡ before ++ x ∷ after)
unfolding contains
listed_at x [] e = absurd (cc)
listed_at x (y ∷ ys) e = elim (Bool-cases (y == x)) [
  | inl same ↦ ([], ys, ground (arith, ==_iff y x, same))
  | inr other ↦
      let (before, after, split) = listed_at x ys (ground (arith, other, e)) in
      (y ∷ before, after, ap (λ zs. y ∷ zs) split)
]

module _ {B : Type 0} (f : Callback B ℕ) (hdl : ℕ) where
  -- the bridge once the handler was called for each id
  abbrev pub after_calls : List ℕ → B → B
  after_calls [] b = b
  after_calls (id ∷ ids) b = after_calls ids (f id hdl b).1

  module _ (returns : (id : ℕ) (h : ℕ) (b : B) → (f id h b).0 ≡ ok tt) where
    calls_lem :
        (ids : List ℕ) (s : Server B)
        → for_each ids (λ id. call (some f) id hdl) s
          ≡ (ok tt, record s { bridge = after_calls ids s.bridge })
    unfolding for_each call
    calls_lem [] s = refl
    calls_lem (id ∷ ids) s =
        >>=-ok (call (some f) id hdl) (λ _. for_each ids (λ i. call (some f) i hdl)) tt s
          (returns id hdl s.bridge)
        ∙ calls_lem ids (record s { bridge = (f id hdl s.bridge).1 })

    unadvertised :
        (ids : List ℕ) (s : Server B)
        → s.handlers.client_unadvertise_handler ≡ some f
        → unadvertise_all hdl ids s ≡ (ok tt, record s { bridge = after_calls ids s.bridge })
    unfolding unadvertise_all
    unadvertised ids s handled =
        ap (λ h. for_each ids (λ id. call h id hdl) s) handled ∙ calls_lem ids s

    forgotten : (m : Map ℕ ℕ) (s : Server B) → m ≡ [] → (forget_client hdl m s).1.bridge ≡ s.bridge
    unfolding forget_client unsubscribe_all for_each
    forgotten m s e = rw e refl

    -- A client without subscriptions is released by the calls of the unadvertise handler.
    released :
        (c : ClientInfo) (s : Server B)
        → s.handlers.client_unadvertise_handler ≡ some f
        → c.subscriptions_by_channel ≡ []
        → (release_client hdl c s).1.bridge ≡ after_calls c.advertised_channels s.bridge
    unfolding release_client
    released c s handled none_left =
        ap (λ p. p.1.bridge)
          (>>=-step (unadvertise_all hdl c.advertised_channels)
            (λ _. forget_client hdl c.subscriptions_by_channel) s
            (unadvertised c.advertised_channels s handled) refl)
        ∙ forgotten c.subscriptions_by_channel _ none_left

module _ {Json B : Type 0} (J : JsonLib Json) (hdl : ℕ) (s : Server B) (c : ClientInfo)
    (f : Callback B ℕ) where
  -- When a client without subscriptions advertised a channel and unadvertises it, and the bridge's
  -- unadvertise handler never throws: the handler is called for the channel and the publication is
  -- erased, but the client's entry lists the channel as before. So when the connection is closed
  -- then, the handler is called for every channel of that list, and for this one again.
  pub unadvertise_kept :
      (chan : ℕ) (pubs : Map ℕ ClientAdvertisement) (a : ClientAdvertisement)
      → ((id : ℕ) (h : ℕ) (b : B) → (f id h b).0 ≡ ok tt)
      → s.handlers.client_unadvertise_handler ≡ some f
      → find hdl s.clients ≡ some c
      → c.subscriptions_by_channel ≡ []
      → contains chan c.advertised_channels ≡ true
      → find hdl s.client_channels ≡ some pubs
      → find chan pubs ≡ some a
      → let t = (unadvertise_id J hdl chan s).1 in
        (find chan (publications hdl t) ≡ none)
        × (find hdl t.clients ≡ some c)
        × (t.bridge ≡ (f chan hdl s.bridge).1)
        × ((handle_connection_closed hdl t).1.bridge
            ≡ after_calls f hdl c.advertised_channels t.bridge)
        × ((before : List ℕ) × (after : List ℕ) × (c.advertised_channels ≡ before ++ chan ∷ after))
  unfolding call
  unadvertise_kept chan pubs a returns handled connected none_left listed own there =
      let s' : Server B = record s {
        client_channels = update hdl (erase chan) s.client_channels;
      } in
      let t : Server B = record s' { bridge = (f chan hdl s.bridge).1 } in
      let runs : (unadvertise_id J hdl chan s).1 ≡ t =
        ap (λ p. p.1) (unadvertise_accepted J hdl s chan a (rw own there))
        ∙ ap (λ h. (call h chan hdl s').1) handled in
      rw runs (
        ground (
          arith,
          own,
          find-update hdl hdl (erase chan) s.client_channels,
          ==_iff hdl hdl,
          find-erase chan chan pubs,
          ==_iff chan chan,
        ),
        connected,
        refl,
        ap (λ p. p.1.bridge) (closed_known hdl t c connected)
            ∙ released f hdl returns c (record t { clients = erase hdl t.clients }) handled
                none_left,
        listed_at chan c.advertised_channels listed,
      )
