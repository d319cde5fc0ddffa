-- ===== src/Server/Invariant/Removal.antt =====
-- removeChannel: the loop over the clients leaves no subscription of the channel behind.

use mathlib.Core.Path.{subst₂}
use foxglove_bridge_release.Base.{
  ℕ, ◌≡◌, refl, inl, inr, none, some, false, [], ◌∷◌, arith, Option-cases, Bool-cases,
}
use foxglove_bridge_release.Base.Eq.{◌==◌, ==_iff, id_eq}
use foxglove_bridge_release.Base.Map.{Map, find, erase, update, find-erase, find-update}
use foxglove_bridge_release.Base.Map.Distinct.{Every, erase-Every}
use foxglove_bridge_release.Base.Exec.{for_each, for_each-nil, for_each-cons}
use foxglove_bridge_release.Json.{JsonLib}
use foxglove_bridge_release.Server.{Server, ClientInfo, Channel}
use foxglove_bridge_release.Server.Channels.{remove_from_client, remove_channel}
use foxglove_bridge_release.Server.Invariant.{
  IsValid, IsValidClient, HasOwnId, unsubscribed-IsValidClient,
}

-- With `cs` still to visit: the entry is valid for the channels before the removal, and once its
-- client is visited it has no subscription of `chan`.
abbrev IsPending : ℕ → Map ℕ Channel → Map ℕ ClientInfo → ℕ → ClientInfo → Type 0
IsPending chan old cs h c =
    IsValidClient old h c × (find h cs ≡ none → find chan c.subscriptions_by_channel ≡ none)

abbrev drop_channel : ℕ → ClientInfo → ClientInfo
drop_channel chan c = record c { subscriptions_by_channel = erase chan c.subscriptions_by_channel }

module _ (chan : ℕ) (old : Map ℕ Channel) (h : ℕ) (d : ClientInfo) (cs clients : Map ℕ ClientInfo)
    (pending : Every (IsPending chan old ((h, d) ∷ cs)) clients) where
  visit_same :
      (c : ClientInfo) → find h clients ≡ some c → IsPending chan old cs h (drop_channel chan c)
  visit_same c e = (
    unsubscribed-IsValidClient old h c (pending h c e).0 chan,
    λ _. ground (arith, find-erase chan chan c.subscriptions_by_channel, ==_iff chan chan),
  )

  visit_other :
      (j : ℕ) (c : ClientInfo)
      → (h == j) ≡ false
      → find j clients ≡ some c
      → IsPending chan old cs j c
  visit_other j c ne e =
      ((pending j c e).0, λ gone. (pending j c e).1 (unfold find in rw (ne, gone)))

  visit-IsPending : Every (IsPending chan old cs) (update h (drop_channel chan) clients)
  visit-IsPending j w q = elim (Bool-cases (h == j)) [
    | inl same ↦ elim (Option-cases (find h clients)) [
      | inl gone ↦ ground (arith, ==_iff h j, find-update h j (drop_channel chan) clients)
      | inr (c, there) ↦
          subst₂ (IsPending chan old cs) ((==_iff h j).0 same)
            (ground (arith, ==_iff h j, find-update h j (drop_channel chan) clients))
            (visit_same c there)
    ]
    | inr other ↦
        visit_other j w other (ground (arith, find-update h j (drop_channel chan) clients))
  ]

module _ {Json B : Type 0} (J : JsonLib Json) (chan : ℕ) (old : Map ℕ Channel) where
  abbrev Cleared : Server B → Server B → Type 0
  Cleared s t =
      (t.channels ≡ s.channels)
      × (t.client_channels ≡ s.client_channels)
      × Every (IsPending chan old []) t.clients

  loop-Cleared :
      (cs : Map ℕ ClientInfo) (s : Server B)
      → Every (IsPending chan old cs) s.clients
      → Cleared s (for_each cs (λ p. remove_from_client J chan p.0) s).1
  unfolding remove_from_client
  loop-Cleared [] s pending = rw for_each-nil (refl, refl, pending)
  loop-Cleared ((h, d) ∷ cs) s pending =
      rw for_each-cons (loop-Cleared cs _ (visit-IsPending chan old h d cs s.clients pending))

module _ (chan : ℕ) (old : Map ℕ Channel) where
  visited-IsValidClient :
      (h : ℕ) (c : ClientInfo) → IsPending chan old [] h c → IsValidClient (erase chan old) h c
  visited-IsValidClient h c (v, dropped) = record {
    own = v.own;
    distinct = v.distinct;
    unique = v.unique;
    known = λ i sub e.
        ground (arith, find-erase chan i old, ==_iff chan i, v.known i sub e, dropped none_left);
  }
    where
      none_left : find {V = ClientInfo} h [] ≡ none
      none_left = unfold find in refl

module _ {Json B : Type 0} (J : JsonLib Json) (chan : ℕ) (s : Server B) (v : IsValid s) where
  start-IsPending : Every (IsPending chan s.channels s.clients) s.clients
  start-IsPending h c e = (v.clients_valid h c e, λ gone. cc)

  -- When the tables are valid, they are so after removeChannel, the channel is gone and no client
  -- is subscribed to it.
  pub remove_channel_lem :
      let t = (remove_channel J chan s).1 in
      IsValid t
      × (find chan t.channels ≡ none)
      × Every (λ h c. find chan c.subscriptions_by_channel ≡ none) t.clients
  unfolding remove_channel
  remove_channel_lem =
      let r =
        loop-Cleared J chan s.channels s.clients (record s { channels = erase chan s.channels })
          start-IsPending in
      (
        record {
          clients_valid = λ h c e. rw r.0 (visited-IsValidClient chan s.channels h c (r.2 h c e));
          channel_ids = rw r.0 (erase-Every HasOwnId chan s.channels v.channel_ids);
          publication_ids = rw r.1 v.publication_ids;
        },
        ground (arith, r.0, find-erase chan chan s.channels, ==_iff chan chan),
        λ h c e. (r.2 h c e).1 (unfold find in refl),
      )
