-- ===== src/Server/Invariant.antt =====
-- What the tables of the server promise one another, whatever the clients send.
pub mod Messages
pub mod Removal
pub mod Run
use mathlib.Core.Option
use foxglove_bridge_release.Base.{
  ℕ, ◌≡◌, refl, inl, inr, Option, none, some, true, List, [], ◌∷◌, arith, if◌then◌else◌,
  Option-cases,
}
use foxglove_bridge_release.Base.Eq.{◌==◌, ==_iff, id_eq}
use foxglove_bridge_release.Base.Map.{
  Map, find, emplace, erase, update, is_some, find-emplace, find-erase, find-update,
}
use foxglove_bridge_release.Base.Map.Distinct.{
  Distinct, emplace-Distinct, erase-Distinct, Every, emplace-Every, erase-Every, update-Every,
}
use foxglove_bridge_release.Wire.{ClientAdvertisement}
use foxglove_bridge_release.Server.{Server, ClientInfo, Channel}
use foxglove_bridge_release.Server.Text.{find_subscription_by_sub_id}

-- A client's entry stands under its own handle; it names each channel once, each subscription id
-- stands for one channel, and every subscribed channel exists.
pub record IsValidClient (channels : Map ℕ Channel) (h : ℕ) (c : ClientInfo) : Type 0 where
  pub own : c.handle ≡ h
  pub distinct : Distinct c.subscriptions_by_channel
  pub unique :
      (i j sub : ℕ)
      → find i c.subscriptions_by_channel ≡ some sub
      → find j c.subscriptions_by_channel ≡ some sub
      → i ≡ j
  pub known :
      (i sub : ℕ) → find i c.subscriptions_by_channel ≡ some sub → is_some (find i channels) ≡ true

abbrev pub HasOwnId : ℕ → Channel → Type 0
HasOwnId i ch = ch.id ≡ i

abbrev pub IsPublicationOf : ℕ → ClientAdvertisement → Type 0
IsPublicationOf i a = a.channel_id ≡ i

pub record IsValidTables (clients : Map ℕ ClientInfo) (channels : Map ℕ Channel)
    (client_channels : Map ℕ (Map ℕ ClientAdvertisement)) : Type 0 where
  pub clients_valid : Every (IsValidClient channels) clients
  pub channel_ids : Every HasOwnId channels
  pub publication_ids : Every (λ h. Every IsPublicationOf) client_channels

abbrev pub IsValid : {B : Type 0} → Server B → Type 0
IsValid s = IsValidTables s.clients s.channels s.client_channels

-- An id that no entry holds.
pub find_subscription-none :
    (sub_id : ℕ) (m : Map ℕ ℕ) (i : ℕ)
    → find_subscription_by_sub_id sub_id m ≡ none
    → find i m ≡ some sub_id
    → ⊥
unfolding find_subscription_by_sub_id find
find_subscription-none sub_id [] i e q = cc
find_subscription-none sub_id ((j, w) ∷ m) i e q = ground (arith, find_subscription-none sub_id m i)

-- An entry that is found is the entry of its channel.
pub find_subscription-some :
    (sub_id : ℕ) (m : Map ℕ ℕ) (i w : ℕ)
    → Distinct m
    → find_subscription_by_sub_id sub_id m ≡ some (i, w)
    → (find i m ≡ some sub_id) × (w ≡ sub_id)
unfolding find_subscription_by_sub_id find
find_subscription-some sub_id [] i w d e = cc
find_subscription-some sub_id ((j, v) ∷ m) i w d e =
    ground (arith, find_subscription-some sub_id m i w d.1)

module _ (channels : Map ℕ Channel) (h : ℕ) (c : ClientInfo) (v : IsValidClient channels h c) where
  pub subscribed-IsValidClient :
      (chan sub : ℕ)
      → find_subscription_by_sub_id sub c.subscriptions_by_channel ≡ none
      → is_some (find chan channels) ≡ true
      → IsValidClient channels h
          (record c { subscriptions_by_channel = emplace chan sub c.subscriptions_by_channel })
  subscribed-IsValidClient chan sub fresh there = record {
    own = v.own;
    distinct = emplace-Distinct chan sub c.subscriptions_by_channel v.distinct;
    unique = λ i j x p q. ground (
      arith,
      find-emplace chan i sub c.subscriptions_by_channel,
      find-emplace chan j sub c.subscriptions_by_channel,
      find_subscription-none sub c.subscriptions_by_channel i,
      find_subscription-none sub c.subscriptions_by_channel j,
      v.unique i j x,
    );
    known =
        λ i x p. ground (arith, find-emplace chan i sub c.subscriptions_by_channel, v.known i x);
  }

  pub unsubscribed-IsValidClient :
      (chan : ℕ)
      → IsValidClient channels h
          (record c { subscriptions_by_channel = erase chan c.subscriptions_by_channel })
  unsubscribed-IsValidClient chan = record {
    own = v.own;
    distinct = erase-Distinct chan c.subscriptions_by_channel v.distinct;
    unique = λ i j x p q. ground (
      arith,
      find-erase chan i c.subscriptions_by_channel,
      find-erase chan j c.subscriptions_by_channel,
      v.unique i j x,
    );
    known = λ i x p. ground (arith, find-erase chan i c.subscriptions_by_channel, v.known i x);
  }

-- The entry of one client is rewritten.
pub set_client-IsValid :
    {B : Type 0} (h : ℕ) (f : ClientInfo → ClientInfo) (s : Server B)
    → ((c : ClientInfo)
        → find h s.clients ≡ some c
        → IsValidClient s.channels h c
        → IsValidClient s.channels h (f c))
    → IsValid s
    → IsValidTables (update h f s.clients) s.channels s.client_channels
set_client-IsValid h f s step v = record {
  clients_valid = update-Every (IsValidClient s.channels) h f s.clients step v.clients_valid;
  channel_ids = v.channel_ids;
  publication_ids = v.publication_ids;
}

-- The publications of one client are rewritten.
pub set_publications-IsValid :
    {B : Type 0} (h : ℕ) (f : Map ℕ ClientAdvertisement → Map ℕ ClientAdvertisement) (s : Server B)
    → ((m : Map ℕ ClientAdvertisement) → Every IsPublicationOf m → Every IsPublicationOf (f m))
    → IsValid s
    → IsValidTables s.clients s.channels (update h f s.client_channels)
set_publications-IsValid h f s step v = record {
  clients_valid = v.clients_valid;
  channel_ids = v.channel_ids;
  publication_ids =
      update-Every (λ h. Every IsPublicationOf) h f s.client_channels (λ m _. step m)
        v.publication_ids;
}
