-- ===== src/Server/Contract/Removal.antt =====
-- removeChannel takes the subscriptions of one channel away, and no other.
use foxglove_bridge_release.Base.{
  List, ℕ, ◌≡◌, refl, false, none, arith, inl, inr, Option-cases, Bool-cases,
}
use foxglove_bridge_release.Base.Eq.{◌==◌, ==_iff, id_eq}
use foxglove_bridge_release.Base.Map.{find, erase, find-erase, find-update}
use foxglove_bridge_release.Base.Exec.{modify}
use foxglove_bridge_release.Base.Exec.Keeps.{Keeps, keeps_rules}
use foxglove_bridge_release.Json.{JsonLib}
use foxglove_bridge_release.Server.{Server, ClientInfo, Frame}
use foxglove_bridge_release.Server.Send.{post}
use foxglove_bridge_release.Server.Text.{set_client}
use foxglove_bridge_release.Server.Channels.{remove_channel, remove_from_client, subscription_of}
use foxglove_bridge_release.Server.Effects.{remove_channel-ok}
use foxglove_bridge_release.Server.Invariant.{IsValid}
use foxglove_bridge_release.Server.Invariant.Removal.{remove_channel_lem}
use foxglove_bridge_release.Server.Contract.{view, SameConnections, remove, Allowed}

record OnlyDrops {B : Type 0} (chan : ℕ) (s t : Server B) : Type 0 where
  pub connected : SameConnections (view s) (view t)
  pub others : (i c : ℕ) → (chan == c) ≡ false → subscription_of i c t ≡ subscription_of i c s

abbrev without : ℕ → ClientInfo → ClientInfo
without chan c = record c { subscriptions_by_channel = erase chan c.subscriptions_by_channel }

module _ {B : Type 0} (chan : ℕ) where
  same-OnlyDrops : (s : Server B) → OnlyDrops chan s s
  same-OnlyDrops s = record { connected = λ i. refl; others = λ i c ne. refl }

  set_client-OnlyDrops :
      (h : ℕ)
      → Keeps (OnlyDrops {B = B} chan) (
          set_client h
            (λ c. record c { subscriptions_by_channel = erase chan c.subscriptions_by_channel }))
  unfolding subscription_of
  set_client-OnlyDrops h = record {
    at = λ s₀ s v. record {
      connected = λ i. ground (arith, find-update h i (without chan) s.clients, v.connected i);
      others = λ i c ne. elim (Option-cases (find i s.clients)) [
        | inl e ↦ ground (arith, e, ne, find-update h i (without chan) s.clients, v.others i c ne)
        | inr (d, e) ↦ ground (
          arith,
          e,
          ne,
          find-update h i (without chan) s.clients,
          v.others i c ne,
          find-erase chan c d.subscriptions_by_channel,
        )
      ];
    };
  }

  post-OnlyDrops : (fs : List (ℕ × Frame)) → Keeps (OnlyDrops {B = B} chan) (post fs)
  unfolding subscription_of
  post-OnlyDrops fs = record {
    at = λ s₀ s v. record { connected = v.connected; others = v.others };
  }

  erase_channel-OnlyDrops :
      Keeps (OnlyDrops {B = B} chan) (modify (λ s. record s { channels = erase chan s.channels }))
  unfolding subscription_of
  erase_channel-OnlyDrops = record {
    at = λ s₀ s v. record { connected = v.connected; others = v.others };
  }

module _ {Json B : Type 0} (J : JsonLib Json) (chan : ℕ) where
  remove_channel-OnlyDrops : Keeps (OnlyDrops {B = B} chan) (remove_channel J chan)
  unfolding remove_channel remove_from_client
  remove_channel-OnlyDrops =
      search (keeps_rules, set_client-OnlyDrops, post-OnlyDrops, erase_channel-OnlyDrops) depth 12

  dropped :
      (s : Server B)
      → IsValid s
      → (i : ℕ) → subscription_of i chan (remove_channel J chan s).1 ≡ none
  unfolding subscription_of
  dropped s v i = elim (Option-cases (find i (remove_channel J chan s).1.clients)) [
    | inl e ↦ ground (arith, e)
    | inr (c, e) ↦ ground (arith, e, (remove_channel_lem J chan s v).2 i c e)
  ]

  pub remove-Allowed :
      (s : Server B) → IsValid s → Allowed (remove chan) (view s) (view (remove_channel J chan s).1)
  remove-Allowed s v =
      let k = remove_channel-OnlyDrops.at s s (same-OnlyDrops chan s) in
      (
        k.connected,
        λ c. ground (arith, (remove_channel-ok J chan s).1.channels, find-erase chan c s.channels),
        λ i c. elim (Bool-cases (chan == c)) [
          | inl e ↦ ground (arith, e, ==_iff chan c, dropped s v i)
          | inr e ↦ ground (arith, e, k.others i c e)
        ],
      )
