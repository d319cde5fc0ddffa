-- ===== src/Server/Contract/Refines.antt =====
-- What a client's subscription or unsubscription does, the contract of subscriptions allows.
use mathlib.Core.Path.{subst}
use foxglove_bridge_release.Base.{
  ℕ, ◌≡◌, refl, sym, false, Option, none, some, arith, inl, inr, Option-cases, ◌⊎◌, String, ◌&&◌,
  if◌then◌else◌,
}
use foxglove_bridge_release.Base.Eq.{◌==◌, ==_iff, id_eq}
use foxglove_bridge_release.Base.Map.{
  find, emplace, erase, update, find-emplace, find-erase, find-update,
}
use foxglove_bridge_release.Json.{JsonLib}
use foxglove_bridge_release.Server.{
  Server, Channel, ClientInfo, Callback, call, StatusLevel, error, warning,
}
use foxglove_bridge_release.Server.Send.{send_status}
use foxglove_bridge_release.Server.Text.{
  subscribe_channel, unsubscribe_id, find_subscription_by_sub_id,
}
use foxglove_bridge_release.Server.Text.Cases.{
  subscribe_no_client, subscribe_used, subscribe_unavailable, subscribe_accepted,
  unsubscribe_no_client, unsubscribe_unknown, unsubscribe_accepted,
}
use foxglove_bridge_release.Server.Channels.{subscription_of}
use foxglove_bridge_release.Server.Invariant.{
  IsValid, find_subscription-none, find_subscription-some,
}
use foxglove_bridge_release.Server.Contract.{
  view, subscribe, unsubscribe, SameConnections, IsTaken, Allowed, has_id,
}

-- A handler runs on the bridge's state alone.
view-call :
    {B A : Type 0} (f : Option (Callback B A)) (a : A) (h : ℕ) (s : Server B)
    → view (call f a h s).1 ≡ view s
unfolding call subscription_of
view-call none a h s = refl
view-call (some f) a h s = refl

module _ {B : Type 0} (h : ℕ) (f : ClientInfo → ClientInfo) (s : Server B) where
  abbrev rewritten : Server B
  rewritten = record s { clients = update h f s.clients }

  connected-update : SameConnections (view s) (view rewritten)
  connected-update i = ground (arith, find-update h i f s.clients)

  subscribed-update :
      (c : ClientInfo) (i chan : ℕ)
      → find h s.clients ≡ some c
      → subscription_of i chan rewritten
        ≡ (if h == i then find chan (f c).subscriptions_by_channel else subscription_of i chan s)
  unfolding subscription_of
  subscribed-update c i chan e = ground (arith, e, find-update h i f s.clients, ==_iff h i)

module _ {Json B : Type 0} (J : JsonLib Json) (s : Server B) (v : IsValid s) where
  subscribed_at :
      (h : ℕ) (c : ClientInfo) (chan : ℕ)
      → find h s.clients ≡ some c
      → subscription_of h chan s ≡ find chan c.subscriptions_by_channel
  unfolding subscription_of
  subscribed_at h c chan e = ground (arith, e)

  view-status :
      (h : ℕ) (level : StatusLevel) (message : String)
      → view (send_status J h level message s).1 ≡ view s
  unfolding send_status subscription_of
  view-status h level message = refl

  refused-Allowed :
      (h sub chan : ℕ) (t : Server B)
      → view t ≡ view s
      → ((view s).connected h ≡ false)
        ⊎ (((view s).available chan ≡ false) ⊎ IsTaken (view s) h sub)
      → Allowed (subscribe h sub chan) (view s) (view t)
  refused-Allowed h sub chan t e reason =
      subst (Allowed (subscribe h sub chan) (view s)) (sym e)
        (λ i. refl, λ i. refl, inl (reason, λ i c. refl))

  module _ (h : ℕ) (c : ClientInfo) (connected : find h s.clients ≡ some c) where
    taken :
        (sub : ℕ) (p : ℕ × ℕ)
        → find_subscription_by_sub_id sub c.subscriptions_by_channel ≡ some p
        → IsTaken (view s) h sub
    taken sub p used = (
      p.0,
      rw (subscribed_at h c p.0 connected)
          (find_subscription-some sub c.subscriptions_by_channel p.0 p.1
            (v.clients_valid h c connected).distinct used).0,
    )

    accepted-Allowed :
        (sub chan : ℕ) (ch : Channel)
        → find_subscription_by_sub_id sub c.subscriptions_by_channel ≡ none
        → find chan s.channels ≡ some ch
        → Allowed (subscribe h sub chan) (view s) (view (subscribe_channel J h sub chan s).1)
    accepted-Allowed sub chan ch fresh there =
        let f : ClientInfo → ClientInfo = λ d. record d {
          subscriptions_by_channel = emplace chan sub d.subscriptions_by_channel;
        } in
        let t : Server B = record s { clients = update h f s.clients } in
        rw (subscribe_accepted J h s sub chan c ch connected fresh there) (
          subst (Allowed (subscribe h sub chan) (view s))
            (sym (view-call s.handlers.subscribe_handler chan h t))
            (
              connected-update h f s,
              λ i. refl,
              inr (
                (
                  ground (arith, connected),
                  ground (arith, there),
                  λ k taken_by.
                      find_subscription-none sub c.subscriptions_by_channel k fresh
                        (rw⁻¹ (subscribed_at h c k connected) taken_by),
                ),
                λ i k. ground (
                  arith,
                  subscribed-update h f s c i k connected,
                  ==_iff h i,
                  ==_iff chan k,
                  subscribed_at h c k connected,
                  subscribed_at h c chan connected,
                  find-emplace chan k sub c.subscriptions_by_channel,
                ),
              ),
            ))

    unsubscribed-Allowed :
        (sub chan w : ℕ)
        → find_subscription_by_sub_id sub c.subscriptions_by_channel ≡ some (chan, w)
        → Allowed (unsubscribe h sub) (view s) (view (unsubscribe_id J h sub s).1)
    unsubscribed-Allowed sub chan w known =
        let f : ClientInfo → ClientInfo =
          λ d. record d { subscriptions_by_channel = erase chan d.subscriptions_by_channel } in
        let t : Server B = record s { clients = update h f s.clients } in
        let valid = v.clients_valid h c connected in
        let at =
          find_subscription-some sub c.subscriptions_by_channel chan w valid.distinct known in
        rw (unsubscribe_accepted J h s sub c chan w connected known) (
          subst (Allowed (unsubscribe h sub) (view s))
            (sym (view-call s.handlers.unsubscribe_handler chan h t))
            (
              connected-update h f s,
              λ i. refl,
              λ i k. ground (
                arith,
                subscribed-update h f s c i k connected,
                ==_iff h i,
                ==_iff chan k,
                subscribed_at h c k connected,
                find-erase chan k c.subscriptions_by_channel,
                at.0,
                valid.unique chan k sub,
              ),
            ))

    unknown-Allowed :
        (sub : ℕ)
        → find_subscription_by_sub_id sub c.subscriptions_by_channel ≡ none
        → (i k : ℕ)
        → subscription_of i k s
          ≡ (if (h == i) && has_id sub (subscription_of i k s) then none else subscription_of i k s)
    unknown-Allowed sub unknown i k = ground (
      arith,
      ==_iff h i,
      subscribed_at h c k connected,
      find_subscription-none sub c.subscriptions_by_channel k unknown,
    )

  pub subscribe-Allowed :
      (h sub chan : ℕ)
      → Allowed (subscribe h sub chan) (view s) (view (subscribe_channel J h sub chan s).1)
  subscribe-Allowed h sub chan = elim (Option-cases (find h s.clients)) [
    | inl e ↦
        rw (subscribe_no_client J h s sub chan e)
          (refused-Allowed h sub chan s refl (inl (ground (arith, e))))
    | inr (c, e) ↦
        elim (Option-cases (find_subscription_by_sub_id sub c.subscriptions_by_channel)) [
          | inr (p, used) ↦ rw (subscribe_used J h s sub chan c p e used) (
              refused-Allowed h sub chan _ (view-status h error _)
                (inr (inr (taken h c e sub p used))))
          | inl fresh ↦ elim (Option-cases (find chan s.channels)) [
            | inl gone ↦ rw (subscribe_unavailable J h s sub chan c e fresh gone) (
                refused-Allowed h sub chan _ (view-status h warning _)
                  (inr (inl (ground (arith, gone)))))
            | inr (ch, there) ↦ accepted-Allowed h c e sub chan ch fresh there
          ]
        ]
  ]

  no_client_unsubscribed :
      (h sub : ℕ)
      → find h s.clients ≡ none
      → (i k : ℕ)
      → subscription_of i k s
        ≡ (if (h == i) && has_id sub (subscription_of i k s) then none else subscription_of i k s)
  unfolding subscription_of
  no_client_unsubscribed h sub e i k = ground (arith, ==_iff h i, e)

  pub unsubscribe-Allowed :
      (h sub : ℕ) → Allowed (unsubscribe h sub) (view s) (view (unsubscribe_id J h sub s).1)
  unsubscribe-Allowed h sub = elim (Option-cases (find h s.clients)) [
    | inl e ↦
        rw (unsubscribe_no_client J h s sub e)
          (λ i. refl, λ i. refl, no_client_unsubscribed h sub e)
    | inr (c, e) ↦
        elim (Option-cases (find_subscription_by_sub_id sub c.subscriptions_by_channel)) [
          | inl unknown ↦ rw (unsubscribe_unknown J h s sub c e unknown) (
              subst (Allowed (unsubscribe h sub) (view s)) (sym (view-status h warning _))
                (λ i. refl, λ i. refl, unknown-Allowed h c e sub unknown))
          | inr ((chan, w), known) ↦ unsubscribed-Allowed h c e sub chan w known
        ]
  ]
