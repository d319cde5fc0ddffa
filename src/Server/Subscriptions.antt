-- ===== src/Server/Subscriptions.antt =====
-- A client's subscriptions, from the request to the messages.

use foxglove_bridge_release.Base.{ℕ, ◌≡◌, refl, Option, none, some, [], ◌∷◌, arith, if◌then◌else◌}
use foxglove_bridge_release.Base.Eq.{◌==◌, ==_iff, id_eq}
use foxglove_bridge_release.Base.Map.{
  find, emplace, erase, update, get_or, emplace_present, find-emplace, find-erase, find-update,
}
use foxglove_bridge_release.Json.{JsonLib}
use foxglove_bridge_release.Server.{Server, Channel, ClientInfo, warning, call, Callback}
use foxglove_bridge_release.Server.Send.{send_status}
use foxglove_bridge_release.Base.Text.{concat, to_string}
use foxglove_bridge_release.Server.Text.{
  subscribe_channel, unsubscribe_id, find_subscription_by_sub_id,
}
use foxglove_bridge_release.Server.Text.Cases.{
  subscribe_accepted, unsubscribe_accepted, unsubscribe_unknown,
}
use foxglove_bridge_release.Server.Channels.{subscription_of}

-- A handler runs on the bridge's state alone.
subscription_of-call :
    {B A : Type 0} (f : Option (Callback B A)) (a : A) (hdl h chan : ℕ) (s : Server B)
    → subscription_of h chan (call f a hdl s).1 ≡ subscription_of h chan s
unfolding call subscription_of
subscription_of-call none a hdl h chan s = refl
subscription_of-call (some f) a hdl h chan s = refl

module _ {B A : Type 0} (f : Option (Callback B A)) (a : A) (hdl : ℕ) (s : Server B) where
  clients-call : (call f a hdl s).1.clients ≡ s.clients
  unfolding call
  clients-call = elim f as (λ g. (call g a hdl s).1.clients ≡ s.clients) [
    | none ↦ refl
    | some g ↦ refl
  ]

  sent-call : (call f a hdl s).1.sent ≡ s.sent
  unfolding call
  sent-call = elim f as (λ g. (call g a hdl s).1.sent ≡ s.sent) [ none ↦ refl | some g ↦ refl ]

module _ {Json B : Type 0} (J : JsonLib Json) (hdl : ℕ) (s : Server B) (c : ClientInfo)
    (connected : find hdl s.clients ≡ some c) where
  -- When a connected client asks for an available channel under an id that it does not use, it has
  -- the channel under that id, or under the id that it already had it, and its other channels are
  -- as they were.
  pub subscription_of-subscribe :
      (sub chan other : ℕ) (ch : Channel)
      → find_subscription_by_sub_id sub c.subscriptions_by_channel ≡ none
      → find chan s.channels ≡ some ch
      → subscription_of hdl other (subscribe_channel J hdl sub chan s).1 ≡ (
          if chan == other
          then some (get_or sub (subscription_of hdl chan s))
          else subscription_of hdl other s)
  subscription_of-subscribe sub chan other ch fresh there =
      rw (subscribe_accepted J hdl s sub chan c ch connected fresh there) (
        rw subscription_of-call (
          unfold subscription_of in
          ground (
            arith,
            connected,
            find-update hdl hdl
                (λ d. record d {
                  subscriptions_by_channel = emplace chan sub d.subscriptions_by_channel;
                })
                s.clients,
            ==_iff hdl hdl,
            find-emplace chan other sub c.subscriptions_by_channel,
          )))

  -- When a connected client unsubscribes by an id that it uses, it has the channel of that id no
  -- more, and its other channels as they were.
  pub subscription_of-unsubscribe :
      (sub chan w other : ℕ)
      → find_subscription_by_sub_id sub c.subscriptions_by_channel ≡ some (chan, w)
      → subscription_of hdl other (unsubscribe_id J hdl sub s).1
        ≡ (if chan == other then none else subscription_of hdl other s)
  subscription_of-unsubscribe sub chan w other known =
      rw (unsubscribe_accepted J hdl s sub c chan w connected known) (
        rw subscription_of-call (
          unfold subscription_of in
          ground (
            arith,
            connected,
            find-update hdl hdl
                (λ d. record d { subscriptions_by_channel = erase chan d.subscriptions_by_channel })
                s.clients,
            ==_iff hdl hdl,
            find-erase chan other c.subscriptions_by_channel,
          )))

  -- the body's tables with the entry rewritten to itself
  update_same :
      (chan sub old : ℕ)
      → find chan c.subscriptions_by_channel ≡ some old
      → find hdl (
          update hdl
            (λ d. record d {
              subscriptions_by_channel = emplace chan sub d.subscriptions_by_channel;
            })
            s.clients)
        ≡ some c
  update_same chan sub old had = ground (
    arith,
    connected,
    find-update hdl hdl
        (λ d. record d { subscriptions_by_channel = emplace chan sub d.subscriptions_by_channel })
        s.clients,
    ==_iff hdl hdl,
    emplace_present chan sub old c.subscriptions_by_channel had,
  )

  -- When a connected client that is subscribed to an available channel asks for it again under a
  -- new id, it is sent no status and nothing is recorded: its entry is as before, and an
  -- unsubscription by the new id is answered as unknown.
  pub resubscribe_lost :
      (sub chan old : ℕ) (ch : Channel)
      → find_subscription_by_sub_id sub c.subscriptions_by_channel ≡ none
      → find chan s.channels ≡ some ch
      → find chan c.subscriptions_by_channel ≡ some old
      → let t = (subscribe_channel J hdl sub chan s).1 in
        (find hdl t.clients ≡ some c)
        × (t.sent ≡ s.sent)
        × (unsubscribe_id J hdl sub t
            ≡ send_status J hdl warning
                (concat (
                  "Client subscription id "
                  ∷ to_string sub
                  ∷ " did not exist; ignoring unsubscription"
                  ∷ []))
                t)
  resubscribe_lost sub chan old ch fresh there had =
      let same : find hdl (subscribe_channel J hdl sub chan s).1.clients ≡ some c =
        rw (subscribe_accepted J hdl s sub chan c ch connected fresh there)
          (rw clients-call (update_same chan sub old had)) in
      (
        same,
        rw (subscribe_accepted J hdl s sub chan c ch connected fresh there) (rw sent-call refl),
        unsubscribe_unknown J hdl (subscribe_channel J hdl sub chan s).1 sub c same fresh,
      )
