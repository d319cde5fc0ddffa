-- ===== src/Server/Text/Cases.antt =====
-- What each item of a text message does, branch by branch.
use foxglove_bridge_release.Base.{ℕ, ◌≡◌, refl, none, some, [], ◌∷◌, arith}
use foxglove_bridge_release.Base.Eq.{id_eq}
use foxglove_bridge_release.Base.Map.{find, emplace, erase, update, insert}
use foxglove_bridge_release.Base.Text.{concat, to_string}
use foxglove_bridge_release.Base.Exec.{failure, throws, ok}
use foxglove_bridge_release.Json.{JsonLib}
use foxglove_bridge_release.Wire.{ClientAdvertisement}
use foxglove_bridge_release.Server.{Server, ClientInfo, Channel, warning, error, call}
use foxglove_bridge_release.Server.Send.{send_status}
use foxglove_bridge_release.Server.Text.{
  subscribe_channel, unsubscribe_id, publish_channel, unadvertise_id, find_subscription_by_sub_id,
  publications,
}

module _ {Json B : Type 0} (J : JsonLib Json) (hdl : ℕ) (s : Server B) where
  -- A handle with no entry: _clients.at throws.
  pub subscribe_no_client :
      (sub chan : ℕ)
      → find hdl s.clients ≡ none
      → subscribe_channel J hdl sub chan s ≡ (throws (failure "map::at"), s)
  unfolding subscribe_channel
  subscribe_no_client sub chan e = ground arith

  pub subscribe_used :
      (sub chan : ℕ) (c : ClientInfo) (p : ℕ × ℕ)
      → find hdl s.clients ≡ some c
      → find_subscription_by_sub_id sub c.subscriptions_by_channel ≡ some p
      → subscribe_channel J hdl sub chan s
        ≡ send_status J hdl error
            (concat (
              "Client subscription id "
              ∷ to_string sub
              ∷ " was already used; ignoring subscription"
              ∷ []))
            s
  unfolding subscribe_channel
  subscribe_used sub chan c p e used = ground arith

  pub subscribe_unavailable :
      (sub chan : ℕ) (c : ClientInfo)
      → find hdl s.clients ≡ some c
      → find_subscription_by_sub_id sub c.subscriptions_by_channel ≡ none
      → find chan s.channels ≡ none
      → subscribe_channel J hdl sub chan s
        ≡ send_status J hdl warning
            (concat ("Channel " ∷ to_string chan ∷ " is not available; ignoring subscription" ∷ []))
            s
  unfolding subscribe_channel
  subscribe_unavailable sub chan c e fresh gone = ground arith

  pub subscribe_accepted :
      (sub chan : ℕ) (c : ClientInfo) (ch : Channel)
      → find hdl s.clients ≡ some c
      → find_subscription_by_sub_id sub c.subscriptions_by_channel ≡ none
      → find chan s.channels ≡ some ch
      → subscribe_channel J hdl sub chan s
        ≡ call s.handlers.subscribe_handler chan hdl (record s {
          clients =
              update hdl
                (λ d. record d {
                  subscriptions_by_channel = emplace chan sub d.subscriptions_by_channel;
                })
                s.clients;
        })
  unfolding subscribe_channel
  subscribe_accepted sub chan c ch e fresh there = ground arith

  pub unsubscribe_no_client :
      (sub : ℕ)
      → find hdl s.clients ≡ none
      → unsubscribe_id J hdl sub s ≡ (throws (failure "map::at"), s)
  unfolding unsubscribe_id
  unsubscribe_no_client sub e = ground arith

  pub unsubscribe_unknown :
      (sub : ℕ) (c : ClientInfo)
      → find hdl s.clients ≡ some c
      → find_subscription_by_sub_id sub c.subscriptions_by_channel ≡ none
      → unsubscribe_id J hdl sub s
        ≡ send_status J hdl warning
            (concat (
              "Client subscription id "
              ∷ to_string sub
              ∷ " did not exist; ignoring unsubscription"
              ∷ []))
            s
  unfolding unsubscribe_id
  unsubscribe_unknown sub c e unknown = ground arith

  pub unsubscribe_accepted :
      (sub : ℕ) (c : ClientInfo) (chan w : ℕ)
      → find hdl s.clients ≡ some c
      → find_subscription_by_sub_id sub c.subscriptions_by_channel ≡ some (chan, w)
      → unsubscribe_id J hdl sub s
        ≡ call s.handlers.unsubscribe_handler chan hdl (record s {
          clients =
              update hdl
                (λ d. record d { subscriptions_by_channel = erase chan d.subscriptions_by_channel })
                s.clients;
        })
  unfolding unsubscribe_id
  unsubscribe_accepted sub c chan w e known = ground arith

  pub publish_lem :
      (a : ClientAdvertisement)
      → publish_channel J hdl a s
        ≡ call s.handlers.client_advertise_handler a hdl (record s {
          client_channels = update hdl (emplace a.channel_id a) s.client_channels;
          clients =
              update hdl
                (λ d. record d { advertised_channels = insert a.channel_id d.advertised_channels })
                s.clients;
        })
  unfolding publish_channel
  publish_lem a = refl

  pub unadvertise_unknown :
      (chan : ℕ) → find chan (publications hdl s) ≡ none → unadvertise_id J hdl chan s ≡ (ok tt, s)
  unfolding unadvertise_id
  unadvertise_unknown chan e = ground arith

  pub unadvertise_accepted :
      (chan : ℕ) (a : ClientAdvertisement)
      → find chan (publications hdl s) ≡ some a
      → unadvertise_id J hdl chan s
        ≡ call s.handlers.client_unadvertise_handler chan hdl
            (record s { client_channels = update hdl (erase chan) s.client_channels })
  unfolding unadvertise_id
  unadvertise_accepted chan a e = ground arith
