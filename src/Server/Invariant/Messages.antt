-- ===== src/Server/Invariant/Messages.antt =====
-- Every message of a client, whatever its content and whatever the handlers do, keeps the tables
-- valid.
use foxglove_bridge_release.Base.{
  ℕ, ◌≡◌, refl, inl, inr, String, Option, none, some, Bool, List, [], arith, Option-cases,
}
use foxglove_bridge_release.Base.Eq.{id_eq}
use foxglove_bridge_release.Base.Map.{find, emplace, update}
use foxglove_bridge_release.Base.Map.Distinct.{Every, emplace-Every, erase-Every}
use foxglove_bridge_release.Base.Exec.{Exception, modify}
use foxglove_bridge_release.Base.Exec.Keeps.{Keeps, keeps_rules}
use foxglove_bridge_release.Json.{JsonLib}
use foxglove_bridge_release.Wire.{ClientAdvertisement}
use foxglove_bridge_release.Server.{Server, StatusLevel, Callback, call}
use foxglove_bridge_release.Server.Send.{send_status}
use foxglove_bridge_release.Server.Text.{
  subscribe_channel, subscribe_item, unsubscribe_id, unsubscribe_item, publish_channel,
  advertise_item, unadvertise_id, unadvertise_item, handle_subscribe, handle_unsubscribe,
  handle_advertise, handle_unadvertise, dispatch, handle_text_message, client_at,
  find_subscription_by_sub_id, publications,
}
use foxglove_bridge_release.Server.Text.Cases.{
  subscribe_no_client, subscribe_used, subscribe_unavailable, subscribe_accepted,
  unsubscribe_no_client, unsubscribe_unknown, unsubscribe_accepted, publish_lem,
  unadvertise_unknown, unadvertise_accepted,
}
use foxglove_bridge_release.Server.Binary.{
  OpCode, text_op, binary_op, other_op, handle_message_data, handle_binary_message, handle_message,
  report_exception,
}
use foxglove_bridge_release.Server.Invariant.{
  IsValid, IsPublicationOf, subscribed-IsValidClient, unsubscribed-IsValidClient,
  set_client-IsValid, set_publications-IsValid,
}

abbrev pub StaysValid : {B : Type 0} → Server B → Server B → Type 0
StaysValid s₀ s = IsValid s

module _ {B : Type 0} where
  pub call-StaysValid :
      {A : Type 0} (f : Option (Callback B A)) (a : A) (h : ℕ)
      → Keeps (StaysValid {B = B}) (call f a h)
  unfolding call
  call-StaysValid none a h = record { at = λ s₀ s v. v }
  call-StaysValid (some f) a h = record { at = λ s₀ s v. v }

  client_at-StaysValid : (h : ℕ) → Keeps (StaysValid {B = B}) (client_at h)
  client_at-StaysValid h = record {
    at = λ s₀ s v. elim (Option-cases (find h s.clients)) [ inl e ↦ rw e v | inr (c, e) ↦ rw e v ];
  }

module _ {Json B : Type 0} (J : JsonLib Json) (hdl : ℕ) where
  send_status-StaysValid :
      (level : StatusLevel) (message : String)
      → Keeps (StaysValid {B = B}) (send_status J hdl level message)
  unfolding send_status
  send_status-StaysValid level message = record { at = λ s₀ s v. v }

  pub subscribe_channel-StaysValid :
      (sub chan : ℕ) → Keeps (StaysValid {B = B}) (subscribe_channel J hdl sub chan)
  subscribe_channel-StaysValid sub chan = record {
    at = λ s₀ s v. elim (Option-cases (find hdl s.clients)) [
      | inl e ↦ rw (subscribe_no_client J hdl s sub chan e) v
      | inr (c, e) ↦
          elim (Option-cases (find_subscription_by_sub_id sub c.subscriptions_by_channel)) [
            | inr (p, used) ↦
                rw (subscribe_used J hdl s sub chan c p e used)
                  ((send_status-StaysValid _ _).at s₀ s v)
            | inl fresh ↦ elim (Option-cases (find chan s.channels)) [
              | inl gone ↦
                  rw (subscribe_unavailable J hdl s sub chan c e fresh gone)
                    ((send_status-StaysValid _ _).at s₀ s v)
              | inr (ch, there) ↦ rw (subscribe_accepted J hdl s sub chan c ch e fresh there) (
                  (call-StaysValid _ chan hdl).at s₀ _ (
                    set_client-IsValid hdl _ s
                      (λ c' e' vc.
                        subscribed-IsValidClient s.channels hdl c' vc chan sub (ground arith)
                          (rw there))
                      v))
            ]
          ]
    ];
  }

  pub unsubscribe_id-StaysValid : (sub : ℕ) → Keeps (StaysValid {B = B}) (unsubscribe_id J hdl sub)
  unsubscribe_id-StaysValid sub = record {
    at = λ s₀ s v. elim (Option-cases (find hdl s.clients)) [
      | inl e ↦ rw (unsubscribe_no_client J hdl s sub e) v
      | inr (c, e) ↦
          elim (Option-cases (find_subscription_by_sub_id sub c.subscriptions_by_channel)) [
            | inl unknown ↦
                rw (unsubscribe_unknown J hdl s sub c e unknown)
                  ((send_status-StaysValid _ _).at s₀ s v)
            | inr ((chan, w), known) ↦ rw (unsubscribe_accepted J hdl s sub c chan w e known) (
                (call-StaysValid _ chan hdl).at s₀ _ (
                  set_client-IsValid hdl _ s
                    (λ c' e' vc. unsubscribed-IsValidClient s.channels hdl c' vc chan) v))
          ]
    ];
  }

  publish_channel-StaysValid :
      (a : ClientAdvertisement) → Keeps (StaysValid {B = B}) (publish_channel J hdl a)
  publish_channel-StaysValid a = record {
    at = λ s₀ s v. rw (publish_lem J hdl s a) (
        (call-StaysValid _ a hdl).at s₀ _ (
          set_client-IsValid hdl _
            (record s { client_channels = update hdl (emplace a.channel_id a) s.client_channels })
            (λ c e vc. record {
              own = vc.own;
              distinct = vc.distinct;
              unique = vc.unique;
              known = vc.known;
            })
            (set_publications-IsValid hdl _ s
              (λ m. emplace-Every IsPublicationOf a.channel_id a m refl) v)));
  }

  unadvertise_id-StaysValid : (chan : ℕ) → Keeps (StaysValid {B = B}) (unadvertise_id J hdl chan)
  unadvertise_id-StaysValid chan = record {
    at = λ s₀ s v. elim (Option-cases (find chan (publications hdl s))) [
      | inl e ↦ rw (unadvertise_unknown J hdl s chan e) v
      | inr (a, e) ↦ rw (unadvertise_accepted J hdl s chan a e) (
          (call-StaysValid _ chan hdl).at s₀ _
            (set_publications-IsValid hdl _ s (λ m. erase-Every IsPublicationOf chan m) v))
    ];
  }

  ruleset items_valid = (
    keeps_rules, call-StaysValid, client_at-StaysValid, send_status-StaysValid,
    subscribe_channel-StaysValid, unsubscribe_id-StaysValid, publish_channel-StaysValid,
    unadvertise_id-StaysValid,
  )

  subscribe_item-StaysValid : (sub : Json) → Keeps (StaysValid {B = B}) (subscribe_item J hdl sub)
  unfolding subscribe_item
  subscribe_item-StaysValid sub = search items_valid

  unsubscribe_item-StaysValid : (id : Json) → Keeps (StaysValid {B = B}) (unsubscribe_item J hdl id)
  unfolding unsubscribe_item
  unsubscribe_item-StaysValid id = search items_valid

  advertise_item-StaysValid :
      (first : Bool) (chan : Json) → Keeps (StaysValid {B = B}) (advertise_item J hdl first chan)
  unfolding advertise_item
  advertise_item-StaysValid first chan = search items_valid depth 20

  unadvertise_item-StaysValid : (id : Json) → Keeps (StaysValid {B = B}) (unadvertise_item J hdl id)
  unfolding unadvertise_item
  unadvertise_item-StaysValid id = search items_valid

  enter-StaysValid :
      Keeps
        (StaysValid {B = B})
        (modify (λ s. record s { client_channels = emplace hdl [] s.client_channels }))
  enter-StaysValid = record {
    at = λ s₀ s v. record {
      clients_valid = v.clients_valid;
      channel_ids = v.channel_ids;
      publication_ids =
          emplace-Every (λ h. Every IsPublicationOf) hdl [] s.client_channels
            (λ k a e. no_entry k a e) v.publication_ids;
    };
  }
    where
      no_entry : (k : ℕ) (a : ClientAdvertisement) → find k [] ≡ some a → IsPublicationOf k a
      no_entry k a e = unfold find in cc

  ruleset cases_valid = (
    items_valid, enter-StaysValid, subscribe_item-StaysValid, unsubscribe_item-StaysValid,
    advertise_item-StaysValid, unadvertise_item-StaysValid,
  )

  handle_subscribe-StaysValid : (j : Json) → Keeps (StaysValid {B = B}) (handle_subscribe J hdl j)
  unfolding handle_subscribe
  handle_subscribe-StaysValid j = search cases_valid

  handle_unsubscribe-StaysValid :
      (j : Json) → Keeps (StaysValid {B = B}) (handle_unsubscribe J hdl j)
  unfolding handle_unsubscribe
  handle_unsubscribe-StaysValid j = search cases_valid

  handle_advertise-StaysValid : (j : Json) → Keeps (StaysValid {B = B}) (handle_advertise J hdl j)
  unfolding handle_advertise
  handle_advertise-StaysValid j = search cases_valid depth 8

  handle_unadvertise-StaysValid :
      (j : Json) → Keeps (StaysValid {B = B}) (handle_unadvertise J hdl j)
  unfolding handle_unadvertise
  handle_unadvertise-StaysValid j = search cases_valid depth 8

  ruleset switch_valid = (
    items_valid, handle_subscribe-StaysValid, handle_unsubscribe-StaysValid,
    handle_advertise-StaysValid, handle_unadvertise-StaysValid,
  )

  dispatch-StaysValid : (op : String) (j : Json) → Keeps (StaysValid {B = B}) (dispatch J hdl op j)
  unfolding dispatch
  dispatch-StaysValid op j = search switch_valid depth 8

  handle_text_message-StaysValid :
      (msg : String) → Keeps (StaysValid {B = B}) (handle_text_message J hdl msg)
  unfolding handle_text_message
  handle_text_message-StaysValid msg = search (items_valid, dispatch-StaysValid) depth 8

  handle_message_data-StaysValid :
      (now : ℕ) (msg : List ℕ) → Keeps (StaysValid {B = B}) (handle_message_data J now hdl msg)
  unfolding handle_message_data
  handle_message_data-StaysValid now msg = search items_valid depth 8

  handle_binary_message-StaysValid :
      (now : ℕ) (msg : List ℕ) → Keeps (StaysValid {B = B}) (handle_binary_message J now hdl msg)
  unfolding handle_binary_message
  handle_binary_message-StaysValid now msg =
      search (items_valid, handle_message_data-StaysValid) depth 8

  report_exception-StaysValid :
      (now : ℕ) (ex : Exception) → Keeps (StaysValid {B = B}) (report_exception J now hdl ex)
  unfolding report_exception
  report_exception-StaysValid now ex = record { at = λ s₀ s v. v }

  pub handle_message-StaysValid :
      (now : ℕ) (op : OpCode) (payload : String) (msg : List ℕ)
      → Keeps (StaysValid {B = B}) (handle_message J now hdl op payload msg)
  unfolding handle_message
  handle_message-StaysValid now text_op payload msg =
      search (items_valid, report_exception-StaysValid, handle_text_message-StaysValid)
  handle_message-StaysValid now binary_op payload msg =
      search (items_valid, report_exception-StaysValid, handle_binary_message-StaysValid)
  handle_message-StaysValid now (other_op n) payload msg = search items_valid
