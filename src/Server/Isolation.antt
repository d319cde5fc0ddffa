-- ===== src/Server/Isolation.antt =====
-- handleMessage touches nothing but what belongs to the connection that the message came on.
use mathlib.Core.List.{append-nil}
use foxglove_bridge_release.Base.{
  String, ℕ, ◌≡◌, ◌≢◌, refl, String, Option, none, some, Bool, List, [], ◌∷◌, ◌++◌, arith, inl, inr,
  Option-cases,
}
use foxglove_bridge_release.Base.Eq.{==_iff, id_eq}
use foxglove_bridge_release.Base.Map.{Map, find, emplace, find-emplace, find-update}
use foxglove_bridge_release.Base.Exec.{Exception, Result, throws, ok, modify, catching-ok}
use foxglove_bridge_release.Base.Exec.Keeps.{Keeps, keeps_rules}
use foxglove_bridge_release.Json.{JsonLib}
use foxglove_bridge_release.Wire.{ClientAdvertisement}
use foxglove_bridge_release.Server.{Server, Frame, text, StatusLevel, Callback, call, ClientInfo}
use foxglove_bridge_release.Server.Send.{send, post, dumped, send_status}
use foxglove_bridge_release.Server.Text.{
  subscribe_channel, subscribe_item, unsubscribe_id, unsubscribe_item, publish_channel,
  advertise_item, unadvertise_id, unadvertise_item, handle_subscribe, handle_unsubscribe,
  handle_advertise, handle_unadvertise, dispatch, handle_text_message, client_at, set_client,
  set_publications,
}
use foxglove_bridge_release.Server.Binary.{
  OpCode, text_op, binary_op, other_op, handle_message_data, handle_binary_message, handle_message,
  by_opcode, report_exception,
}

-- `ys` is `xs` and then frames for one connection.
pub data SentOnlyTo (hdl : ℕ) (xs : List (ℕ × Frame)) : List (ℕ × Frame) → Type 0 where
  nothing : SentOnlyTo hdl xs xs
  more :
      {ys : List (ℕ × Frame)} (f : Frame)
      → SentOnlyTo hdl xs ys
      → SentOnlyTo hdl xs (ys ++ (hdl, f) ∷ [])

-- What one connection may change.
pub record Touches {B : Type 0} (hdl : ℕ) (s t : Server B) : Type 0 where
  pub channels : t.channels ≡ s.channels
  pub next_channel_id : t.next_channel_id ≡ s.next_channel_id
  pub handlers : t.handlers ≡ s.handlers
  pub other_clients : (h : ℕ) → hdl ≢ h → find h t.clients ≡ find h s.clients
  pub other_publications : (h : ℕ) → hdl ≢ h → find h t.client_channels ≡ find h s.client_channels
  pub sent : SentOnlyTo hdl s.sent t.sent

module _ {B : Type 0} (hdl : ℕ) where
  send-Touches : (f : Frame) → Keeps (Touches {B = B} hdl) (send hdl f)
  send-Touches f = record {
    at = λ s₀ s v. record {
      channels = v.channels;
      next_channel_id = v.next_channel_id;
      handlers = v.handlers;
      other_clients = v.other_clients;
      other_publications = v.other_publications;
      sent = more f v.sent;
    };
  }

  call-Touches :
      {A : Type 0} (f : Option (Callback B A)) (a : A) (h : ℕ)
      → Keeps (Touches {B = B} hdl) (call f a h)
  unfolding call
  call-Touches none a h = record { at = λ s₀ s v. v }
  call-Touches (some f) a h = record {
    at = λ s₀ s v. record {
      channels = v.channels;
      next_channel_id = v.next_channel_id;
      handlers = v.handlers;
      other_clients = v.other_clients;
      other_publications = v.other_publications;
      sent = v.sent;
    };
  }

  set_client-Touches :
      (f : ClientInfo → ClientInfo) → Keeps (Touches {B = B} hdl) (set_client hdl f)
  set_client-Touches f = record {
    at = λ s₀ s v. record {
      channels = v.channels;
      next_channel_id = v.next_channel_id;
      handlers = v.handlers;
      other_clients =
          λ h ne. ground (arith, find-update hdl h f s.clients, ==_iff hdl h, v.other_clients h ne);
      other_publications = v.other_publications;
      sent = v.sent;
    };
  }

  set_publications-Touches :
      (f : Map ℕ ClientAdvertisement → Map ℕ ClientAdvertisement)
      → Keeps (Touches {B = B} hdl) (set_publications hdl f)
  set_publications-Touches f = record {
    at = λ s₀ s v. record {
      channels = v.channels;
      next_channel_id = v.next_channel_id;
      handlers = v.handlers;
      other_clients = v.other_clients;
      other_publications = λ h ne.
          ground
            (arith, find-update hdl h f s.client_channels, ==_iff hdl h, v.other_publications h ne);
      sent = v.sent;
    };
  }

  enter-Touches :
      Keeps
        (Touches {B = B} hdl)
        (modify (λ s. record s { client_channels = emplace hdl [] s.client_channels }))
  enter-Touches = record {
    at = λ s₀ s v. record {
      channels = v.channels;
      next_channel_id = v.next_channel_id;
      handlers = v.handlers;
      other_clients = v.other_clients;
      other_publications = λ h ne.
          ground (
            arith,
            find-emplace hdl h [] s.client_channels,
            ==_iff hdl h,
            v.other_publications h ne,
          );
      sent = v.sent;
    };
  }

  client_at-Touches : Keeps (Touches {B = B} hdl) (client_at hdl)
  client_at-Touches = record {
    at =
        λ s₀ s v. elim (Option-cases (find hdl s.clients)) [ inl e ↦ rw e v | inr (c, e) ↦ rw e v ];
  }

  dumped-Touches : (r : Result String) → Keeps (Touches {B = B} hdl) (post (dumped hdl r))
  dumped-Touches (ok message) = send-Touches (text message)
  dumped-Touches (throws x) = record {
    at = λ s₀ s v. record {
      channels = v.channels;
      next_channel_id = v.next_channel_id;
      handlers = v.handlers;
      other_clients = v.other_clients;
      other_publications = v.other_publications;
      sent = rw (append-nil s.sent) v.sent;
    };
  }

module _ {Json B : Type 0} (J : JsonLib Json) (hdl : ℕ) where
  ruleset actions = (
    keeps_rules, send-Touches, call-Touches, set_client-Touches, set_publications-Touches,
    enter-Touches, client_at-Touches,
  )

  send_status-Touches :
      (level : StatusLevel) (m : String) → Keeps (Touches {B = B} hdl) (send_status J hdl level m)
  unfolding send_status
  send_status-Touches level m = dumped-Touches hdl _

  subscribe_channel-Touches :
      (sub chan : ℕ) → Keeps (Touches {B = B} hdl) (subscribe_channel J hdl sub chan)
  unfolding subscribe_channel
  subscribe_channel-Touches sub chan = search (actions, send_status-Touches) depth 10

  subscribe_item-Touches : (j : Json) → Keeps (Touches {B = B} hdl) (subscribe_item J hdl j)
  unfolding subscribe_item
  subscribe_item-Touches j = search (keeps_rules, subscribe_channel-Touches) depth 10

  unsubscribe_id-Touches : (sub : ℕ) → Keeps (Touches {B = B} hdl) (unsubscribe_id J hdl sub)
  unfolding unsubscribe_id
  unsubscribe_id-Touches sub = search (actions, send_status-Touches) depth 10

  unsubscribe_item-Touches : (j : Json) → Keeps (Touches {B = B} hdl) (unsubscribe_item J hdl j)
  unfolding unsubscribe_item
  unsubscribe_item-Touches j = search (keeps_rules, unsubscribe_id-Touches)

  publish_channel-Touches :
      (a : ClientAdvertisement) → Keeps (Touches {B = B} hdl) (publish_channel J hdl a)
  unfolding publish_channel
  publish_channel-Touches a = search actions depth 10

  advertise_item-Touches :
      (first : Bool) (j : Json) → Keeps (Touches {B = B} hdl) (advertise_item J hdl first j)
  unfolding advertise_item
  advertise_item-Touches first j =
      search (actions, send_status-Touches, publish_channel-Touches) depth 20

  unadvertise_id-Touches : (chan : ℕ) → Keeps (Touches {B = B} hdl) (unadvertise_id J hdl chan)
  unfolding unadvertise_id
  unadvertise_id-Touches chan = search actions depth 10

  unadvertise_item-Touches : (j : Json) → Keeps (Touches {B = B} hdl) (unadvertise_item J hdl j)
  unfolding unadvertise_item
  unadvertise_item-Touches j = search (keeps_rules, unadvertise_id-Touches)

  ruleset cases = (
    actions, send_status-Touches, subscribe_item-Touches, unsubscribe_item-Touches,
    advertise_item-Touches, unadvertise_item-Touches,
  )

  handle_subscribe-Touches : (j : Json) → Keeps (Touches {B = B} hdl) (handle_subscribe J hdl j)
  unfolding handle_subscribe
  handle_subscribe-Touches j = search cases

  handle_unsubscribe-Touches : (j : Json) → Keeps (Touches {B = B} hdl) (handle_unsubscribe J hdl j)
  unfolding handle_unsubscribe
  handle_unsubscribe-Touches j = search cases

  handle_advertise-Touches : (j : Json) → Keeps (Touches {B = B} hdl) (handle_advertise J hdl j)
  unfolding handle_advertise
  handle_advertise-Touches j = search cases depth 8

  handle_unadvertise-Touches : (j : Json) → Keeps (Touches {B = B} hdl) (handle_unadvertise J hdl j)
  unfolding handle_unadvertise
  handle_unadvertise-Touches j = search cases depth 8

  ruleset switch = (
    actions, send_status-Touches, handle_subscribe-Touches, handle_unsubscribe-Touches,
    handle_advertise-Touches, handle_unadvertise-Touches,
  )

  dispatch-Touches : (op : String) (j : Json) → Keeps (Touches {B = B} hdl) (dispatch J hdl op j)
  unfolding dispatch
  dispatch-Touches op j = search switch depth 8

  text-Touches : (msg : String) → Keeps (Touches {B = B} hdl) (handle_text_message J hdl msg)
  unfolding handle_text_message
  text-Touches msg = search (actions, dispatch-Touches) depth 8

  binary-Touches :
      (now : ℕ) (msg : List ℕ) → Keeps (Touches {B = B} hdl) (handle_binary_message J now hdl msg)
  unfolding handle_binary_message handle_message_data
  binary-Touches now msg = search (actions, send_status-Touches) depth 12

  report_exception-Touches :
      (now : ℕ) (ex : Exception) → Keeps (Touches {B = B} hdl) (report_exception J now hdl ex)
  unfolding report_exception
  report_exception-Touches now ex = dumped-Touches hdl _

  message-Touches :
      (now : ℕ) (op : OpCode) (payload : String) (msg : List ℕ)
      → Keeps (Touches {B = B} hdl) (handle_message J now hdl op payload msg)
  unfolding handle_message
  message-Touches now text_op payload msg = search (actions, report_exception-Touches, text-Touches)
  message-Touches now binary_op payload msg =
      search (actions, report_exception-Touches, binary-Touches)
  message-Touches now (other_op n) payload msg = search actions

  returns :
      (now : ℕ) (op : OpCode) (payload : String) (msg : List ℕ) (s : Server B)
      → (handle_message J now hdl op payload msg s).0 ≡ ok tt
  unfolding handle_message report_exception
  returns now op payload msg s =
      catching-ok (report_exception J now hdl) (λ x t. refl) (by_opcode J now hdl op payload msg) s

  -- Whatever a client sends, the channels, the handlers and the entries of every other client stay
  -- as they were, and nothing is sent to another client. No exception leaves the handler.
  pub handle_message_isolated :
      (now : ℕ) (op : OpCode) (payload : String) (msg : List ℕ) (s : Server B)
      → Touches hdl s (handle_message J now hdl op payload msg s).1
        × ((handle_message J now hdl op payload msg s).0 ≡ ok tt)
  handle_message_isolated now op payload msg s = (
    (message-Touches now op payload msg).at s s (record {
      channels = refl;
      next_channel_id = refl;
      handlers = refl;
      other_clients = λ h ne. refl;
      other_publications = λ h ne. refl;
      sent = nothing;
    }),
    returns now op payload msg s,
  )
