-- ===== src/Client/Subscribing.antt =====
-- The subscribe request of the client, as the server takes it.
use foxglove_bridge_release.Base.{
  ℕ, ◌^◌, ◌<◌, ◌≡◌, refl, ap, ◌∙◌, some, List, [], ◌∷◌, ◌++◌, map, String, arith,
}
use mathlib.Core.List.{append_assoc, append-nil}
use foxglove_bridge_release.Base.Eq.{id_eq, string_eq}
use foxglove_bridge_release.Base.Map.{find}
use foxglove_bridge_release.Base.Exec.{ok, for_each, ◌>>◌}
use foxglove_bridge_release.Json.{JsonLib, JsonLaws}
use foxglove_bridge_release.Wire.Fnv.{integer}
use foxglove_bridge_release.Server.{Server, ClientInfo}
use foxglove_bridge_release.Server.Text.{
  subscribe_channel, subscribe_item, handle_subscribe, handle_text_message, dispatch,
}
use foxglove_bridge_release.Client.{subscription_json, push_subscriptions, subscribe_payload}

abbrev pub AllU32 : List (ℕ × ℕ) → Type 0
AllU32 [] = Unit
AllU32 (p ∷ ps) = ((p.0 < 2 ^ 32) × (p.1 < 2 ^ 32)) × AllU32 ps

module _ {Json : Type 0} (J : JsonLib Json) (laws : JsonLaws J) where
  push_subscriptions-array :
      (js : List Json) (ps : List (ℕ × ℕ))
      → push_subscriptions J (J.array js) ps ≡ J.array (js ++ map (subscription_json J) ps)
  unfolding push_subscriptions
  push_subscriptions-array js [] = rw append-nil
  push_subscriptions-array js (p ∷ ps) =
      rw laws.push_back-array
        (rw (push_subscriptions-array (js ++ subscription_json J p ∷ []) ps) (rw append_assoc))

  items-push_subscriptions :
      (ps : List (ℕ × ℕ)) → J.items (push_subscriptions J J.null ps) ≡ map (subscription_json J) ps
  unfolding push_subscriptions
  items-push_subscriptions [] = laws.items-null
  items-push_subscriptions (p ∷ ps) =
      rw laws.push_back-null
        (rw (push_subscriptions-array (subscription_json J p ∷ []) ps) (laws.items-array _))

  id-field : (p : ℕ × ℕ) → J.at (subscription_json J p) "id" ≡ ok (J.number p.0)
  unfolding subscription_json
  id-field p = laws.at-object "id" (J.number p.0) _ (unfold find in refl)

  channel-field : (p : ℕ × ℕ) → J.at (subscription_json J p) "channelId" ≡ ok (J.number p.1)
  unfolding subscription_json
  channel-field p = laws.at-object "channelId" (J.number p.1) _ (unfold find in refl)

  op-field : (ps : List (ℕ × ℕ)) → J.at (subscribe_payload J ps) "op" ≡ ok (J.string "subscribe")
  unfolding subscribe_payload
  op-field ps = laws.at-object "op" (J.string "subscribe") _ (unfold find in refl)

  list-field :
      (ps : List (ℕ × ℕ))
      → J.at (subscribe_payload J ps) "subscriptions" ≡ ok (push_subscriptions J J.null ps)
  unfolding subscribe_payload
  list-field ps =
      laws.at-object "subscriptions" (push_subscriptions J J.null ps) _ (unfold find in refl)

module _ {Json B : Type 0} (J : JsonLib Json) (laws : JsonLaws J) (hdl : ℕ) where
  item-read :
      (p : ℕ × ℕ) (s : Server B)
      → p.0 < 2 ^ 32
      → p.1 < 2 ^ 32
      → subscribe_item J hdl (subscription_json J p) s ≡ subscribe_channel J hdl p.0 p.1 s
  unfolding subscribe_item
  item-read p s h k =
      let i = id-field J laws p in
      let c = channel-field J laws p in
      let n = laws.get_u32-number p.0 h in
      let m = laws.get_u32-number p.1 k in ground (arith, i, c, n, m)

  loop-read :
      (ps : List (ℕ × ℕ)) (s : Server B)
      → AllU32 ps
      → for_each (map (subscription_json J) ps) (subscribe_item J hdl) s
        ≡ for_each ps (λ p. subscribe_channel J hdl p.0 p.1) s
  unfolding for_each
  loop-read [] s all = refl
  loop-read (p ∷ ps) s all =
      let rest : for_each (map (subscription_json J) ps) (subscribe_item J hdl)
          ≡ for_each ps (λ q. subscribe_channel J hdl q.0 q.1) =
        λ i u. loop-read ps u all.1 i in
      let item : subscribe_item J hdl (subscription_json J p) ≡ subscribe_channel J hdl p.0 p.1 =
        λ i u. item-read p u all.0.0 all.0.1 i in
      ap (λ k. (subscribe_item J hdl (subscription_json J p) >> k) s) rest
      ∙ ap (λ m. (m >> for_each ps (λ q. subscribe_channel J hdl q.0 q.1)) s) item

  -- A document that is parsed back from its text goes to the switch with its operation.
  pub text-read :
      (j : Json) (op message : String) (s : Server B) (c : ClientInfo)
      → J.dump j ≡ ok message
      → J.parse message ≡ ok j
      → J.at j "op" ≡ ok (J.string op)
      → find hdl s.clients ≡ some c
      → handle_text_message J hdl message s ≡ dispatch J hdl op j s
  unfolding handle_text_message
  text-read j op message s c printed parsed o connected =
      let g = laws.get_string-string op in ground (arith, parsed, o, g, connected)

  switch-subscribe :
      (j : Json) (s : Server B) → dispatch J hdl "subscribe" j s ≡ handle_subscribe J hdl j s
  unfolding dispatch integer
  switch-subscribe j s = refl

  list-read :
      (ps : List (ℕ × ℕ)) (s : Server B)
      → handle_subscribe J hdl (subscribe_payload J ps) s
        ≡ for_each (J.items (push_subscriptions J J.null ps)) (subscribe_item J hdl) s
  unfolding handle_subscribe
  list-read ps s = let l = list-field J laws ps in ground (arith, l)

  -- By the documented laws of the JSON library, the text of a subscribe request that a connected
  -- client makes, when it is parsed back to the document it was printed from and all ids are below
  -- 2 ^ 32, makes the server subscribe the client to the channels of the request, each under its
  -- id, in the order of the request.
  pub handle_text_message-subscribe_payload :
      (ps : List (ℕ × ℕ)) (message : String) (s : Server B) (c : ClientInfo)
      → J.dump (subscribe_payload J ps) ≡ ok message
      → J.parse message ≡ ok (subscribe_payload J ps)
      → find hdl s.clients ≡ some c
      → AllU32 ps
      → handle_text_message J hdl message s ≡ for_each ps (λ p. subscribe_channel J hdl p.0 p.1) s
  handle_text_message-subscribe_payload ps message s c printed parsed connected all =
      text-read (subscribe_payload J ps) "subscribe" message s c printed parsed (op-field J laws ps)
        connected
      ∙ switch-subscribe (subscribe_payload J ps) s
      ∙ list-read ps s
      ∙ ap (λ js. for_each js (subscribe_item J hdl) s) (items-push_subscriptions J laws ps)
      ∙ loop-read ps s all
