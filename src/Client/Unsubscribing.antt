-- ===== src/Client/Unsubscribing.antt =====
-- The unsubscribe request of the client, as the server takes it.
use foxglove_bridge_release.Base.{
  String, ℕ, ◌^◌, ◌<◌, ◌≡◌, refl, ap, ◌∙◌, some, List, [], ◌∷◌, map, arith,
}
use foxglove_bridge_release.Base.Eq.{id_eq, string_eq}
use foxglove_bridge_release.Base.Map.{find}
use foxglove_bridge_release.Base.Exec.{ok, for_each, ◌>>◌}
use foxglove_bridge_release.Json.{JsonLib, JsonLaws}
use foxglove_bridge_release.Wire.Fnv.{integer}
use foxglove_bridge_release.Server.{Server, ClientInfo}
use foxglove_bridge_release.Server.Text.{
  unsubscribe_id, unsubscribe_item, handle_unsubscribe, handle_text_message, dispatch,
}
use foxglove_bridge_release.Client.{unsubscribe_payload}
use foxglove_bridge_release.Client.Subscribing.{text-read}

abbrev pub AllIdsU32 : List ℕ → Type 0
AllIdsU32 [] = Unit
AllIdsU32 (x ∷ xs) = (x < 2 ^ 32) × AllIdsU32 xs

module _ {Json : Type 0} (J : JsonLib Json) (laws : JsonLaws J) where
  op-field : (ids : List ℕ) → J.at (unsubscribe_payload J ids) "op" ≡ ok (J.string "unsubscribe")
  unfolding unsubscribe_payload
  op-field ids = laws.at-object "op" (J.string "unsubscribe") _ (unfold find in refl)

  list-field :
      (ids : List ℕ)
      → J.at (unsubscribe_payload J ids) "subscriptionIds" ≡ ok (J.array (map J.number ids))
  unfolding unsubscribe_payload
  list-field ids =
      laws.at-object "subscriptionIds" (J.array (map J.number ids)) _ (unfold find in refl)

module _ {Json B : Type 0} (J : JsonLib Json) (laws : JsonLaws J) (hdl : ℕ) where
  item-read :
      (id : ℕ) (s : Server B)
      → id < 2 ^ 32
      → unsubscribe_item J hdl (J.number id) s ≡ unsubscribe_id J hdl id s
  unfolding unsubscribe_item
  item-read id s h = let n = laws.get_u32-number id h in ground (arith, n)

  loop-read :
      (ids : List ℕ) (s : Server B)
      → AllIdsU32 ids
      → for_each (map J.number ids) (unsubscribe_item J hdl) s
        ≡ for_each ids (unsubscribe_id J hdl) s
  unfolding for_each
  loop-read [] s all = refl
  loop-read (x ∷ xs) s all =
      let rest : for_each (map J.number xs) (unsubscribe_item J hdl)
          ≡ for_each xs (unsubscribe_id J hdl) =
        λ i u. loop-read xs u all.1 i in
      let item : unsubscribe_item J hdl (J.number x) ≡ unsubscribe_id J hdl x =
        λ i u. item-read x u all.0 i in
      ap (λ k. (unsubscribe_item J hdl (J.number x) >> k) s) rest
      ∙ ap (λ m. (m >> for_each xs (unsubscribe_id J hdl)) s) item

  switch-unsubscribe :
      (j : Json) (s : Server B) → dispatch J hdl "unsubscribe" j s ≡ handle_unsubscribe J hdl j s
  unfolding dispatch integer
  switch-unsubscribe j s = refl

  list-read :
      (ids : List ℕ) (s : Server B)
      → handle_unsubscribe J hdl (unsubscribe_payload J ids) s
        ≡ for_each (J.items (J.array (map J.number ids))) (unsubscribe_item J hdl) s
  unfolding handle_unsubscribe
  list-read ids s = let l = list-field J laws ids in ground (arith, l)

  -- By the documented laws of the JSON library, the text of an unsubscribe request that a connected
  -- client makes, when it is parsed back to the document it was printed from and all ids are below
  -- 2 ^ 32, makes the server take the client's subscriptions of these ids away, in the order of
  -- the request.
  pub handle_text_message-unsubscribe_payload :
      (ids : List ℕ) (message : String) (s : Server B) (c : ClientInfo)
      → J.dump (unsubscribe_payload J ids) ≡ ok message
      → J.parse message ≡ ok (unsubscribe_payload J ids)
      → find hdl s.clients ≡ some c
      → AllIdsU32 ids
      → handle_text_message J hdl message s ≡ for_each ids (unsubscribe_id J hdl) s
  handle_text_message-unsubscribe_payload ids message s c printed parsed connected all =
      text-read J laws hdl (unsubscribe_payload J ids) "unsubscribe" message s c printed parsed
        (op-field J laws ids) connected
      ∙ switch-unsubscribe (unsubscribe_payload J ids) s
      ∙ list-read ids s
      ∙ ap (λ js. for_each js (unsubscribe_item J hdl) s) (laws.items-array _)
      ∙ loop-read ids s all
