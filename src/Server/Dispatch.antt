-- ===== src/Server/Dispatch.antt =====
-- The switch of handleTextMessage, and the loop of a case when an item cannot be read.
use foxglove_bridge_release.Base.{ℕ, ◌≡◌, refl, List, ◌∷◌, ◌++◌, arith}
use foxglove_bridge_release.Base.Exec.{
  Exception, ok, throws, for_each, for_each-cons, for_each-append,
}
use foxglove_bridge_release.Json.{JsonLib}
use foxglove_bridge_release.Wire.Fnv.{integer}
use foxglove_bridge_release.Server.{Server}
use foxglove_bridge_release.Server.Text.{
  subscribe_item, handle_subscribe, handle_unsubscribe, handle_advertise, handle_unadvertise,
  dispatch,
}

module _ {Json B : Type 0} (J : JsonLib Json) (hdl : ℕ) (payload : Json) (s : Server B) where
  -- The switch compares hashes and never the text: four texts that are no operation of the
  -- protocol are handled, on every payload, as the operations whose hashes they share.
  pub dispatch_collisions :
      (dispatch J hdl "inieabrb" payload s ≡ handle_subscribe J hdl payload s)
      × (dispatch J hdl "hiwmcnlg" payload s ≡ handle_unsubscribe J hdl payload s)
      × (dispatch J hdl "mjtiacez" payload s ≡ handle_advertise J hdl payload s)
      × (dispatch J hdl "wrsqaavm" payload s ≡ handle_unadvertise J hdl payload s)
  unfolding dispatch integer
  dispatch_collisions = (refl, refl, refl, refl)

  unread_item :
      (bad : Json) (rest : List Json) (x : Exception) (t : Server B)
      → J.at bad "id" ≡ throws x
      → for_each (bad ∷ rest) (subscribe_item J hdl) t ≡ (throws x, t)
  unread_item bad rest x t e = rw for_each-cons (unfold subscribe_item in ground arith)

  -- When the items before one with no "id" are subscribed without an exception, a subscribe
  -- message ends with the exception of that item, and the subscriptions of the items before it
  -- stay.
  pub handle_subscribe_partial :
      (list bad : Json) (good rest : List Json) (x : Exception) (t : Server B)
      → J.at payload "subscriptions" ≡ ok list
      → J.items list ≡ good ++ bad ∷ rest
      → for_each good (subscribe_item J hdl) s ≡ (ok tt, t)
      → J.at bad "id" ≡ throws x
      → handle_subscribe J hdl payload s ≡ (throws x, t)
  unfolding handle_subscribe
  handle_subscribe_partial list bad good rest x t e items done fails =
      let loop = for_each-append good (bad ∷ rest) (subscribe_item J hdl) s t done in
      ground (arith, loop, unread_item bad rest x t fails)
