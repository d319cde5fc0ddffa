-- ===== src/Tests/Requests.antt =====
-- A request of the client at concrete inputs.
use foxglove_bridge_release.Base.{ℕ, ◌≡◌, refl, String, List, [], ◌∷◌, arith, if◌then◌else◌}
use foxglove_bridge_release.Base.Eq.{◌==◌, string_eq}
use foxglove_bridge_release.Base.Map.{find}
use foxglove_bridge_release.Base.Exec.{Result, ok, for_each, throws, failure}
use foxglove_bridge_release.Client.{unsubscribe_payload}
use foxglove_bridge_release.Client.Unsubscribing.{handle_text_message-unsubscribe_payload}
use foxglove_bridge_release.Json.{JsonLib}
use foxglove_bridge_release.Server.Text.{handle_text_message, unsubscribe_id}
use foxglove_bridge_release.Tests.Json.{Doc, lib, lib-JsonLaws}
use foxglove_bridge_release.Tests.Server.{sample_lib}
use foxglove_bridge_release.Tests.Calls.{subscriber}
use foxglove_bridge_release.Tests.Messages.{bridge_server}

abbrev ids : List ℕ
ids = 7 ∷ 8 ∷ []

abbrev parse_ids : String → Result Doc
parse_ids s =
    if s == "unsub" then ok (unsubscribe_payload sample_lib ids) else throws (failure "parse error")

-- A library whose only text is that of the request for the ids 7 and 8.
abbrev ids_lib : JsonLib Doc
ids_lib = lib parse_ids (λ d. "unsub")

handle_text_message-unsubscribe_payload_example :
    handle_text_message ids_lib 5 "unsub" bridge_server
    ≡ for_each ids (unsubscribe_id ids_lib 5) bridge_server
handle_text_message-unsubscribe_payload_example =
    handle_text_message-unsubscribe_payload ids_lib (lib-JsonLaws parse_ids (λ d. "unsub")) 5 ids
      "unsub" bridge_server subscriber refl (unfold unsubscribe_payload in refl)
      (unfold find in refl) (omega arith, (omega arith, tt))
