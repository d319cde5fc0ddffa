-- ===== src/Json.antt =====
-- nlohmann::json, which is not part of the repository: the operations that the bridge calls, as a
-- parameter, and what it relies on.
use foxglove_bridge_release.Base.{ℕ, ◌^◌, ◌<◌, ◌≡◌, String, some, List, [], ◌∷◌, ◌++◌}
use foxglove_bridge_release.Base.Map.{find}
use foxglove_bridge_release.Base.Eq.{string_eq}
use foxglove_bridge_release.Base.Exec.{Result, ok}

pub record JsonLib (Json : Type 0) : Type 0 where
  -- json::parse, and dump, which throws where a text is not UTF-8
  pub parse : String → Result Json
  pub dump : Json → Result String
  -- j.at(key), which throws where j has no such member
  pub at : Json → String → Result Json
  -- the elements that a range-based for loop visits
  pub items : Json → List Json
  -- j.get<std::string>(), j.get<uint32_t>()
  pub get_string : Json → Result String
  pub get_u32 : Json → Result ℕ
  -- a value by default, by conversion, and by an initializer list
  pub null : Json
  pub number : ℕ → Json
  pub string : String → Json
  pub array : List Json → Json
  pub object : List (String × Json) → Json
  -- j.push_back(x)
  pub push_back : Json → Json → Json

-- What the documentation of the library says of these operations, as far as proofs use it.
pub record JsonLaws {Json : Type 0} (J : JsonLib Json) : Type 0 where
  pub get_u32-number : (n : ℕ) → n < 2 ^ 32 → J.get_u32 (J.number n) ≡ ok n
  pub get_string-string : (s : String) → J.get_string (J.string s) ≡ ok s
  pub at-object :
      (k : String) (j : Json) (m : List (String × Json))
      → find k m ≡ some j
      → J.at (J.object m) k ≡ ok j
  pub items-array : (js : List Json) → J.items (J.array js) ≡ js
  pub items-null : J.items J.null ≡ []
  pub push_back-null : (j : Json) → J.push_back J.null j ≡ J.array (j ∷ [])
  pub push_back-array :
      (js : List Json) (j : Json) → J.push_back (J.array js) j ≡ J.array (js ++ j ∷ [])
