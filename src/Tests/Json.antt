-- ===== src/Tests/Json.antt =====
-- A document type for the tests in place of nlohmann::json, with the laws that the proofs use.
use foxglove_bridge_release.Base.{
  ℕ, ◌≡◌, refl, String, some, List, [], ◌∷◌, ◌++◌, if◌then◌else◌, arith,
}
use foxglove_bridge_release.Base.Eq.{◌==◌, string_eq}
use foxglove_bridge_release.Base.Map.{find}
use foxglove_bridge_release.Base.Exec.{Result, ok, throws, failure}
use foxglove_bridge_release.Json.{JsonLib, JsonLaws}

mutual
  pub data Doc : Type 0 where
    null : Doc
    number : ℕ → Doc
    string : String → Doc
    array : Docs → Doc
    object : Members → Doc

  pub data Docs : Type 0 where
    nil : Docs
    cons : Doc → Docs → Docs

  pub data Members : Type 0 where
    end : Members
    member : String → Doc → Members → Members

abbrev pub of_list : List Doc → Docs
of_list [] = nil
of_list (d ∷ ds) = cons d (of_list ds)

abbrev pub to_list : Docs → List Doc
to_list nil = []
to_list (cons d ds) = d ∷ to_list ds

abbrev pub of_members : List (String × Doc) → Members
of_members [] = end
of_members ((k, d) ∷ ms) = member k d (of_members ms)

abbrev pub member_of : String → Members → Result Doc
member_of k end = throws (failure "key not found")
member_of k (member j d ms) = if j == k then ok d else member_of k ms

abbrev pub at : Doc → String → Result Doc
at (object ms) k = member_of k ms
at d k = throws (failure "cannot use at() here")

abbrev pub items : Doc → List Doc
items (array ds) = to_list ds
items d = []

abbrev pub get_string : Doc → Result String
get_string (string s) = ok s
get_string d = throws (failure "type must be string")

abbrev pub get_u32 : Doc → Result ℕ
get_u32 (number n) = ok n
get_u32 d = throws (failure "type must be number")

abbrev pub push_back : Doc → Doc → Doc
push_back (array ds) d = array (of_list (to_list ds ++ d ∷ []))
push_back _ d = array (cons d nil)

-- Each test says what its texts parse to, and what a document is printed as.
abbrev pub lib : (String → Result Doc) → (Doc → String) → JsonLib Doc
lib parse dump = record {
  parse = parse;
  dump = λ d. ok (dump d);
  at = at;
  items = items;
  get_string = get_string;
  get_u32 = get_u32;
  null = null;
  number = number;
  string = string;
  array = λ ds. array (of_list ds);
  object = λ ms. object (of_members ms);
  push_back = push_back;
}

to_list-of_list : (ds : List Doc) → to_list (of_list ds) ≡ ds
to_list-of_list [] = refl
to_list-of_list (d ∷ ds) = rw (to_list-of_list ds)

member_of-of_members :
    (k : String) (d : Doc) (ms : List (String × Doc))
    → find k ms ≡ some d
    → member_of k (of_members ms) ≡ ok d
unfolding find
member_of-of_members k d [] e = cc
member_of-of_members k d ((j, x) ∷ ms) e = ground (arith, member_of-of_members k d ms)

pub lib-JsonLaws : (parse : String → Result Doc) (dump : Doc → String) → JsonLaws (lib parse dump)
lib-JsonLaws parse dump = record {
  get_u32-number = λ n h. refl;
  get_string-string = λ s. refl;
  at-object = λ k d ms. member_of-of_members k d ms;
  items-array = to_list-of_list;
  items-null = refl;
  push_back-null = λ d. refl;
  push_back-array = λ ds d. rw to_list-of_list;
}
