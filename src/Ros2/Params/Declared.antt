-- ===== src/Ros2/Params/Declared.antt =====
-- What the parameters are, once the constructor has declared them.
use mathlib.Core.Path.{subst}
use foxglove_bridge_release.Base.{
  ℕ, ◌^◌, ◌<◌, ◌≤◌, ◌≡◌, refl, ◌∙◌, inl, inr, String, Bool, none, some, List, [], ◌∷◌, arith,
  Option-cases,
}
use foxglove_bridge_release.Base.Eq.{==_iff, string_eq}
use foxglove_bridge_release.Base.Map.{find, emplace, find-emplace}
use foxglove_bridge_release.Base.Exec.{Result, ok, throws, modify, for_each, Result-cases}
use foxglove_bridge_release.Base.Exec.Keeps.{Keeps, keeps_rules, Keeps-for_each}
use foxglove_bridge_release.Ros2.Params.{
  ℤ, pos, negsuc, ParameterValue, integer_value, string_value, bool_value, string_array_value,
  string_type, bool_type, string_array_type, port_declaration, address_declaration, tls_declaration,
  certfile_declaration, keyfile_declaration, max_qos_depth_declaration, topic_whitelist_declaration,
  send_buffer_limit_declaration, type_of, IntegerRange, IsWithin, Declaration, Declare, Laws,
  Parameters, declare_parameter, declare_parameters, get_int, get_string, get_bool,
  get_string_array, size_of_int64, u16_of_int64, declarations,
}

-- A parameter that is declared stays as it is.
abbrev pub Extends : Parameters → Parameters → Type 0
Extends s₀ s = (k : String) (w : ParameterValue) → find k s₀ ≡ some w → find k s ≡ some w

module _ (declare : Declare) where
  Keeps-emplace : (k : String) (v : ParameterValue) → Keeps Extends (modify (emplace k v))
  Keeps-emplace k v = record {
    at = λ s₀ s h j w e. let f = h j w e in ground (arith, find-emplace k j v s, ==_iff k j, f);
  }

  declare_parameter-Keeps : (p : Declaration) → Keeps Extends (declare_parameter declare p)
  unfolding declare_parameter
  declare_parameter-Keeps p = search (keeps_rules, Keeps-emplace)

  -- what one declaration leaves, when it returns
  abbrev pub IsDeclared : Parameters → Declaration → Type 0
  IsDeclared s p = (w : ParameterValue) × (declare p.0 p.1 ≡ ok w) × (find p.0.name s ≡ some w)

  entered :
      (p : Declaration) (s s' : Parameters) (w : ParameterValue)
      → declare p.0 p.1 ≡ ok w
      → find p.0.name s ≡ none
      → declare_parameter declare p s ≡ (ok tt, s')
      → IsDeclared s' p
  unfolding declare_parameter
  entered (d, v) s s' w e new h =
      (w, e, ground (arith, e, new, h, find-emplace d.name d.name w s, ==_iff d.name d.name))

  declare_parameter-IsDeclared :
      (p : Declaration) (s s' : Parameters)
      → declare_parameter declare p s ≡ (ok tt, s')
      → IsDeclared s' p
  unfolding declare_parameter
  declare_parameter-IsDeclared (d, v) s s' h = elim (Result-cases (declare d v)) [
    | inr (x, e) ↦ absurd (ground (arith, e, h))
    | inl (w, e) ↦ elim (Option-cases (find d.name s)) [
      | inl new ↦ entered (d, v) s s' w e new h
      | inr (old, known) ↦ absurd (ground (arith, e, known, h))
    ]
  ]

  abbrev pub AllDeclared : List Declaration → Parameters → Type 0
  AllDeclared [] s = Unit
  AllDeclared (p ∷ ps) s = IsDeclared s p × AllDeclared ps s

  rest_declared :
      (p : Declaration) (ps : List Declaration) (s' : Parameters)
      (r : Result (Unit {0}) × Parameters)
      → (r.0 ≡ ok tt → IsDeclared r.1 p)
      → ((t : Parameters)
          → for_each ps (declare_parameter declare) t ≡ (ok tt, s')
          → AllDeclared ps s')
      → (elim r.0 as (λ _. Result (Unit {0}) × Parameters) [
        | ok a ↦ for_each ps (declare_parameter declare) r.1
        | throws x ↦ (throws x, r.1)
      ])
        ≡ (ok tt, s')
      → AllDeclared (p ∷ ps) s'
  rest_declared p ps s' (throws x, t) first rest e = absurd (cc)
  rest_declared p ps s' (ok tt, t) first rest e =
      let (w, d, f) = first refl in
      let kept =
        (Keeps-for_each ps (declare_parameter declare) declare_parameter-Keeps).at t t
          (λ k v g. g) in
      ((w, d, subst (λ q. find p.0.name q.1 ≡ some w) e (kept p.0.name w f)), rest t e)

  for_each-AllDeclared :
      (ps : List Declaration) (s s' : Parameters)
      → for_each ps (declare_parameter declare) s ≡ (ok tt, s')
      → AllDeclared ps s'
  unfolding for_each
  for_each-AllDeclared [] s s' e = tt
  for_each-AllDeclared (p ∷ ps) s s' e =
      rest_declared p ps s' (declare_parameter declare p s)
        (λ h.
          declare_parameter-IsDeclared p s (declare_parameter declare p s).1 (ground (arith, h)))
        (λ t. for_each-AllDeclared ps t s') e

  pub declare_parameters-AllDeclared :
      (s s' : Parameters) → declare_parameters declare s ≡ (ok tt, s') → AllDeclared declarations s'
  unfolding declare_parameters
  declare_parameters-AllDeclared = for_each-AllDeclared declarations

within :
    (r : IntegerRange) (w : ParameterValue)
    → IsWithin r w
    → (n : ℕ) × (w ≡ integer_value (pos n)) × (n ≤ r.to_value)
within r (integer_value (pos n)) h = (n, refl, h.1)
within r (integer_value (negsuc n)) h = absurd h
within r (string_value s) h = absurd h
within r (bool_value b) h = absurd h
within r (string_array_value ss) h = absurd h

string_of : (w : ParameterValue) → type_of w ≡ string_type → (s : String) × (w ≡ string_value s)
string_of (integer_value n) e = absurd (cc)
string_of (string_value s) e = (s, refl)
string_of (bool_value b) e = absurd (cc)
string_of (string_array_value ss) e = absurd (cc)

bool_of : (w : ParameterValue) → type_of w ≡ bool_type → (b : Bool) × (w ≡ bool_value b)
bool_of (integer_value n) e = absurd (cc)
bool_of (string_value s) e = absurd (cc)
bool_of (bool_value b) e = (b, refl)
bool_of (string_array_value ss) e = absurd (cc)

strings_of :
    (w : ParameterValue)
    → type_of w ≡ string_array_type
    → (ss : List String) × (w ≡ string_array_value ss)
strings_of (integer_value n) e = absurd (cc)
strings_of (string_value s) e = absurd (cc)
strings_of (bool_value b) e = absurd (cc)
strings_of (string_array_value ss) e = (ss, refl)

module _ (declare : Declare) (laws : Laws declare) (s : Parameters) where
  -- A parameter with a range is read as a number in it.
  int_read :
      (p : Declaration) (r : IntegerRange)
      → p.0.integer_range ≡ some r
      → IsDeclared declare s p
      → (n : ℕ) × (get_int p.0.name s ≡ (ok (pos n), s)) × (n ≤ r.to_value)
  unfolding get_int
  int_read p r e (w, d, f) =
      let (n, g, b) = within r w (laws.ranged p.0 p.1 w r d e) in (n, ground (arith, f, g), b)

  string_read :
      (p : Declaration)
      → type_of p.1 ≡ string_type
      → IsDeclared declare s p
      → (t : String) × (get_string p.0.name s ≡ (ok t, s))
  unfolding get_string
  string_read p e (w, d, f) =
      let (t, g) = string_of w (laws.typed p.0 p.1 w d ∙ e) in (t, ground (arith, f, g))

  bool_read :
      (p : Declaration)
      → type_of p.1 ≡ bool_type
      → IsDeclared declare s p
      → (b : Bool) × (get_bool p.0.name s ≡ (ok b, s))
  unfolding get_bool
  bool_read p e (w, d, f) =
      let (t, g) = bool_of w (laws.typed p.0 p.1 w d ∙ e) in (t, ground (arith, f, g))

  strings_read :
      (p : Declaration)
      → type_of p.1 ≡ string_array_type
      → IsDeclared declare s p
      → (ts : List String) × (get_string_array p.0.name s ≡ (ok ts, s))
  unfolding get_string_array
  strings_read p e (w, d, f) =
      let (t, g) = strings_of w (laws.typed p.0 p.1 w d ∙ e) in (t, ground (arith, f, g))

-- An integer parameter reads as a number, within the bound, that the cast keeps.
abbrev pub ReadsBelow : Parameters → (ℤ → ℕ) → String → ℕ → Type 0
ReadsBelow s cast name bound =
    (n : ℕ) × (get_int name s ≡ (ok (pos n), s)) × (cast (pos n) ≡ n) × (n < bound)

-- When the declarations of the constructor return, and rclcpp keeps to the types and the ranges
-- that they give, then each parameter is read without a throw and with its type, and no cast
-- changes a number: the port is below 2 ^ 16, the depth below 2 ^ 31, the limit below 2 ^ 63.
pub declared_parameters_read :
    (declare : Declare)
    → Laws declare
    → (s s' : Parameters) → declare_parameters declare s ≡ (ok tt, s')
    → ReadsBelow s' u16_of_int64 "port" (2 ^ 16)
      × ReadsBelow s' size_of_int64 "max_qos_depth" (2 ^ 31)
      × ReadsBelow s' size_of_int64 "send_buffer_limit" (2 ^ 63)
      × ((t : String) × (get_string "address" s' ≡ (ok t, s')))
      × ((b : Bool) × (get_bool "tls" s' ≡ (ok b, s')))
      × ((t : String) × (get_string "certfile" s' ≡ (ok t, s')))
      × ((t : String) × (get_string "keyfile" s' ≡ (ok t, s')))
      × ((ts : List String) × (get_string_array "topic_whitelist" s' ≡ (ok ts, s')))
unfolding u16_of_int64 size_of_int64
declared_parameters_read declare laws s s' e =
    let all = declare_parameters-AllDeclared declare s s' e in
    let (port, (address, (tls, (certfile, (keyfile, (depth, (whitelist, (limit, end)))))))) = all in
    let (p, p_read, p_le) = int_read declare laws s' port_declaration _ refl port in
    let (d, d_read, d_le) = int_read declare laws s' max_qos_depth_declaration _ refl depth in
    let (l, l_read, l_le) = int_read declare laws s' send_buffer_limit_declaration _ refl limit in
    (
      (p, p_read, omega arith, omega arith),
      (d, d_read, refl, omega arith),
      (l, l_read, refl, omega arith),
      string_read declare laws s' address_declaration refl address,
      bool_read declare laws s' tls_declaration refl tls,
      string_read declare laws s' certfile_declaration refl certfile,
      string_read declare laws s' keyfile_declaration refl keyfile,
      strings_read declare laws s' topic_whitelist_declaration refl whitelist,
    )
