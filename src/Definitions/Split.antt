-- ===== src/Definitions/Split.antt =====
-- split_string of message_definition_cache.cpp: a text cut at every occurrence of a delimiter.
use Prim.Native.String.{◌++◌, len, slice, find}
use text.Mathlib.TextFind.{find_cases}
use text.Mathlib.TextPositions.{slice-append_left, slice-append_right, len-append}
use text.Mathlib.TextLemmas.{append_assoc}
use foxglove_bridge_release.Base.{
  ℕ, zero, suc, ◌+◌, ◌<◌, ◌≡◌, refl, false, sym, ap, ◌∙◌, inl, inr, String, List, [], ◌∷◌, arith,
  ltb, if◌then◌else◌, Bool-cases,
}

-- The loop, on what begins at `prev`: a delimiter is found at `pos`, or not (std::string::npos).
-- Each turn passes over a delimiter, so with a delimiter that is not empty there are no more turns
-- than bytes.
unfoldable pub split_loop : ℕ → String → String → List String
split_loop zero rest delimiter = rest ∷ []
split_loop (suc fuel) rest delimiter =
    let pos = find rest delimiter in
    let more = split_loop fuel (slice rest (pos + len delimiter) (len rest)) delimiter in
    if ltb (len rest) pos then rest ∷ [] else slice rest 0 pos ∷ more

unfoldable pub split_string : String → String → List String
unfolding split_loop
split_string str delimiter = split_loop (suc (len str)) str delimiter

-- the pieces with the delimiter between them
abbrev pub join : String → List String → String
join delimiter [] = ""
join delimiter (s ∷ []) = s
join delimiter (s ∷ t ∷ rest) = s ++ (delimiter ++ join delimiter (t ∷ rest))

split_test : split_string "msg/A.msg\nmsg/B.msg\n" "\n" ≡ "msg/A.msg" ∷ "msg/B.msg" ∷ "" ∷ []
unfolding split_string split_loop
split_test = refl

split_loop-cons :
    (fuel : ℕ) (rest delimiter : String)
    → (piece : String) × (pieces : List String) × (split_loop fuel rest delimiter ≡ piece ∷ pieces)
unfolding split_loop
split_loop-cons zero rest delimiter = (rest, [], refl)
split_loop-cons (suc fuel) rest delimiter =
    elim (Bool-cases (ltb (len rest) (find rest delimiter))) [
      | inl e ↦ (rest, [], rw e refl)
      | inr e ↦ (
        slice rest 0 (find rest delimiter),
        split_loop fuel (slice rest (find rest delimiter + len delimiter) (len rest)) delimiter,
        rw e refl,
      )
    ]

-- A piece in front of a list that is not empty.
join-cons :
    (delimiter s : String) (ts : List String) (t : String) (us : List String)
    → ts ≡ t ∷ us
    → join delimiter (s ∷ ts) ≡ s ++ (delimiter ++ join delimiter ts)
join-cons delimiter s ts t us e = rw e refl

module _ (delimiter rest u v : String) (e : rest ≡ u ++ (delimiter ++ v)) where
  regrouped : rest ≡ (u ++ delimiter) ++ v
  regrouped = e ∙ sym (append_assoc u delimiter v)

  len-parts : len rest ≡ len u + len delimiter + len v
  len-parts =
      rw regrouped (len-append (u ++ delimiter) v ∙ ap (λ k. k + len v) (len-append u delimiter))

  -- what is left behind a hit, and what is before it
  after_hit : slice rest (len u + len delimiter) (len rest) ≡ v
  after_hit =
      ap (λ k. slice rest (len u + len delimiter) k) len-parts
      ∙ ap (λ k. slice rest k (k + len v)) (sym (len-append u delimiter))
      ∙ ap (λ w. slice w (len (u ++ delimiter)) (len (u ++ delimiter) + len v)) regrouped
      ∙ slice-append_right (u ++ delimiter) v

  before_hit : slice rest 0 (len u) ≡ u
  before_hit = ap (λ w. slice w 0 (len u)) e ∙ slice-append_left u (delimiter ++ v)

  split_found :
      (fuel : ℕ)
      → find rest delimiter ≡ len u
      → split_loop (suc fuel) rest delimiter ≡ u ∷ split_loop fuel v delimiter
  unfolding split_loop
  split_found fuel at =
      let here : ltb (len rest) (len u) ≡ false = ground (arith, len-parts) in
      rw at (rw here (rw before_hit (rw after_hit refl)))

split_missed :
    (fuel : ℕ) (rest delimiter : String)
    → find rest delimiter ≡ suc (len rest)
    → split_loop (suc fuel) rest delimiter ≡ rest ∷ []
unfolding split_loop
split_missed fuel rest delimiter e = ground arith

-- The pieces of a text: it is the only piece where `find` sees no delimiter, and else what lies before
-- the delimiter that `find` sees first, and the pieces of what lies behind it.
pub data IsSplit (delimiter : String) : String → List String → Type 0 where
  uncut : {s : String} → find s delimiter ≡ suc (len s) → IsSplit delimiter s (s ∷ [])
  cut :
      {s u v : String} {pieces : List String}
      → s ≡ u ++ (delimiter ++ v)
      → find s delimiter ≡ len u
      → IsSplit delimiter v pieces
      → IsSplit delimiter s (u ∷ pieces)

module _ (delimiter : String) where
  join-split_loop :
      (fuel : ℕ) (rest : String)
      → 0 < len delimiter
      → len rest < fuel
      → IsSplit delimiter rest (split_loop fuel rest delimiter)
        × (join delimiter (split_loop fuel rest delimiter) ≡ rest)
  join-split_loop zero rest d h = absurd (omega (arith, h))
  join-split_loop (suc fuel) rest d h = elim (find_cases rest delimiter) [
    | inr e ↦ rw (split_missed fuel rest delimiter e) (uncut e, refl)
    | inl (u, v, e, at) ↦
        let shorter : len v < fuel = omega (arith, len-parts delimiter rest u v e) in
        let (t, us, more) = split_loop-cons fuel v delimiter in
        let (split, joined) = join-split_loop fuel v d shorter in
        rw (split_found delimiter rest u v e fuel at) (
          cut e at split,
          join-cons delimiter u (split_loop fuel v delimiter) t us more
              ∙ ap (λ w. u ++ (delimiter ++ w)) joined
              ∙ sym e,
        )
  ]

-- For any delimiter that is not empty, the pieces are those between the delimiters, from the first
-- that is found to the last, with none left in the last piece; joined by the delimiter, they are
-- the text again.
pub join-split_string :
    (str delimiter : String)
    → 0 < len delimiter
    → IsSplit delimiter str (split_string str delimiter)
      × (join delimiter (split_string str delimiter) ≡ str)
unfolding split_string
join-split_string str delimiter d = join-split_loop delimiter (suc (len str)) str d (omega arith)
