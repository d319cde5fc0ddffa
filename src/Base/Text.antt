-- ===== src/Base/Text.antt =====
-- std::to_string, and texts put together by `+`.
use Prim.Native.String.{◌++◌}
use Prim.Native.Nat.{ℕ, zero, suc, ◌/◌, ◌%◌}
use Prim.Native.String.{String}
use mathlib.Core.Path.{◌≡◌, refl}
use mathlib.Core.List.{List, [], ◌∷◌}
use foxglove_bridge_release.Base.Tests.{ltb, if◌then◌else◌}
use foxglove_bridge_release.Base.Eq.{◌==◌, id_eq}

pub concat : List String → String
concat [] = ""
concat (s ∷ ss) = s ++ concat ss

digit : ℕ → String
digit d =
    if d == 0
    then "0"
    else if d == 1
    then "1"
    else if d == 2
    then "2"
    else if d == 3
    then "3"
    else if d == 4
    then "4"
    else if d == 5
    then "5"
    else if d == 6
    then "6"
    else if d == 7
    then "7"
    else if d == 8
    then "8"
    else "9"

-- A number has no more digits than its value plus one, so the fuel of `to_string` is enough.
digits : ℕ → ℕ → String
unfolding digit
digits zero n = ""
digits (suc fuel) n =
    let rest = digits fuel (n / 10) ++ digit (n % 10) in if ltb n 10 then digit n else rest

unfoldable pub to_string : ℕ → String
unfolding digits
to_string n = digits (suc n) n

to_string_test : to_string 4_294_967_295 ≡ "4294967295"
unfolding to_string
to_string_test = refl
