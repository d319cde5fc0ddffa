-- ===== src/Wire/Fnv.antt =====
-- `Integer` of foxglove_bridge_base/include/foxglove_bridge/websocket_server.hpp: the FNV-1a hash
-- by which the server switches on the "op" of a text message.
use Prim.Native.Nat.{bit_xor}
use Prim.Native.Char.{code}
use foxglove_bridge_release.Base.{
  ℕ, ◌+◌, ◌*◌, ◌%◌, ◌^◌, ◌<◌, ◌≡◌, refl, String, List, [], ◌∷◌, arith, ltb, if◌then◌else◌,
}

-- The characters of a std::string are its bytes.
abbrev pub bytes : String → List ℕ
bytes String.[] = []
bytes (String.◌∷◌ c s) = code c % 256 ∷ bytes s

-- static_cast<uint32_t>(c) of a signed char: the upper half of the bytes is sign-extended.
pub char_to_u32 : ℕ → ℕ
char_to_u32 c = if ltb c 128 then c else c + 0xffff_ff00

fnv_step : ℕ → ℕ → ℕ
unfolding char_to_u32
fnv_step result c = bit_xor (char_to_u32 c) result * 0x0100_0193 % 2 ^ 32

fnv_loop : ℕ → List ℕ → ℕ
unfolding fnv_step
fnv_loop result [] = result
fnv_loop result (c ∷ str) = fnv_loop (fnv_step result c) str

unfoldable pub integer : String → ℕ
unfolding fnv_loop
integer str = fnv_loop 0x811c_9dc5 (bytes str)

fnv_loop-lt : (str : List ℕ) (result : ℕ) → result < 2 ^ 32 → fnv_loop result str < 2 ^ 32
unfolding fnv_loop
fnv_loop-lt [] result h = h
fnv_loop-lt (c ∷ str) result h = fnv_loop-lt str (fnv_step result c) (omega arith)

-- The hash of any text is a 32-bit number.
pub integer-lt : (str : String) → integer str < 2 ^ 32
unfolding integer
integer-lt str = fnv_loop-lt (bytes str) _ (omega arith)

-- The published test vector of the 32-bit algorithm for "a".
integer_a : integer "a" ≡ 0xe40c_292c
unfolding integer
integer_a = refl

-- The hash does not tell "subscribe" from this text, nor the other three names from theirs.
integer_collisions :
    (integer "inieabrb" ≡ integer "subscribe")
    × (integer "hiwmcnlg" ≡ integer "unsubscribe")
    × (integer "mjtiacez" ≡ integer "advertise")
    × (integer "wrsqaavm" ≡ integer "unadvertise")
unfolding integer
integer_collisions = (refl, refl, refl, refl)
