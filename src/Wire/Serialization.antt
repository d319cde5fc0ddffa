-- ===== src/Wire/Serialization.antt =====
-- foxglove_bridge_base/include/foxglove_bridge/serialization.hpp: little-endian integers. Both
-- branches of the #ifdef write these bytes; `read_u32_le` is the server's reinterpret_cast read.
use foxglove_bridge_release.Base.{ℕ, ◌+◌, ◌*◌, ◌/◌, ◌%◌, ◌^◌, ◌<◌, ◌≡◌, List, [], ◌∷◌, arith}

-- (val >> (8 * k)) & 0xff
abbrev pub byte_at : ℕ → ℕ → ℕ
byte_at val k = val / 2 ^ (8 * k) % 256

unfoldable pub write_uint32_le : ℕ → List ℕ
write_uint32_le val = byte_at val 0 ∷ byte_at val 1 ∷ byte_at val 2 ∷ byte_at val 3 ∷ []

unfoldable pub write_uint64_le : ℕ → List ℕ
write_uint64_le val =
    byte_at val 0
    ∷ byte_at val 1
    ∷ byte_at val 2
    ∷ byte_at val 3
    ∷ byte_at val 4
    ∷ byte_at val 5
    ∷ byte_at val 6
    ∷ byte_at val 7
    ∷ []

-- *reinterpret_cast<const uint32_t*>(buf); bytes that are missing read as 0, and every caller
-- tests the length first.
unfoldable pub read_u32_le : List ℕ → ℕ
read_u32_le (a ∷ b ∷ c ∷ d ∷ rest) = a + 2 ^ 8 * b + 2 ^ 16 * c + 2 ^ 24 * d
read_u32_le rest = 0

unfoldable pub read_u64_le : List ℕ → ℕ
read_u64_le (a ∷ b ∷ c ∷ d ∷ e ∷ f ∷ g ∷ h ∷ rest) =
    a + 2 ^ 8 * b + 2 ^ 16 * c + 2 ^ 24 * d + 2 ^ 32 * e + 2 ^ 40 * f + 2 ^ 48 * g + 2 ^ 56 * h
read_u64_le rest = 0

-- Four bytes written in little-endian order are read back as the number, below 2 ^ 32.
pub read_u32_le-write : (val : ℕ) → val < 2 ^ 32 → read_u32_le (write_uint32_le val) ≡ val
unfolding read_u32_le write_uint32_le
read_u32_le-write val h = omega arith

-- Eight bytes written in little-endian order are read back as the number, below 2 ^ 64.
pub read_u64_le-write : (val : ℕ) → val < 2 ^ 64 → read_u64_le (write_uint64_le val) ≡ val
unfolding read_u64_le write_uint64_le
read_u64_le-write val h = omega arith
