-- ===== src/Logging/Silence.antt =====
-- A CallbackLogger whose channels are all cleared calls nothing.
use Prim.Native.Nat.{bit_and, min, digits, bit_and-bitwise}
use foxglove_bridge_release.Base.{ℕ, zero, suc, ◌/◌, ◌≡◌, refl, String, arith}
use foxglove_bridge_release.Base.Eq.{id_eq}
use foxglove_bridge_release.Logging.{
  Levels, CallbackLogger, clear_channels, set_channels, dynamic_test, write,
}

no_digits : (fuel a : ℕ) → digits (λ b. zero) min fuel a 0 ≡ 0
no_digits zero a = refl
no_digits (suc fuel) zero = refl
no_digits (suc fuel) (suc a) = ground (arith, no_digits fuel (suc a / 2))

bit_and_zero : (a : ℕ) → bit_and a 0 ≡ 0
bit_and_zero a = simp bit_and-bitwise (no_digits a a)

cleared : (l : CallbackLogger) → (set_channels 0 l).dynamic_channels ≡ 0
unfolding set_channels clear_channels
cleared l = bit_and_zero l.dynamic_channels

module _ (levels : Levels) (channel : ℕ) (msg : String) where
  silent : (l : CallbackLogger) → l.dynamic_channels ≡ 0 → write levels channel msg l ≡ l
  unfolding write dynamic_test
  silent l e = simp (e, bit_and_zero channel)

  -- After set_channels(0) the logger calls nothing, whatever it is given and whatever was set
  -- before.
  write-set_channels :
      (l : CallbackLogger) → write levels channel msg (set_channels 0 l) ≡ set_channels 0 l
  write-set_channels l = silent (set_channels 0 l) (cleared l)
