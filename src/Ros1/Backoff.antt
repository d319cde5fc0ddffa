-- ===== src/Ros1/Backoff.antt =====
-- The truncated exponential backoff between the updates of the ROS 1 bridge.
use native.Mathlib.Nat.{pow-le-pow_right}
use foxglove_bridge_release.Base.{ℕ, ◌+◌, ◌^◌, ◌≤◌, ◌<◌, ◌≡◌, arith}
use foxglove_bridge_release.Ros1.{Ros, min_update_period_ms}
use foxglove_bridge_release.Ros1.Topics.{next_update_ms, shift_one, std_min, std_max}

pow_le : (c k : ℕ) → 2 ^ c ≤ 2 ^ (c + k)
pow_le c k = pow-le-pow_right (omega arith) (omega arith)

module _ (ros : Ros) (max_update_ms : ℕ) where
  abbrev period : ℕ → ℕ
  period count = next_update_ms ros count max_update_ms

  bounded :
      (count : ℕ)
      → (min_update_period_ms ≤ period count)
        × (period count ≤ std_max min_update_period_ms max_update_ms)
  unfolding next_update_ms
  bounded count = ground arith

  below_64 :
      (count : ℕ)
      → count < 64
      → period count ≡ std_max min_update_period_ms (std_min (2 ^ count) max_update_ms)
  unfolding next_update_ms shift_one
  below_64 count h = ground arith

  rises : (c k : ℕ) → c + k < 64 → period c ≤ period (c + k)
  rises c k h = rw (below_64 c (omega arith), below_64 (c + k) h) (ground (arith, pow_le c k))

  -- Whatever the counter, and whatever a shift by 64 or more gives, the period lies between 100 ms
  -- and the greater of 100 ms and the maximum. For counters below 64 it is the power of two, cut off
  -- at the maximum and raised to 100 ms, and never falls from one update to a later one.
  pub next_update_ms_lem :
      (count c k : ℕ)
      → c + k < 64
      → (min_update_period_ms ≤ period count)
        × (period count ≤ std_max min_update_period_ms max_update_ms)
        × (period c ≡ std_max min_update_period_ms (std_min (2 ^ c) max_update_ms))
        × (period c ≤ period (c + k))
  next_update_ms_lem count c k h =
      ((bounded count).0, (bounded count).1, below_64 c (omega arith), rises c k h)
