-- ===== src/Service/Backoff/Limits.antt =====
-- Bounds of the delays.
use oasis_modbus2mqtt.Prelude.{ℕ, zero, suc, arith, if◌then◌else◌}
use oasis_modbus2mqtt.Prelude.Int.{pos, ltb_ℤ, ◌≤ℤ◌}
use oasis_modbus2mqtt.Float64.{of_nat, less}
use oasis_modbus2mqtt.Prelude.Time.{Duration}
use oasis_modbus2mqtt.Service.Backoff.{BackoffConfig, Backoff, new_backoff, next, grown, jittered}

capped : (m x : Duration) → (if ltb_ℤ m x then m else x) ≤ℤ m
capped m x = ground arith

floored : (x : Duration) → pos 0 ≤ℤ (if ltb_ℤ x (pos 0) then pos 0 else x)
floored x = ground arith

module _ {R : Type 0} (unspecified : Duration) (cfg : BackoffConfig R) where
  -- The backoff after some calls of `Next`.
  unfoldable pub advanced : ℕ → Backoff R → Backoff R
  advanced zero b = b
  advanced (suc n) b = (next unspecified cfg (advanced n b)).1

  grown-max : (d : Duration) → grown unspecified cfg d ≤ℤ cfg.max
  unfolding grown
  grown-max d = capped cfg.max _

  advanced-max :
      (n : ℕ) (rng : R)
      → cfg.min ≤ℤ cfg.max
      → (advanced n (new_backoff unspecified cfg rng)).current ≤ℤ cfg.max
  unfolding advanced new_backoff next
  advanced-max zero rng h = h
  advanced-max (suc n) rng h = grown-max (advanced n (new_backoff unspecified cfg rng)).current

  -- After any number of calls of `Next` on a new backoff whose minimum is at most its maximum,
  -- whatever the factor, the jitter and the random numbers, the next delay is not negative, and the
  -- delay that it varies is at most the maximum.
  pub next_bounds :
      (n : ℕ) (rng : R)
      → cfg.min ≤ℤ cfg.max
      → (pos 0 ≤ℤ (next unspecified cfg (advanced n (new_backoff unspecified cfg rng))).0)
        × ((advanced n (new_backoff unspecified cfg rng)).current ≤ℤ cfg.max)
  unfolding next
  next_bounds n rng h =
      let b = advanced n (new_backoff unspecified cfg rng) in
      (
        floored (
            if less (of_nat 0) cfg.jitter
            then jittered unspecified cfg b.current (cfg.draw b.rng).0
            else b.current),
        advanced-max n rng h,
      )
