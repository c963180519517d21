-- ===== src/Domain/FanSpeed/Bounds.antt =====
-- The range of the two constructors of FanSpeed.
use oasis_modbus2mqtt.Domain.FanSpeed.{FanSpeed, new_fan_speed, new_fan_speed_clamped}
use oasis_modbus2mqtt.Prelude.{ℕ, ◌≤◌, ◌<◌, ◌≡◌, ◌⊎◌, inl, inr, arith, ltb, Bool-cases}
use oasis_modbus2mqtt.Prelude.Errors.{Sentinel, sentinel, wrap, ok, err}

abbrev pub InRange : FanSpeed → Type 0
InRange f = (1 ≤ f.value) × (f.value ≤ 10)

-- `NewFanSpeed` accepts exactly the speeds 1 to 10, keeps the value of one that it accepts, and
-- fails with ErrInvalidFanSpeed on every other.
pub new_fan_speed_exact :
    (v : ℕ)
    → ((1 ≤ v) × (v ≤ 10) × (new_fan_speed v ≡ ok (record { value = v })))
      ⊎ ((¬ ((1 ≤ v) × (v ≤ 10)))
          × (new_fan_speed v
              ≡ err (wrap "fan speed out of range" (sentinel Sentinel.invalid_fan_speed))))
unfolding new_fan_speed
new_fan_speed_exact v = elim (Bool-cases (ltb v 1)) [
  | inl low ↦ inr (λ h. ground (arith, h), ground arith)
  | inr ok_low ↦ elim (Bool-cases (ltb 10 v)) [
    | inl high ↦ inr (λ h. ground (arith, h), ground arith)
    | inr ok_high ↦ inl (ground arith, ground arith, ground arith)
  ]
]

pub new_fan_speed-InRange :
    (v : ℕ) {f : FanSpeed} → new_fan_speed v ≡ ok f → InRange f × (f.value ≡ v)
unfolding new_fan_speed
new_fan_speed-InRange v h = ground arith

-- With a lower bound of at most 10 and an upper bound of at least 1, in either order, the clamped
-- speed lies in [1, 10].
pub clamped-InRange :
    (v min max : ℕ) → min ≤ 10 → 1 ≤ max → InRange (new_fan_speed_clamped v min max)
unfolding new_fan_speed_clamped
clamped-InRange v min max h k = ground arith

-- With a lower bound above 10 the bounds cross and are swapped, so that a speed above 10 which is
-- not above the lower bound is returned as it is: the result is outside the range of the hardware.
pub clamped_escapes :
    (v min max : ℕ)
    → 10 < v
    → v ≤ min
    → 10 ≤ max
    → ((new_fan_speed_clamped v min max).value ≡ v) × (¬ InRange (new_fan_speed_clamped v min max))
unfolding new_fan_speed_clamped
clamped_escapes v min max a b c = (ground arith, λ h. ground (arith, h))
