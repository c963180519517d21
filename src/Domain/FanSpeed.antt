-- ===== src/Domain/FanSpeed.antt =====
-- domain/valueobject/fan_speed.go: the fan speed in [1, 10].
pub mod Bounds
use oasis_modbus2mqtt.Prelude.{ℕ, ◌||◌, ltb, if◌then◌else◌}
use oasis_modbus2mqtt.Prelude.Errors.{Sentinel, sentinel, wrap, Result, ok, err}

abbrev pub fan_speed_min : ℕ
fan_speed_min = 1

abbrev pub fan_speed_max : ℕ
fan_speed_max = 10

pub record FanSpeed : Type 0 where
  pub value : ℕ

unfoldable pub new_fan_speed : ℕ → Result FanSpeed
new_fan_speed v =
    if ltb v fan_speed_min || ltb fan_speed_max v
    then err (wrap "fan speed out of range" (sentinel Sentinel.invalid_fan_speed))
    else ok (record { value = v })

-- The last two tests of `NewFanSpeedClamped`, once the bounds are known.
unfoldable pub clamp : ℕ → ℕ → ℕ → ℕ
clamp lo hi v = let v' = if ltb v lo then lo else v in if ltb hi v' then hi else v'

-- `NewFanSpeedClamped(v, min, max)`: the bounds are tightened, and swapped if they cross.
unfoldable pub new_fan_speed_clamped : ℕ → ℕ → ℕ → FanSpeed
unfolding clamp
new_fan_speed_clamped v min max =
    let lo = if ltb min fan_speed_min then fan_speed_min else min in
    let hi = if ltb fan_speed_max max then fan_speed_max else max in
    record { value = if ltb hi lo then clamp hi lo v else clamp lo hi v }
