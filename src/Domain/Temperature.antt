-- ===== src/Domain/Temperature.antt =====
-- domain/valueobject/temperature.go: a temperature in degrees Celsius as a float64.
pub mod Encoding
use oasis_modbus2mqtt.Prelude.{ℕ, false, ◌||◌, if◌then◌else◌}
use oasis_modbus2mqtt.Prelude.Errors.{Sentinel, sentinel, wrap, Result, ok, err}
use oasis_modbus2mqtt.Float64.{
  Float64, of_nat, mul, div, less, is_nan, is_inf, round, to_uint16, fin,
}

pub record Temperature : Type 0 where
  pub celsius : Float64

-- `Temperature{}`
unfoldable pub zero_temperature : Temperature
zero_temperature = record { celsius = fin false 0 }

unfoldable pub new_temperature : Float64 → Result Temperature
unfolding is_nan is_inf less of_nat
new_temperature c =
    if is_nan c
    then err (wrap "temperature is NaN" (sentinel Sentinel.invalid_temperature))
    else if is_inf c
    then err (wrap "temperature is infinite" (sentinel Sentinel.invalid_temperature))
    else if less c (of_nat 5) || less (of_nat 30) c
    then err (wrap "temperature out of range" (sentinel Sentinel.invalid_temperature))
    else ok (record { celsius = c })

unfoldable pub temperature_from_raw : ℕ → Temperature
unfolding div of_nat
temperature_from_raw raw = record { celsius = div (of_nat raw) (of_nat 10) }

-- `Temperature.Raw`: tenths of a degree, clamped to [50, 300].
unfoldable pub temperature_raw : Temperature → ℕ
unfolding mul round less of_nat to_uint16
temperature_raw t =
    let scaled = round (mul t.celsius (of_nat 10)) in
    if less scaled (of_nat 50)
    then 50
    else if less (of_nat 300) scaled
    then 300
    else to_uint16 scaled
