-- ===== src/UseCase/PollController/Sensors.antt =====
-- What a sensor register is decoded to.
use mathlib.Core.Path.{subst}
use oasis_modbus2mqtt.Prelude.{
  ℕ, ◌-◌, ◌≤◌, ◌⊎◌, inl, inr, sym, ◌≡◌, refl, ap, Bool, true, false, ◌&&◌, arith, leb, ◌==◌,
  if◌then◌else◌, holds_below, holds_below_at,
}
use oasis_modbus2mqtt.Float64.{Float64, nan, inf, fin}
use oasis_modbus2mqtt.Domain.Temperature.{
  Temperature, zero_temperature, temperature_from_raw, new_temperature,
}
use oasis_modbus2mqtt.UseCase.PollController.{signed_temp_from_raw}

-- The sensor's value if it is one of 5 to 30 degrees.
abbrev pub plausible : ℕ → Temperature
plausible raw = if leb 50 raw && leb raw 300 then temperature_from_raw raw else zero_temperature

abbrev bool_eq : Bool → Bool → Bool
bool_eq true b = b
bool_eq false true = false
bool_eq false false = true

abbrev float_eq : Float64 → Float64 → Bool
float_eq (fin s a) (fin t b) = bool_eq s t && (a == b)
float_eq _ _ = false

abbrev agrees : ℕ → Bool
agrees raw = float_eq (signed_temp_from_raw raw).celsius (plausible raw).celsius

low_table : holds_below agrees 1001 ≡ true
unfolding holds_below signed_temp_from_raw temperature_from_raw zero_temperature new_temperature
low_table = refl

high_table : holds_below (λ n. agrees (65535 - n)) 1000 ≡ true
unfolding holds_below signed_temp_from_raw temperature_from_raw zero_temperature new_temperature
high_table = refl

bool_eq_sound : (a b : Bool) → bool_eq a b ≡ true → a ≡ b
bool_eq_sound true b h = sym h
bool_eq_sound false true h = h
bool_eq_sound false false h = refl

float_eq_sound : (x y : Float64) → float_eq x y ≡ true → x ≡ y
float_eq_sound (fin s a) (fin t b) h = ground (arith, bool_eq_sound s t)
float_eq_sound nan y h = cc
float_eq_sound (inf s) y h = cc
float_eq_sound (fin s a) nan h = cc
float_eq_sound (fin s a) (inf t) h = cc

agrees_sound : (raw : ℕ) → agrees raw ≡ true → signed_temp_from_raw raw ≡ plausible raw
agrees_sound raw h = ap (λ c. record { celsius = c }) (float_eq_sound _ _ h)

-- A sensor register that holds a signed number of tenths from -100 to 100 degrees is decoded to
-- that temperature if it is 5 to 30 degrees, and to zero otherwise.
pub sensor_range :
    (raw : ℕ)
    → (raw ≤ 1000) ⊎ ((64536 ≤ raw) × (raw ≤ 65535))
    → signed_temp_from_raw raw ≡ plausible raw
sensor_range raw (inl h) =
    agrees_sound raw (holds_below_at agrees 1001 raw (omega (arith, h)) low_table)
sensor_range raw (inr h) = agrees_sound raw (
    subst (λ n. agrees n ≡ true) (omega (arith, h))
      (holds_below_at (λ n. agrees (65535 - n)) 1000 (65535 - raw) (omega (arith, h)) high_table))
