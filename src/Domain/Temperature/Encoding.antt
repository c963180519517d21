-- ===== src/Domain/Temperature/Encoding.antt =====
-- Temperatures in tenths of a degree: the write register, and the text that is published.
use native.Mathlib.Nat.{le_of_mul-le-mul_right, mul-div_cancel}
use oasis_modbus2mqtt.Prelude.Text.{emit_digits}
use oasis_modbus2mqtt.Float64.{
  Float64, of_nat, mul, less, is_nan, is_inf, round, to_uint16, unit, whole, nan, inf, fin,
  format_fixed1,
}
use oasis_modbus2mqtt.Domain.Temperature.{
  Temperature, temperature_from_raw, temperature_raw, new_temperature,
}
use oasis_modbus2mqtt.Prelude.{
  ℕ, ◌+◌, ◌*◌, ◌/◌, ◌%◌, ◌≤◌, ◌<◌, ◌≡◌, refl, inl, inr, Bool, true, false, [], ◌∷◌, arith, ltb,
  ◌==◌, if◌then◌else◌, Bool-cases, ==_iff, holds_below, holds_below_at,
}
use oasis_modbus2mqtt.Prelude.Text.{Text, text_eq}
use oasis_modbus2mqtt.Prelude.Errors.{ok}

abbrev pub clamp_raw : ℕ → ℕ
clamp_raw raw = if ltb raw 50 then 50 else if ltb 300 raw then 300 else raw

raw_table :
    holds_below (λ raw. temperature_raw (temperature_from_raw raw) == clamp_raw raw) 1001 ≡ true
unfolding holds_below temperature_raw temperature_from_raw
raw_table = refl

-- Tenths with a point before the last digit.
unfoldable pub tenths : ℕ → Text
unfolding emit_digits
tenths raw = emit_digits 320 (raw / 10) (b'.' ∷ (b'0' + raw % 10) ∷ [])

tenths_table :
    holds_below
      (λ raw. text_eq (format_fixed1 (temperature_from_raw raw).celsius) (tenths raw))
      1001
    ≡ true
unfolding holds_below format_fixed1 temperature_from_raw tenths
tenths_table = refl

-- What the two comparisons of `Raw` say about a whole number of degrees, for any unit.
whole_bounds :
    (s : Bool) (m u : ℕ)
    → 0 < u
    → less (fin s (m * u)) (fin false (50 * u)) ≡ false
    → less (fin false (300 * u)) (fin s (m * u)) ≡ false
    → (50 ≤ m) × (m ≤ 300)
unfolding less
whole_bounds true m u p h k = absurd (ground arith)
whole_bounds false m u p h k =
    let lo : 50 * u ≤ m * u = ground arith in
    let hi : m * u ≤ 300 * u = ground arith in
    (le_of_mul-le-mul_right lo p, le_of_mul-le-mul_right hi p)

unit_pos : 0 < unit
unfolding unit
unit_pos = omega arith

of_nat_50 : of_nat 50 ≡ fin false (50 * unit)
unfolding of_nat unit
of_nat_50 = refl

of_nat_300 : of_nat 300 ≡ fin false (300 * unit)
unfolding of_nat unit
of_nat_300 = refl

to_uint16_whole : (m : ℕ) → m ≤ 300 → to_uint16 (fin false (m * unit)) ≡ m
unfolding to_uint16
to_uint16_whole m h = rw (mul-div_cancel m unit_pos) (omega arith)

abbrev InRawRange : ℕ → Type 0
InRawRange r = (50 ≤ r) × (r ≤ 300)

abbrev clamped : Float64 → ℕ
clamped scaled =
    if less scaled (of_nat 50)
    then 50
    else if less (of_nat 300) scaled
    then 300
    else to_uint16 scaled

negative_is_low : (m : ℕ) → less (fin true (m * unit)) (of_nat 50) ≡ true
negative_is_low m = rw of_nat_50 (below m unit unit_pos)
  where
    below : (m u : ℕ) → 0 < u → less (fin true (m * u)) (fin false (50 * u)) ≡ true
    below m u p = unfold less in ground arith

clamped_whole : (s : Bool) (m : ℕ) → InRawRange (clamped (fin s (m * unit)))
clamped_whole true m = rw (negative_is_low m) (omega arith)
clamped_whole false m = elim (Bool-cases (less (fin false (m * unit)) (of_nat 50))) [
  | inl low ↦ rw low (omega arith)
  | inr ok_low ↦ elim (Bool-cases (less (of_nat 300) (fin false (m * unit)))) [
    | inl high ↦ rw (ok_low, high) (omega arith)
    | inr ok_high ↦
        let (lo, hi) =
          whole_bounds false m unit unit_pos (rw of_nat_50 at ok_low) (rw of_nat_300 at ok_high) in
        rw (ok_low, ok_high, to_uint16_whole m hi) (lo, hi)
  ]
]

clamped-round : (x : Float64) → is_nan x ≡ false → InRawRange (clamped (round x))
unfolding is_nan round
clamped-round nan h = cc
clamped-round (inf true) h = rw (of_nat_50, of_nat_300) (unfold less in omega arith)
clamped-round (inf false) h = rw (of_nat_50, of_nat_300) (unfold less in omega arith)
clamped-round (fin s a) h = clamped_whole s (whole a)

is_nan-if : (b s : Bool) (m : ℕ) → is_nan (if b then fin s m else inf s) ≡ false
unfolding is_nan
is_nan-if true s m = refl
is_nan-if false s m = refl

is_nan-mul : (s t : Bool) (a b : ℕ) → is_nan (mul (fin s a) (fin t b)) ≡ false
unfolding mul
is_nan-mul s t a b = is_nan-if _ _ _

of_nat_10 : of_nat 10 ≡ fin false (10 * unit)
unfolding of_nat unit
of_nat_10 = refl

accepted_fin :
    (c : Float64) {t : Temperature}
    → new_temperature c ≡ ok t
    → (s : Bool) × (a : ℕ) × (t.celsius ≡ fin s a)
unfolding new_temperature is_nan is_inf
accepted_fin nan h = cc
accepted_fin (inf s) h = cc
accepted_fin (fin s a) h = (s, a, ground arith)

scaled_number :
    (c : Float64) {t : Temperature}
    → new_temperature c ≡ ok t
    → is_nan (mul t.celsius (of_nat 10)) ≡ false
scaled_number c h =
    let (s, a, e) = accepted_fin c h in rw (e, of_nat_10) (is_nan-mul s false a (10 * unit))

-- A temperature that `NewTemperature` accepts is written as a register value in [50, 300].
pub temperature_raw_bounds :
    (c : Float64) {t : Temperature}
    → new_temperature c ≡ ok t
    → (50 ≤ temperature_raw t) × (temperature_raw t ≤ 300)
unfolding temperature_raw
temperature_raw_bounds c {t} h = clamped-round (mul t.celsius (of_nat 10)) (scaled_number c h)

-- Up to 100 degrees, a register value that is decoded and encoded again comes back, held to
-- [50, 300].
pub raw-from_raw :
    (raw : ℕ) → raw ≤ 1000 → temperature_raw (temperature_from_raw raw) ≡ clamp_raw raw
raw-from_raw raw h = (==_iff _ _).0 (holds_below_at _ 1001 raw (omega arith) raw_table)

text_eq_sound : (s t : Text) → text_eq s t ≡ true → s ≡ t
text_eq_sound [] [] h = refl
text_eq_sound [] (d ∷ t) h = cc
text_eq_sound (c ∷ s) [] h = cc
text_eq_sound (c ∷ s) (d ∷ t) h = ground (arith, text_eq_sound s t)

-- Up to 100 degrees, a decoded register value is published as its number of tenths with a point
-- before the last digit: no rounding shows.
pub format-from_raw :
    (raw : ℕ) → raw ≤ 1000 → format_fixed1 (temperature_from_raw raw).celsius ≡ tenths raw
format-from_raw raw h = text_eq_sound _ _ (holds_below_at _ 1001 raw (omega arith) tenths_table)
