-- ===== src/Float64.antt =====
-- Go's float64 (IEEE 754 binary64) and the operations on it that the program uses. Every finite
-- value is a whole multiple of 2 ^ -1074, the least positive one; a number is its sign and that
-- multiple. Results are rounded to 53 significant bits, ties to even.
use oasis_modbus2mqtt.Prelude.{
  ℕ, zero, suc, ◌+◌, ◌-◌, ◌*◌, ◌/◌, ◌%◌, ◌^◌, Bool, true, false, not, ◌&&◌, [], ◌∷◌, ltb, ◌==◌,
  if◌then◌else◌,
}
use oasis_modbus2mqtt.Prelude.Text.{Text, codes, emit_digits}

pub data Float64 : Type 0 where
  nan : Float64
  -- Infinity, negative if the flag is set.
  inf : Bool → Float64
  -- A finite number: is it negative, and its magnitude over 2 ^ -1074.
  fin : Bool → ℕ → Float64

-- 1.0
unfoldable pub unit : ℕ
unit = 2 ^ 1074

-- The number of binary digits of n < 2 ^ (2 ^ i).
unfoldable pub bit_length : ℕ → ℕ → ℕ
bit_length zero n = if n == 0 then 0 else 1
bit_length (suc i) n =
    let k : ℕ = if ltb n (2 ^ (2 ^ i)) then 0 else 2 ^ i in k + bit_length i (n / 2 ^ k)

-- num / den, rounded to the nearest whole number, ties to even.
unfoldable pub round_even : ℕ → ℕ → ℕ
round_even num den =
    let q = num / den in
    let r = num % den in if ltb (2 * r) den then q else if ltb den (2 * r) then q + 1 else q + q % 2

-- The float64 nearest to num / den times 2 ^ -1074.
unfoldable pub nearest : Bool → ℕ → ℕ → Float64
unfolding bit_length round_even
nearest neg num den =
    let s = bit_length 12 (num / den) - 53 in
    let m = round_even num (den * 2 ^ s) * 2 ^ s in if ltb m (2 ^ 2098) then fin neg m else inf neg

-- `float64(n)` of an unsigned integer.
unfoldable pub of_nat : ℕ → Float64
unfolding nearest unit
of_nat n = nearest false (n * unit) 1

abbrev pub diff : Bool → Bool → Bool
diff true b = not b
diff false b = b

unfoldable pub mul : Float64 → Float64 → Float64
unfolding nearest unit
mul nan y = nan
mul (inf s) nan = nan
mul (inf s) (inf t) = inf (diff s t)
mul (inf s) (fin t b) = if b == 0 then nan else inf (diff s t)
mul (fin s a) nan = nan
mul (fin s a) (inf t) = if a == 0 then nan else inf (diff s t)
mul (fin s a) (fin t b) = nearest (diff s t) (a * b) unit

unfoldable pub div : Float64 → Float64 → Float64
unfolding nearest unit
div nan y = nan
div (inf s) nan = nan
div (inf s) (inf t) = nan
div (inf s) (fin t b) = inf (diff s t)
div (fin s a) nan = nan
div (fin s a) (inf t) = fin (diff s t) 0
div (fin s a) (fin t b) =
    if b == 0 then if a == 0 then nan else inf (diff s t) else nearest (diff s t) (a * unit) b

-- The sum of two finite numbers; it is +0 if they cancel.
abbrev add_finite : Bool → ℕ → Bool → ℕ → Float64
add_finite s a t b =
    if diff s t
    then if ltb b a
      then nearest s (a - b) 1
      else if ltb a b
      then nearest t (b - a) 1
      else fin false 0
    else nearest s (a + b) 1

unfoldable pub add : Float64 → Float64 → Float64
unfolding nearest
add nan y = nan
add (inf s) nan = nan
add (inf s) (inf t) = if diff s t then nan else inf s
add (inf s) (fin t b) = inf s
add (fin s a) nan = nan
add (fin s a) (inf t) = inf t
add (fin s a) (fin t b) = add_finite s a t b

unfoldable pub negate : Float64 → Float64
negate nan = nan
negate (inf s) = inf (not s)
negate (fin s a) = fin (not s) a

-- The two parts of a finite number: one of them is 0.
abbrev pub pos_part : Bool → ℕ → ℕ
pos_part neg m = if neg then 0 else m

abbrev pub neg_part : Bool → ℕ → ℕ
neg_part neg m = if neg then m else 0

-- `x < y`
unfoldable pub less : Float64 → Float64 → Bool
less nan y = false
less (inf s) nan = false
less (inf s) (inf t) = s && not t
less (inf s) (fin t b) = s
less (fin s a) nan = false
less (fin s a) (inf t) = not t
less (fin s a) (fin t b) = ltb (pos_part s a + neg_part t b) (pos_part t b + neg_part s a)

-- `math.IsNaN` and `math.IsInf(x, 0)`
unfoldable pub is_nan : Float64 → Bool
is_nan nan = true
is_nan (inf s) = false
is_nan (fin s a) = false

unfoldable pub is_inf : Float64 → Bool
is_inf nan = false
is_inf (inf s) = true
is_inf (fin s a) = false

-- A magnitude rounded to whole ones, halves away from zero.
unfoldable pub whole : ℕ → ℕ
unfolding unit
whole a = (2 * a + unit) / (2 * unit)

-- `math.Round`
unfoldable pub round : Float64 → Float64
unfolding whole unit
round nan = nan
round (inf s) = inf s
round (fin s a) = fin s (whole a * unit)

-- `uint16(x)` of a whole number from 0 to 65535; Go leaves other values to the implementation.
unfoldable pub to_uint16 : Float64 → ℕ
unfolding unit
to_uint16 nan = 0
to_uint16 (inf s) = 0
to_uint16 (fin s a) = a / unit % 2 ^ 16

-- `fmt.Sprintf("%.1f", x)`; a float64 has at most 309 digits before the point.
unfoldable pub format_fixed1 : Float64 → Text
unfolding round_even unit emit_digits
format_fixed1 nan = codes "NaN"
format_fixed1 (inf s) = if s then codes "-Inf" else codes "+Inf"
format_fixed1 (fin s a) =
    let n = round_even (a * 10) unit in
    let digits = emit_digits 320 (n / 10) (b'.' ∷ (b'0' + n % 10) ∷ []) in
    if s then b'-' ∷ digits else digits
