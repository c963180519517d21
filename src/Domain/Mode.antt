-- ===== src/Domain/Mode.antt =====
-- domain/valueobject/mode.go: the mode in the two low bits of Dev_Keys_2. A `Mode` of the program
-- is always one of its four constants: it is made by `NewMode`, `ModeFromRegister` or a literal.
pub mod Bits
use Prim.Native.Nat.{bit_and, bit_or}
use oasis_modbus2mqtt.Prelude.{ℕ, Bool, ◌||◌, [], ◌∷◌, ◌==◌, if◌then◌else◌, get_or}
use oasis_modbus2mqtt.Prelude.Errors.{Sentinel, sentinel, wrap, Result, ok, err}
use oasis_modbus2mqtt.Prelude.Int.{ℤ, pos, pos_part, ltb_ℤ}
use Prim.Native.String.{String}

pub data Mode : Type 0 where
  off heat cool auto : Mode

-- The Go value of a mode.
unfoldable pub mode_value : Mode → ℕ
mode_value off = 0
mode_value heat = 1
mode_value cool = 2
mode_value auto = 3

-- `Mode(v)` for v in [0, 3].
unfoldable pub mode_of : ℕ → Mode
mode_of v = get_or (off ∷ heat ∷ cool ∷ auto ∷ []) v off

unfoldable pub new_mode : ℤ → Result Mode
unfolding mode_of
new_mode v =
    if ltb_ℤ v (pos 0) || ltb_ℤ (pos 3) v
    then err (wrap "mode value out of range" (sentinel Sentinel.invalid_mode))
    else ok (mode_of (pos_part v))

unfoldable pub mode_bits : Mode → ℕ
unfolding mode_value
mode_bits m = bit_and (mode_value m) 0x3

unfoldable pub mode_string : Mode → String
mode_string off = "off"
mode_string heat = "heat"
mode_string cool = "cool"
mode_string auto = "auto"

unfoldable pub mode_from_register : ℕ → Mode
unfolding mode_of
mode_from_register v = mode_of (bit_and v 0x3)

-- `(reg &^ 0x3) | m.Bits()` of a uint16: `&^` clears bits, so it is `&` with the complement.
unfoldable pub apply_to_register : ℕ → Mode → ℕ
unfolding mode_bits
apply_to_register reg m = bit_or (bit_and reg 0xfffc) (mode_bits m)

-- Two modes are the same, as Go's `==` tells.
unfoldable pub mode_eq : Mode → Mode → Bool
unfolding mode_value
mode_eq m n = mode_value m == mode_value n
