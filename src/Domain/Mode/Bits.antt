-- ===== src/Domain/Mode/Bits.antt =====
-- What the mode bits of Dev_Keys_2 read back as, and what a change of mode keeps.
use Prim.Native.Nat.{bit_and, bit_or}
use oasis_modbus2mqtt.Domain.Mode.{
  Mode, off, heat, cool, auto, mode_value, mode_of, mode_from_register, apply_to_register,
}
use oasis_modbus2mqtt.Prelude.{
  ℕ, ◌+◌, ◌*◌, ◌/◌, ◌%◌, ◌<◌, ◌≡◌, refl, ap, ◌∙◌, Bool, true, arith, ◌==◌, ==_iff, holds_below,
  holds_below_at,
}

-- Setting the two low bits of every 16-bit word, by evaluation.
abbrev sets_to : ℕ → Bool
sets_to bits = holds_below (λ r. bit_or (bit_and r 0xfffc) bits == r / 4 * 4 + bits) 65536

sets_to_table : (sets_to 0 ≡ true) × (sets_to 1 ≡ true) × (sets_to 2 ≡ true) × (sets_to 3 ≡ true)
unfolding holds_below
sets_to_table = (refl, refl, refl, refl)

sets_to_sound :
    (reg bits : ℕ)
    → sets_to bits ≡ true
    → reg < 65536
    → bit_or (bit_and reg 0xfffc) bits ≡ reg / 4 * 4 + bits
sets_to_sound reg bits table h = (==_iff _ _).0 (holds_below_at _ 65536 reg h table)

-- The two low bits are those of the mode, and the other fourteen are kept.
pub apply_to_register_lem :
    (reg : ℕ) (m : Mode) → reg < 65536 → apply_to_register reg m ≡ reg / 4 * 4 + mode_value m
unfolding apply_to_register mode_value
apply_to_register_lem reg off h = sets_to_sound reg 0 sets_to_table.0 h
apply_to_register_lem reg heat h = sets_to_sound reg 1 sets_to_table.1 h
apply_to_register_lem reg cool h = sets_to_sound reg 2 sets_to_table.2 h
apply_to_register_lem reg auto h = sets_to_sound reg 3 sets_to_table.3 h

low_table : holds_below (λ r. bit_and r 3 == r % 4) 65536 ≡ true
unfolding holds_below
low_table = refl

pub mode_from_register_lem : (v : ℕ) → v < 65536 → mode_from_register v ≡ mode_of (v % 4)
unfolding mode_from_register mode_of
mode_from_register_lem v h = rw ((==_iff _ _).0 (holds_below_at _ 65536 v h low_table))

pub mode_of-mode_value : (m : Mode) → mode_of (mode_value m) ≡ m
unfolding mode_of mode_value
mode_of-mode_value off = refl
mode_of-mode_value heat = refl
mode_of-mode_value cool = refl
mode_of-mode_value auto = refl

pub mode_value-lt : (m : Mode) → mode_value m < 4
unfolding mode_value
mode_value-lt off = omega arith
mode_value-lt heat = omega arith
mode_value-lt cool = omega arith
mode_value-lt auto = omega arith

-- Changing the mode in a uint16 register gives a uint16 in which that mode is read back and every
-- bit above the lowest two is as before.
pub mode-apply_to_register :
    (reg : ℕ) (m : Mode)
    → reg < 65536
    → (mode_from_register (apply_to_register reg m) ≡ m)
      × (apply_to_register reg m / 4 ≡ reg / 4)
      × (apply_to_register reg m < 65536)
mode-apply_to_register reg m h =
    let e = apply_to_register_lem reg m h in
    let low = mode_value-lt m in
    let fits : apply_to_register reg m < 65536 = omega (arith, e, low) in
    let bits : apply_to_register reg m % 4 ≡ mode_value m = omega (arith, e, low) in
    (
      mode_from_register_lem _ fits ∙ ap mode_of bits ∙ mode_of-mode_value m,
      omega (arith, e, low),
      fits,
    )
