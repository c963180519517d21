-- ===== src/Domain/OperatingState/Codes.antt =====
-- The operation codes of State_1.
use oasis_modbus2mqtt.Domain.OperatingState.{
  OperatingState, unknown, all_operating_states, operating_state_from_register, is_transitional,
}
use oasis_modbus2mqtt.Prelude.{
  ℕ, ◌%◌, ◌≤◌, ◌<◌, ◌≡◌, refl, ◌↔◌, inl, inr, Bool, true, false, not, arith, ltb, leb,
  if◌then◌else◌, Bool-cases, holds_below, holds_below_at, get_or,
}

from_low : ℕ → OperatingState
from_low bits = if ltb 12 bits then unknown else get_or all_operating_states bits unknown

is_code : ℕ → Bool
is_code bits =
    if leb 1 bits then is_transitional (from_low bits) else not (is_transitional (from_low bits))

code_table : holds_below is_code 13 ≡ true
unfolding holds_below is_code from_low is_transitional
code_table = refl

above_is_unknown : (bits : ℕ) → 12 < bits → is_transitional (from_low bits) ≡ false
unfolding from_low is_transitional
above_is_unknown bits h = ground arith

transitional_low :
    (bits : ℕ) → (is_transitional (from_low bits) ≡ true) ↔ ((1 ≤ bits) × (bits ≤ 12))
unfolding is_code
transitional_low bits = elim (Bool-cases (ltb 12 bits)) [
  | inl above ↦ ground (arith, above_is_unknown bits)
  | inr below ↦ ground (arith, holds_below_at is_code 13 bits (ground (arith, below)) code_table)
]

-- The controller is in transition exactly when the five low bits of State_1 hold a code from 1 to
-- 12; the higher bits of the register do not matter.
pub transitional_codes :
    (raw : ℕ)
    → (is_transitional (operating_state_from_register raw) ≡ true)
      ↔ ((1 ≤ raw % 32) × (raw % 32 ≤ 12))
unfolding operating_state_from_register from_low
transitional_codes raw = transitional_low (raw % 32)
