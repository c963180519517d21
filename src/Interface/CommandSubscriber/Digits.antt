-- ===== src/Interface/CommandSubscriber/Digits.antt =====
-- The decimal printer and the parser of digits, for every number that fits.
use oasis_modbus2mqtt.Prelude.{
  ℕ, zero, suc, ◌+◌, ◌*◌, ◌/◌, ◌%◌, ◌^◌, ◌<◌, ◌≡◌, ap, ◌∙◌, inl, inr, some, [], ◌∷◌, arith, ltb,
  Bool-cases,
}
use oasis_modbus2mqtt.Prelude.Text.{Text, emit_digits, format_uint}
use oasis_modbus2mqtt.Interface.CommandSubscriber.{parse_digits}

parse_digit :
    (d n : ℕ) (s : Text) → d < 10 → parse_digits ((b'0' + d) ∷ s) n ≡ parse_digits s (n * 10 + d)
unfolding parse_digits
parse_digit d n s h = ground arith

fits : (fuel n : ℕ) → n < 10 ^ suc fuel → n / 10 < 10 ^ fuel
fits fuel n h = omega arith

parse-emit_digits :
    (fuel n : ℕ) (out : Text)
    → n < 10 ^ fuel
    → parse_digits (emit_digits fuel n out) 0 ≡ parse_digits out n
unfolding emit_digits
parse-emit_digits zero n out h = ap (parse_digits out) (omega arith)
parse-emit_digits (suc fuel) n out h = elim (Bool-cases (ltb n 10)) [
  | inl last ↦ rw last (parse_digit n 0 out (ground arith) ∙ ap (parse_digits out) (omega arith))
  | inr more ↦ rw more (
      parse-emit_digits fuel (n / 10) ((b'0' + n % 10) ∷ out) (fits fuel n h)
      ∙ (parse_digit (n % 10) (n / 10) out (omega arith) ∙ ap (parse_digits out) (omega arith)))
]

-- The twenty rounds of the decimal printer are enough for every uint64: the digits that it writes are
-- read back as the number.
pub parse_digits-format_uint : (n : ℕ) → n < 2 ^ 64 → parse_digits (format_uint n) 0 ≡ some n
unfolding format_uint parse_digits
parse_digits-format_uint n h = parse-emit_digits 20 n [] (omega arith)
