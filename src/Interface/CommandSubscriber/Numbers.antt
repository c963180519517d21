-- ===== src/Interface/CommandSubscriber/Numbers.antt =====
-- Fan speeds as payloads.
use oasis_modbus2mqtt.Prelude.{
  ℕ, ◌≡◌, refl, ap, ◌∙◌, ◌<◌, Bool, true, false, ◌&&◌, Option, none, some, arith, leb, ◌==◌, ==_iff,
  if◌then◌else◌, holds_below, holds_below_at,
}
use oasis_modbus2mqtt.Prelude.Text.{Text, format_uint}
use oasis_modbus2mqtt.Prelude.Errors.{Error, ok, err}
use oasis_modbus2mqtt.Prelude.Time.{Time}
use oasis_modbus2mqtt.Float64.{Float64}
use oasis_modbus2mqtt.Port.{Ctx}
use oasis_modbus2mqtt.Domain.FanSpeed.{new_fan_speed}
use oasis_modbus2mqtt.UseCase.ApplyCommand.{Command, set_fan_command}
use oasis_modbus2mqtt.Interface.CommandSubscriber.{parse_uint, handler_ctx, handle_fan_target}

abbrev is_some_of : ℕ → Option ℕ → Bool
is_some_of n none = false
is_some_of n (some m) = m == n

is_some_of_sound : (n : ℕ) (o : Option ℕ) → is_some_of n o ≡ true → o ≡ some n
is_some_of_sound n none h = cc
is_some_of_sound n (some m) h = ap some ((==_iff m n).0 h)

uint_table : holds_below (λ n. is_some_of n (parse_uint (format_uint n))) 65536 ≡ true
unfolding holds_below parse_uint format_uint
uint_table = refl

parse_uint-format_uint : (n : ℕ) → n < 65536 → parse_uint (format_uint n) ≡ some n
parse_uint-format_uint n h =
    is_some_of_sound n _
      (holds_below_at (λ m. is_some_of m (parse_uint (format_uint m))) 65536 n h uint_table)

module _ {S : Type 0} (parse_float : Text → Option Float64)
    (applier : Ctx → Command → S → Option Error × S) (now : S → Time) (prefer_done : Bool) where
  abbrev heard : Option ℕ → S → S
  heard o s = elim o [
    | none ↦ s
    | some v ↦ elim (new_fan_speed v) [
      | ok speed ↦ (applier (handler_ctx prefer_done (now s)) (set_fan_command speed) s).1
      | err e ↦ s
    ]
  ]

  checked :
      (n : ℕ) (s : S)
      → heard (some n) s ≡ (
          if leb 1 n && leb n 10
          then (applier
              (handler_ctx prefer_done (now s))
              (set_fan_command (record { value = n }))
              s).1
          else s)
  unfolding new_fan_speed
  checked n s = ground arith

  -- A fan speed that is published as a uint16 and sent back as a command sets exactly that speed if
  -- it is one of 1 to 10, and does nothing otherwise.
  pub handle_fan_target-format_uint :
      (n : ℕ) (s : S)
      → n < 65536
      → handle_fan_target parse_float applier now prefer_done (format_uint n) s ≡ (
          if leb 1 n && leb n 10
          then (applier
              (handler_ctx prefer_done (now s))
              (set_fan_command (record { value = n }))
              s).1
          else s)
  unfolding handle_fan_target
  handle_fan_target-format_uint n s h =
      ap (λ o. heard o s) (parse_uint-format_uint n h) ∙ checked n s
