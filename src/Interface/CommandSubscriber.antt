-- ===== src/Interface/CommandSubscriber.antt =====
-- interface/mqtt/command_subscriber.go: payloads of Home Assistant made into commands. A payload is
-- the text of its bytes.
pub mod Numbers
pub mod Digits
pub mod Start
pub mod Safety
use oasis_modbus2mqtt.Prelude.{
  ℕ, ◌+◌, ◌-◌, ◌*◌, ◌^◌, Bool, true, false, ◌&&◌, Option, none, some, [], ◌∷◌, ltb, leb,
  if◌then◌else◌,
}
use oasis_modbus2mqtt.Prelude.Errors.{Sentinel, Error, sentinel, ok, err}
pub mod Payloads
use oasis_modbus2mqtt.Float64.{Float64}
use oasis_modbus2mqtt.Port.{Ctx}
use oasis_modbus2mqtt.Prelude.Text.{Text, codes, text_eq, to_lower, equal_fold}
use oasis_modbus2mqtt.Prelude.Time.{Time, second}
use oasis_modbus2mqtt.Domain.Mode.{Mode}
use oasis_modbus2mqtt.Domain.FanSpeed.{new_fan_speed}
use oasis_modbus2mqtt.Domain.Temperature.{new_temperature}
use oasis_modbus2mqtt.UseCase.ApplyCommand.{
  Command, set_power_command, set_mode_command, set_temperature_command, set_fan_command,
}

-- The digits of a decimal number behind those that `n` has been made of.
unfoldable pub parse_digits : Text → ℕ → Option ℕ
parse_digits [] n = some n
parse_digits (c ∷ s) n =
    let rest = parse_digits s (n * 10 + (c - b'0')) in
    if leb b'0' c && leb c b'9' then rest else none

-- `strconv.ParseUint(raw, 10, 16)`
unfoldable pub parse_uint : Text → Option ℕ
unfolding parse_digits
parse_uint [] = none
parse_uint (c ∷ s) = elim (parse_digits (c ∷ s) 0) [
  | none ↦ none
  | some n ↦ if ltb n (2 ^ 16) then some n else none
]

-- `context.WithTimeout(context.Background(), handlerTimeout)`
abbrev pub handler_timeout : ℕ
handler_timeout = 10 * second

unfoldable pub handler_ctx : Bool → Time → Ctx
handler_ctx prefer_done now = record {
  done_at = some (now + handler_timeout);
  cause = sentinel Sentinel.deadline_exceeded;
  prefer_done = prefer_done;
}

-- `strconv.ParseFloat`, the applier, the clock, and what a select prefers at the deadline.
module _ {S : Type 0} (parse_float : Text → Option Float64)
    (applier : Ctx → Command → S → Option Error × S) (now : S → Time) (prefer_done : Bool) where
  abbrev pub ctx_at : S → Ctx
  ctx_at s = handler_ctx prefer_done (now s)

  -- Two commands, the second one only if the first has no error.
  abbrev pub apply_two : Ctx → Command → Command → S → S
  apply_two ctx first then_this s = elim (applier ctx first s).0 [
    | none ↦ (applier ctx then_this (applier ctx first s).1).1
    | some e ↦ (applier ctx first s).1
  ]

  unfoldable pub handle_power : Text → S → S
  handle_power raw s =
      if equal_fold raw (codes "ON")
      then (applier (ctx_at s) (set_power_command true) s).1
      else if equal_fold raw (codes "OFF")
      then (applier (ctx_at s) (set_power_command false) s).1
      else s

  unfoldable pub handle_hvac_mode : Text → S → S
  handle_hvac_mode payload s =
      let raw = to_lower payload in
      if text_eq raw (codes "off")
      then (applier (ctx_at s) (set_power_command false) s).1
      else if text_eq raw (codes "heat")
      then apply_two (ctx_at s) (set_power_command true) (set_mode_command Mode.heat) s
      else if text_eq raw (codes "fan_only")
      then apply_two (ctx_at s) (set_power_command true) (set_mode_command Mode.off) s
      else s

  unfoldable pub handle_target_temperature : Text → S → S
  handle_target_temperature raw s = elim (parse_float raw) [
    | none ↦ s
    | some celsius ↦ elim (new_temperature celsius) [
      | ok temp ↦ (applier (ctx_at s) (set_temperature_command temp) s).1
      | err e ↦ s
    ]
  ]

  unfoldable pub handle_fan_target : Text → S → S
  handle_fan_target raw s = elim (parse_uint raw) [
    | none ↦ s
    | some v ↦ elim (new_fan_speed v) [
      | ok speed ↦ (applier (ctx_at s) (set_fan_command speed) s).1
      | err e ↦ s
    ]
  ]

  -- The handler that `Start` subscribes for each object.
  unfoldable pub handle : Text → Text → S → S
  unfolding handle_power handle_hvac_mode handle_target_temperature handle_fan_target
  handle object_id raw s =
      if text_eq object_id (codes "power")
      then handle_power raw s
      else if text_eq object_id (codes "hvac_mode")
      then handle_hvac_mode raw s
      else if text_eq object_id (codes "target_temperature")
      then handle_target_temperature raw s
      else if text_eq object_id (codes "fan_target")
      then handle_fan_target raw s
      else s
