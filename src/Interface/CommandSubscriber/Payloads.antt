-- ===== src/Interface/CommandSubscriber/Payloads.antt =====
-- What reaches the applier.
use oasis_modbus2mqtt.Prelude.{
  ℕ, ◌≤◌, ◌≡◌, refl, ◌⊎◌, inl, inr, Bool, true, false, Option, none, some, if◌then◌else◌,
}
use oasis_modbus2mqtt.Prelude.Text.{Text, codes, text_eq, to_lower, equal_fold}
use oasis_modbus2mqtt.Prelude.Errors.{Error, Result, ok, err}
use oasis_modbus2mqtt.Float64.{Float64}
use oasis_modbus2mqtt.Port.{Ctx}
use oasis_modbus2mqtt.Prelude.Time.{Time}
use oasis_modbus2mqtt.Domain.Mode.{Mode}
use oasis_modbus2mqtt.Domain.FanSpeed.{FanSpeed, new_fan_speed}
use oasis_modbus2mqtt.Domain.FanSpeed.Bounds.{InRange, new_fan_speed-InRange}
use oasis_modbus2mqtt.Domain.Temperature.{Temperature, new_temperature, temperature_raw}
use oasis_modbus2mqtt.Domain.Temperature.Encoding.{temperature_raw_bounds}
use oasis_modbus2mqtt.UseCase.ApplyCommand.{
  Command, set_power_command, set_mode_command, set_temperature_command, set_fan_command,
}
use oasis_modbus2mqtt.Interface.CommandSubscriber.{
  apply_two, parse_uint, handle_power, handle_hvac_mode, handle_target_temperature,
  handle_fan_target, handle,
}

-- A command that Home Assistant may give: no mode but heating and ventilation, and a target
-- temperature and fan speed within the limits of their registers.
abbrev pub IsAllowed : Command → Type 0
IsAllowed (set_power_command on) = Unit
IsAllowed (set_mode_command m) = (m ≡ Mode.heat) ⊎ (m ≡ Mode.off)
IsAllowed (set_temperature_command t) = (50 ≤ temperature_raw t) × (temperature_raw t ≤ 300)
IsAllowed (set_fan_command f) = InRange f

if-preserves :
    {S : Type 0} (P : S → Type 0) (b : Bool) (s t : S) → P s → P t → P (if b then s else t)
if-preserves P true s t p q = p
if-preserves P false s t p q = q

either-preserves :
    {S : Type 0} (P : S → Type 0) (o : Option Error) (s t : S)
    → P s
    → P t
    → P (elim o [ none ↦ s | some e ↦ t ])
either-preserves P none s t p q = p
either-preserves P (some e) s t p q = q

module _ {S : Type 0} (parse_float : Text → Option Float64)
    (applier : Ctx → Command → S → Option Error × S) (now : S → Time) (prefer_done : Bool)
    (P : S → Type 0)
    (keeps : (ctx : Ctx) (c : Command) (s : S) → IsAllowed c → P s → P (applier ctx c s).1) where
  apply_two-preserves :
      (ctx : Ctx) (c d : Command) (s : S)
      → IsAllowed c
      → IsAllowed d
      → P s
      → P (apply_two parse_float applier now prefer_done ctx c d s)
  apply_two-preserves ctx c d s hc hd p =
      either-preserves P (applier ctx c s).0 (applier ctx d (applier ctx c s).1).1
        (applier ctx c s).1 (keeps ctx d _ hd (keeps ctx c s hc p)) (keeps ctx c s hc p)

  power-preserves :
      (raw : Text) (s : S) → P s → P (handle_power parse_float applier now prefer_done raw s)
  unfolding handle_power
  power-preserves raw s p =
      if-preserves P (equal_fold raw (codes "ON")) _ _ (keeps _ (set_power_command true) s tt p) (
        if-preserves P (equal_fold raw (codes "OFF")) _ _ (keeps _ (set_power_command false) s tt p)
          p)

  hvac_mode-preserves :
      (raw : Text) (s : S) → P s → P (handle_hvac_mode parse_float applier now prefer_done raw s)
  unfolding handle_hvac_mode
  hvac_mode-preserves raw s p =
      if-preserves P (text_eq (to_lower raw) (codes "off")) _ _
        (keeps _ (set_power_command false) s tt p)
        (if-preserves P (text_eq (to_lower raw) (codes "heat")) _ _
          (apply_two-preserves _ (set_power_command true) (set_mode_command Mode.heat) s tt
            (inl refl) p)
          (if-preserves P (text_eq (to_lower raw) (codes "fan_only")) _ _
            (apply_two-preserves _ (set_power_command true) (set_mode_command Mode.off) s tt
              (inr refl) p)
            p))

  heard_temperature :
      (celsius : Float64) (r : Result Temperature) (ctx : Ctx) (s : S)
      → new_temperature celsius ≡ r
      → P s
      → P (elim r [ ok temp ↦ (applier ctx (set_temperature_command temp) s).1 | err e ↦ s ])
  heard_temperature celsius (ok temp) ctx s h p =
      keeps ctx (set_temperature_command temp) s (temperature_raw_bounds celsius h) p
  heard_temperature celsius (err e) ctx s h p = p

  heard_celsius :
      (o : Option Float64) (ctx : Ctx) (s : S)
      → P s
      → P (elim o [
        | none ↦ s
        | some celsius ↦ elim (new_temperature celsius) [
          | ok temp ↦ (applier ctx (set_temperature_command temp) s).1
          | err e ↦ s
        ]
      ])
  heard_celsius none ctx s p = p
  heard_celsius (some celsius) ctx s p =
      heard_temperature celsius (new_temperature celsius) ctx s refl p

  heard_speed :
      (v : ℕ) (r : Result FanSpeed) (ctx : Ctx) (s : S)
      → new_fan_speed v ≡ r
      → P s
      → P (elim r [ ok speed ↦ (applier ctx (set_fan_command speed) s).1 | err e ↦ s ])
  heard_speed v (ok speed) ctx s h p =
      keeps ctx (set_fan_command speed) s (new_fan_speed-InRange v h).0 p
  heard_speed v (err e) ctx s h p = p

  heard_uint :
      (o : Option ℕ) (ctx : Ctx) (s : S)
      → P s
      → P (elim o [
        | none ↦ s
        | some v ↦ elim (new_fan_speed v) [
          | ok speed ↦ (applier ctx (set_fan_command speed) s).1
          | err e ↦ s
        ]
      ])
  heard_uint none ctx s p = p
  heard_uint (some v) ctx s p = heard_speed v (new_fan_speed v) ctx s refl p

  -- Whatever payload arrives for whatever object, what the applier preserves under allowed commands
  -- is preserved: no other command reaches it.
  pub handle-preserves :
      (object_id raw : Text) (s : S)
      → P s
      → P (handle parse_float applier now prefer_done object_id raw s)
  unfolding handle handle_target_temperature handle_fan_target
  handle-preserves object_id raw s p =
      if-preserves P (text_eq object_id (codes "power")) _ _ (power-preserves raw s p) (
        if-preserves P (text_eq object_id (codes "hvac_mode")) _ _ (hvac_mode-preserves raw s p) (
          if-preserves P (text_eq object_id (codes "target_temperature")) _ _
            (heard_celsius (parse_float raw) _ s p)
            (if-preserves P (text_eq object_id (codes "fan_target")) _ _
              (heard_uint (parse_uint raw) _ s p) p)))
