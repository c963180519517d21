-- ===== src/DiscoveryBuilder/Values.antt =====
-- The values that the discovery configs allow beside those that the bridge publishes and accepts.
use oasis_modbus2mqtt.Prelude.{
  ◌<◌, ◌↔◌, arith, ◌≡◌, refl, ◌⊎◌, inl, inr, Bool, true, false, not, Option, some, List, [], ◌∷◌,
  map, All, Among, if◌then◌else◌, Bool-cases,
}
use oasis_modbus2mqtt.Prelude.Text.{Text, codes, format_uint}
use oasis_modbus2mqtt.Prelude.Dict.{lookup}
use Prim.Native.String.{String}
use oasis_modbus2mqtt.Config.{HaConfig}
use oasis_modbus2mqtt.Domain.Snapshot.{Snapshot, decode_error_set}
use oasis_modbus2mqtt.Domain.ErrorCode.{is_empty}
use oasis_modbus2mqtt.Domain.Mode.{Mode, mode_eq}
use oasis_modbus2mqtt.Mqtt.Topics.{TopicBuilder}
use oasis_modbus2mqtt.UseCase.PublishState.{
  payloads, bool_to_on_off, bool_to_open_closed, problem_value, hvac_mode,
}
use oasis_modbus2mqtt.DiscoveryBuilder.{climate_payload, switch_payload, binary_sensor_payload}
use oasis_modbus2mqtt.Prelude.Errors.{ok}
use oasis_modbus2mqtt.Domain.FanSpeed.{FanSpeed, new_fan_speed}
use oasis_modbus2mqtt.DiscoveryBuilder.Limits.{fan_modes_iff}
use oasis_modbus2mqtt.DiscoveryBuilder.Configs.{configs}
use oasis_modbus2mqtt.DiscoveryBuilder.Payloads.{
  Payload, sensor_config, binary_sensor_config, switch_config, climate_config,
}

-- What is published for an object.
abbrev pub by_object : List (String × Text) → List (Text × Text)
by_object [] = []
by_object ((o, p) ∷ rest) = (codes o, p) ∷ by_object rest

unfoldable pub published : String → Snapshot → Option Text
unfolding lookup payloads
published object_id snap = lookup (codes object_id) (by_object (payloads snap))

-- One of two values.
abbrev pub EitherOf : Option Text → Text → Text → Type 0
EitherOf o on off = (o ≡ some on) ⊎ (o ≡ some off)

-- The config of a binary sensor or of a switch names two payloads, one of which is published. That of
-- the climate entity lists modes, one of which is published, and fan modes, of which the published
-- speed is one just when `NewFanSpeed` accepts it. The config of a sensor names no values.
abbrev pub Fits : Payload → String → Snapshot → Type 0
Fits (sensor_config p) object_id snap = Unit
Fits (binary_sensor_config p) object_id snap =
    EitherOf (published object_id snap) p.payload_on p.payload_off
Fits (switch_config p) object_id snap =
    EitherOf (published object_id snap) p.payload_on p.payload_off
Fits (climate_config p) object_id snap =
    ((mode : Text) × (published "hvac_mode" snap ≡ some mode) × Among mode p.modes)
    × ((speed : Text) × (published "fan_target" snap ≡ some speed)
        × (Among speed p.fan_modes ↔ ((s : FanSpeed) × (new_fan_speed snap.fan_target1 ≡ ok s))))

on_off : (b : Bool) → EitherOf (some (codes (bool_to_on_off b))) (codes "ON") (codes "OFF")
on_off true = inl refl
on_off false = inr refl

open_closed :
    (b : Bool) → EitherOf (some (codes (bool_to_open_closed b))) (codes "OPEN") (codes "CLOSED")
open_closed true = inl refl
open_closed false = inr refl

problem_fits :
    (snap : Snapshot) → EitherOf (some (codes (problem_value snap))) (codes "ON") (codes "OFF")
unfolding problem_value
problem_fits snap = elim (Bool-cases (is_empty (decode_error_set snap))) [
  | inl none_found ↦ rw none_found (inr refl)
  | inr found ↦ rw found (inl refl)
]

modes : List Text
modes = map codes ("off" ∷ "heat" ∷ "fan_only" ∷ [])

mode-Among :
    (on heats : Bool)
    → Among (codes (if not on then "off" else if heats then "heat" else "fan_only")) modes
unfolding modes
mode-Among false heats = inl refl
mode-Among true true = inr (inl refl)
mode-Among true false = inr (inr (inl refl))

module _ (topics : TopicBuilder) (ha_cfg : HaConfig) (firmware : Text) where
  mode-listed :
      (snap : Snapshot)
      → Among (codes (hvac_mode snap)) (climate_payload topics ha_cfg firmware).modes
  unfolding climate_payload hvac_mode modes
  mode-listed snap = mode-Among snap.power_on (mode_eq snap.current_mode Mode.heat)

  climate-Fits :
      (snap : Snapshot)
      → snap.fan_target1 < 65536
      → Fits (climate_config (climate_payload topics ha_cfg firmware)) "climate" snap
  unfolding published hvac_mode modes
  climate-Fits snap small = (
    (codes (hvac_mode snap), refl, mode-listed snap),
    (
      format_uint snap.fan_target1,
      refl,
      fan_modes_iff topics ha_cfg firmware snap.fan_target1 (omega arith),
    ),
  )

  -- Whatever the snapshot, its fan speed being a uint16: the state that is published for each binary
  -- sensor and for the switch is one of the two payloads that its config names; the published mode
  -- is one of those that the climate config lists; and the published fan speed is one of the fan
  -- modes that the climate config lists just when it is one that `NewFanSpeed` accepts. Of the
  -- configs of sensors nothing is said.
  pub states_fit :
      (snap : Snapshot)
      → snap.fan_target1 < 65536
      → All (λ a. Fits a.payload a.object_id snap) (configs topics ha_cfg firmware)
  unfolding configs published switch_payload binary_sensor_payload
  states_fit snap small = (
    tt,
    (
      tt,
      (
        tt,
        (
          tt,
          (
            tt,
            (
              tt,
              (
                tt,
                (
                  tt,
                  (
                    tt,
                    (
                      tt,
                      (
                        on_off snap.power_on,
                        (
                          climate-Fits snap small,
                          (
                            on_off snap.heater_pwm,
                            (open_closed snap.damper_open, (problem_fits snap, (tt, tt))),
                          ),
                        ),
                      ),
                    ),
                  ),
                ),
              ),
            ),
          ),
        ),
      ),
    ),
  )
