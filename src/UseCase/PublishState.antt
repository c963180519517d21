-- ===== src/UseCase/PublishState.antt =====
-- application/usecase/publish_state.go: the retained state of each entity.
pub mod Meaning
use oasis_modbus2mqtt.Prelude.{
  suc, ◌-◌, ◌/◌, Bool, not, Option, none, some, List, [], ◌∷◌, map, ltb, if◌then◌else◌,
}
use oasis_modbus2mqtt.Prelude.Text.{Text, codes, format_uint, format_int, format_hex4}
use oasis_modbus2mqtt.Prelude.Errors.{Error}
use Prim.Native.String.{String}
use oasis_modbus2mqtt.Port.{Ctx}
use oasis_modbus2mqtt.Prelude.Time.{second}
use oasis_modbus2mqtt.Float64.{format_fixed1}
use oasis_modbus2mqtt.Domain.Snapshot.{Snapshot, decode_error_set}
use oasis_modbus2mqtt.Domain.Mode.{Mode, mode_eq}
use oasis_modbus2mqtt.Domain.Firmware.{firmware_string}
use oasis_modbus2mqtt.Domain.OperatingState.{OperatingState, operation_string}
use oasis_modbus2mqtt.Domain.ErrorCode.{is_empty}
use oasis_modbus2mqtt.Domain.Temperature.{Temperature}
use oasis_modbus2mqtt.UseCase.Publish.{Publisher, Message, publish_each}

unfoldable pub format_temperature : Temperature → Text
unfolding format_fixed1
format_temperature t = format_fixed1 t.celsius

abbrev pub bool_to_on_off : Bool → String
bool_to_on_off b = if b then "ON" else "OFF"

abbrev pub bool_to_open_closed : Bool → String
bool_to_open_closed b = if b then "OPEN" else "CLOSED"

unfoldable pub hvac_mode : Snapshot → String
unfolding mode_eq
hvac_mode snap =
    if not snap.power_on
    then "off"
    else if mode_eq snap.current_mode Mode.heat
    then "heat"
    else "fan_only"

-- What the switch of `hvacAction` says of an operation, if anything.
unfoldable pub operation_action : OperatingState → Option String
operation_action OperatingState.preheat_calorifier = some "preheating"
operation_action OperatingState.start_fan = some "fan"
operation_action OperatingState.fan_coastdown = some "fan"
operation_action OperatingState.rotor_spinup = some "fan"
operation_action OperatingState.close_damper = some "idle"
operation_action OperatingState.electric_calorifier_purge = some "idle"
operation_action OperatingState.open_damper = some "idle"
operation_action OperatingState.north_start = some "idle"
operation_action OperatingState.open_hot_water_valve = some "idle"
operation_action OperatingState.close_hot_water_valve = some "idle"
operation_action OperatingState.open_cold_valve = some "idle"
operation_action OperatingState.close_cold_valve = some "idle"
operation_action OperatingState.idle = none
operation_action OperatingState.unknown = none

unfoldable pub hvac_action : Snapshot → String
unfolding operation_action
hvac_action snap = if not snap.power_on then "off" else elim (operation_action snap.operation) [
  | some action ↦ action
  | none ↦ if snap.heater_pwm then "heating" else if ltb 0 snap.fan_state1 then "fan" else "idle"
]

unfoldable pub problem_value : Snapshot → String
problem_value snap = if is_empty (decode_error_set snap) then "OFF" else "ON"

-- The payload of each object, in the order of `buildMessages`. The time left is a whole number of
-- seconds, so that `int(d.Seconds())` is exact.
unfoldable pub payloads : Snapshot → List (String × Text)
payloads snap =
    ("supply_temperature", format_temperature snap.supply_temp)
    ∷ ("filter_clog", format_int snap.filter_pct)
    ∷ ("heat_demand", format_uint snap.pid_demand)
    ∷ ("supply_fan_speed", format_uint snap.fan_state1)
    ∷ ("exhaust_fan_speed", format_uint snap.fan_state2)
    ∷ ("room_temperature", format_temperature snap.room_temp)
    ∷ ("room_humidity", format_uint snap.room_humidity)
    ∷ ("firmware", firmware_string snap.firmware)
    ∷ ("device_id", b'0' ∷ b'x' ∷ format_hex4 snap.device_id)
    ∷ ("operation_time_left", format_uint (snap.operation_time_left / second))
    ∷ ("current_operation", codes (operation_string snap.operation))
    ∷ ("power", codes (bool_to_on_off snap.power_on))
    ∷ ("heater_active", codes (bool_to_on_off snap.heater_pwm))
    ∷ ("damper_open", codes (bool_to_open_closed snap.damper_open))
    ∷ ("problem", codes (problem_value snap))
    ∷ ("hvac_mode", codes (hvac_mode snap))
    ∷ ("target_temperature", format_temperature snap.target_temp)
    ∷ ("fan_target", format_uint snap.fan_target1)
    ∷ ("hvac_action", codes (hvac_action snap))
    ∷ []

abbrev message_of : (String → Text) → String × Text → Message
message_of state (object_id, payload) = record { topic = state object_id; payload = payload }

-- `buildMessages`, with the topic provider's `State`.
unfoldable pub build_messages : (String → Text) → Snapshot → List Message
unfolding payloads
build_messages state snap = map (message_of state) (payloads snap)

-- `Apply`
unfoldable pub publish_state :
    {S : Type 0} → Publisher S → (String → Text) → Ctx → Snapshot → S → List Error × S
unfolding build_messages publish_each
publish_state publish state ctx snap s =
    publish_each "publish state" publish ctx (build_messages state snap) s
