-- ===== src/Domain/OperatingState.antt =====
-- domain/entity/operating_state.go: the operation in bits 0..4 of State_1.
pub mod Codes
use oasis_modbus2mqtt.Prelude.{
  ℕ, ◌%◌, ◌^◌, Bool, true, false, List, [], ◌∷◌, ltb, if◌then◌else◌, get_or,
}
use Prim.Native.String.{String}

pub data OperatingState : Type 0 where
  unknown : OperatingState
  idle open_damper preheat_calorifier start_fan north_start fan_coastdown : OperatingState
  close_damper electric_calorifier_purge : OperatingState
  open_hot_water_valve close_hot_water_valve open_cold_valve close_cold_valve : OperatingState
  rotor_spinup : OperatingState

-- `AllOperatingStates`, in numeric order: the state at index n has the Go value n.
abbrev pub all_operating_states : List OperatingState
all_operating_states =
    idle ∷ open_damper ∷ preheat_calorifier ∷ start_fan ∷ north_start ∷ fan_coastdown ∷ close_damper
    ∷ electric_calorifier_purge ∷ open_hot_water_valve ∷ close_hot_water_valve ∷ open_cold_valve
    ∷ close_cold_valve ∷ rotor_spinup ∷ []

unfoldable pub operating_state_from_register : ℕ → OperatingState
operating_state_from_register raw =
    let bits = raw % 2 ^ 5 in
    if ltb 12 bits then unknown else get_or all_operating_states bits unknown

unfoldable pub operation_string : OperatingState → String
operation_string idle = "idle"
operation_string open_damper = "open_damper"
operation_string preheat_calorifier = "preheat_calorifier"
operation_string start_fan = "start_fan"
operation_string north_start = "north_start"
operation_string fan_coastdown = "fan_coastdown"
operation_string close_damper = "close_damper"
operation_string electric_calorifier_purge = "electric_calorifier_purge"
operation_string open_hot_water_valve = "open_hot_water_valve"
operation_string close_hot_water_valve = "close_hot_water_valve"
operation_string open_cold_valve = "open_cold_valve"
operation_string close_cold_valve = "close_cold_valve"
operation_string rotor_spinup = "rotor_spinup"
operation_string unknown = "unknown"

-- `s != OpIdle && s != OpUnknown`
unfoldable pub is_transitional : OperatingState → Bool
is_transitional idle = false
is_transitional unknown = false
is_transitional _ = true
