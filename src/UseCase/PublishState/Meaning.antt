-- ===== src/UseCase/PublishState/Meaning.antt =====
-- What the published states say of the registers.
use oasis_modbus2mqtt.Prelude.{
  ◌<◌, ◌≡◌, refl, ◌↔◌, ◌⊎◌, Bool, true, false, not, none, some, ltb, if◌then◌else◌,
}
use Prim.Native.String.{String}
use oasis_modbus2mqtt.Domain.Snapshot.{Snapshot, decode_error_set}
use oasis_modbus2mqtt.Domain.OperatingState.{OperatingState, is_transitional}
use oasis_modbus2mqtt.Domain.ErrorCode.{is_empty, decode_errors}
use oasis_modbus2mqtt.Domain.ErrorCode.Emptiness.{no_errors_iff}
use oasis_modbus2mqtt.UseCase.PublishState.{hvac_action, operation_action, problem_value}

off_iff : (b : Bool) → (if◌then◌else◌ {A = String} b "OFF" "ON" ≡ "OFF") ↔ (b ≡ true)
off_iff true = (λ h. refl, λ h. refl)
off_iff false = (λ h. cc, λ h. cc)

-- The problem sensor is OFF exactly when all four error registers are zero, save for bit 12 of
-- the first and bit 6 of the fourth, for which there is no message.
pub problem_off_iff :
    (snap : Snapshot)
    → snap.raw_error0 < 65536
    → snap.raw_error1 < 65536
    → snap.raw_error2 < 65536
    → snap.raw_error3 < 65536
    → (problem_value snap ≡ "OFF") ↔ (
        ((snap.raw_error0 ≡ 0) ⊎ (snap.raw_error0 ≡ 4096))
        × ((snap.raw_error1 ≡ 0)
            × ((snap.raw_error2 ≡ 0) × ((snap.raw_error3 ≡ 0) ⊎ (snap.raw_error3 ≡ 64)))))
unfolding problem_value decode_error_set
problem_off_iff snap h0 h1 h2 h3 =
    let n =
      no_errors_iff snap.raw_error0 snap.raw_error1 snap.raw_error2 snap.raw_error3 h0 h1 h2 h3 in
    let said =
      off_iff (
        is_empty (decode_errors snap.raw_error0 snap.raw_error1 snap.raw_error2 snap.raw_error3)) in
    (λ h. n.0 (said.0 h), λ h. said.1 (n.1 h))

-- An action is chosen from the power, the operation, the heater and the fan.
abbrev chosen : Bool → OperatingState → Bool → Bool → String
chosen on op pwm spins = if not on then "off" else elim (operation_action op) [
  | some action ↦ action
  | none ↦ if pwm then "heating" else if spins then "fan" else "idle"
]

chosen_heating :
    (on : Bool) (op : OperatingState) (pwm spins : Bool)
    → (chosen on op pwm spins ≡ "heating")
      ↔ ((on ≡ true) × (is_transitional op ≡ false) × (pwm ≡ true))
unfolding is_transitional operation_action
chosen_heating false op pwm spins = (λ h. cc, λ h. cc (h.0))
chosen_heating true OperatingState.idle true spins = (λ h. (refl, refl, refl), λ h. refl)
chosen_heating true OperatingState.unknown true spins = (λ h. (refl, refl, refl), λ h. refl)
chosen_heating true OperatingState.idle false true = (λ h. cc, λ h. cc (h.2))
chosen_heating true OperatingState.idle false false = (λ h. cc, λ h. cc (h.2))
chosen_heating true OperatingState.unknown false true = (λ h. cc, λ h. cc (h.2))
chosen_heating true OperatingState.unknown false false = (λ h. cc, λ h. cc (h.2))
chosen_heating true _ pwm spins = (λ h. cc, λ h. cc (h.1))

-- The action is "heating" exactly when the unit is on, the heater is driven and no operation is
-- in transition.
pub heating_iff :
    (snap : Snapshot)
    → (hvac_action snap ≡ "heating") ↔ (
        (snap.power_on ≡ true)
        × (is_transitional snap.operation ≡ false)
        × (snap.heater_pwm ≡ true))
unfolding hvac_action
heating_iff snap =
    chosen_heating snap.power_on snap.operation snap.heater_pwm (ltb 0 snap.fan_state1)
