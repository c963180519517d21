-- ===== src/UseCase/ApplyCommand.antt =====
-- application/dto/command.go, application/usecase/apply_command.go: the writes of each command.
pub mod PowerOff
pub mod Device
use oasis_modbus2mqtt.Prelude.{ℕ, ◌-◌, ◌*◌, Bool, true, false, Option, none, some, if◌then◌else◌}
use oasis_modbus2mqtt.Prelude.Errors.{Sentinel, Error, sentinel, wrap}
use Prim.Native.String.{String}
use oasis_modbus2mqtt.Port.{Ctx, Writer, wait}
use oasis_modbus2mqtt.Prelude.Time.{Time, millisecond}
use oasis_modbus2mqtt.Domain.Snapshot.{Snapshot}
use oasis_modbus2mqtt.Domain.Mode.{Mode, apply_to_register}
use oasis_modbus2mqtt.Domain.FanSpeed.{FanSpeed}
use oasis_modbus2mqtt.Domain.OperatingState.{is_transitional}
use oasis_modbus2mqtt.Domain.Temperature.{Temperature, temperature_raw}

-- `dto.Command`: the interface is closed, so its types are the constructors.
pub data Command : Type 0 where
  set_power_command : Bool → Command
  set_mode_command : Mode → Command
  set_temperature_command : Temperature → Command
  set_fan_command : FanSpeed → Command

-- `AddrPowerDev`, `AddrTempTarget`, `AddrFanTarget1` and `AddrDevKeys2`
abbrev pub addr_power_dev : ℕ
addr_power_dev = 2

abbrev pub addr_temp_target : ℕ
addr_temp_target = 31

abbrev pub addr_fan_target1 : ℕ
addr_fan_target1 = 32

abbrev pub addr_dev_keys2 : ℕ
addr_dev_keys2 = 86

-- `DefaultPowerOffPause`
abbrev pub default_power_off_pause : ℕ
default_power_off_pause = 150 * millisecond

-- `transitionGuard`
unfoldable pub transition_guard : Snapshot → Option Error
transition_guard snap =
    if is_transitional snap.operation
    then some (wrap "operation in progress" (sentinel Sentinel.transition_in_progress))
    else none

-- The two ways to go on after a call that returns an error: `if err != nil { return err }`, and
-- the error with a context.
abbrev pub and_then : {S : Type 0} → Option Error × S → (S → Option Error × S) → Option Error × S
and_then (none, s) k = k s
and_then (some e, s) k = (some e, s)

abbrev pub in_context : {S : Type 0} → String → Option Error × S → Option Error × S
in_context context (none, s) = (none, s)
in_context context (some e, s) = (some (wrap context e), s)

-- The dispatcher, the snapshot that `SnapshotProvider` has, the clock, and the world after a wait
-- that ends at a time.
module _ {S : Type 0} (dispatcher : Writer S) (snapshot : S → Snapshot) (now : S → Time)
    (wait_until : Time → S → S) (power_off_pause : ℕ) where
  -- The `select` on `time.After(a.powerOffPause)` and `ctx.Done()`.
  unfoldable pub dwell : Ctx → S → Option Error × S
  dwell ctx s = let (e, t) = wait ctx (now s) power_off_pause in (e, wait_until t s)

  -- `setPower` behind the guard.
  unfoldable pub power_off : Ctx → S → Option Error × S
  power_off ctx s =
      and_then
        (in_context "power off rising-edge write h2"
          (dispatcher.write_holding ctx addr_power_dev 1 s))
        (λ t. and_then (dwell ctx t) (λ u.
          in_context "power off falling-edge write h2"
            (dispatcher.write_holding ctx addr_power_dev 0 u)))

  unfoldable pub power_on : Ctx → S → Option Error × S
  power_on ctx s = in_context "power on write h2" (dispatcher.write_holding ctx addr_power_dev 1 s)

  unfoldable pub set_power : Ctx → Bool → S → Option Error × S
  unfolding power_off power_on
  set_power ctx on s =
      and_then (transition_guard (snapshot s), s)
        (λ t. elim on [ true ↦ power_on ctx t | false ↦ power_off ctx t ])

  unfoldable pub set_mode : Ctx → Mode → S → Option Error × S
  set_mode ctx mode s =
      and_then (transition_guard (snapshot s), s)
        (λ t.
          in_context "set mode modify h86"
            (dispatcher.modify_holding ctx addr_dev_keys2 (λ cur. apply_to_register cur mode) t))

  unfoldable pub set_temperature : Ctx → Temperature → S → Option Error × S
  set_temperature ctx temperature s =
      and_then (transition_guard (snapshot s), s)
        (λ t.
          in_context "set temperature write h31"
            (dispatcher.write_holding ctx addr_temp_target (temperature_raw temperature) t))

  unfoldable pub set_fan : Ctx → FanSpeed → S → Option Error × S
  set_fan ctx speed s =
      and_then (transition_guard (snapshot s), s)
        (λ t.
          in_context "set fan write h32"
            (dispatcher.write_holding ctx addr_fan_target1 speed.value t))

  -- `Apply`
  unfoldable pub apply : Ctx → Option Command → S → Option Error × S
  unfolding set_power set_mode set_temperature set_fan
  apply ctx none s = (some (wrap "nil command" (sentinel Sentinel.invalid_payload)), s)
  apply ctx (some (set_power_command on)) s = set_power ctx on s
  apply ctx (some (set_mode_command mode)) s = set_mode ctx mode s
  apply ctx (some (set_temperature_command temperature)) s = set_temperature ctx temperature s
  apply ctx (some (set_fan_command speed)) s = set_fan ctx speed s
