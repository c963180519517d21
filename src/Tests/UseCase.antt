-- ===== src/Tests/UseCase.antt =====
-- The use cases and the command subscriber on a controller.
use oasis_modbus2mqtt.Prelude.{
  ℕ, ◌≡◌, refl, ◌+◌, true, false, Option, none, some, List, [], ◌∷◌, arith, ◌==◌, if◌then◌else◌,
}
use oasis_modbus2mqtt.Prelude.Text.{Text, codes}
use oasis_modbus2mqtt.Prelude.Errors.{Sentinel, Error, sentinel, ok, errors_is}
use oasis_modbus2mqtt.Float64.{Float64, of_nat}
use oasis_modbus2mqtt.Port.{Ctx, Reader}
use oasis_modbus2mqtt.Domain.Mode.{Mode}
use oasis_modbus2mqtt.Domain.OperatingState.{OperatingState, is_transitional}
use oasis_modbus2mqtt.Domain.Snapshot.{Snapshot, empty_snapshot}
use oasis_modbus2mqtt.Service.Poller.{Tier, hot, medium, slow, new_poller}
use oasis_modbus2mqtt.Service.Poller.Latest.{newest_time, after, outcomes}
use oasis_modbus2mqtt.Prelude.{◌++◌, ◌&&◌, leb}
use oasis_modbus2mqtt.Prelude.Text.{format_uint}
use oasis_modbus2mqtt.Domain.Catalog.{registers_by_group}
use oasis_modbus2mqtt.UseCase.PollController.{
  poll_hot, poll_medium, poll_slow, hot_snapshot, medium_snapshot, slow_snapshot, read_three,
  read_block, check_block,
}
use oasis_modbus2mqtt.UseCase.PollController.Groups.{bank_reader, poll_group}
use oasis_modbus2mqtt.UseCase.PollController.Lengths.{Decodes, poll-Decodes}
use oasis_modbus2mqtt.Interface.CommandSubscriber.{handler_ctx, handle_fan_target}
use oasis_modbus2mqtt.Interface.CommandSubscriber.Numbers.{handle_fan_target-format_uint}
use oasis_modbus2mqtt.UseCase.ApplyCommand.{set_fan_command}
use oasis_modbus2mqtt.UseCase.PollController.Bank.{window, IsBank, controller_view}
use oasis_modbus2mqtt.UseCase.PollController.View.{poll_fns, latest-controller_view}
use oasis_modbus2mqtt.UseCase.ApplyCommand.{Command, set_power_command, set_mode_command, apply}
use oasis_modbus2mqtt.UseCase.ApplyCommand.Device.{
  Device, device_writer, apply_to_device, commanded, writes, transition_refuses, apply-view,
}
use oasis_modbus2mqtt.UseCase.ApplyCommand.PowerOff.{IsEdge, power_off_edges}
use oasis_modbus2mqtt.Interface.CommandSubscriber.Safety.{
  IsSafe, after_messages, after_messages-IsSafe,
}

abbrev forever : Ctx
forever = record { done_at = none; cause = sentinel Sentinel.canceled; prefer_done = false }

-- A controller whose register n holds n; the state is the number of reads.
abbrev register : ℕ → ℕ
register n = n

abbrev bank : Reader ℕ
bank = record {
  read_input = λ ctx start count s. (ok (window register start count), s + 1);
  read_holding = λ ctx start count s. (ok (window register start count), s + 1);
}

abbrev rounds : List (Ctx × Tier)
rounds = (forever, medium) ∷ (forever, slow) ∷ (forever, hot) ∷ []

bank-IsBank : IsBank bank register register
bank-IsBank = record {
  input_read = λ ctx start count s. refl;
  holding_read = λ ctx start count s. refl;
}

latest-controller_view_example :
    (after (poll_fns bank (λ s. s)) (λ s. s) rounds (new_poller 0)).latest
    ≡ controller_view register register
        (newest_time (outcomes (poll_fns bank (λ s. s)) (λ s. s) rounds (new_poller 0)))
latest-controller_view_example =
    latest-controller_view bank (λ s. s) register register bank-IsBank rounds (new_poller 0)
      (unfold new_poller in refl) refl refl refl

abbrev device : Device
device = record { holding = register; accepted = []; asked = 0; clock = 5 }

-- The snapshots of an idle controller and of one that opens its damper.
abbrev quiet : Device → Snapshot
quiet d = record empty_snapshot { operation = OperatingState.idle }

abbrev opening : Device → Snapshot
opening d = record empty_snapshot { operation = OperatingState.open_damper }

-- Refuses the second request.
abbrev respond : ℕ → Option Error
respond n = if n == 1 then some (sentinel Sentinel.timeout) else none

transition_refuses_example :
    (e : Error) × (apply
        (device_writer respond)
        opening
        (λ d. d.clock)
        (λ t d. record d { clock = t })
        150
        forever
        (some (set_power_command true))
        device
      ≡ (some e, device))
    × (errors_is e Sentinel.transition_in_progress ≡ true)
transition_refuses_example =
    transition_refuses (device_writer respond) opening (λ d. d.clock)
      (λ t d. record d { clock = t }) 150 forever (set_power_command true) device
      (unfold is_transitional in refl)

apply-view_example :
    ((apply_to_device quiet (λ n. none) forever (set_mode_command Mode.heat) device).0 ≡ none)
    × ((apply_to_device quiet (λ n. none) forever (set_mode_command Mode.heat) device).1.accepted
        ≡ writes (set_mode_command Mode.heat) device ++ device.accepted)
    × (controller_view register
          (apply_to_device quiet (λ n. none) forever (set_mode_command Mode.heat) device).1.holding
          9
        ≡ commanded (set_mode_command Mode.heat) (controller_view register register 9))
apply-view_example =
    apply-view quiet forever (set_mode_command Mode.heat) device register 9
      (unfold is_transitional in refl) refl (omega arith)

power_off_edges_example :
    IsEdge [] 5 (apply_to_device quiet respond forever (set_power_command false) device)
power_off_edges_example =
    power_off_edges quiet respond forever device (unfold is_transitional in refl)

-- Parses no number but one.
abbrev parse_float : Text → Option Float64
parse_float raw = some (of_nat 21)

-- An applier that counts commands, and refuses none.
abbrev counting : Ctx → Command → ℕ → Option Error × ℕ
counting ctx c n = (none, n + 1)

abbrev messages : List (Text × Text)
messages =
    (codes "hvac_mode", codes "heat")
    ∷ (codes "target_temperature", codes "21")
    ∷ (codes "fan_target", codes "300")
    ∷ []

after_messages-IsSafe_example :
    IsSafe (after_messages respond quiet parse_float true messages device)
after_messages-IsSafe_example =
    after_messages-IsSafe respond quiet parse_float true messages device refl (omega arith)

-- A controller that differs in a register that is not polled.
abbrev other : ℕ → ℕ
other n = if n == 7 then 0 else n

poll_group_example :
    (poll_fns (bank_reader register register) (λ (s : ℕ). s) hot forever 3).0
    ≡ (poll_fns (bank_reader other other) (λ (s : ℕ). s) hot forever 3).0
poll_group_example =
    poll_group hot register register other other (λ (s : ℕ). s) forever 3
      (unfold registers_by_group in
        (
          refl,
          (
            refl,
            (
              refl,
              (refl, (refl, (refl, (refl, (refl, (refl, (refl, (refl, (refl, (refl, tt)))))))))),
            ),
          ),
        ))

abbrev hot_view : Snapshot
hot_view = hot_snapshot (window register 2 17) (window register 25 6) (window register 31 2) 3

abbrev medium_view : Snapshot
medium_view = medium_snapshot (window register 57 2) (window register 69 2) (window register 86 1) 3

abbrev slow_view : Snapshot
slow_view = slow_snapshot (window register 0 1) (window register 79 1) (window register 0 1) 3

abbrev registers : Reader ℕ
registers = bank_reader register register

poll-Decodes_example :
    Decodes
      (λ (s : ℕ). s)
      (registers.read_input forever 2 17, 17)
      (registers.read_input forever 25 6, 6)
      (registers.read_holding forever 31 2, 2)
      hot_snapshot
      3
      hot_view
    × Decodes
        (λ (s : ℕ). s)
        (registers.read_input forever 57 2, 2)
        (registers.read_input forever 69 2, 2)
        (registers.read_holding forever 86 1, 1)
        medium_snapshot
        3
        medium_view
    × Decodes
        (λ (s : ℕ). s)
        (registers.read_input forever 0 1, 1)
        (registers.read_input forever 79 1, 1)
        (registers.read_holding forever 0 1, 1)
        slow_snapshot
        3
        slow_view
poll-Decodes_example =
    poll-Decodes registers (λ (s : ℕ). s) forever 3 hot_view medium_view slow_view
      (unfold poll_hot read_three read_block check_block in refl)
      (unfold poll_medium read_three read_block check_block in refl)
      (unfold poll_slow read_three read_block check_block in refl)

handle_fan_target-format_uint_example :
    handle_fan_target parse_float counting (λ n. n) true (format_uint 7) 1 ≡ (
      if leb 1 7 && leb 7 10
      then (counting (handler_ctx true 1) (set_fan_command (record { value = 7 })) 1).1
      else 1)
handle_fan_target-format_uint_example =
    handle_fan_target-format_uint parse_float counting (λ n. n) true 7 1 (omega arith)
