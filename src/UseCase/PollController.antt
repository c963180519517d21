-- ===== src/UseCase/PollController.antt =====
-- application/usecase/poll_controller.go: the reads of the three tiers and what their registers mean.
pub mod Lengths
pub mod Sensors
pub mod Groups
pub mod View
pub mod Bank
use oasis_modbus2mqtt.Prelude.{
  ℕ, suc, ◌*◌, ◌%◌, true, ◌||◌, List, ltb, ◌==◌, if◌then◌else◌, length, get_or,
}
use oasis_modbus2mqtt.Prelude.Errors.{Sentinel, sentinel, wrap, Result, ok, err}
use oasis_modbus2mqtt.Prelude.Int.{ℤ, pos, negsuc, signed16}
use Prim.Native.String.{String}
use oasis_modbus2mqtt.Port.{Ctx, Reader}
use oasis_modbus2mqtt.Prelude.Step.{Step, pure, gets, ◌>>=◌}
use oasis_modbus2mqtt.Prelude.Time.{Time}
use oasis_modbus2mqtt.Float64.{Float64, of_nat, div, is_nan, is_inf, nearest, unit}
use oasis_modbus2mqtt.Domain.Snapshot.{Snapshot, empty_snapshot, parse_last_time}
use oasis_modbus2mqtt.Domain.ErrorCode.{bit_set}
use oasis_modbus2mqtt.Domain.Mode.{mode_from_register}
use oasis_modbus2mqtt.Domain.Firmware.{firmware_from_raw}
use oasis_modbus2mqtt.Domain.OperatingState.{operating_state_from_register}
use oasis_modbus2mqtt.Domain.DeviceConfig.{device_config_from_register}
use oasis_modbus2mqtt.Domain.Temperature.{
  Temperature, zero_temperature, new_temperature, temperature_from_raw,
}

-- A result without its error, or the zero Temperature.
abbrev or_zero : Result Temperature → Temperature
or_zero (ok t) = t
or_zero (err e) = zero_temperature

-- `float64(n)` of an int16.
abbrev of_int : ℤ → Float64
of_int (pos n) = of_nat n
of_int (negsuc n) = nearest true (suc n * unit) 1

-- `signedTempFromRaw`
unfoldable pub signed_temp_from_raw : ℕ → Temperature
signed_temp_from_raw raw =
    let c = div (of_int (signed16 raw)) (of_nat 10) in
    if is_nan c || is_inf c then zero_temperature else or_zero (new_temperature c)

-- The two tests after each read: its error, and the number of registers.
unfoldable pub check_block : String → ℕ → Result (List ℕ) → Result (List ℕ)
check_block label count (err e) = err (wrap label e)
check_block label count (ok regs) =
    if length regs == count
    then ok regs
    else err (wrap label (sentinel Sentinel.unexpected_read_length))

unfoldable pub read_block : {S : Type 0} → String → ℕ → Step S (List ℕ) → Step S (List ℕ)
unfolding check_block
read_block label count read s = (check_block label count (read s).0, (read s).1)

-- The register at an offset of a block. Go's index panics beyond the block, where this is 0; the
-- length test before each use keeps every offset inside.
abbrev pub at : List ℕ → ℕ → ℕ
at regs i = get_or regs i 0

-- The values read, as the fields of each tier.
unfoldable pub hot_snapshot : List ℕ → List ℕ → List ℕ → Time → Snapshot
hot_snapshot in1 in2 hold t =
    let state0 = at in1 0 in
    let dout = at in1 14 in
    record empty_snapshot {
      power_on = bit_set state0 0;
      switching = bit_set state0 1;
      heat_capable = bit_set state0 6;
      cool_capable = bit_set state0 7;
      operation = operating_state_from_register (at in1 1);
      operation_time_left = parse_last_time (at in1 4);
      supply_temp = signed_temp_from_raw (at in1 7);
      filter_pct = signed16 (at in1 12);
      heater_pwm = ltb 0 (dout % 4);
      damper_open = bit_set dout 5;
      pid_demand = at in1 16;
      fan_state1 = at in2 0;
      fan_state2 = at in2 5;
      target_temp = temperature_from_raw (at hold 0);
      fan_target1 = at hold 1;
      polled_at = t;
      raw_error0 = at in1 2;
      raw_error1 = at in1 3;
    }

unfoldable pub medium_snapshot : List ℕ → List ℕ → List ℕ → Time → Snapshot
medium_snapshot in1 in2 hold t = record empty_snapshot {
  room_temp = signed_temp_from_raw (at in1 0);
  room_humidity = at in1 1;
  current_mode = mode_from_register (at hold 0);
  polled_at = t;
  raw_error2 = at in2 0;
  raw_error3 = at in2 1;
}

unfoldable pub slow_snapshot : List ℕ → List ℕ → List ℕ → Time → Snapshot
slow_snapshot in1 in2 hold t = record empty_snapshot {
  firmware = firmware_from_raw (at in1 0);
  device_id = at in2 0;
  device_config = device_config_from_register (at hold 0);
  polled_at = t;
}

module _ {S : Type 0} (reader : Reader S) (now : S → Time) where
  -- The three reads that each poll makes, up to the first that fails; the clock is read when all
  -- have succeeded.
  unfoldable pub read_three :
      Step S (List ℕ)
      → Step S (List ℕ)
      → Step S (List ℕ)
      → (List ℕ → List ℕ → List ℕ → Time → Snapshot)
      → Step S Snapshot
  read_three first second third decode = do
    in1 ← first
    in2 ← second
    hold ← third
    t ← gets now
    pure (decode in1 in2 hold t)

  -- `PollHot`, `PollMedium` and `PollSlow`
  unfoldable pub poll_hot : Ctx → Step S Snapshot
  unfolding read_three
  poll_hot ctx =
      read_three (read_block "poll_hot read i2..i18" 17 (reader.read_input ctx 2 17))
        (read_block "poll_hot read i25..i30" 6 (reader.read_input ctx 25 6))
        (read_block "poll_hot read h31..h32" 2 (reader.read_holding ctx 31 2)) hot_snapshot

  unfoldable pub poll_medium : Ctx → Step S Snapshot
  unfolding read_three
  poll_medium ctx =
      read_three (read_block "poll_medium read i57..i58" 2 (reader.read_input ctx 57 2))
        (read_block "poll_medium read i69..i70" 2 (reader.read_input ctx 69 2))
        (read_block "poll_medium read h86" 1 (reader.read_holding ctx 86 1)) medium_snapshot

  unfoldable pub poll_slow : Ctx → Step S Snapshot
  unfolding read_three
  poll_slow ctx =
      read_three (read_block "poll_slow read i0" 1 (reader.read_input ctx 0 1))
        (read_block "poll_slow read i79" 1 (reader.read_input ctx 79 1))
        (read_block "poll_slow read h0" 1 (reader.read_holding ctx 0 1)) slow_snapshot
