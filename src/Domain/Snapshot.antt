-- ===== src/Domain/Snapshot.antt =====
-- domain/entity/controller.go: one poll cycle's view of the controller.
use oasis_modbus2mqtt.Prelude.Time.{Time, Duration, time_sub, second}
use oasis_modbus2mqtt.Domain.Mode.{Mode}
use oasis_modbus2mqtt.Domain.Firmware.{FirmwareVersion}
use oasis_modbus2mqtt.Domain.Temperature.{Temperature, zero_temperature}
use oasis_modbus2mqtt.Domain.OperatingState.{OperatingState}
use oasis_modbus2mqtt.Domain.DeviceConfig.{DeviceConfig}
use oasis_modbus2mqtt.Domain.ErrorCode.{ErrorSet, decode_errors}
use oasis_modbus2mqtt.Prelude.{ℕ, ◌+◌, ◌*◌, ◌/◌, ◌%◌, ◌^◌, Bool, false, []}
use oasis_modbus2mqtt.Prelude.Int.{ℤ, pos, leb_ℤ}

-- `Snapshot`; the array `RawErrors` is four fields. The time left is in nanoseconds, and never
-- negative; `filter_pct` is an int16.
pub record Snapshot : Type 0 where
  pub firmware : FirmwareVersion
  pub device_id : ℕ
  pub device_config : DeviceConfig
  pub power_on : Bool
  pub switching : Bool
  pub heat_capable : Bool
  pub cool_capable : Bool
  pub current_mode : Mode
  pub operation : OperatingState
  pub operation_time_left : ℕ
  pub target_temp : Temperature
  pub room_temp : Temperature
  pub supply_temp : Temperature
  pub fan_target1 : ℕ
  pub fan_state1 : ℕ
  pub fan_state2 : ℕ
  pub heater_pwm : Bool
  pub damper_open : Bool
  pub pid_demand : ℕ
  pub filter_pct : ℤ
  pub errors : ErrorSet
  pub raw_error0 : ℕ
  pub raw_error1 : ℕ
  pub raw_error2 : ℕ
  pub raw_error3 : ℕ
  pub room_humidity : ℕ
  pub polled_at : Time

-- `Snapshot{}`
unfoldable pub empty_snapshot : Snapshot
unfolding zero_temperature
empty_snapshot = record {
  firmware = record { raw = 0 };
  device_id = 0;
  device_config = record { heater = 0; cooler = 0; recuperator = 0; raw = 0 };
  power_on = false;
  switching = false;
  heat_capable = false;
  cool_capable = false;
  current_mode = Mode.off;
  operation = OperatingState.idle;
  operation_time_left = 0;
  target_temp = zero_temperature;
  room_temp = zero_temperature;
  supply_temp = zero_temperature;
  fan_target1 = 0;
  fan_state1 = 0;
  fan_state2 = 0;
  heater_pwm = false;
  damper_open = false;
  pid_demand = 0;
  filter_pct = pos 0;
  errors = [];
  raw_error0 = 0;
  raw_error1 = 0;
  raw_error2 = 0;
  raw_error3 = 0;
  room_humidity = 0;
  polled_at = 0;
}

unfoldable pub is_healthy : Snapshot → Time → Duration → Bool
unfolding time_sub
is_healthy s now threshold = leb_ℤ (time_sub now s.polled_at) threshold

unfoldable pub decode_error_set : Snapshot → ErrorSet
unfolding decode_errors
decode_error_set s = decode_errors s.raw_error0 s.raw_error1 s.raw_error2 s.raw_error3

-- Minutes in the high byte, seconds in the low byte.
unfoldable pub parse_last_time : ℕ → ℕ
parse_last_time raw =
    let mins = raw / 2 ^ 8 % 256 in let secs = raw % 256 in mins * (60 * second) + secs * second
