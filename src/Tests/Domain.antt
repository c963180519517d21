-- ===== src/Tests/Domain.antt =====
-- Values of the domain: modes, temperatures, fan speeds, states and error registers.
use oasis_modbus2mqtt.Prelude.{ℕ, ◌≡◌, ◌⊎◌, ◌↔◌, ◌<◌, ◌/◌, true, ◌||◌, arith}
use oasis_modbus2mqtt.Domain.Mode.{Mode, mode_from_register, apply_to_register}
use oasis_modbus2mqtt.Domain.Mode.Bits.{mode-apply_to_register}
use oasis_modbus2mqtt.Domain.FanSpeed.{new_fan_speed_clamped}
use oasis_modbus2mqtt.Domain.FanSpeed.Bounds.{InRange, clamped_escapes}
use oasis_modbus2mqtt.Domain.Temperature.{temperature_raw, temperature_from_raw}
use oasis_modbus2mqtt.Domain.Temperature.Encoding.{clamp_raw, raw-from_raw}
use oasis_modbus2mqtt.Domain.ErrorCode.{decode_errors, is_empty}
use oasis_modbus2mqtt.Domain.ErrorCode.Exactness.{reports, shows, reports-decode_errors}
use oasis_modbus2mqtt.Domain.ErrorCode.Emptiness.{
  all_bits, documented_bits, open_bits, no_errors_iff,
}

mode-apply_to_register_example :
    (mode_from_register (apply_to_register 4095 Mode.heat) ≡ Mode.heat)
    × (apply_to_register 4095 Mode.heat / 4 ≡ 1023)
    × (apply_to_register 4095 Mode.heat < 65536)
mode-apply_to_register_example = mode-apply_to_register 4095 Mode.heat (omega arith)

clamped_escapes_example :
    ((new_fan_speed_clamped 40 50 60).value ≡ 40) × (¬ InRange (new_fan_speed_clamped 40 50 60))
clamped_escapes_example = clamped_escapes 40 50 60 (omega arith) (omega arith) (omega arith)

raw-from_raw_example : temperature_raw (temperature_from_raw 215) ≡ clamp_raw 215
raw-from_raw_example = raw-from_raw 215 (omega arith)

reports-decode_errors_example : reports (decode_errors 0 4 0 0) "Error_Code_1" 2 ≡ (
    shows "Error_Code" documented_bits 0 "Error_Code_1" 2
    || (shows "Error_Code_1" all_bits 4 "Error_Code_1" 2
        || (shows "Error_Code_2" all_bits 0 "Error_Code_1" 2
            || shows "Error_Code_3" open_bits 0 "Error_Code_1" 2)))
reports-decode_errors_example = reports-decode_errors 0 4 0 0 "Error_Code_1" 2

abbrev bit12 : ℕ
bit12 = 4096

abbrev bit6 : ℕ
bit6 = 64

abbrev clear : ℕ
clear = 0

no_errors_iff_example :
    (is_empty (decode_errors bit12 clear clear bit6) ≡ true)
    ↔ (((bit12 ≡ 0) ⊎ (bit12 ≡ 4096)) × ((clear ≡ 0) × ((clear ≡ 0) × ((bit6 ≡ 0) ⊎ (bit6 ≡ 64)))))
no_errors_iff_example =
    no_errors_iff bit12 clear clear bit6 (omega arith) (omega arith) (omega arith) (omega arith)
