-- ===== src/Domain/Firmware.antt =====
-- domain/valueobject/firmware.go: the firmware version in four BCD nibbles.
use oasis_modbus2mqtt.Prelude.{ℕ, ◌/◌, ◌%◌, ◌^◌, Bool, not, ◌∷◌, ◌++◌, ◌==◌, if◌then◌else◌}
use oasis_modbus2mqtt.Prelude.Text.{Text, codes, format_uint}

pub record FirmwareVersion : Type 0 where
  pub raw : ℕ

unfoldable pub firmware_from_raw : ℕ → FirmwareVersion
firmware_from_raw raw = record { raw = raw }

unfoldable pub is_known : FirmwareVersion → Bool
is_known f = not (f.raw == 0)

-- "unknown", "v{M}.{m}.{N}" or "v{M}.{m}.{N}.{n}".
unfoldable pub firmware_string : FirmwareVersion → Text
unfolding format_uint
firmware_string f =
    let major = f.raw / 2 ^ 12 % 16 in
    let minor = f.raw / 2 ^ 8 % 16 in
    let patch = f.raw / 2 ^ 4 % 16 in
    let build = f.raw % 16 in
    let three =
      b'v' ∷ (format_uint major ++ (b'.' ∷ (format_uint minor ++ (b'.' ∷ format_uint patch)))) in
    if f.raw == 0
    then codes "unknown"
    else if build == 0
    then three
    else three ++ (b'.' ∷ format_uint build)
