-- ===== src/Domain/Register.antt =====
-- domain/valueobject/register.go
use oasis_modbus2mqtt.Prelude.{ℕ, Bool, true, false, ◌∷◌}
use oasis_modbus2mqtt.Prelude.Text.{Text, format_hex4}
use Prim.Native.String.{String}

abbrev pub RegisterAddr : Type 0
RegisterAddr = ℕ

-- `RegisterAddr.String`: "0x%04X".
unfoldable pub addr_string : RegisterAddr → Text
unfolding format_hex4
addr_string r = b'0' ∷ b'x' ∷ format_hex4 r

-- `RegisterKind`; the zero value of the Go type is the invalid one.
pub data RegisterKind : Type 0 where
  invalid input holding : RegisterKind

unfoldable pub is_valid : RegisterKind → Bool
is_valid invalid = false
is_valid input = true
is_valid holding = true

unfoldable pub kind_string : RegisterKind → String
kind_string input = "input"
kind_string holding = "holding"
kind_string invalid = "unknown"

-- Two kinds are the same, as Go's `==` tells.
abbrev pub kind_eq : RegisterKind → RegisterKind → Bool
kind_eq invalid invalid = true
kind_eq input input = true
kind_eq holding holding = true
kind_eq _ _ = false
