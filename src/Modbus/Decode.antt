-- ===== src/Modbus/Decode.antt =====
-- infrastructure/modbus/decode.go: registers as big-endian bytes.
pub mod RoundTrip
use oasis_modbus2mqtt.Prelude.{ℕ, ◌+◌, ◌*◌, ◌/◌, ◌%◌, List, [], ◌∷◌, ◌==◌, if◌then◌else◌, length}
use oasis_modbus2mqtt.Prelude.Errors.{Sentinel, sentinel, wrap, Result, ok, err}

-- Two bytes to a register; an odd byte at the end has no partner.
unfoldable pub pairs : List ℕ → List ℕ
pairs [] = []
pairs (x ∷ []) = []
pairs (x ∷ y ∷ b) = (x * 256 + y) ∷ pairs b

unfoldable pub bytes_to_uint16 : List ℕ → Result (List ℕ)
unfolding pairs
bytes_to_uint16 b =
    if length b % 2 == 0
    then ok (pairs b)
    else err (wrap "decode" (sentinel Sentinel.invalid_byte_count))

-- `PutUint16` of each register.
unfoldable pub uint16_to_bytes : List ℕ → List ℕ
uint16_to_bytes [] = []
uint16_to_bytes (r ∷ v) = (r / 256 % 256) ∷ (r % 256) ∷ uint16_to_bytes v
