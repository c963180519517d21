-- ===== src/Prelude/Errors.antt =====
-- Go's error values: the sentinels of the program, errors of its libraries, and the wrapping of
-- `fmt.Errorf("…: %w", err)`, through which `errors.Is` looks.
use Prim.Native.Nat.{ℕ}
use Prim.Native.String.{String}
use mathlib.Core.Bool.{Bool, false, ◌||◌}
use oasis_modbus2mqtt.Prelude.Tests.{◌==◌}

-- `errors.New` values that the program compares with.
pub data Sentinel : Type 0 where
  modbus_not_connected mqtt_not_connected transition_in_progress command_timeout : Sentinel
  invalid_payload unexpected_read_length : Sentinel
  invalid_fan_speed invalid_temperature invalid_mode : Sentinel
  connection_lost timeout illegal_address illegal_function illegal_data_value : Sentinel
  server_failure invalid_byte_count : Sentinel
  eof unexpected_eof canceled deadline_exceeded : Sentinel

-- A sentinel is a pointer of its own: two are equal when they are the same one.
abbrev pub index : Sentinel → ℕ
index modbus_not_connected = 0
index mqtt_not_connected = 1
index transition_in_progress = 2
index command_timeout = 3
index invalid_payload = 4
index unexpected_read_length = 5
index invalid_fan_speed = 6
index invalid_temperature = 7
index invalid_mode = 8
index connection_lost = 9
index timeout = 10
index illegal_address = 11
index illegal_function = 12
index illegal_data_value = 13
index server_failure = 14
index invalid_byte_count = 15
index eof = 16
index unexpected_eof = 17
index canceled = 18
index deadline_exceeded = 19

abbrev pub sentinel_eq : Sentinel → Sentinel → Bool
sentinel_eq s t = index s == index t

pub data Error : Type 0 where
  sentinel : Sentinel → Error
  -- An error that implements `net.Error`: what `Timeout()` says, and whether it is a
  -- `*net.OpError`.
  net_error : Bool → Bool → Error
  -- A `*modbus.Error` with its exception code.
  exception : ℕ → Error
  -- Any other error of a library, and an `errors.New` that is compared with nothing.
  message : String → Error
  -- `fmt.Errorf("context: %w", err)`, and with two `%w`.
  wrap : String → Error → Error
  wrap_two : String → Error → Error → Error

-- `errors.Is(err, target)` for a sentinel.
unfoldable pub errors_is : Error → Sentinel → Bool
errors_is (sentinel s) t = sentinel_eq s t
errors_is (net_error late op) t = false
errors_is (exception code) t = false
errors_is (message text) t = false
errors_is (wrap context e) t = errors_is e t
errors_is (wrap_two context e f) t = errors_is e t || errors_is f t

-- The pair `(value, error)` that a Go function returns, one of them being zero.
pub data Result {ℓ} (A : Type ℓ) : Type ℓ where
  ok : A → Result A
  err : Error → Result A

infixl 5 ◌>>=◌
abbrev pub ◌>>=◌ {ℓ κ} : {A : Type ℓ} {B : Type κ} → Result A → (A → Result B) → Result B
ok a >>= f = f a
err e >>= f = err e
