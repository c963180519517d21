-- ===== src/Modbus/Classify.antt =====
-- infrastructure/modbus/decode.go: `WrapError`, the classes of low-level errors.
pub mod Classes
use oasis_modbus2mqtt.Prelude.{ℕ, Bool, true, false, ◌||◌, Option, none, some, ◌==◌, if◌then◌else◌}
use oasis_modbus2mqtt.Prelude.Errors.{
  sentinel_eq, Sentinel, Error, sentinel, wrap, wrap_two, message, net_error, exception, errors_is,
}
use Prim.Native.String.{String}

-- `errors.As(err, &netErr)` and `netErr.Timeout()`: the first `net.Error` of the chain.
-- `context.DeadlineExceeded` is one, and says that it is a timeout.
unfoldable pub as_net_error : Error → Option Bool
as_net_error (sentinel s) = if sentinel_eq s Sentinel.deadline_exceeded then some true else none
as_net_error (net_error late op) = some late
as_net_error (exception code) = none
as_net_error (message text) = none
as_net_error (wrap context e) = as_net_error e
as_net_error (wrap_two context e f) = elim (as_net_error e) [
  | some late ↦ some late
  | none ↦ as_net_error f
]

-- `errors.As(err, &opErr)`: is a `*net.OpError` in the chain?
unfoldable pub as_op_error : Error → Bool
as_op_error (sentinel s) = false
as_op_error (net_error late op) = op
as_op_error (exception code) = false
as_op_error (message text) = false
as_op_error (wrap context e) = as_op_error e
as_op_error (wrap_two context e f) = as_op_error e || as_op_error f

-- `errors.As(err, &mbErr)`: the exception code of the first `*modbus.Error` of the chain.
unfoldable pub as_exception : Error → Option ℕ
as_exception (sentinel s) = none
as_exception (net_error late op) = none
as_exception (exception code) = some code
as_exception (message text) = none
as_exception (wrap context e) = as_exception e
as_exception (wrap_two context e f) = elim (as_exception e) [
  | some code ↦ some code
  | none ↦ as_exception f
]

abbrev pub timed_out : Error → Bool
timed_out e = elim (as_net_error e) [ none ↦ false | some late ↦ late ]

-- The sentinel of a Modbus exception code, if it has one.
unfoldable pub exception_class : ℕ → Option Sentinel
exception_class code =
    if code == 1
    then some Sentinel.illegal_function
    else if code == 2
    then some Sentinel.illegal_address
    else if code == 3
    then some Sentinel.illegal_data_value
    else if code == 4
    then some Sentinel.server_failure
    else none

-- The sentinel under which `WrapError` files a low-level error, in the order of its tests.
unfoldable pub error_class : Error → Option Sentinel
unfolding errors_is as_net_error as_op_error as_exception exception_class
error_class e =
    if timed_out e
    then some Sentinel.timeout
    else if errors_is e Sentinel.eof || errors_is e Sentinel.unexpected_eof
    then some Sentinel.connection_lost
    else if as_op_error e
    then some Sentinel.connection_lost
    else elim (as_exception e) [ none ↦ none | some code ↦ exception_class code ]

-- "op: class: err", or "op: err" for an error of no class.
unfoldable pub wrap_as : String → Error → Option Sentinel → Error
wrap_as op e none = wrap op e
wrap_as op e (some class) = wrap_two op (sentinel class) e

-- `WrapError(op, err)` of an error.
unfoldable pub wrap_some : String → Error → Error
unfolding error_class wrap_as
wrap_some op e = wrap_as op e (error_class e)

-- `WrapError(op, err)`, where nil stays nil.
unfoldable pub wrap_error : String → Option Error → Option Error
unfolding wrap_some
wrap_error op none = none
wrap_error op (some e) = some (wrap_some op e)
