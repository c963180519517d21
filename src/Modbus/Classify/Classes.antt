-- ===== src/Modbus/Classify/Classes.antt =====
-- Which class an error is filed under, and what `errors.Is` sees of it afterwards.
use oasis_modbus2mqtt.Prelude.Errors.{sentinel_eq}
use oasis_modbus2mqtt.Modbus.Classify.{
  as_op_error, timed_out, exception_class, error_class, wrap_as, wrap_some,
}
use oasis_modbus2mqtt.Prelude.{◌≡◌, refl, Bool, false, ◌||◌, Option, none, some, arith}
use oasis_modbus2mqtt.Prelude.Errors.{Sentinel, Error, errors_is}
use Prim.Native.String.{String}

-- Is this the class of the error?
abbrev pub filed : Option Sentinel → Sentinel → Bool
filed none t = false
filed (some class) t = sentinel_eq class t

errors_is-wrap_as :
    (op : String) (e : Error) (c : Option Sentinel) (t : Sentinel)
    → errors_is (wrap_as op e c) t ≡ (filed c t || errors_is e t)
unfolding wrap_as errors_is
errors_is-wrap_as op e none t = refl
errors_is-wrap_as op e (some class) t = refl

-- Behind `WrapError`, `errors.Is` finds the class that the error was filed under and whatever it
-- found in the error before, and nothing else.
pub errors_is-wrap_some :
    (op : String) (e : Error) (t : Sentinel)
    → errors_is (wrap_some op e) t ≡ (filed (error_class e) t || errors_is e t)
unfolding wrap_some
errors_is-wrap_some op e t = errors_is-wrap_as op e (error_class e) t

-- A raw error of the network layer: it holds none of the program's own sentinels.
abbrev pub IsRaw : Error → Type 0
IsRaw e = (errors_is e Sentinel.connection_lost ≡ false) × (errors_is e Sentinel.timeout ≡ false)

-- A raw error counts as a loss of the transport after `WrapError` exactly when it is a timeout of
-- the network, an end of file or any other `*net.OpError`.
pub transport_lost_iff :
    (op : String) (e : Error)
    → IsRaw e
    → (errors_is (wrap_some op e) Sentinel.connection_lost
        || errors_is (wrap_some op e) Sentinel.timeout)
      ≡ (timed_out e
          || (errors_is e Sentinel.eof || errors_is e Sentinel.unexpected_eof || as_op_error e))
unfolding error_class exception_class
transport_lost_iff op e (h, k) = rw (errors_is-wrap_some, errors_is-wrap_some, h, k) (ground arith)
