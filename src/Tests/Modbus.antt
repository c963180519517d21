-- ===== src/Tests/Modbus.antt =====
-- The Modbus client on a script of replies.
use oasis_modbus2mqtt.Prelude.{
  ℕ, ◌≡◌, refl, ◌⊎◌, ◌+◌, ◌/◌, ◌%◌, true, false, not, ◌||◌, none, List, [], ◌∷◌, arith, length,
}
use oasis_modbus2mqtt.Prelude.Errors.{
  Sentinel, Error, sentinel, net_error, wrap, ok, err, errors_is,
}
use oasis_modbus2mqtt.Prelude.Int.{pos, pos_part}
use oasis_modbus2mqtt.Prelude.Time.{time_sub}
use oasis_modbus2mqtt.Port.{Ctx, wait}
use oasis_modbus2mqtt.Modbus.Decode.{bytes_to_uint16, uint16_to_bytes}
use oasis_modbus2mqtt.Modbus.Decode.RoundTrip.{Words, decode_total}
use oasis_modbus2mqtt.Modbus.Classify.{wrap_some, timed_out, as_op_error}
use oasis_modbus2mqtt.Modbus.Client.{
  Reply, Client, new_client, do_op, modify_holding, read_input_registers, wait_guard_interval,
  exchange, exchange_with,
}
use oasis_modbus2mqtt.Modbus.Client.Guard.{Spaced}
use oasis_modbus2mqtt.Modbus.Client.Pacing.{
  Call, connect_call, close_call, read_input_call, write_call, modify_call, run, run-Spaced,
}
use oasis_modbus2mqtt.Modbus.Client.Loss.{do_op_failure}
use oasis_modbus2mqtt.Modbus.Client.Modify.{Trace, next_outcome, requests, modify_holding-Trace}

-- A context that does not end.
abbrev forever : Ctx
forever = record { done_at = none; cause = sentinel Sentinel.canceled; prefer_done = false }

abbrev answer : List ℕ → Reply
answer bytes = record { outcome = ok bytes; elapsed = 3 }

abbrev failure : Error → Reply
failure e = record { outcome = err e; elapsed = 3 }

-- A connect, and then a register that holds 258.
abbrev script : List Reply
script = answer [] ∷ answer (1 ∷ 2 ∷ []) ∷ answer [] ∷ []

abbrev calls : List Call
calls =
    connect_call
    ∷ modify_call forever 86 (λ v. v + 1)
    ∷ read_input_call forever 2 1
    ∷ close_call
    ∷ write_call forever 2 1
    ∷ []

abbrev fresh : Client
fresh = new_client (pos 100) 7 script

abbrev ready : Client
ready = run (connect_call ∷ []) fresh

run-Spaced_example :
    Spaced (pos_part (pos 100)) (run calls (new_client (pos 100) 7 script)).exchanges
run-Spaced_example = run-Spaced (pos 100) 7 script calls (omega arith)

modify_holding-Trace_example :
    Trace 86
      (λ v. v + 1)
      (next_outcome ready.script)
      (requests ready)
      (modify_holding forever 86 (λ v. v + 1) ready).0
      (requests (modify_holding forever 86 (λ v. v + 1) ready).1)
modify_holding-Trace_example = modify_holding-Trace forever 86 (λ v. v + 1) ready

-- Connected, and the next request times out.
abbrev late : Client
late = record {
  guard_interval = pos 100;
  connected = true;
  last_op_at = 50;
  clock = 90;
  script = failure (net_error true true) ∷ [];
  exchanges = [];
  metrics = [];
}

do_op_failure_example :
    ((do_op forever "read_input" (read_input_registers 2 1) late).0
      ≡ err (wrap_some "read_input" (net_error true true)))
    × ((do_op forever "read_input" (read_input_registers 2 1) late).1.connected
        ≡ not (
            timed_out (net_error true true)
            || (errors_is (net_error true true) Sentinel.eof
                || errors_is (net_error true true) Sentinel.unexpected_eof
                || as_op_error (net_error true true))))
do_op_failure_example =
    do_op_failure forever "read_input" (read_input_registers 2 1) late (net_error true true) refl
      (unfold wait_guard_interval wait time_sub in refl)
      (unfold exchange exchange_with wait_guard_interval wait time_sub in refl)
      (unfold errors_is in (refl, refl))

abbrev bytes : List ℕ
bytes = 1 ∷ 2 ∷ []

decode_total_example :
    ((length bytes % 2 ≡ 0)
      × (v : List ℕ) × (bytes_to_uint16 bytes ≡ ok v)
      × (length v ≡ length bytes / 2)
      × Words v
      × (uint16_to_bytes v ≡ bytes))
    ⊎ ((length bytes % 2 ≡ 1)
        × (bytes_to_uint16 bytes ≡ err (wrap "decode" (sentinel Sentinel.invalid_byte_count))))
decode_total_example = decode_total bytes (omega arith, (omega arith, tt))
