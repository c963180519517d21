-- ===== src/Service/Dispatcher.antt =====
-- application/service/command_dispatcher.go: the Modbus client behind a count of consecutive
-- failures. Go's `int` counter is taken to be unbounded: it would take 2 ^ 63 failures in a row to
-- overflow it.
pub mod Threshold
use oasis_modbus2mqtt.Prelude.{ℕ, ◌+◌, Bool, Option, none, some, List, leb, if◌then◌else◌}
use oasis_modbus2mqtt.Prelude.Errors.{Error, Result, ok, err}
use oasis_modbus2mqtt.Port.{Ctx, ModbusClient}

-- The counter, beside the state of the client and of whatever the notifier reaches.
pub record Dispatcher (S : Type 0) : Type 0 where
  pub inner : S
  pub consecutive_errs : ℕ

module _ {S : Type 0} (client : ModbusClient S) (trigger : S → S) (threshold : ℕ) where
  -- `recordOutcome`
  unfoldable pub record_outcome : Option Error → Dispatcher S → Dispatcher S
  record_outcome none d = record d { consecutive_errs = 0 }
  record_outcome (some e) d =
      let current = d.consecutive_errs + 1 in
      record {
        inner = if leb threshold current then trigger d.inner else d.inner;
        consecutive_errs = current;
      }

  -- The error that is recorded for a read.
  abbrev outcome : Result (List ℕ) → Option Error
  outcome (ok regs) = none
  outcome (err e) = some e

  unfoldable pub record_read : Result (List ℕ) × S → Dispatcher S → Result (List ℕ) × Dispatcher S
  unfolding record_outcome
  record_read (r, s) d = (r, record_outcome (outcome r) (record d { inner = s }))

  unfoldable pub record_write : Option Error × S → Dispatcher S → Option Error × Dispatcher S
  unfolding record_outcome
  record_write (e, s) d = (e, record_outcome e (record d { inner = s }))

  -- `ReadInput`, `ReadHolding`, `WriteHolding`, `ModifyHolding` and `Connected`.
  unfoldable pub read_input : Ctx → ℕ → ℕ → Dispatcher S → Result (List ℕ) × Dispatcher S
  unfolding record_read
  read_input ctx start count d = record_read (client.reader.read_input ctx start count d.inner) d

  unfoldable pub read_holding : Ctx → ℕ → ℕ → Dispatcher S → Result (List ℕ) × Dispatcher S
  unfolding record_read
  read_holding ctx start count d =
      record_read (client.reader.read_holding ctx start count d.inner) d

  unfoldable pub write_holding : Ctx → ℕ → ℕ → Dispatcher S → Option Error × Dispatcher S
  unfolding record_write
  write_holding ctx addr value d =
      record_write (client.writer.write_holding ctx addr value d.inner) d

  unfoldable pub modify_holding : Ctx → ℕ → (ℕ → ℕ) → Dispatcher S → Option Error × Dispatcher S
  unfolding record_write
  modify_holding ctx addr modify d =
      record_write (client.writer.modify_holding ctx addr modify d.inner) d

  unfoldable pub connected : Dispatcher S → Bool
  connected d = client.connected d.inner

  -- The dispatcher is a Modbus client itself.
  unfoldable pub dispatcher_client : ModbusClient (Dispatcher S)
  unfolding read_input read_holding write_holding modify_holding connected
  dispatcher_client = record {
    reader = record { read_input = read_input; read_holding = read_holding };
    writer = record { write_holding = write_holding; modify_holding = modify_holding };
    connected = connected;
  }
