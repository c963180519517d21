-- ===== src/Port.antt =====
-- application/port: the interfaces between the use cases and the outside, as records of
-- operations over a state `S` that stands for the world behind them, and contexts.
use oasis_modbus2mqtt.Prelude.{
  ℕ, ◌+◌, Bool, ◌&&◌, ◌||◌, Option, none, some, List, ltb, ◌==◌, if◌then◌else◌,
}
use oasis_modbus2mqtt.Prelude.Errors.{Error, Result}
use oasis_modbus2mqtt.Prelude.Time.{Time}

-- A `context.Context`: when it is done, if ever, with which error, and which case a `select` takes
-- when a timer fires at that very moment.
pub record Ctx : Type 0 where
  pub done_at : Option Time
  pub cause : Error
  pub prefer_done : Bool

-- `select { case <-time.After(d): case <-ctx.Done(): return ctx.Err() }`, begun at `now`: the error
-- if the context was done first, and the time at which the wait ends.
unfoldable pub wait : Ctx → Time → ℕ → Option Error × Time
wait ctx now d = elim ctx.done_at [
  | none ↦ (none, now + d)
  | some t ↦
      if ltb t (now + d) || (t == now + d && ctx.prefer_done)
      then (some ctx.cause, if ltb now t then t else now)
      else (none, now + d)
]

-- The reading half of `ModbusClient`, which `usecase.Dispatcher` asks for.
pub record Reader (S : Type 0) : Type 0 where
  pub read_input : Ctx → ℕ → ℕ → S → Result (List ℕ) × S
  pub read_holding : Ctx → ℕ → ℕ → S → Result (List ℕ) × S

-- The writing half, which `usecase.CommandDispatcher` asks for.
pub record Writer (S : Type 0) : Type 0 where
  pub write_holding : Ctx → ℕ → ℕ → S → Option Error × S
  pub modify_holding : Ctx → ℕ → (ℕ → ℕ) → S → Option Error × S

-- `ModbusClient`
pub record ModbusClient (S : Type 0) : Type 0 where
  pub reader : Reader S
  pub writer : Writer S
  pub connected : S → Bool
