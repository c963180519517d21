-- ===== src/Service/Supervisor.antt =====
-- application/service/connection_supervisor.go: connecting again, with a backoff between the
-- attempts. The two loops run on fuel, one unit for each attempt; Supervisor/Liveness has how much
-- is enough.
pub mod Liveness
pub mod Termination
use oasis_modbus2mqtt.Prelude.{ℕ, zero, suc, ◌+◌, Bool, true, false, Option, none, some}
use oasis_modbus2mqtt.Prelude.Errors.{Error}
use oasis_modbus2mqtt.Prelude.Int.{pos_part}
use oasis_modbus2mqtt.Port.{Ctx, wait}
use oasis_modbus2mqtt.Prelude.Time.{Time, Duration}
use oasis_modbus2mqtt.Service.Backoff.{BackoffConfig, Backoff, next, reset}

-- `port.ModbusConnection`
pub record Connection (S : Type 0) : Type 0 where
  pub connect : Ctx → S → Option Error × S
  pub force_close : S → Option Error × S

-- The supervisor beside the world of its connection: its backoff, whether its channel of capacity
-- one is full, and what it has counted as `reconnect_failed`.
pub record Supervisor (S R : Type 0) : Type 0 where
  pub world : S
  pub backoff : Backoff R
  pub triggered : Bool
  pub reconnect_failed : ℕ

-- How a loop ends: connected, or with the end of its context.
pub data Exit : Type 0 where
  connected : Exit
  ended : Error → Exit

-- What follows an attempt or a wait, in the loops.
abbrev pub unless_connected :
    {S R : Type 0}
    → Option Error × Supervisor S R
    → (Supervisor S R → Option (Exit × Supervisor S R))
    → Option (Exit × Supervisor S R)
unless_connected (none, s) again = some (connected, s)
unless_connected (some e, s) again = again s

abbrev pub unless_ended :
    {S R : Type 0}
    → Option Error × Supervisor S R
    → (Supervisor S R → Option (Exit × Supervisor S R))
    → Option (Exit × Supervisor S R)
unless_ended (none, s) go = go s
unless_ended (some e, s) go = some (ended e, s)

module _ {S R : Type 0} (conn : Connection S) (now : S → Time) (wait_until : Time → S → S)
    (unspecified : Duration) (cfg : BackoffConfig R) where
  -- `Trigger`: a send that does nothing when the channel is full.
  unfoldable pub trigger : Supervisor S R → Supervisor S R
  trigger s = record s { triggered = true }

  -- The next delay, and the `select` on the timer and `ctx.Done()`.
  unfoldable pub backed_off : Ctx → Supervisor S R → Option Error × Supervisor S R
  backed_off ctx s =
      let (delay, b) = next unspecified cfg s.backoff in
      let (e, t) = wait ctx (now s.world) (pos_part delay) in
      (e, record s { world = wait_until t s.world; backoff = b })

  -- One `Connect`: a failure is counted, a success resets the backoff.
  unfoldable pub connected_by : Option Error × S → Supervisor S R → Option Error × Supervisor S R
  connected_by (some e, w) s =
      (some e, record s { world = w; reconnect_failed = s.reconnect_failed + 1 })
  connected_by (none, w) s =
      (none, record s { world = w; backoff = reset unspecified cfg s.backoff })

  unfoldable pub attempt : Ctx → Supervisor S R → Option Error × Supervisor S R
  unfolding connected_by
  attempt ctx s = connected_by (conn.connect ctx s.world) s

  -- `initialConnect`: an attempt, then a delay.
  unfoldable pub initial_connect : ℕ → Ctx → Supervisor S R → Option (Exit × Supervisor S R)
  initial_connect zero ctx s = none
  initial_connect (suc fuel) ctx s =
      unless_connected (attempt ctx s)
        (λ t. unless_ended (backed_off ctx t) (λ u. initial_connect fuel ctx u))

  -- `reconnectLoop`: a delay, then an attempt.
  unfoldable pub reconnect_loop : ℕ → Ctx → Supervisor S R → Option (Exit × Supervisor S R)
  reconnect_loop zero ctx s = none
  reconnect_loop (suc fuel) ctx s =
      unless_ended (backed_off ctx s)
        (λ t. unless_connected (attempt ctx t) (λ u. reconnect_loop fuel ctx u))

  -- A round of `run` when the trigger is there: the old connection is closed, whatever that gives.
  unfoldable pub supervise : ℕ → Ctx → Supervisor S R → Option (Exit × Supervisor S R)
  unfolding reconnect_loop
  supervise fuel ctx s =
      reconnect_loop fuel ctx (record s { triggered = false; world = (conn.force_close s.world).1 })
