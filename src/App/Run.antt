-- ===== src/App/Run.antt =====
-- `Run` and `shutdown` of internal/app/app.go, over the operations of the components that they call.
use oasis_modbus2mqtt.Prelude.{ℕ, ◌*◌, Bool, Option, none, some}
use oasis_modbus2mqtt.Prelude.Text.{Text, codes}
use oasis_modbus2mqtt.Prelude.Errors.{Error, wrap}
use oasis_modbus2mqtt.Prelude.Time.{second}
use Prim.Native.String.{String}

-- The components, over a state `S`; each has its context. `await_poller` and `await_availability` wait
-- for `Done()` for some nanoseconds, and tell whether it came.
pub record Parts (S : Type 0) : Type 0 where
  pub supervisor_start : S → Option Error × S
  pub mqtt_connect : S → Option Error × S
  pub discovery_publish : Text → S → Option Error × S
  pub commands_start : S → Option Error × S
  pub ha_status_start : S → Option Error × S
  pub poller_start : S → S
  pub availability_start : S → S
  pub http_shutdown : ℕ → S → Option Error × S
  pub await_poller : ℕ → S → Bool × S
  pub await_availability : ℕ → S → Bool × S
  pub mqtt_disconnect : ℕ → S → S
  pub force_close : S → Option Error × S

-- What the `select` of `Run` sees: the context is done, the server has returned nil, or an error.
pub data Ending : Type 0 where
  context_done server_closed : Ending
  server_failed : Error → Ending

-- `if err := op(); err != nil { return fmt.Errorf(context, err) }`, with what follows.
abbrev pub start_part :
    {S : Type 0} → String → (S → Option Error × S) → (S → Option Error × S) → S → Option Error × S
start_part context op next s =
    let (e, t) = op s in elim e [ none ↦ next t | some err ↦ (some (wrap context err), t) ]

abbrev run_error : Ending → Option Error
run_error context_done = none
run_error server_closed = none
run_error (server_failed e) = some e

-- `shutdownGrace`, `pollerShutdownTimeout`, `availMgrShutdownTimeout`, and the milliseconds of
-- `mqttDisconnectQuiesce`
abbrev pub shutdown_grace : ℕ
shutdown_grace = 10 * second

abbrev pub poller_shutdown_timeout : ℕ
poller_shutdown_timeout = 5 * second

abbrev pub avail_mgr_shutdown_timeout : ℕ
avail_mgr_shutdown_timeout = 2 * second

abbrev pub mqtt_disconnect_quiesce : ℕ
mqtt_disconnect_quiesce = 500

module _ {S : Type 0} (parts : Parts S) where
  -- `shutdown`
  unfoldable pub shutdown : S → S
  shutdown s =
      let s1 = (parts.http_shutdown shutdown_grace s).1 in
      let s2 = (parts.await_poller poller_shutdown_timeout s1).1 in
      let s3 = (parts.await_availability avail_mgr_shutdown_timeout s2).1 in
      let s4 = parts.mqtt_disconnect mqtt_disconnect_quiesce s3 in (parts.force_close s4).1

  -- `Run` behind the discovery configs.
  unfoldable pub run_announced : Ending → S → Option Error × S
  unfolding shutdown
  run_announced ending = start_part "command subscriber start" parts.commands_start (
      start_part "ha status listener start" parts.ha_status_start
        (λ s. (run_error ending, shutdown (parts.availability_start (parts.poller_start s)))))

  -- `Run`
  unfoldable pub run : Ending → S → Option Error × S
  unfolding run_announced
  run ending = start_part "modbus initial connect" parts.supervisor_start (
      start_part "mqtt initial connect" parts.mqtt_connect
        (λ s. run_announced ending (parts.discovery_publish (codes "unknown") s).1))
