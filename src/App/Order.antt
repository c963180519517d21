-- ===== src/App/Order.antt =====
-- The calls that `Run` makes, in their order, whatever the components answer.
use oasis_modbus2mqtt.Prelude.{◌≡◌, false, Option, none, some, List, [], ◌∷◌, arith}
use oasis_modbus2mqtt.Prelude.Errors.{Error, wrap}
use Prim.Native.String.{String}
use oasis_modbus2mqtt.App.Run.{
  Parts, Ending, context_done, server_closed, server_failed, shutdown, run_announced, run,
}

pub data Call : Type 0 where
  supervisor_start mqtt_connect discovery_publish commands_start ha_status_start : Call
  poller_start availability_start : Call
  http_shutdown await_poller await_availability mqtt_disconnect force_close : Call

-- Components that answer as `answer` says and keep the calls, newest first.
unfoldable pub recorded : (Call → Option Error) → Parts (List Call)
recorded answer = record {
  supervisor_start = λ s. (answer supervisor_start, supervisor_start ∷ s);
  mqtt_connect = λ s. (answer mqtt_connect, mqtt_connect ∷ s);
  discovery_publish = λ firmware s. (answer discovery_publish, discovery_publish ∷ s);
  commands_start = λ s. (answer commands_start, commands_start ∷ s);
  ha_status_start = λ s. (answer ha_status_start, ha_status_start ∷ s);
  poller_start = λ s. poller_start ∷ s;
  availability_start = λ s. availability_start ∷ s;
  http_shutdown = λ grace s. (answer http_shutdown, http_shutdown ∷ s);
  await_poller = λ timeout s. (false, await_poller ∷ s);
  await_availability = λ timeout s. (false, await_availability ∷ s);
  mqtt_disconnect = λ quiesce s. mqtt_disconnect ∷ s;
  force_close = λ s. (answer force_close, force_close ∷ s);
}

-- The calls of a start, each with what its error is wrapped in, if that error ends the start.
abbrev pub starts : List (Call × Option String)
starts =
    (supervisor_start, some "modbus initial connect")
    ∷ (mqtt_connect, some "mqtt initial connect")
    ∷ (discovery_publish, none)
    ∷ (commands_start, some "command subscriber start")
    ∷ (ha_status_start, some "ha status listener start")
    ∷ (poller_start, none)
    ∷ (availability_start, none)
    ∷ []

abbrev stops : List Call
stops = http_shutdown ∷ await_poller ∷ await_availability ∷ mqtt_disconnect ∷ force_close ∷ []

abbrev pushed : List Call → List Call → List Call
pushed [] s = s
pushed (c ∷ cs) s = pushed cs (c ∷ s)

-- What ends a start, if it does.
abbrev stopping : Option String → Option Error → Option Error
stopping (some context) (some e) = some (wrap context e)
stopping (some context) none = none
stopping none o = none

-- The calls of `pending`, up to the first whose error ends the start, and that error; behind the
-- last, the calls of the stop and the error of the server.
pub outcome :
    (Call → Option Error)
    → Option Error
    → List (Call × Option String)
    → List Call
    → Option Error × List Call
outcome answer last [] s = (last, pushed stops s)
outcome answer last ((c, context) ∷ pending) s =
    let rest = outcome answer last pending (c ∷ s) in
    elim (stopping context (answer c)) [ none ↦ rest | some e ↦ (some e, c ∷ s) ]

abbrev pub server_error : Ending → Option Error
server_error (server_failed e) = some e
server_error _ = none

-- Whatever the components answer and however the run ends, `Run` makes the calls of the start in
-- order, up to the first that fails, whose error it returns behind its context; a failure to publish
-- the discovery configs counts for nothing. If all of them succeed, and in no other case, it makes
-- those of the stop, in order, whether they fail or not, and returns the error of the HTTP server, if
-- there is one.
pub run-outcome :
    (answer : Call → Option Error) (ending : Ending)
    → run (recorded answer) ending [] ≡ outcome answer (server_error ending) starts []
unfolding run run_announced shutdown recorded outcome
run-outcome answer context_done = ground arith
run-outcome answer server_closed = ground arith
run-outcome answer (server_failed e) = ground arith
