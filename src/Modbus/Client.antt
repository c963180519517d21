-- ===== src/Modbus/Client.antt =====
-- infrastructure/modbus/client.go: the TCP client. What the transport answers is a script of
-- replies, each with the time it takes; the requests that go out are logged with their times.
-- Metrics are the list of their updates, newest first; log lines are left out, and the mutex
-- shows in that every operation is one step on the state.
pub mod Operations
pub mod Pacing
pub mod Modify
pub mod Loss
pub mod Guard
use oasis_modbus2mqtt.Prelude.{
  ℕ, ◌+◌, ◌-◌, Bool, true, false, not, ◌||◌, Option, none, some, List, [], ◌∷◌, ltb, ◌==◌,
  if◌then◌else◌,
}
use oasis_modbus2mqtt.Prelude.Errors.{
  Sentinel, Error, sentinel, wrap, message, errors_is, Result, ok, err,
}
use oasis_modbus2mqtt.Prelude.Int.{pos, pos_part, neg_part, leb_ℤ}
use Prim.Native.String.{String}
use oasis_modbus2mqtt.Prelude.Time.{Time, Duration, is_zero, time_sub}
use oasis_modbus2mqtt.Port.{Ctx, wait}
use oasis_modbus2mqtt.Modbus.Decode.{bytes_to_uint16}
use oasis_modbus2mqtt.Modbus.Classify.{wrap_some}

-- What goes over the transport.
pub data Request : Type 0 where
  dial hang_up : Request
  read_input_registers read_holding_registers write_single_register : ℕ → ℕ → Request

-- A request with the time at which it began and the time at which its answer was there.
pub record Exchange : Type 0 where
  pub request : Request
  pub started : Time
  pub finished : Time

-- What the library returns for a request, after how long: bytes or an error.
pub record Reply : Type 0 where
  pub outcome : Result (List ℕ)
  pub elapsed : ℕ

pub data Metric : Type 0 where
  op_total : String → String → Metric
  error_total : String → Metric
  modbus_connected : Bool → Metric
  reconnects_total : Metric

-- `Client`: the guard interval of its configuration, the two fields that change, and the world.
pub record Client : Type 0 where
  pub guard_interval : Duration
  pub connected : Bool
  pub last_op_at : Time
  pub clock : Time
  pub script : List Reply
  pub exchanges : List Exchange
  pub metrics : List Metric

-- `NewClient`, at the time `clock`.
unfoldable pub new_client : Duration → Time → List Reply → Client
new_client guard clock script = record {
  guard_interval = guard;
  connected = false;
  last_op_at = 0;
  clock = clock;
  script = script;
  exchanges = [];
  metrics = [];
}

abbrev pub max_registers_per_read : ℕ
max_registers_per_read = 125

-- A request and the reply that is next in the script; when the script is over the peer has closed
-- the connection.
unfoldable pub exchange_with : List Reply → Request → Client → Result (List ℕ) × Client
exchange_with [] r c = (
  err (sentinel Sentinel.eof),
  record c {
    exchanges = record { request = r; started = c.clock; finished = c.clock } ∷ c.exchanges;
  },
)
exchange_with (reply ∷ later) r c = (
  reply.outcome,
  record c {
    clock = c.clock + reply.elapsed;
    script = later;
    exchanges =
        record { request = r; started = c.clock; finished = c.clock + reply.elapsed } ∷ c.exchanges;
  },
)

unfoldable pub exchange : Request → Client → Result (List ℕ) × Client
unfolding exchange_with
exchange r c = exchange_with c.script r c

unfoldable pub count_metric : Metric → Client → Client
count_metric m c = record c { metrics = m ∷ c.metrics }

-- `handleOpError`
unfoldable pub handle_op_error : String → Error → Client → Client
unfolding count_metric
handle_op_error op e c =
    let counted = count_metric (op_total op "error") c in
    let wrapped = wrap_some op e in
    if errors_is wrapped Sentinel.connection_lost
    then count_metric (error_total "connection_lost")
        (count_metric (modbus_connected false) (record counted { connected = false }))
    else if errors_is wrapped Sentinel.timeout
    then count_metric (error_total "timeout")
        (count_metric (modbus_connected false) (record counted { connected = false }))
    else count_metric (error_total "protocol") counted

-- `waitGuardInterval`
unfoldable pub wait_guard_interval : Ctx → Client → Option Error × Client
wait_guard_interval ctx c =
    let elapsed = time_sub c.clock c.last_op_at in
    let remaining = pos_part c.guard_interval + neg_part elapsed - pos_part elapsed in
    let (e, now) = wait ctx c.clock remaining in
    if is_zero c.last_op_at || leb_ℤ c.guard_interval (pos 0)
    then (none, c)
    else if leb_ℤ c.guard_interval elapsed
    then (none, c)
    else (e, record c { clock = now })

-- The end of `doOp`, once the answer is there.
unfoldable pub finish_op : String → Result (List ℕ) × Client → Result (List ℕ) × Client
unfolding count_metric
finish_op op (ok bytes, c) =
    (ok bytes, count_metric (op_total op "ok") (record c { last_op_at = c.clock }))
finish_op op (err e, c) =
    (err (wrap_some op e), handle_op_error op e (record c { last_op_at = c.clock }))

-- `doOp` once the guard interval is over or the context done.
unfoldable pub after_wait : String → Request → Option Error × Client → Result (List ℕ) × Client
after_wait op r (some e, c) = (err (wrap op e), c)
after_wait op r (none, c) = finish_op op (exchange r c)

-- `doOp`, with the request that its function makes.
unfoldable pub do_op : Ctx → String → Request → Client → Result (List ℕ) × Client
do_op ctx op r c =
    if not c.connected
    then (err (wrap op (sentinel Sentinel.modbus_not_connected)), c)
    else after_wait op r (wait_guard_interval ctx c)

-- `%w` around the error of a result.
abbrev pub wrap_result {ℓ} : {A : Type ℓ} → String → Result A → Result A
wrap_result op (ok a) = ok a
wrap_result op (err e) = err (wrap op e)

-- The decoding of what a read returned.
abbrev pub decode_read : String → Result (List ℕ) → Result (List ℕ)
decode_read op (ok raw) = wrap_result op (bytes_to_uint16 raw)
decode_read op (err e) = err e

abbrev pub bad_count : ℕ → Bool
bad_count count = count == 0 || ltb max_registers_per_read count

-- `ReadInput`
unfoldable pub read_input : Ctx → ℕ → ℕ → Client → Result (List ℕ) × Client
read_input ctx start count c =
    let (raw, c') = do_op ctx "read_input" (read_input_registers start count) c in
    if bad_count count
    then (err (wrap "read_input" (sentinel Sentinel.illegal_data_value)), c)
    else (decode_read "read_input" raw, c')

-- `ReadHolding`
unfoldable pub read_holding : Ctx → ℕ → ℕ → Client → Result (List ℕ) × Client
read_holding ctx start count c =
    let (raw, c') = do_op ctx "read_holding" (read_holding_registers start count) c in
    if bad_count count
    then (err (wrap "read_holding" (sentinel Sentinel.illegal_data_value)), c)
    else (decode_read "read_holding" raw, c')

-- The error of a result, nil if it has none.
abbrev pub error_of {ℓ} : {A : Type ℓ} → Result A → Option Error
error_of (ok a) = none
error_of (err e) = some e

-- `WriteHolding`
unfoldable pub write_holding : Ctx → ℕ → ℕ → Client → Option Error × Client
write_holding ctx addr value c =
    let (r, c') = do_op ctx "write_holding" (write_single_register addr value) c in (error_of r, c')

-- The end of `ModifyHolding`, once the answer to the write is there.
unfoldable pub modify_written : Result (List ℕ) × Client → Option Error × Client
unfolding count_metric
modify_written (err e, c) = (
  some (wrap_some "modify_holding_write" e),
  handle_op_error "modify_holding_write" e (record c { last_op_at = c.clock }),
)
modify_written (ok bytes, c) =
    (none, count_metric (op_total "modify_holding_write" "ok") (record c { last_op_at = c.clock }))

-- The second wait of `ModifyHolding` and the write.
unfoldable pub modify_waited : ℕ → ℕ → Option Error × Client → Option Error × Client
modify_waited addr new (some e, c) = (some (wrap "modify_holding" e), c)
modify_waited addr new (none, c) = modify_written (exchange (write_single_register addr new) c)

unfoldable pub modify_write : Ctx → ℕ → ℕ → Client → Option Error × Client
modify_write ctx addr new c = modify_waited addr new (wait_guard_interval ctx c)

-- The middle part: the check of what was read. `modify` is a total function here, so that the
-- branch for a panic in it is not taken.
unfoldable pub modify_decoded : Ctx → ℕ → (ℕ → ℕ) → Result (List ℕ) → Client → Option Error × Client
unfolding count_metric
modify_decoded ctx addr modify (err e) c = (
  some (wrap "modify_holding_read" e),
  count_metric (error_total "decode") (count_metric (op_total "modify_holding_read" "error") c),
)
modify_decoded ctx addr modify (ok (current ∷ [])) c =
    modify_write ctx addr (modify current) (count_metric (op_total "modify_holding_read" "ok") c)
modify_decoded ctx addr modify (ok _) c = (
  some (message "modify_holding_read: expected 1 register"),
  count_metric (error_total "decode") (count_metric (op_total "modify_holding_read" "error") c),
)

-- What follows the read of `ModifyHolding`.
unfoldable pub modify_read : Ctx → ℕ → (ℕ → ℕ) → Result (List ℕ) × Client → Option Error × Client
modify_read ctx addr modify (err e, c) = (
  some (wrap_some "modify_holding_read" e),
  handle_op_error "modify_holding_read" e (record c { last_op_at = c.clock }),
)
modify_read ctx addr modify (ok raw, c) =
    modify_decoded ctx addr modify (bytes_to_uint16 raw) (record c { last_op_at = c.clock })

-- `ModifyHolding` once the first wait is over.
unfoldable pub modify_started : Ctx → ℕ → (ℕ → ℕ) → Option Error × Client → Option Error × Client
modify_started ctx addr modify (some e, c) = (some (wrap "modify_holding" e), c)
modify_started ctx addr modify (none, c) =
    modify_read ctx addr modify (exchange (read_holding_registers addr 1) c)

-- `ModifyHolding`
unfoldable pub modify_holding : Ctx → ℕ → (ℕ → ℕ) → Client → Option Error × Client
modify_holding ctx addr modify c =
    if not c.connected
    then (some (wrap "modify_holding" (sentinel Sentinel.modbus_not_connected)), c)
    else modify_started ctx addr modify (wait_guard_interval ctx c)

-- What follows the dialling of `Connect`.
unfoldable pub dialled : Result (List ℕ) × Client → Option Error × Client
unfolding count_metric
dialled (err e, c) = (some (wrap_some "connect" e), c)
dialled (ok bytes, c) = (
  none,
  count_metric reconnects_total
      (count_metric (modbus_connected true) (record c { connected = true; last_op_at = 0 })),
)

-- `Connect`
unfoldable pub connect : Client → Option Error × Client
connect c = if c.connected then (none, c) else dialled (exchange dial c)

-- `ForceClose`; an error of the close is only logged.
unfoldable pub force_close : Client → Option Error × Client
unfolding count_metric
force_close c = if not c.connected then (none, c) else (
  none,
  count_metric (modbus_connected false) (record (exchange hang_up c).1 { connected = false }),
)
