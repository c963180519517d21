-- ===== src/Modbus/Client/Loss.antt =====
-- When the client counts its connection as lost, and what it does without one.
use oasis_modbus2mqtt.Prelude.{
  ℕ, ◌≡◌, refl, ap, ◌∙◌, Bool, true, false, not, ◌&&◌, ◌||◌, Option, none, some, List, [], ◌∷◌,
  arith, if◌then◌else◌,
}
use mathlib.Core.Bool.{true-and}
use oasis_modbus2mqtt.Prelude.Errors.{Sentinel, Error, sentinel, wrap, errors_is, Result, ok, err}
use Prim.Native.String.{String}
use oasis_modbus2mqtt.Port.{Ctx}
use oasis_modbus2mqtt.Modbus.Classify.{wrap_some, timed_out, as_op_error}
use oasis_modbus2mqtt.Modbus.Classify.Classes.{IsRaw, transport_lost_iff}
use oasis_modbus2mqtt.Modbus.Client.{
  Request, Reply, Client, read_input_registers, read_holding_registers, write_single_register,
  exchange, exchange_with, count_metric, handle_op_error, wait_guard_interval, finish_op,
  after_wait, do_op, read_input, read_holding, write_holding, bad_count, modify_holding,
}

abbrev pub not_connected : String → Error
not_connected op = wrap op (sentinel Sentinel.modbus_not_connected)

if_not {ℓ} : {A : Type ℓ} {b : Bool} (x y : A) → b ≡ false → (if not b then x else y) ≡ x
if_not {b = true} x y h = cc
if_not {b = false} x y h = refl

do_op_down :
    (ctx : Ctx) (op : String) (r : Request) (c : Client)
    → c.connected ≡ false
    → do_op ctx op r c ≡ (err (not_connected op), c)
unfolding do_op
do_op_down ctx op r c down = if_not _ _ down

do_op_up :
    (ctx : Ctx) (op : String) (r : Request) (c : Client)
    → c.connected ≡ true
    → do_op ctx op r c ≡ after_wait op r (wait_guard_interval ctx c)
unfolding do_op
do_op_up ctx op r c up = if_not_true _ _ up
  where
    if_not_true : {A : Type 0} {b : Bool} (x y : A) → b ≡ true → (if not b then x else y) ≡ y
    if_not_true {b = true} x y h = refl
    if_not_true {b = false} x y h = cc

-- Without a connection every operation fails with ErrModbusNotConnected and changes nothing: no
-- request goes out, no wait is made. (A read of an admissible number of registers.)
pub disconnected_refuses :
    (ctx : Ctx) (a n : ℕ) (f : ℕ → ℕ) (c : Client)
    → c.connected ≡ false
    → bad_count n ≡ false
    → (read_input ctx a n c ≡ (err (not_connected "read_input"), c))
      × (read_holding ctx a n c ≡ (err (not_connected "read_holding"), c))
      × (write_holding ctx a n c ≡ (some (not_connected "write_holding"), c))
      × (modify_holding ctx a f c ≡ (some (not_connected "modify_holding"), c))
unfolding read_input read_holding write_holding modify_holding
disconnected_refuses ctx a n f c down good = (
  rw (good, do_op_down ctx "read_input" (read_input_registers a n) c down),
  rw (good, do_op_down ctx "read_holding" (read_holding_registers a n) c down),
  rw (do_op_down ctx "write_holding" (write_single_register a n) c down),
  if_not _ _ down,
)

-- A transport failure.
abbrev transport_lost : Error → Bool
transport_lost e =
    timed_out e
    || (errors_is e Sentinel.eof || errors_is e Sentinel.unexpected_eof || as_op_error e)

handle-connected :
    (op : String) (e : Error) (c : Client)
    → IsRaw e
    → (handle_op_error op e c).connected ≡ (c.connected && not (transport_lost e))
unfolding handle_op_error count_metric
handle-connected op e c raw = ground (arith, transport_lost_iff op e raw)

exchange_with-connected :
    (s : List Reply) (r : Request) (c : Client) → (exchange_with s r c).1.connected ≡ c.connected
unfolding exchange_with
exchange_with-connected [] r c = refl
exchange_with-connected (reply ∷ later) r c = refl

wait-connected : (ctx : Ctx) (c : Client) → (wait_guard_interval ctx c).1.connected ≡ c.connected
unfolding wait_guard_interval
wait-connected ctx c = ground arith

finish_op-failure :
    (op : String) (x : Result (List ℕ)) (c : Client) (e : Error)
    → x ≡ err e
    → IsRaw e
    → ((finish_op op (x, c)).0 ≡ err (wrap_some op e))
      × ((finish_op op (x, c)).1.connected ≡ (c.connected && not (transport_lost e)))
unfolding finish_op
finish_op-failure op (ok bytes) c e h raw = cc
finish_op-failure op (err e') c e h raw =
    let same : e' ≡ e = cc in
    rw same (refl, handle-connected op e (record c { last_op_at = c.clock }) raw)

after_wait-failure :
    (op : String) (r : Request) (o : Option Error) (c : Client) (e : Error)
    → o ≡ none
    → (exchange r c).0 ≡ err e
    → IsRaw e
    → ((after_wait op r (o, c)).0 ≡ err (wrap_some op e))
      × ((after_wait op r (o, c)).1.connected ≡ (c.connected && not (transport_lost e)))
unfolding after_wait exchange
after_wait-failure op r (some late) c e waited fails raw = cc
after_wait-failure op r none c e waited fails raw =
    let (returned, flag) = finish_op-failure op (exchange r c).0 (exchange r c).1 e fails raw in
    (returned, flag ∙ ap (λ b. b && not (transport_lost e)) (exchange_with-connected c.script r c))

-- A read or write whose request fails with a raw error returns that error behind `WrapError`; the
-- client stays connected exactly when the error is no timeout, no end of file and no other
-- `*net.OpError`.
pub do_op_failure :
    (ctx : Ctx) (op : String) (r : Request) (c : Client) (e : Error)
    → c.connected ≡ true
    → (wait_guard_interval ctx c).0 ≡ none
    → (exchange r (wait_guard_interval ctx c).1).0 ≡ err e
    → IsRaw e
    → ((do_op ctx op r c).0 ≡ err (wrap_some op e))
      × ((do_op ctx op r c).1.connected
          ≡ not (
              timed_out e
              || (errors_is e Sentinel.eof
                  || errors_is e Sentinel.unexpected_eof
                  || as_op_error e)))
do_op_failure ctx op r c e up waited fails raw =
    let w = wait_guard_interval ctx c in
    let (returned, flag) = after_wait-failure op r w.0 w.1 e waited fails raw in
    let goes_on : do_op ctx op r c ≡ after_wait op r (wait_guard_interval ctx c) =
      do_op_up ctx op r c up in
    (
      ap (λ p. p.0) goes_on ∙ returned,
      ap (λ p. p.1.connected) goes_on
          ∙ flag
          ∙ ap (λ b. b && not (transport_lost e)) (wait-connected ctx c ∙ up)
          ∙ true-and _,
    )
