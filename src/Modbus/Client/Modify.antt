-- ===== src/Modbus/Client/Modify.antt =====
-- What an atomic modification sends.
use oasis_modbus2mqtt.Prelude.{
  ℕ, ◌≡◌, refl, sym, ◌∙◌, ◌⊎◌, inl, inr, Bool, true, false, not, Option, none, some, List, [], ◌∷◌,
  map, arith, if◌then◌else◌,
}
use mathlib.Core.Path.{subst, subst₂}
use oasis_modbus2mqtt.Prelude.Errors.{Sentinel, Error, sentinel, wrap, Result, ok, err}
use Prim.Native.String.{String}
use oasis_modbus2mqtt.Port.{Ctx}
use oasis_modbus2mqtt.Modbus.Decode.{bytes_to_uint16}
use oasis_modbus2mqtt.Modbus.Client.{
  Request, Reply, Client, read_holding_registers, write_single_register, exchange, exchange_with,
  count_metric, handle_op_error, wait_guard_interval, modify_written, modify_waited, modify_started,
  modify_write, modify_decoded, modify_read, modify_holding, op_total,
}

-- The requests that went out, newest first.
abbrev pub requests : Client → List Request
requests c = map (λ x. x.request) c.exchanges

-- What the next request is answered with.
abbrev pub next_outcome : List Reply → Result (List ℕ)
next_outcome [] = err (sentinel Sentinel.eof)
next_outcome (reply ∷ later) = reply.outcome

-- The requests after a modification of `addr` by `f`, by the error that it returned, where
-- `outcome` is the answer to its read and `before` what had been sent.
pub data Trace (addr : ℕ) (f : ℕ → ℕ) (outcome : Result (List ℕ)) (before : List Request)
    : Option Error → List Request → Type 0 where
  untouched : (e : Error) → Trace addr f outcome before (some e) before
  only_read :
      (e : Error) → Trace addr f outcome before (some e) (read_holding_registers addr 1 ∷ before)
  read_and_write :
      (bytes : List ℕ) (v : ℕ) (e : Option Error)
      → outcome ≡ ok bytes
      → bytes_to_uint16 bytes ≡ ok (v ∷ [])
      → Trace addr f outcome before e
          (write_single_register addr (f v) ∷ read_holding_registers addr 1 ∷ before)

exchange_with-requests :
    (s : List Reply) (r : Request) (c : Client)
    → (requests (exchange_with s r c).1 ≡ r ∷ requests c)
      × ((exchange_with s r c).0 ≡ next_outcome s)
unfolding exchange_with
exchange_with-requests [] r c = (refl, refl)
exchange_with-requests (reply ∷ later) r c = (refl, refl)

exchange-requests :
    (r : Request) (c : Client)
    → (requests (exchange r c).1 ≡ r ∷ requests c) × ((exchange r c).0 ≡ next_outcome c.script)
unfolding exchange
exchange-requests r c = exchange_with-requests c.script r c

wait-requests :
    (ctx : Ctx) (c : Client)
    → (requests (wait_guard_interval ctx c).1 ≡ requests c)
      × ((wait_guard_interval ctx c).1.script ≡ c.script)
unfolding wait_guard_interval
wait-requests ctx c = (ground arith, ground arith)

handle-requests :
    (op : String) (e : Error) (c : Client) → requests (handle_op_error op e c) ≡ requests c
unfolding handle_op_error
handle-requests op e c = ground arith

module _ (ctx : Ctx) (addr : ℕ) (f : ℕ → ℕ) where
  -- What the write adds.
  Written : ℕ → List Request → Option Error × Client → Type 0
  Written v before (e, c) =
      ((e' : Error) × (e ≡ some e') × (requests c ≡ before))
      ⊎ (requests c ≡ write_single_register addr v ∷ before)

  written-requests :
      (r : Result (List ℕ)) (c : Client) → requests (modify_written (r, c)).1 ≡ requests c
  unfolding modify_written count_metric
  written-requests (err e) c = handle-requests "modify_holding_write" e _
  written-requests (ok bytes) c = refl

  waited-Written :
      (v : ℕ) (e : Option Error) (c : Client) → Written v (requests c) (modify_waited addr v (e, c))
  unfolding Written modify_waited
  waited-Written v (some e) c = inl (wrap "modify_holding" e, refl, refl)
  waited-Written v none c =
      let x = exchange (write_single_register addr v) c in
      inr (written-requests x.0 x.1 ∙ (exchange-requests (write_single_register addr v) c).0)

  module _ (outcome : Result (List ℕ)) (before : List Request) where
    -- The trace of a state with its error.
    Traced : Option Error × Client → Type 0
    Traced (e, c) = Trace addr f outcome before e (requests c)

    Written-Traced :
        (bytes : List ℕ) (v : ℕ) (x : Option Error × Client)
        → outcome ≡ ok bytes
        → bytes_to_uint16 bytes ≡ ok (v ∷ [])
        → Written (f v) (read_holding_registers addr 1 ∷ before) x
        → Traced x
    unfolding Written Traced
    Written-Traced bytes v (e, c) got decoded (inl (e', failed, same)) =
        rw (failed, same) (Trace.only_read e')
    Written-Traced bytes v (e, c) got decoded (inr wrote) =
        rw wrote (Trace.read_and_write bytes v e got decoded)

    decoded-Traced :
        (bytes : List ℕ) (r : Result (List ℕ)) (c : Client)
        → outcome ≡ ok bytes
        → bytes_to_uint16 bytes ≡ r
        → requests c ≡ read_holding_registers addr 1 ∷ before
        → Traced (modify_decoded ctx addr f r c)
    unfolding Traced modify_decoded modify_write count_metric
    decoded-Traced bytes (err e) c got h s = rw s (Trace.only_read _)
    decoded-Traced bytes (ok []) c got h s = rw s (Trace.only_read _)
    decoded-Traced bytes (ok (v ∷ [])) c got h s =
        let d = count_metric (op_total "modify_holding_read" "ok") c in
        let w = wait_guard_interval ctx d in
        Written-Traced bytes v _ got h (
          subst (λ b. Written (f v) b (modify_waited addr (f v) w)) ((wait-requests ctx d).0 ∙ s)
            (waited-Written (f v) w.0 w.1))
    decoded-Traced bytes (ok (v ∷ w ∷ vs)) c got h s = rw s (Trace.only_read _)

    read-Traced :
        (r : Result (List ℕ)) (c : Client)
        → r ≡ outcome
        → requests c ≡ read_holding_registers addr 1 ∷ before
        → Traced (modify_read ctx addr f (r, c))
    unfolding modify_read
    read-Traced (err e) c h s = unfold Traced in rw (handle-requests, s) (Trace.only_read _)
    read-Traced (ok raw) c h s = decoded-Traced raw (bytes_to_uint16 raw) _ (sym h) refl s

  started-Traced :
      (e : Option Error) (c : Client)
      → Traced (next_outcome c.script) (requests c) (modify_started ctx addr f (e, c))
  unfolding modify_started
  started-Traced (some e) c = unfold Traced in Trace.untouched _
  started-Traced none c =
      let x = exchange (read_holding_registers addr 1) c in
      let (sent, answer) = exchange-requests (read_holding_registers addr 1) c in
      read-Traced (next_outcome c.script) (requests c) x.0 x.1 answer sent

-- A modification sends nothing, or only the read of its register, or that read and directly after
-- it one write to the same register; the value written is the function's result at the one
-- register that the answer to the read holds. Where it returns no error, both were sent.
pub modify_holding-Trace :
    (ctx : Ctx) (addr : ℕ) (f : ℕ → ℕ) (c : Client)
    → Trace addr f
        (next_outcome c.script)
        (requests c)
        (modify_holding ctx addr f c).0
        (requests (modify_holding ctx addr f c).1)
unfolding modify_holding Traced
modify_holding-Trace ctx addr f c = go c.connected
  where
    go :
        (b : Bool)
        → let x =
            if not b
            then (some (wrap "modify_holding" (sentinel Sentinel.modbus_not_connected)), c)
            else modify_started ctx addr f (wait_guard_interval ctx c) in
          Trace addr f (next_outcome c.script) (requests c) x.0 (requests x.1)
    go false = Trace.untouched _
    go true =
        let w = wait_guard_interval ctx c in
        let (same, script) = wait-requests ctx c in
        subst₂
          (λ (s : List Reply) (q : List Request).
            Trace addr f (next_outcome s) q (modify_started ctx addr f w).0
              (requests (modify_started ctx addr f w).1))
          script same (started-Traced ctx addr f w.0 w.1)
