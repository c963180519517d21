-- ===== src/Modbus/Client/Operations.antt =====
-- Each operation of the client keeps the guard interval.
use oasis_modbus2mqtt.Prelude.Time.{Duration}
use oasis_modbus2mqtt.Port.{Ctx}
use oasis_modbus2mqtt.Modbus.Client.{
  Request, Reply, Client, dial, hang_up, read_input_registers, read_holding_registers,
  write_single_register, exchange, exchange_with, count_metric, handle_op_error,
  wait_guard_interval, finish_op, after_wait, do_op, read_input, read_holding, write_holding,
  modify_written, modify_waited, modify_started, modify_write, modify_decoded, modify_read,
  modify_holding, dialled, connect, force_close, Metric,
}
use oasis_modbus2mqtt.Prelude.{
  ℕ, ◌≡◌, refl, sym, Bool, true, false, not, Option, none, some, List, [], ◌∷◌, arith,
  if◌then◌else◌,
}
use oasis_modbus2mqtt.Prelude.Errors.{Error, Result, ok, err}
use Prim.Native.String.{String}
use oasis_modbus2mqtt.Modbus.Client.Guard.{
  is_op, Follows, interval, IsPaced, SameTimes-IsPaced, handle-SameTimes, exchange-IsPaced,
  other-IsPaced, wait-IsPaced, wait-Follows,
}

exchange-last : (r : Request) (c : Client) → (exchange r c).1.last_op_at ≡ c.last_op_at
unfolding exchange
exchange-last r c = last_with c.script
  where
    last_with : (s : List Reply) → (exchange_with s r c).1.last_op_at ≡ c.last_op_at
    last_with [] = unfold exchange_with in refl
    last_with (reply ∷ later) = unfold exchange_with in refl

-- May this request go out now?
abbrev Ready : Request → Option Error × Client → Type 0
Ready r (e, c) = e ≡ none → Follows (interval c) c.exchanges c.clock r

module _ {g : Duration} where
  counted-IsPaced : (m : Metric) (c : Client) → IsPaced g c → IsPaced g (count_metric m c)
  unfolding count_metric
  counted-IsPaced m c h = record {
    same = h.same;
    started = h.started;
    spaced = h.spaced;
    remembers = h.remembers;
    recent = h.recent;
  }

  handle-IsPaced :
      (op : String) (e : Error) (c : Client) → IsPaced g c → IsPaced g (handle_op_error op e c)
  handle-IsPaced op e c h = SameTimes-IsPaced c _ (handle-SameTimes op e c) h

  -- One of two states.
  if-IsPaced {ℓ} :
      {A : Type ℓ} (b : Bool) (x y : A × Client)
      → IsPaced g x.1
      → IsPaced g y.1
      → IsPaced g (if b then x else y).1
  if-IsPaced true x y p q = p
  if-IsPaced false x y p q = q

  finish-IsPaced :
      (op : String) (r : Result (List ℕ)) (c : Client)
      → IsPaced g (record c { last_op_at = c.clock })
      → IsPaced g (finish_op op (r, c)).1
  unfolding finish_op
  finish-IsPaced op (ok bytes) c h = counted-IsPaced _ _ h
  finish-IsPaced op (err e) c h = handle-IsPaced op e _ h

  after_wait-IsPaced :
      (op : String) (r : Request) (e : Option Error) (c : Client)
      → IsPaced g c
      → Ready r (e, c)
      → IsPaced g (after_wait op r (e, c)).1
  unfolding after_wait
  after_wait-IsPaced op r (some e) c h f = h
  after_wait-IsPaced op r none c h f =
      finish-IsPaced op (exchange r c).0 (exchange r c).1 (exchange-IsPaced r c h (f refl))

  -- A single operation sends its request, if at all, no sooner than the guard interval after the
  -- operation before it.
  do_op-IsPaced :
      (ctx : Ctx) (op : String) (r : Request) (c : Client)
      → IsPaced g c
      → IsPaced g (do_op ctx op r c).1
  unfolding do_op
  do_op-IsPaced ctx op r c h =
      let w = wait_guard_interval ctx c in
      if-IsPaced (not c.connected) _ _ h
        (after_wait-IsPaced op r w.0 w.1 (wait-IsPaced ctx c h) (wait-Follows ctx c r h))

  pub read_input-IsPaced :
      (ctx : Ctx) (start count : ℕ) (c : Client)
      → IsPaced g c
      → IsPaced g (read_input ctx start count c).1
  unfolding read_input
  read_input-IsPaced ctx start count c h =
      if-IsPaced _ _ _ h (do_op-IsPaced ctx "read_input" (read_input_registers start count) c h)

  pub read_holding-IsPaced :
      (ctx : Ctx) (start count : ℕ) (c : Client)
      → IsPaced g c
      → IsPaced g (read_holding ctx start count c).1
  unfolding read_holding
  read_holding-IsPaced ctx start count c h =
      if-IsPaced _ _ _ h (do_op-IsPaced ctx "read_holding" (read_holding_registers start count) c h)

  pub write_holding-IsPaced :
      (ctx : Ctx) (addr value : ℕ) (c : Client)
      → IsPaced g c
      → IsPaced g (write_holding ctx addr value c).1
  unfolding write_holding
  write_holding-IsPaced ctx addr value c h =
      do_op-IsPaced ctx "write_holding" (write_single_register addr value) c h

  written-IsPaced :
      (r : Result (List ℕ)) (c : Client)
      → IsPaced g (record c { last_op_at = c.clock })
      → IsPaced g (modify_written (r, c)).1
  unfolding modify_written
  written-IsPaced (err e) c h = handle-IsPaced _ e _ h
  written-IsPaced (ok bytes) c h = counted-IsPaced _ _ h

  waited-IsPaced :
      (addr new : ℕ) (e : Option Error) (c : Client)
      → IsPaced g c
      → Ready (write_single_register addr new) (e, c)
      → IsPaced g (modify_waited addr new (e, c)).1
  unfolding modify_waited
  waited-IsPaced addr new (some e) c h f = h
  waited-IsPaced addr new none c h f =
      let x = exchange (write_single_register addr new) c in
      written-IsPaced x.0 x.1 (exchange-IsPaced (write_single_register addr new) c h (f refl))

  write-IsPaced :
      (ctx : Ctx) (addr new : ℕ) (c : Client)
      → IsPaced g c
      → IsPaced g (modify_write ctx addr new c).1
  unfolding modify_write
  write-IsPaced ctx addr new c h =
      let w = wait_guard_interval ctx c in
      waited-IsPaced addr new w.0 w.1 (wait-IsPaced ctx c h) (wait-Follows ctx c _ h)

  decoded-IsPaced :
      (ctx : Ctx) (addr : ℕ) (modify : ℕ → ℕ) (r : Result (List ℕ)) (c : Client)
      → IsPaced g c
      → IsPaced g (modify_decoded ctx addr modify r c).1
  unfolding modify_decoded
  decoded-IsPaced ctx addr modify (err e) c h = counted-IsPaced _ _ (counted-IsPaced _ _ h)
  decoded-IsPaced ctx addr modify (ok []) c h = counted-IsPaced _ _ (counted-IsPaced _ _ h)
  decoded-IsPaced ctx addr modify (ok (v ∷ [])) c h =
      write-IsPaced ctx addr (modify v) _ (counted-IsPaced _ _ h)
  decoded-IsPaced ctx addr modify (ok (v ∷ w ∷ vs)) c h =
      counted-IsPaced _ _ (counted-IsPaced _ _ h)

  read-IsPaced :
      (ctx : Ctx) (addr : ℕ) (modify : ℕ → ℕ) (r : Result (List ℕ)) (c : Client)
      → IsPaced g (record c { last_op_at = c.clock })
      → IsPaced g (modify_read ctx addr modify (r, c)).1
  unfolding modify_read
  read-IsPaced ctx addr modify (err e) c h = handle-IsPaced _ e _ h
  read-IsPaced ctx addr modify (ok raw) c h = decoded-IsPaced ctx addr modify _ _ h

  started-IsPaced :
      (ctx : Ctx) (addr : ℕ) (modify : ℕ → ℕ) (e : Option Error) (c : Client)
      → IsPaced g c
      → Ready (read_holding_registers addr 1) (e, c)
      → IsPaced g (modify_started ctx addr modify (e, c)).1
  unfolding modify_started
  started-IsPaced ctx addr modify (some e) c h f = h
  started-IsPaced ctx addr modify none c h f =
      let x = exchange (read_holding_registers addr 1) c in
      read-IsPaced ctx addr modify x.0 x.1
        (exchange-IsPaced (read_holding_registers addr 1) c h (f refl))

  pub modify_holding-IsPaced :
      (ctx : Ctx) (addr : ℕ) (modify : ℕ → ℕ) (c : Client)
      → IsPaced g c
      → IsPaced g (modify_holding ctx addr modify c).1
  unfolding modify_holding
  modify_holding-IsPaced ctx addr modify c h =
      let w = wait_guard_interval ctx c in
      if-IsPaced (not c.connected) _ _ h
        (started-IsPaced ctx addr modify w.0 w.1 (wait-IsPaced ctx c h) (wait-Follows ctx c _ h))

  flag-IsPaced : (up : Bool) (c : Client) → IsPaced g c → IsPaced g (record c { connected = up })
  flag-IsPaced up c h = record {
    same = h.same;
    started = h.started;
    spaced = h.spaced;
    remembers = h.remembers;
    recent = h.recent;
  }

  -- Opening and closing leave the time of the last operation as it is.
  unset : (r : Request) (c : Client) → is_op r ≡ false → IsPaced g c → IsPaced g (exchange r c).1
  unset r c other h =
      SameTimes-IsPaced (record (exchange r c).1 { last_op_at = c.last_op_at }) _
        (refl, refl, sym (exchange-last r c), refl)
        (other-IsPaced r c c.last_op_at other h.recent h)

  dialled-IsPaced :
      (r : Result (List ℕ)) (c : Client)
      → IsPaced g c
      → IsPaced g (record c { last_op_at = 0 })
      → IsPaced g (dialled (r, c)).1
  unfolding dialled
  dialled-IsPaced (err e) c h z = h
  dialled-IsPaced (ok bytes) c h z =
      counted-IsPaced _ _ (counted-IsPaced _ _ (flag-IsPaced true _ z))

  pub connect-IsPaced : (c : Client) → IsPaced g c → IsPaced g (connect c).1
  unfolding connect
  connect-IsPaced c h =
      let x = exchange dial c in
      if-IsPaced c.connected _ _ h (
        dialled-IsPaced x.0 x.1 (unset dial c refl h) (other-IsPaced dial c 0 refl (omega arith) h))

  pub force_close-IsPaced : (c : Client) → IsPaced g c → IsPaced g (force_close c).1
  unfolding force_close
  force_close-IsPaced c h =
      if-IsPaced (not c.connected) _ _ h
        (counted-IsPaced _ _ (flag-IsPaced false _ (unset hang_up c refl h)))
