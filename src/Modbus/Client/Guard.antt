-- ===== src/Modbus/Client/Guard.antt =====
-- The guard interval between operations on the transport.
use oasis_modbus2mqtt.Prelude.Time.{Time, Duration, time_sub}
use oasis_modbus2mqtt.Port.{Ctx, wait}
use oasis_modbus2mqtt.Modbus.Client.{
  Request, Exchange, Reply, Client, dial, hang_up, read_input_registers, read_holding_registers,
  write_single_register, exchange, exchange_with, handle_op_error, wait_guard_interval,
}
use oasis_modbus2mqtt.Prelude.{
  ℕ, ◌+◌, ◌≤◌, ◌<◌, ◌≡◌, refl, sym, ◌∙◌, ◌⊎◌, Bool, true, false, none, List, [], ◌∷◌, arith,
}
use oasis_modbus2mqtt.Prelude.Errors.{Error}
use oasis_modbus2mqtt.Prelude.Int.{pos_part}
use Prim.Native.String.{String}

-- Reads and writes of registers, as against opening and closing the connection.
abbrev pub is_op : Request → Bool
is_op dial = false
is_op hang_up = false
is_op (read_input_registers start count) = true
is_op (read_holding_registers start count) = true
is_op (write_single_register addr value) = true

-- An operation that begins at `start` keeps the distance `g` from the exchange before it, if that
-- was an operation too.
abbrev pub Follows : ℕ → List Exchange → Time → Request → Type 0
Follows g [] start r = Unit
Follows g (y ∷ ys) start r = is_op y.request ≡ true → is_op r ≡ true → y.finished + g ≤ start

-- Every operation keeps the distance.
abbrev pub Spaced : ℕ → List Exchange → Type 0
Spaced g [] = Unit
Spaced g (x ∷ xs) = Follows g xs x.started x.request × Spaced g xs

-- What the client remembers of the newest exchange.
abbrev pub Remembers : List Exchange → Time → Time → Type 0
Remembers [] last now = Unit
Remembers (y ∷ ys) last now =
    (0 < y.finished) × (y.finished ≤ now) × (is_op y.request ≡ true → last ≡ y.finished)

abbrev pub interval : Client → ℕ
interval c = pos_part c.guard_interval

pub record IsPaced (g : Duration) (c : Client) : Type 0 where
  pub same : c.guard_interval ≡ g
  pub started : 0 < c.clock
  pub spaced : Spaced (interval c) c.exchanges
  pub remembers : Remembers c.exchanges c.last_op_at c.clock
  pub recent : c.last_op_at ≤ c.clock

waited_long_enough :
    (ctx : Ctx) (c : Client)
    → c.last_op_at ≤ c.clock
    → (wait_guard_interval ctx c).0 ≡ none
    → (c.last_op_at ≡ 0) ⊎ (c.last_op_at + interval c ≤ (wait_guard_interval ctx c).1.clock)
unfolding wait_guard_interval wait time_sub
waited_long_enough ctx c h e = ground arith

wait_keeps :
    (ctx : Ctx) (c : Client)
    → (c.clock ≤ (wait_guard_interval ctx c).1.clock)
      × ((wait_guard_interval ctx c).1 ≡ record c { clock = (wait_guard_interval ctx c).1.clock })
unfolding wait_guard_interval wait time_sub
wait_keeps ctx c = (ground arith, ground arith)

follows :
    (g : ℕ) (xs : List Exchange) (last now now' : Time) (r : Request)
    → Remembers xs last now
    → (last ≡ 0) ⊎ (last + g ≤ now')
    → Follows g xs now' r
follows g [] last now now' r h w = tt
follows g (y ∷ ys) last now now' r (h, k, l) w = λ old new. ground (arith, l old)

-- Only the flag and the metrics differ.
abbrev pub SameTimes : Client → Client → Type 0
SameTimes c d =
    (c.guard_interval ≡ d.guard_interval)
    × (c.exchanges ≡ d.exchanges)
    × (c.last_op_at ≡ d.last_op_at)
    × (c.clock ≡ d.clock)

pub handle-SameTimes : (op : String) (e : Error) (c : Client) → SameTimes c (handle_op_error op e c)
unfolding handle_op_error
handle-SameTimes op e c = ground arith

Remembers-later :
    (xs : List Exchange) (last now now' : Time)
    → now ≤ now'
    → Remembers xs last now
    → Remembers xs last now'
Remembers-later [] last now now' h r = tt
Remembers-later (y ∷ ys) last now now' h (p, q, r) = (p, omega arith, r)

module _ {g : Duration} where
  exchange_with-IsPaced :
      (script : List Reply) (r : Request) (c : Client)
      → IsPaced g c
      → Follows (interval c) c.exchanges c.clock r
      → IsPaced g
          (record (exchange_with script r c).1 { last_op_at = (exchange_with script r c).1.clock })
  unfolding exchange_with
  exchange_with-IsPaced [] r c h f = record {
    same = h.same;
    started = h.started;
    spaced = (f, h.spaced);
    remembers = (h.started, omega arith, λ _. refl);
    recent = omega arith;
  }
  exchange_with-IsPaced (reply ∷ later) r c h f = record {
    same = h.same;
    started = omega (arith, h.started);
    spaced = (f, h.spaced);
    remembers = (omega (arith, h.started), omega arith, λ _. refl);
    recent = omega arith;
  }

  pub exchange-IsPaced :
      (r : Request) (c : Client)
      → IsPaced g c
      → Follows (interval c) c.exchanges c.clock r
      → IsPaced g (record (exchange r c).1 { last_op_at = (exchange r c).1.clock })
  unfolding exchange
  exchange-IsPaced r c = exchange_with-IsPaced c.script r c

  pub SameTimes-IsPaced : (c d : Client) → SameTimes c d → IsPaced g c → IsPaced g d
  SameTimes-IsPaced c d (k, x, l, t) h = record {
    same = sym k ∙ h.same;
    started = rw (← t) h.started;
    spaced = rw (← k, ← x) h.spaced;
    remembers = rw (← x, ← l, ← t) h.remembers;
    recent = rw (← l, ← t) h.recent;
  }

  later-IsPaced :
      (c : Client) (t : Time) → c.clock ≤ t → IsPaced g c → IsPaced g (record c { clock = t })
  later-IsPaced c t later h = record {
    same = h.same;
    started = omega (arith, h.started);
    spaced = h.spaced;
    remembers = Remembers-later c.exchanges c.last_op_at c.clock t later h.remembers;
    recent = omega (arith, h.recent);
  }

  pub wait-IsPaced :
      (ctx : Ctx) (c : Client) → IsPaced g c → IsPaced g (wait_guard_interval ctx c).1
  wait-IsPaced ctx c h = let (later, same) = wait_keeps ctx c in rw same (later-IsPaced c _ later h)

  -- After a wait that was not cut short an operation may go out.
  pub wait-Follows :
      (ctx : Ctx) (c : Client) (r : Request)
      → IsPaced g c
      → (wait_guard_interval ctx c).0 ≡ none
      → let c' = (wait_guard_interval ctx c).1 in Follows (interval c') c'.exchanges c'.clock r
  wait-Follows ctx c r h e =
      let (later, same) = wait_keeps ctx c in
      let ready =
        follows (interval c) c.exchanges c.last_op_at c.clock (wait_guard_interval ctx c).1.clock r
          h.remembers (waited_long_enough ctx c h.recent e) in
      rw same ready

  -- Opening and closing the connection is held to no distance, and sets no time of its own.
  other_with-IsPaced :
      (script : List Reply) (r : Request) (c : Client) (last : Time)
      → is_op r ≡ false
      → last ≤ c.clock
      → IsPaced g c
      → IsPaced g (record (exchange_with script r c).1 { last_op_at = last })
  unfolding exchange_with
  other_with-IsPaced [] r c last other l h = record {
    same = h.same;
    started = h.started;
    spaced = (not_op c.exchanges, h.spaced);
    remembers = (h.started, omega arith, λ e. cc);
    recent = l;
  }
    where
      not_op : (xs : List Exchange) → Follows (interval c) xs c.clock r
      not_op [] = tt
      not_op (y ∷ ys) = λ old new. cc
  other_with-IsPaced (reply ∷ later) r c last other l h = record {
    same = h.same;
    started = omega (arith, h.started);
    spaced = (not_op c.exchanges, h.spaced);
    remembers = (omega (arith, h.started), omega arith, λ e. cc);
    recent = omega arith;
  }
    where
      not_op : (xs : List Exchange) → Follows (interval c) xs c.clock r
      not_op [] = tt
      not_op (y ∷ ys) = λ old new. cc

  pub other-IsPaced :
      (r : Request) (c : Client) (last : Time)
      → is_op r ≡ false
      → last ≤ c.clock
      → IsPaced g c
      → IsPaced g (record (exchange r c).1 { last_op_at = last })
  unfolding exchange
  other-IsPaced r c = other_with-IsPaced c.script r c
