-- ===== src/Service/Supervisor/Liveness.antt =====
-- The supervisor gets a connection as soon as there is one to get.
use oasis_modbus2mqtt.Prelude.{
  ℕ, zero, suc, ◌+◌, ◌<◌, ◌≡◌, refl, ap, ◌∙◌, false, Option, none, some, arith,
}
use oasis_modbus2mqtt.Prelude.Errors.{Sentinel, Error, sentinel}
use oasis_modbus2mqtt.Prelude.Int.{pos_part}
use oasis_modbus2mqtt.Port.{Ctx, wait}
use oasis_modbus2mqtt.Prelude.Time.{Time, Duration}
use oasis_modbus2mqtt.Service.Backoff.{BackoffConfig, next, reset}
use oasis_modbus2mqtt.Service.Supervisor.{
  Connection, Supervisor, Exit, connected, backed_off, connected_by, attempt, unless_connected,
  unless_ended, reconnect_loop, supervise,
}

-- A controller that refuses the next `down` attempts, and answers the one after them.
pub record Peer : Type 0 where
  pub down : ℕ
  pub attempts : ℕ
  pub closes : ℕ
  pub clock : Time

abbrev answer : ℕ → Peer → Option Error × Peer
answer zero p = (none, record p { attempts = p.attempts + 1 })
answer (suc n) p = (some (sentinel Sentinel.eof), record p { down = n; attempts = p.attempts + 1 })

unfoldable pub peer_connection : Connection Peer
peer_connection = record {
  connect = λ ctx p. answer p.down p;
  force_close = λ p. (none, record p { closes = p.closes + 1 });
}

wait_endless : (ctx : Ctx) (t : Time) (d : ℕ) → ctx.done_at ≡ none → (wait ctx t d).0 ≡ none
unfolding wait
wait_endless ctx t d h = rw h refl

not_ended :
    {R : Type 0} (r : Option Error × Supervisor Peer R)
    (go : Supervisor Peer R → Option (Exit × Supervisor Peer R))
    → r.0 ≡ none
    → unless_ended r go ≡ go r.1
not_ended (none, s) go h = refl
not_ended (some e, s) go h = cc

module _ {R : Type 0} (unspecified : Duration) (cfg : BackoffConfig R) where
  abbrev pub set_clock : Time → Peer → Peer
  set_clock t p = record p { clock = t }

  abbrev loop : ℕ → Ctx → Supervisor Peer R → Option (Exit × Supervisor Peer R)
  loop = reconnect_loop peer_connection (λ p. p.clock) set_clock unspecified cfg

  abbrev waited : Ctx → Supervisor Peer R → Option Error × Supervisor Peer R
  waited = backed_off peer_connection (λ p. p.clock) set_clock unspecified cfg

  abbrev answered : ℕ → Supervisor Peer R → Option Error × Supervisor Peer R
  answered d u =
      connected_by peer_connection (λ p. p.clock) set_clock unspecified cfg (answer d u.world) u

  -- What the loop has done when it is connected after `n` failures.
  record IsReconnected (n : ℕ) (s t : Supervisor Peer R) : Type 0 where
    attempts : t.world.attempts ≡ s.world.attempts + (n + 1)
    failures : t.reconnect_failed ≡ s.reconnect_failed + n
    delay : t.backoff.current ≡ cfg.min
    closes : t.world.closes ≡ s.world.closes
    pending : t.triggered ≡ s.triggered

  loop_step :
      (d fuel : ℕ) (ctx : Ctx) (s : Supervisor Peer R)
      → ctx.done_at ≡ none
      → s.world.down ≡ d
      → loop (suc fuel) ctx s ≡ unless_connected (answered d (waited ctx s).1) (loop fuel ctx)
  unfolding reconnect_loop backed_off attempt peer_connection
  loop_step d fuel ctx s endless h =
      not_ended (waited ctx s) (λ t. unless_connected (answered t.world.down t) (loop fuel ctx))
        (wait_endless ctx s.world.clock (pos_part (next unspecified cfg s.backoff).0) endless)
      ∙ ap (λ n. unless_connected (answered n (waited ctx s).1) (loop fuel ctx)) h

  loop_lem :
      (n fuel : ℕ) (ctx : Ctx) (s : Supervisor Peer R)
      → ctx.done_at ≡ none
      → s.world.down ≡ n
      → n < fuel
      → (t : Supervisor Peer R) × (loop fuel ctx s ≡ some (connected, t)) × IsReconnected n s t
  unfolding connected_by backed_off reset
  loop_lem n zero ctx s endless h k = absurd (omega (arith, k))
  loop_lem zero (suc fuel) ctx s endless h k = (
    (answered 0 (waited ctx s).1).1,
    loop_step 0 fuel ctx s endless h,
    record {
      attempts = omega arith;
      failures = omega arith;
      delay = refl;
      closes = refl;
      pending = refl;
    },
  )
  loop_lem (suc n) (suc fuel) ctx s endless h k =
      let v = (answered (suc n) (waited ctx s).1).1 in
      let (t, run, told) = loop_lem n fuel ctx v endless refl (omega (arith, k)) in
      (
        t,
        loop_step (suc n) fuel ctx s endless h ∙ run,
        record {
          attempts = omega (arith, told.attempts);
          failures = omega (arith, told.failures);
          delay = told.delay;
          closes = told.closes;
          pending = told.pending;
        },
      )

  -- When the supervisor takes a trigger, in a context that does not end, it closes the connection
  -- once, and if the controller refuses the next `n` attempts and accepts the one after them, then
  -- the loop ends connected after exactly those attempts, has counted exactly the failures, has
  -- reset the backoff to its minimum and has consumed the trigger; fuel above `n` is enough.
  pub supervise_reconnects :
      (n fuel : ℕ) (ctx : Ctx) (s : Supervisor Peer R)
      → ctx.done_at ≡ none
      → s.world.down ≡ n
      → n < fuel
      → (t : Supervisor Peer R) × (supervise peer_connection
            (λ p. p.clock)
            set_clock
            unspecified
            cfg
            fuel
            ctx
            s
          ≡ some (connected, t))
        × (t.world.attempts ≡ s.world.attempts + (n + 1))
        × (t.reconnect_failed ≡ s.reconnect_failed + n)
        × (t.backoff.current ≡ cfg.min)
        × (t.world.closes ≡ s.world.closes + 1)
        × (t.triggered ≡ false)
  unfolding supervise peer_connection
  supervise_reconnects n fuel ctx s endless h k =
      let start = record s {
        triggered = false;
        world = record s.world { closes = s.world.closes + 1 };
      } in
      let (t, run, told) = loop_lem n fuel ctx start endless h k in
      (t, run, told.attempts, told.failures, told.delay, told.closes, told.pending)
