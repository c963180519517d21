-- ===== src/Service/Supervisor/Termination.antt =====
-- The loops of the supervisor end when their context does, whatever the connection answers.
use oasis_modbus2mqtt.Prelude.{
  ℕ, zero, suc, ◌+◌, ◌<◌, ◌≤◌, ◌≡◌, refl, sym, ◌⊎◌, inl, inr, Option, none, some, arith,
}
use mathlib.Core.Path.{subst}
use oasis_modbus2mqtt.Prelude.Errors.{Error}
use oasis_modbus2mqtt.Port.{Ctx, wait}
use oasis_modbus2mqtt.Prelude.Time.{Time, Duration}
use oasis_modbus2mqtt.Service.Backoff.{BackoffConfig}
use oasis_modbus2mqtt.Service.Supervisor.{
  Connection, Supervisor, Exit, connected, ended, backed_off, connected_by, attempt,
  unless_connected, unless_ended, initial_connect, reconnect_loop,
}

module _ (ctx : Ctx) (deadline : Time) (ends : ctx.done_at ≡ some deadline) where
  -- A wait is left in time or with the error of the context, and with that if it begins too late.
  wait_cases : (n d : ℕ) → ((wait ctx n d).0 ≡ none) ⊎ ((wait ctx n d).0 ≡ some ctx.cause)
  unfolding wait
  wait_cases n d = rw ends (ground arith)

  wait_late : (n d : ℕ) → deadline < n → (wait ctx n d).0 ≡ some ctx.cause
  unfolding wait
  wait_late n d late = rw ends (ground arith)

-- A loop has a result: it is connected, or it ends with the error of its context.
abbrev pub Ends : {S R : Type 0} → Ctx → Option (Exit × Supervisor S R) → Type 0
Ends {S} {R} ctx o =
    (r : Exit × Supervisor S R) × (o ≡ some r) × ((r.0 ≡ connected) ⊎ (r.0 ≡ ended ctx.cause))

module _ {S R : Type 0} (ctx : Ctx) where
  stopped :
      (r : Option Error × Supervisor S R) (go : Supervisor S R → Option (Exit × Supervisor S R))
      → r.0 ≡ some ctx.cause
      → Ends ctx (unless_ended r go)
  stopped (none, s) go h = cc
  stopped (some e, s) go h = ((ended e, s), refl, inr (cc))

  on_time :
      (r : Option Error × Supervisor S R) (go : Supervisor S R → Option (Exit × Supervisor S R))
      → (r.0 ≡ none) ⊎ (r.0 ≡ some ctx.cause)
      → Ends ctx (go r.1)
      → Ends ctx (unless_ended r go)
  on_time (none, s) go h k = k
  on_time (some e, s) go (inl h) k = cc
  on_time (some e, s) go (inr h) k = ((ended e, s), refl, inr (cc))

  retried :
      (r : Option Error × Supervisor S R) (go : Supervisor S R → Option (Exit × Supervisor S R))
      → Ends ctx (go r.1)
      → Ends ctx (unless_connected r go)
  retried (none, s) go k = ((connected, s), refl, inl refl)
  retried (some e, s) go k = k

module _ {S R : Type 0} (conn : Connection S) (now : S → Time) (wait_until : Time → S → S)
    (unspecified : Duration) (cfg : BackoffConfig R)
    (takes_time : (ctx : Ctx) (w : S) → now w < now (conn.connect ctx w).1)
    (keeps_time : (t : Time) (w : S) → now w ≤ now (wait_until t w)) where
  abbrev tried : Ctx → Supervisor S R → Option Error × Supervisor S R
  tried = attempt conn now wait_until unspecified cfg

  abbrev delayed : Ctx → Supervisor S R → Option Error × Supervisor S R
  delayed = backed_off conn now wait_until unspecified cfg

  connected_by_world :
      (p : Option Error × S) (s : Supervisor S R)
      → (connected_by conn now wait_until unspecified cfg p s).1.world ≡ p.1
  unfolding connected_by
  connected_by_world (none, w) s = refl
  connected_by_world (some e, w) s = refl

  tried_later : (ctx : Ctx) (s : Supervisor S R) → now s.world < now (tried ctx s).1.world
  unfolding attempt
  tried_later ctx s =
      subst (λ w. now s.world < now w) (sym (connected_by_world (conn.connect ctx s.world) s))
        (takes_time ctx s.world)

  delayed_later : (ctx : Ctx) (s : Supervisor S R) → now s.world ≤ now (delayed ctx s).1.world
  unfolding backed_off
  delayed_later ctx s = keeps_time _ s.world

  module _ (ctx : Ctx) (deadline : Time) (ends : ctx.done_at ≡ some deadline) where
    delayed_cases :
        (s : Supervisor S R) → ((delayed ctx s).0 ≡ none) ⊎ ((delayed ctx s).0 ≡ some ctx.cause)
    unfolding backed_off
    delayed_cases s = wait_cases ctx deadline ends _ _

    delayed_late :
        (s : Supervisor S R) → deadline < now s.world → (delayed ctx s).0 ≡ some ctx.cause
    unfolding backed_off
    delayed_late s late = wait_late ctx deadline ends _ _ late

    initial-Ends :
        (fuel : ℕ) (s : Supervisor S R)
        → deadline ≤ now s.world + fuel
        → Ends ctx (initial_connect conn now wait_until unspecified cfg (suc fuel) ctx s)
    unfolding initial_connect
    initial-Ends zero s h = retried ctx (tried ctx s) _ (
        stopped ctx (delayed ctx (tried ctx s).1) _
          (delayed_late (tried ctx s).1 (omega (arith, tried_later ctx s))))
    initial-Ends (suc fuel) s h =
        let t = (tried ctx s).1 in
        let u = (delayed ctx t).1 in
        retried ctx (tried ctx s) _ (
          on_time ctx (delayed ctx t) _ (delayed_cases t)
            (initial-Ends fuel u (omega (arith, tried_later ctx s, delayed_later ctx t))))

    reconnect-Ends :
        (fuel : ℕ) (s : Supervisor S R)
        → deadline < now s.world + fuel
        → Ends ctx (reconnect_loop conn now wait_until unspecified cfg (suc fuel) ctx s)
    unfolding reconnect_loop
    reconnect-Ends zero s h = stopped ctx (delayed ctx s) _ (delayed_late s (omega arith))
    reconnect-Ends (suc fuel) s h =
        let t = (delayed ctx s).1 in
        let u = (tried ctx t).1 in
        on_time ctx (delayed ctx s) _ (delayed_cases s) (
          retried ctx (tried ctx t) _
            (reconnect-Ends fuel u (omega (arith, delayed_later ctx s, tried_later ctx t))))

    -- With a context that is done at some time, and a clock that every attempt moves on and no wait
    -- moves back, both loops of the supervisor end, whatever the connection answers and whatever the
    -- delays are: connected, or with the error of the context. One round for each nanosecond that is
    -- left, and one more, are enough.
    pub loops_end :
        (fuel : ℕ) (s : Supervisor S R)
        → deadline < now s.world + fuel
        → Ends ctx (initial_connect conn now wait_until unspecified cfg (suc fuel) ctx s)
          × Ends ctx (reconnect_loop conn now wait_until unspecified cfg (suc fuel) ctx s)
    loops_end fuel s h = (initial-Ends fuel s (omega (arith, h)), reconnect-Ends fuel s h)
