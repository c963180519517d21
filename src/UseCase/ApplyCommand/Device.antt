-- ===== src/UseCase/ApplyCommand/Device.antt =====
-- What the commands do to a controller.
use oasis_modbus2mqtt.Prelude.{
  ℕ, ◌+◌, ◌<◌, ◌≡◌, refl, ap, ◌∙◌, true, false, ◌&&◌, ◌||◌, Option, none, some, List, [], ◌∷◌, ◌++◌,
  ltb, ◌==◌, if◌then◌else◌,
}
use oasis_modbus2mqtt.Prelude.Errors.{Sentinel, Error, sentinel, wrap, errors_is}
use oasis_modbus2mqtt.Port.{Ctx, Writer, wait}
use oasis_modbus2mqtt.Prelude.Time.{Time}
use oasis_modbus2mqtt.Domain.Snapshot.{Snapshot}
use oasis_modbus2mqtt.Domain.Mode.{apply_to_register}
use oasis_modbus2mqtt.Domain.Mode.Bits.{mode-apply_to_register}
use oasis_modbus2mqtt.Domain.OperatingState.{is_transitional}
use oasis_modbus2mqtt.Domain.Temperature.{temperature_raw, temperature_from_raw}
use oasis_modbus2mqtt.UseCase.PollController.Bank.{controller_view}
use oasis_modbus2mqtt.UseCase.ApplyCommand.{
  Command, set_power_command, set_mode_command, set_temperature_command, set_fan_command,
  transition_guard, and_then, in_context, dwell, power_off, power_on, set_power, set_mode,
  set_temperature, set_fan, apply, default_power_off_pause,
}

abbrev refusal : Error
refusal = wrap "operation in progress" (sentinel Sentinel.transition_in_progress)

refused :
    {S : Type 0} (snap : Snapshot) (s : S) (k : S → Option Error × S)
    → is_transitional snap.operation ≡ true
    → and_then (transition_guard snap, s) k ≡ (some refusal, s)
unfolding transition_guard
refused snap s k h = ap (λ b. and_then ((if b then some refusal else none), s) k) h

pub passed :
    {S : Type 0} (snap : Snapshot) (s : S) (k : S → Option Error × S)
    → is_transitional snap.operation ≡ false
    → and_then (transition_guard snap, s) k ≡ k s
unfolding transition_guard
passed snap s k h = ap (λ b. and_then ((if b then some refusal else none), s) k) h

module _ {S : Type 0} (dispatcher : Writer S) (snapshot : S → Snapshot) (now : S → Time)
    (wait_until : Time → S → S) (power_off_pause : ℕ) where
  -- While the controller is in a transition, every command is refused with an error that is
  -- `ErrTransitionInProgress`, power ON as well, and nothing is written.
  pub transition_refuses :
      (ctx : Ctx) (command : Command) (s : S)
      → is_transitional (snapshot s).operation ≡ true
      → (e : Error) × (apply dispatcher snapshot now wait_until power_off_pause ctx (some command) s
          ≡ (some e, s))
        × (errors_is e Sentinel.transition_in_progress ≡ true)
  unfolding apply set_power set_mode set_temperature set_fan errors_is
  transition_refuses ctx (set_power_command on) s h = (refusal, refused (snapshot s) s _ h, refl)
  transition_refuses ctx (set_mode_command mode) s h = (refusal, refused (snapshot s) s _ h, refl)
  transition_refuses ctx (set_temperature_command temperature) s h =
      (refusal, refused (snapshot s) s _ h, refl)
  transition_refuses ctx (set_fan_command speed) s h = (refusal, refused (snapshot s) s _ h, refl)

-- A controller behind a dispatcher: its holding registers, the writes that it has accepted, with
-- their times, newest first, and the number of those it was asked for.
pub record Device : Type 0 where
  pub holding : ℕ → ℕ
  pub accepted : List (ℕ × ℕ × Time)
  pub asked : ℕ
  pub clock : Time

abbrev pub update : (ℕ → ℕ) → ℕ → ℕ → ℕ → ℕ
update h addr value x = if x == addr then value else h x

-- A write to a device that gives the n-th request for one the answer `respond n`.
abbrev pub answer : Option Error → ℕ → ℕ → Device → Option Error × Device
answer none addr value d = (
  none,
  record d {
    holding = update d.holding addr value;
    accepted = (addr, value, d.clock) ∷ d.accepted;
    asked = d.asked + 1;
  },
)
answer (some e) addr value d = (some e, record d { asked = d.asked + 1 })

unfoldable pub device_writer : (ℕ → Option Error) → Writer Device
device_writer respond = record {
  write_holding = λ ctx addr value d. answer (respond d.asked) addr value d;
  modify_holding = λ ctx addr modify d. answer (respond d.asked) addr (modify (d.holding addr)) d;
}

-- What a command changes of the view of a controller.
abbrev pub commanded : Command → Snapshot → Snapshot
commanded (set_power_command on) v = v
commanded (set_mode_command mode) v = record v { current_mode = mode }
commanded (set_temperature_command t) v = record v {
  target_temp = temperature_from_raw (temperature_raw t);
}
commanded (set_fan_command speed) v = record v { fan_target1 = speed.value }

-- The writes that a command asks of a controller, the newest first, with their times: power OFF is a
-- 1 and, a pause later, a 0.
abbrev pub writes : Command → Device → List (ℕ × ℕ × Time)
writes (set_power_command true) d = (2, 1, d.clock) ∷ []
writes (set_power_command false) d =
    (2, 0, d.clock + default_power_off_pause) ∷ (2, 1, d.clock) ∷ []
writes (set_mode_command mode) d = (86, apply_to_register (d.holding 86) mode, d.clock) ∷ []
writes (set_temperature_command t) d = (31, temperature_raw t, d.clock) ∷ []
writes (set_fan_command speed) d = (32, speed.value, d.clock) ∷ []

wait_endless :
    (ctx : Ctx) (now : Time) (d : ℕ) → ctx.done_at ≡ none → wait ctx now d ≡ (none, now + d)
unfolding wait
wait_endless ctx now d h =
    ap
      (λ o. elim o [
        | none ↦ (none, now + d)
        | some t ↦
            if ltb t (now + d) || (t == now + d && ctx.prefer_done)
            then (some ctx.cause, if ltb now t then t else now)
            else (none, now + d)
      ])
      h

-- What is known of an outcome: its error, its writes and its view.
seen :
    (input : ℕ → ℕ) (t : Time) {r q : Option Error × Device}
    → r ≡ q
    → (r.0 ≡ q.0)
      × (r.1.accepted ≡ q.1.accepted)
      × (controller_view input r.1.holding t ≡ controller_view input q.1.holding t)
seen input t p =
    (ap (λ x. x.0) p, ap (λ x. x.1.accepted) p, ap (λ x. controller_view input x.1.holding t) p)

module _ (snapshot : Device → Snapshot) where
  abbrev pub apply_to_device : (ℕ → Option Error) → Ctx → Command → Device → Option Error × Device
  apply_to_device respond ctx command =
      apply (device_writer respond) snapshot (λ d. d.clock) (λ t d. record d { clock = t })
        default_power_off_pause ctx (some command)

  abbrev power_off_device : (ℕ → Option Error) → Ctx → Device → Option Error × Device
  power_off_device respond ctx d =
      power_off (device_writer respond) snapshot (λ d. d.clock) (λ t d. record d { clock = t })
        default_power_off_pause ctx d

  powered_off :
      (ctx : Ctx) (d : Device)
      → ctx.done_at ≡ none
      → power_off_device (λ n. none) ctx d ≡ (
        none,
        record {
          holding = update (update d.holding 2 1) 2 0;
          accepted = (2, 0, d.clock + default_power_off_pause) ∷ (2, 1, d.clock) ∷ d.accepted;
          asked = d.asked + 1 + 1;
          clock = d.clock + default_power_off_pause;
        },
      )
  unfolding power_off device_writer dwell wait
  powered_off ctx d endless =
      ap
        (λ w.
          and_then
            (
              w.0,
              record {
                holding = update d.holding 2 1;
                accepted = (2, 1, d.clock) ∷ d.accepted;
                asked = d.asked + 1;
                clock = w.1;
              },
            )
            (λ u. in_context "power off falling-edge write h2" (answer none 2 0 u)))
        (wait_endless ctx d.clock default_power_off_pause endless)

  -- On an idle controller that accepts every write, within a context that does not end, every
  -- command succeeds; the writes that the controller accepts are those of the command and no other:
  -- 1 to Power_Dev for ON, 1 and a whole pause later 0 for OFF, one write for each other command; and
  -- what the next polls show is what they showed before except for the mode, the target temperature
  -- or the fan speed that was commanded, commands of power touching no register that is polled.
  pub apply-view :
      (ctx : Ctx) (command : Command) (d : Device) (input : ℕ → ℕ) (t : Time)
      → is_transitional (snapshot d).operation ≡ false
      → ctx.done_at ≡ none
      → d.holding 86 < 65536
      → ((apply_to_device (λ n. none) ctx command d).0 ≡ none)
        × ((apply_to_device (λ n. none) ctx command d).1.accepted ≡ writes command d ++ d.accepted)
        × (controller_view input (apply_to_device (λ n. none) ctx command d).1.holding t
            ≡ commanded command (controller_view input d.holding t))
  unfolding apply set_power set_mode set_temperature set_fan power_on device_writer controller_view
  apply-view ctx (set_power_command true) d input t idle endless fits =
      seen input t (passed (snapshot d) d _ idle)
  apply-view ctx (set_power_command false) d input t idle endless fits =
      seen input t (passed (snapshot d) d _ idle ∙ powered_off ctx d endless)
  apply-view ctx (set_mode_command mode) d input t idle endless fits =
      let (ok, accepted, view) = seen input t (passed (snapshot d) d _ idle) in
      let written = mode-apply_to_register (d.holding 86) mode fits in
      (
        ok,
        accepted,
        view ∙ ap (λ m. record (controller_view input d.holding t) { current_mode = m }) written.0,
      )
  apply-view ctx (set_temperature_command temperature) d input t idle endless fits =
      seen input t (passed (snapshot d) d _ idle)
  apply-view ctx (set_fan_command speed) d input t idle endless fits =
      seen input t (passed (snapshot d) d _ idle)
