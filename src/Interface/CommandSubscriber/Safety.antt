-- ===== src/Interface/CommandSubscriber/Safety.antt =====
-- From a payload to the registers of the controller.
use mathlib.Core.Path.{subst}
use oasis_modbus2mqtt.Prelude.{
  ℕ, ◌≤◌, ◌<◌, ◌≡◌, refl, sym, ◌∙◌, ◌⊎◌, inl, inr, Bool, true, false, Option, none, some, List, [],
  ◌∷◌, arith, All,
}
use oasis_modbus2mqtt.Prelude.Text.{Text}
use oasis_modbus2mqtt.Prelude.Errors.{Error}
use Prim.Native.String.{String}
use oasis_modbus2mqtt.Float64.{Float64}
use oasis_modbus2mqtt.Port.{Ctx, wait}
use oasis_modbus2mqtt.Prelude.Time.{Time}
use oasis_modbus2mqtt.Domain.Mode.{Mode, mode_from_register, apply_to_register}
use oasis_modbus2mqtt.Domain.Mode.Bits.{mode-apply_to_register}
use oasis_modbus2mqtt.Domain.Snapshot.{Snapshot}
use oasis_modbus2mqtt.Domain.Temperature.{temperature_raw}
use oasis_modbus2mqtt.UseCase.ApplyCommand.{
  Command, set_power_command, set_mode_command, set_temperature_command, set_fan_command,
  transition_guard, and_then, in_context, dwell, power_on, power_off, set_power, set_mode,
  set_temperature, set_fan, apply, default_power_off_pause,
}
use oasis_modbus2mqtt.UseCase.ApplyCommand.Device.{
  Device, device_writer, answer, update, apply_to_device,
}
use oasis_modbus2mqtt.Interface.CommandSubscriber.{handle}
use oasis_modbus2mqtt.Interface.CommandSubscriber.Payloads.{IsAllowed, handle-preserves}

-- A write that the controller's manual allows: 0 or 1 to Power_Dev, 5 to 30 degrees to Temp_Target,
-- 1 to 10 to Fan_Target_1, and to Dev_Keys_2 a uint16 whose mode is heating or off.
abbrev pub SafeWrite : ℕ × ℕ × Time → Type 0
SafeWrite (addr, value, t) =
    ((addr ≡ 2) × (value ≤ 1))
    ⊎ ((addr ≡ 31) × (50 ≤ value) × (value ≤ 300))
    ⊎ ((addr ≡ 32) × (1 ≤ value) × (value ≤ 10))
    ⊎ ((addr ≡ 86)
        × (value < 65536)
        × ((mode_from_register value ≡ Mode.heat) ⊎ (mode_from_register value ≡ Mode.off)))

-- Only such writes have been accepted, and Dev_Keys_2 holds a uint16.
pub record IsSafe (d : Device) : Type 0 where
  pub writes : All SafeWrite d.accepted
  pub keys : d.holding 86 < 65536

in_context-IsSafe :
    (c : String) (r : Option Error × Device) → IsSafe r.1 → IsSafe (in_context c r).1
in_context-IsSafe c (none, d) h = h
in_context-IsSafe c (some e, d) h = h

and_then-IsSafe :
    (r : Option Error × Device) (k : Device → Option Error × Device)
    → IsSafe r.1
    → ((d : Device) → IsSafe d → IsSafe (k d).1)
    → IsSafe (and_then r k).1
and_then-IsSafe (none, d) k h f = f d h
and_then-IsSafe (some e, d) k h f = h

answer-IsSafe :
    (o : Option Error) (addr value : ℕ) (d : Device)
    → SafeWrite (addr, value, d.clock)
    → update d.holding addr value 86 < 65536
    → IsSafe d
    → IsSafe (answer o addr value d).1
answer-IsSafe none addr value d w k h = record { writes = (w, h.writes); keys = k }
answer-IsSafe (some e) addr value d w k h = record { writes = h.writes; keys = h.keys }

module _ (respond : ℕ → Option Error) (snapshot : Device → Snapshot) where
  abbrev step : String → ℕ → ℕ → Device → Option Error × Device
  step c addr value u = in_context c (answer (respond u.asked) addr value u)

  step-IsSafe :
      (c : String) (addr value : ℕ) (u : Device)
      → SafeWrite (addr, value, u.clock)
      → update u.holding addr value 86 < 65536
      → IsSafe u
      → IsSafe (step c addr value u).1
  step-IsSafe c addr value u w k s =
      in_context-IsSafe c (answer (respond u.asked) addr value u)
        (answer-IsSafe (respond u.asked) addr value u w k s)

  abbrev pause : Ctx → Device → Option Error × Device
  pause ctx u = let w = wait ctx u.clock default_power_off_pause in (w.0, record u { clock = w.1 })

  edges-IsSafe :
      (ctx : Ctx) (u : Device)
      → IsSafe u
      → IsSafe
          (and_then
            (step "power off rising-edge write h2" 2 1 u)
            (λ v. and_then (pause ctx v) (step "power off falling-edge write h2" 2 0))).1
  edges-IsSafe ctx u s =
      and_then-IsSafe (step "power off rising-edge write h2" 2 1 u)
        (λ v. and_then (pause ctx v) (step "power off falling-edge write h2" 2 0))
        (step-IsSafe "power off rising-edge write h2" 2 1 u (inl (refl, ground arith)) s.keys s)
        (λ v r.
          and_then-IsSafe (pause ctx v) (step "power off falling-edge write h2" 2 0)
            (record { writes = r.writes; keys = r.keys })
            (λ w q.
              step-IsSafe "power off falling-edge write h2" 2 0 w (inl (refl, ground arith)) q.keys
                q))

  apply-IsSafe :
      (ctx : Ctx) (c : Command) (d : Device)
      → IsAllowed c
      → IsSafe d
      → IsSafe (apply_to_device snapshot respond ctx c d).1
  unfolding apply set_power power_on power_off dwell set_mode set_temperature set_fan device_writer
  apply-IsSafe ctx (set_power_command true) d a h =
      and_then-IsSafe (transition_guard (snapshot d), d) (step "power on write h2" 2 1) h
        (λ u s. step-IsSafe "power on write h2" 2 1 u (inl (refl, ground arith)) s.keys s)
  apply-IsSafe ctx (set_power_command false) d a h =
      and_then-IsSafe (transition_guard (snapshot d), d)
        (λ u.
          and_then (step "power off rising-edge write h2" 2 1 u)
            (λ v. and_then (pause ctx v) (step "power off falling-edge write h2" 2 0)))
        h (edges-IsSafe ctx)
  apply-IsSafe ctx (set_mode_command m) d a h =
      and_then-IsSafe (transition_guard (snapshot d), d)
        (λ u. step "set mode modify h86" 86 (apply_to_register (u.holding 86) m) u) h
        (λ u s.
          let written = mode-apply_to_register (u.holding 86) m s.keys in
          step-IsSafe "set mode modify h86" 86 (apply_to_register (u.holding 86) m) u
            (inr (
              inr (
                inr (
                  refl,
                  written.2,
                  elim a [ inl e ↦ inl (written.0 ∙ e) | inr e ↦ inr (written.0 ∙ e) ],
                ))))
            written.2 s)
  apply-IsSafe ctx (set_temperature_command t) d a h =
      and_then-IsSafe (transition_guard (snapshot d), d)
        (step "set temperature write h31" 31 (temperature_raw t)) h
        (λ u s.
          step-IsSafe "set temperature write h31" 31 (temperature_raw t) u
            (inr (inl (refl, a.0, a.1))) s.keys s)
  apply-IsSafe ctx (set_fan_command f) d a h =
      and_then-IsSafe (transition_guard (snapshot d), d) (step "set fan write h32" 32 f.value) h
        (λ u s.
          step-IsSafe "set fan write h32" 32 f.value u (inr (inr (inl (refl, a.0, a.1)))) s.keys s)

  module _ (parse_float : Text → Option Float64) (prefer_done : Bool) where
    -- The messages that arrive, object and payload, newest first.
    unfoldable pub after_messages : List (Text × Text) → Device → Device
    after_messages [] d = d
    after_messages ((object_id, payload) ∷ ms) d =
        handle parse_float (apply_to_device snapshot respond) (λ u. u.clock) prefer_done object_id
          payload (after_messages ms d)

    -- Whatever messages arrive on the command topics, whatever the controller refuses and whatever
    -- its snapshot says, it accepts no write but 0 and 1 to Power_Dev, 5 to 30 degrees to
    -- Temp_Target, 1 to 10 to Fan_Target_1, and to Dev_Keys_2 a uint16 with the mode heating or off;
    -- at the start it has accepted
    -- none, and Dev_Keys_2 holds a uint16.
    pub after_messages-IsSafe :
        (ms : List (Text × Text)) (d : Device)
        → d.accepted ≡ []
        → d.holding 86 < 65536
        → IsSafe (after_messages ms d)
    unfolding after_messages
    after_messages-IsSafe [] d h k = record { writes = subst (All SafeWrite) (sym h) tt; keys = k }
    after_messages-IsSafe ((object_id, payload) ∷ ms) d h k =
        handle-preserves parse_float (apply_to_device snapshot respond) (λ u. u.clock) prefer_done
          IsSafe apply-IsSafe object_id payload (after_messages ms d)
          (after_messages-IsSafe ms d h k)
