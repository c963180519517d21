-- ===== src/UseCase/ApplyCommand/PowerOff.antt =====
-- The two edges of power OFF.
use mathlib.Core.Path.{subst}
use oasis_modbus2mqtt.Prelude.{
  ℕ, ◌+◌, ◌≡◌, refl, sym, ap, ◌∙◌, ◌≢◌, ◌⊎◌, inl, inr, false, Option, none, some, List, ◌∷◌, arith,
}
use oasis_modbus2mqtt.Prelude.Errors.{Error}
use oasis_modbus2mqtt.Port.{Ctx, wait}
use oasis_modbus2mqtt.Prelude.Time.{Time}
use oasis_modbus2mqtt.Domain.Snapshot.{Snapshot}
use oasis_modbus2mqtt.Domain.OperatingState.{is_transitional}
use oasis_modbus2mqtt.UseCase.ApplyCommand.{
  set_power_command, and_then, in_context, dwell, power_off, set_power, apply,
  default_power_off_pause,
}
use oasis_modbus2mqtt.UseCase.ApplyCommand.Device.{
  Device, device_writer, answer, apply_to_device, passed,
}

-- A pause that is not cut off lasts its whole length.
wait_whole :
    (ctx : Ctx) (now : Time) (d : ℕ) → (wait ctx now d).0 ≡ none → (wait ctx now d).1 ≡ now + d
unfolding wait
wait_whole ctx now d h = ground arith

-- After power OFF at `t`: both edges were accepted, the whole pause apart, and it succeeded; or it
-- failed with no edge accepted or only the rising one.
abbrev pub IsEdge : List (ℕ × ℕ × Time) → Time → Option Error × Device → Type 0
IsEdge before t r =
    ((r.0 ≡ none) × (r.1.accepted ≡ (2, 0, t + default_power_off_pause) ∷ (2, 1, t) ∷ before))
    ⊎ ((r.0 ≢ none) × ((r.1.accepted ≡ before) ⊎ (r.1.accepted ≡ (2, 1, t) ∷ before)))

module _ (respond : ℕ → Option Error) (before : List (ℕ × ℕ × Time)) (t : Time) where
  abbrev fall : Device → Option Error × Device
  fall u = in_context "power off falling-edge write h2" (answer (respond u.asked) 2 0 u)

  fall-IsEdge :
      (o : Option Error) (u : Device)
      → u.accepted ≡ (2, 1, t) ∷ before
      → u.clock ≡ t + default_power_off_pause
      → IsEdge before t (in_context "power off falling-edge write h2" (answer o 2 0 u))
  fall-IsEdge none u h k = inl (
    refl,
    ap (λ c. (2, 0, c) ∷ u.accepted) k ∙ ap (λ l. (2, 0, t + default_power_off_pause) ∷ l) h,
  )
  fall-IsEdge (some e) u h k = inr (λ p. cc, inr h)

  dwell-IsEdge :
      (w : Option Error × Time) (u : Device)
      → u.accepted ≡ (2, 1, t) ∷ before
      → (w.0 ≡ none → w.1 ≡ t + default_power_off_pause)
      → IsEdge before t (and_then (w.0, record u { clock = w.1 }) fall)
  dwell-IsEdge (none, at) u h k = fall-IsEdge (respond u.asked) (record u { clock = at }) h (k refl)
  dwell-IsEdge (some e, at) u h k = inr (λ p. cc, inr h)

rise-IsEdge :
    (respond : ℕ → Option Error) (ctx : Ctx) (o : Option Error) (d : Device)
    → IsEdge d.accepted d.clock (
        and_then (in_context "power off rising-edge write h2" (answer o 2 1 d)) (λ u.
          let w = wait ctx u.clock default_power_off_pause in
          and_then
            (w.0, record u { clock = w.1 })
            (λ v. in_context "power off falling-edge write h2" (answer (respond v.asked) 2 0 v))))
rise-IsEdge respond ctx none d =
    dwell-IsEdge respond d.accepted d.clock (wait ctx d.clock default_power_off_pause)
      (answer none 2 1 d).1 refl (wait_whole ctx d.clock default_power_off_pause)
rise-IsEdge respond ctx (some e) d = inr (λ p. cc, inl refl)

-- An idle controller that is told to power OFF, whatever requests it refuses and whenever the
-- context ends, has either accepted the write of 1 to Power_Dev and that of 0 the whole pause
-- later, and the command succeeded; or the command failed, no 0 was accepted, and at most the 1.
pub power_off_edges :
    (snapshot : Device → Snapshot) (respond : ℕ → Option Error) (ctx : Ctx) (d : Device)
    → is_transitional (snapshot d).operation ≡ false
    → IsEdge d.accepted d.clock (apply_to_device snapshot respond ctx (set_power_command false) d)
unfolding apply set_power power_off dwell device_writer
power_off_edges snapshot respond ctx d idle =
    subst (IsEdge d.accepted d.clock) (sym (passed (snapshot d) d _ idle))
      (rise-IsEdge respond ctx (respond d.asked) d)
