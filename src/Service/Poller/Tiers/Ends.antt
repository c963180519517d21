-- ===== src/Service/Poller/Tiers/Ends.antt =====
-- What the goroutines of the poller leave behind.
use oasis_modbus2mqtt.Prelude.{
  ◌≡◌, refl, sym, ap, ◌⊎◌, inl, inr, Bool, true, false, ◌||◌, Option, none, some, List, [], ◌∷◌,
  if◌then◌else◌, Bool-cases, arith,
}
use mathlib.Core.Path.{subst}
use oasis_modbus2mqtt.Prelude.Errors.{Result}
use oasis_modbus2mqtt.Prelude.Time.{Time}
use oasis_modbus2mqtt.Prelude.Step.{Step}
use oasis_modbus2mqtt.Port.{Ctx}
use oasis_modbus2mqtt.Domain.Snapshot.{Snapshot, empty_snapshot}
use oasis_modbus2mqtt.Service.Poller.{Tier, hot, medium, slow, Poller, polled, subscribe, ctx_done}
use oasis_modbus2mqtt.Service.Poller.Latest.{same, assemble, newest, newest_time, polled-assembled}
use oasis_modbus2mqtt.Service.Poller.Tiers.{
  Phase, polling, waiting, returned, Tiers, start_tiers, turn, close_done, add_subscriber, deliver,
  Happens, delivers, ticks, returns, subscribes, closes, Run, started, next,
}

-- A poll of the tier has ended.
abbrev pub has_polled : Tier → List (Tier × Result Snapshot) → Bool
has_polled tier [] = false
has_polled tier ((t, r) ∷ os) = same t tier || has_polled tier os

-- The context is done at some time.
abbrev pub ends : Ctx → Bool
ends ctx = elim ctx.done_at [ none ↦ false | some t ↦ true ]

abbrev pub All3 : (Tier → Type 0) → Type 0
All3 P = P hot × P medium × P slow

ctx_done-ends : (ctx : Ctx) (t : Time) → ctx_done ctx t ≡ true → ends ctx ≡ true
ctx_done-ends ctx t e = ground arith

same_sound : (t u : Tier) → same t u ≡ true → t ≡ u
same_sound hot hot e = refl
same_sound medium medium e = refl
same_sound slow slow e = refl
same_sound hot medium e = cc
same_sound hot slow e = cc
same_sound medium hot e = cc
same_sound medium slow e = cc
same_sound slow hot e = cc
same_sound slow medium e = cc

busy :
    (ph : Phase) (d : Bool)
    → (d ≡ true → ph ≡ returned)
    → (ph ≡ polling) ⊎ (ph ≡ waiting)
    → d ≡ false
busy ph true f (inl e) = cc (f refl)
busy ph true f (inr e) = cc (f refl)
busy ph false f e = refl

module _ {S : Type 0} (poll : Tier → Ctx → Step S Snapshot) (now : S → Time) (ctx : Ctx) where
  -- While a goroutine is in its first poll its tier may have no outcome, and it returns only behind
  -- the end of the context.
  abbrev Sound : Phase → Bool → Type 0
  Sound polling polled = Unit
  Sound waiting polled = polled ≡ true
  Sound returned polled = (polled ≡ true) × (ends ctx ≡ true)

  record IsKept (s : Tiers S) : Type 0 where
    latest :
        s.poller.latest
        ≡ assemble
            (newest hot s.outcomes)
            (newest medium s.outcomes)
            (newest slow s.outcomes)
            (newest_time s.outcomes)
    sound : (u : Tier) → Sound (s.phase u) (has_polled u s.outcomes)
    closed : s.done ≡ true → (u : Tier) → s.phase u ≡ returned

  start_tiers-IsKept : (p : Poller S) → p.latest ≡ empty_snapshot → IsKept (start_tiers p)
  unfolding start_tiers assemble
  start_tiers-IsKept p e = record { latest = e; sound = λ u. tt; closed = λ d. cc }

  -- The phase of each tier is sound when that of one tier becomes another that is.
  turned :
      (tier u : Tier) (to : Phase) (phase : Tier → Phase) (os : List (Tier × Result Snapshot))
      → Sound to (has_polled tier os)
      → Sound (phase u) (has_polled u os)
      → Sound (if same tier u then to else phase u) (has_polled u os)
  turned tier u to phase os n v = elim (Bool-cases (same tier u)) [
    | inl e ↦ rw e (subst (λ (t : Tier). Sound to (has_polled t os)) (same_sound tier u e) n)
    | inr e ↦ rw e v
  ]

  turn-IsKept :
      (tier : Tier) (to : Phase) (s : Tiers S)
      → IsKept s
      → Sound to (has_polled tier s.outcomes)
      → s.done ≡ false
      → IsKept (turn tier to s)
  unfolding turn
  turn-IsKept tier to s v n d = record {
    latest = v.latest;
    sound = λ u. turned tier u to s.phase s.outcomes n (v.sound u);
    closed = λ e. cc;
  }

  heard : (u : Tier) (ph : Phase) (b c : Bool) → Sound ph c → Sound ph (b || c)
  heard u polling b c v = tt
  heard u waiting b c v = ground arith
  heard u returned b c v = (ground arith, v.1)

  same_refl : (t : Tier) → same t t ≡ true
  same_refl hot = refl
  same_refl medium = refl
  same_refl slow = refl

  deliver-IsKept :
      (tier : Tier) (r : Result Snapshot × S) (s : Tiers S)
      → s.phase tier ≡ polling
      → IsKept s
      → IsKept (deliver poll now ctx tier r s)
  unfolding deliver
  deliver-IsKept tier r s e v =
      turn-IsKept tier waiting _
        (record {
          latest = polled-assembled poll now ctx tier r s.poller s.outcomes v.latest;
          sound = λ u. heard u (s.phase u) (same tier u) _ (v.sound u);
          closed = v.closed;
        })
        (ap (λ (b : Bool). b || has_polled tier s.outcomes) (same_refl tier))
        (busy (s.phase tier) s.done (λ d. v.closed d tier) (inl e))

  has_waited : (ph : Phase) (b : Bool) → ph ≡ waiting → Sound ph b → b ≡ true
  has_waited ph b e v = subst (λ (q : Phase). Sound q b) e v

  add-IsKept :
      (cb : Option (Snapshot → S → S)) (s : Tiers S) → IsKept s → IsKept (add_subscriber cb s)
  unfolding add_subscriber subscribe
  add-IsKept none s v = record { latest = v.latest; sound = v.sound; closed = v.closed }
  add-IsKept (some cb) s v = record { latest = v.latest; sound = v.sound; closed = v.closed }

  close_done-IsKept :
      (s : Tiers S) → ((u : Tier) → s.phase u ≡ returned) → IsKept s → IsKept (close_done s)
  unfolding close_done
  close_done-IsKept s r v = record { latest = v.latest; sound = v.sound; closed = λ e. r }

  Happens-IsKept : {s t : Tiers S} → Happens poll now ctx s t → IsKept s → IsKept t
  Happens-IsKept {s} (delivers tier r e f) v = subst IsKept (sym f) (deliver-IsKept tier r s e v)
  Happens-IsKept {s} (ticks tier e f) v =
      subst IsKept (sym f) (
        turn-IsKept tier polling s v tt (busy (s.phase tier) s.done (λ d. v.closed d tier) (inr e)))
  Happens-IsKept {s} (returns tier at e d f) v = subst IsKept (sym f) (
      turn-IsKept tier returned s v
        (has_waited (s.phase tier) _ e (v.sound tier), ctx_done-ends ctx at d)
        (busy (s.phase tier) s.done (λ d. v.closed d tier) (inr e)))
  Happens-IsKept {s} (subscribes cb f) v = subst IsKept (sym f) (add-IsKept cb s v)
  Happens-IsKept {s} (closes r f) v = subst IsKept (sym f) (close_done-IsKept s r v)

  Run-IsKept :
      {p : Poller S} {s : Tiers S} → p.latest ≡ empty_snapshot → Run poll now ctx p s → IsKept s
  Run-IsKept {p} e started = start_tiers-IsKept p e
  Run-IsKept e (next r h) = Happens-IsKept h (Run-IsKept e r)

  returned_sound :
      (ph : Phase) (b : Bool) → ph ≡ returned → Sound ph b → (b ≡ true) × (ends ctx ≡ true)
  returned_sound ph b e v = subst (λ (q : Phase). Sound q b) e v

  -- However the three goroutines of a poller that starts with the empty snapshot interleave: each
  -- field of the latest snapshot is that of the newest successful poll of the tier that owns the
  -- field, or zero; and `done` is open, or the context ends, each tier has polled at least once, and
  -- its goroutine has returned.
  pub run-assembled :
      (p : Poller S) (s : Tiers S)
      → p.latest ≡ empty_snapshot
      → Run poll now ctx p s
      → (s.poller.latest
          ≡ assemble
              (newest hot s.outcomes)
              (newest medium s.outcomes)
              (newest slow s.outcomes)
              (newest_time s.outcomes))
        × ((s.done ≡ false)
            ⊎ ((ends ctx ≡ true)
                × All3 (λ u. (s.phase u ≡ returned) × (has_polled u s.outcomes ≡ true))))
  run-assembled p s e r =
      let v = Run-IsKept e r in
      (
        v.latest,
        elim (Bool-cases s.done) [
          | inr idle ↦ inl idle
          | inl shut ↦
              let each = λ (u : Tier). returned_sound (s.phase u) _ (v.closed shut u) (v.sound u) in
              inr (
                (each hot).1,
                (
                  (v.closed shut hot, (each hot).0),
                  (v.closed shut medium, (each medium).0),
                  (v.closed shut slow, (each slow).0),
                ),
              )
        ],
      )
