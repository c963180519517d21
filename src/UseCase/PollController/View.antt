-- ===== src/UseCase/PollController/View.antt =====
-- The poller and the poll controller together.
use oasis_modbus2mqtt.Prelude.{
  ℕ, ◌≡◌, refl, sym, ap, ◌∙◌, inl, inr, Bool, true, false, ◌||◌, List, [], ◌∷◌, if◌then◌else◌,
  Bool-cases,
}
use oasis_modbus2mqtt.Prelude.Errors.{Result, ok, err}
use mathlib.Core.Path.{subst}
use oasis_modbus2mqtt.Port.{Ctx, Reader}
use oasis_modbus2mqtt.Prelude.Step.{Step}
use oasis_modbus2mqtt.Prelude.Time.{Time}
use oasis_modbus2mqtt.Domain.Snapshot.{Snapshot, empty_snapshot}
use oasis_modbus2mqtt.UseCase.PollController.{
  hot_snapshot, medium_snapshot, slow_snapshot, poll_hot, poll_medium, poll_slow,
}
use oasis_modbus2mqtt.UseCase.PollController.Bank.{
  window, IsBank, controller_view, poll_hot-bank, poll_medium-bank, poll_slow-bank,
}
use oasis_modbus2mqtt.Service.Poller.{Tier, hot, medium, slow, Poller}
use oasis_modbus2mqtt.Service.Poller.Latest.{
  same, assemble, newest, newest_time, after, outcomes, latest-assemble,
}

-- `PollFns`, as the poll controller fills it.
unfoldable pub poll_fns : {S : Type 0} → Reader S → (S → Time) → Tier → Ctx → Step S Snapshot
poll_fns reader now hot = poll_hot reader now
poll_fns reader now medium = poll_medium reader now
poll_fns reader now slow = poll_slow reader now

-- Whether a run polls a tier.
abbrev pub polls : Tier → List (Ctx × Tier) → Bool
polls tier [] = false
polls tier ((ctx, t) ∷ cs) = same tier t || polls tier cs

same_eq : (a b : Tier) → same a b ≡ true → a ≡ b
same_eq hot hot h = refl
same_eq medium medium h = refl
same_eq slow slow h = refl
same_eq hot medium h = cc
same_eq hot slow h = cc
same_eq medium hot h = cc
same_eq medium slow h = cc
same_eq slow hot h = cc
same_eq slow medium h = cc

newest_skip :
    (tier t : Tier) (r : Result Snapshot) (os : List (Tier × Result Snapshot))
    → same tier t ≡ false
    → newest tier ((t, r) ∷ os) ≡ newest tier os
newest_skip tier t (ok partial) os h = rw h refl
newest_skip tier t (err e) os h = refl

same_refl : (a : Tier) → same a a ≡ true
same_refl hot = refl
same_refl medium = refl
same_refl slow = refl

module _ {S : Type 0} (reader : Reader S) (now : S → Time) (input holding : ℕ → ℕ) where
  abbrev tier_snapshot : Tier → Time → Snapshot
  tier_snapshot hot t = hot_snapshot (window input 2 17) (window input 25 6) (window holding 31 2) t
  tier_snapshot medium t =
      medium_snapshot (window input 57 2) (window input 69 2) (window holding 86 1) t
  tier_snapshot slow t = slow_snapshot (window input 0 1) (window input 79 1) (window holding 0 1) t

  abbrev run : List (Ctx × Tier) → Poller S → Poller S
  run = after (poll_fns reader now) now

  abbrev run_outcomes : List (Ctx × Tier) → Poller S → List (Tier × Result Snapshot)
  run_outcomes = outcomes (poll_fns reader now) now

  poll-bank :
      IsBank reader input holding
      → (tier : Tier) (ctx : Ctx) (s : S)
      → (t : Time) × ((poll_fns reader now tier ctx s).0 ≡ ok (tier_snapshot tier t))
  unfolding poll_fns
  poll-bank bank hot ctx s = poll_hot-bank reader now input holding bank ctx s
  poll-bank bank medium ctx s = poll_medium-bank reader now input holding bank ctx s
  poll-bank bank slow ctx s = poll_slow-bank reader now input holding bank ctx s

  newest-polled :
      IsBank reader input holding
      → (tier : Tier) (ctx : Ctx) (s : S) (os : List (Tier × Result Snapshot))
      → (t : Time) × (newest tier ((tier, (poll_fns reader now tier ctx s).0) ∷ os)
          ≡ tier_snapshot tier t)
  newest-polled bank tier ctx s os =
      let (t, h) = poll-bank bank tier ctx s in
      (
        t,
        ap (λ r. newest tier ((tier, r) ∷ os)) h
            ∙ ap (λ b. if b then tier_snapshot tier t else newest tier os) (same_refl tier),
      )

  newest-bank :
      IsBank reader input holding
      → (tier : Tier) (cs : List (Ctx × Tier)) (p : Poller S) → polls tier cs ≡ true
      → (t : Time) × (newest tier (run_outcomes cs p) ≡ tier_snapshot tier t)
  unfolding outcomes
  newest-bank bank tier [] p h = cc
  newest-bank bank tier ((ctx, u) ∷ cs) p h =
      let s = (run cs p).world in
      let os = run_outcomes cs p in
      elim (Bool-cases (same tier u)) [
        | inl e ↦
            subst
              (λ v.
                (t : Time) × (newest tier ((v, (poll_fns reader now v ctx s).0) ∷ os)
                  ≡ tier_snapshot tier t))
              (same_eq tier u e) (newest-polled bank tier ctx s os)
        | inr e ↦
            let (t, k) = newest-bank bank tier cs p (ap (λ b. b || polls tier cs) (sym e) ∙ h) in
            (t, newest_skip tier u (poll_fns reader now u ctx s).0 os e ∙ k)
      ]

  -- Of a controller that answers every read and whose registers keep still, once a run of the poller,
  -- from the empty snapshot on, has polled each of the three tiers, in any order and any number of
  -- times, the latest snapshot shows every register at its address of the manual, and its time is
  -- the one of the newest poll.
  pub latest-controller_view :
      IsBank reader input holding
      → (cs : List (Ctx × Tier)) (p : Poller S) → p.latest ≡ empty_snapshot
      → polls hot cs ≡ true
      → polls medium cs ≡ true
      → polls slow cs ≡ true
      → (after (poll_fns reader now) now cs p).latest
        ≡ controller_view input holding (newest_time (outcomes (poll_fns reader now) now cs p))
  unfolding assemble controller_view hot_snapshot medium_snapshot slow_snapshot
  latest-controller_view bank cs p start is_hot is_medium is_slow =
      let (t, h) = newest-bank bank hot cs p is_hot in
      let (u, m) = newest-bank bank medium cs p is_medium in
      let (v, l) = newest-bank bank slow cs p is_slow in
      let os = run_outcomes cs p in
      latest-assemble (poll_fns reader now) now cs p start
      ∙ ap (λ x. assemble x (newest medium os) (newest slow os) (newest_time os)) h
      ∙ ap (λ x. assemble (tier_snapshot hot t) x (newest slow os) (newest_time os)) m
      ∙ ap (λ x. assemble (tier_snapshot hot t) (tier_snapshot medium u) x (newest_time os)) l
