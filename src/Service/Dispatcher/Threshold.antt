-- ===== src/Service/Dispatcher/Threshold.antt =====
-- When the dispatcher signals the supervisor.
use oasis_modbus2mqtt.Port.{ModbusClient}
use oasis_modbus2mqtt.Service.Dispatcher.{Dispatcher, record_outcome}
use oasis_modbus2mqtt.Prelude.{
  ℕ, zero, suc, ◌+◌, ◌<◌, ◌≡◌, refl, Bool, true, false, Option, none, some, List, [], ◌∷◌, arith,
  leb, if◌then◌else◌,
}
use oasis_modbus2mqtt.Prelude.Errors.{Error}

-- The newest `n` outcomes of a history, which lists the newest first, are all failures.
abbrev pub all_failed : ℕ → List (Option Error) → Bool
all_failed zero os = true
all_failed (suc n) [] = false
all_failed (suc n) (none ∷ os) = false
all_failed (suc n) (some e ∷ os) = all_failed n os

-- How many of the newest outcomes are failures.
abbrev pub failures_in_a_row : List (Option Error) → ℕ
failures_in_a_row [] = 0
failures_in_a_row (none ∷ os) = 0
failures_in_a_row (some e ∷ os) = suc (failures_in_a_row os)

all_failed_iff : (n : ℕ) (os : List (Option Error)) → all_failed n os ≡ leb n (failures_in_a_row os)
all_failed_iff zero os = ground arith
all_failed_iff (suc n) [] = ground arith
all_failed_iff (suc n) (none ∷ os) = ground arith
all_failed_iff (suc n) (some e ∷ os) = ground (arith, all_failed_iff n os)

-- A notifier that counts its signals.
abbrev pub signal : ℕ → ℕ
signal n = n + 1

module _ (client : ModbusClient ℕ) (threshold : ℕ) where
  -- The dispatcher after a history, newest outcome first.
  unfoldable pub after : List (Option Error) → Dispatcher ℕ
  unfolding record_outcome
  after [] = record { inner = 0; consecutive_errs = 0 }
  after (o ∷ os) = record_outcome client signal threshold o (after os)

  counts : (os : List (Option Error)) → (after os).consecutive_errs ≡ failures_in_a_row os
  unfolding after
  counts [] = refl
  counts (none ∷ os) = refl
  counts (some e ∷ os) = omega (arith, counts os)

  -- With a positive threshold, an outcome signals the supervisor, once, exactly when it and the
  -- outcomes before it are as many failures in a row as the threshold or more.
  pub signals_at_threshold :
      (o : Option Error) (os : List (Option Error))
      → 0 < threshold
      → (after (o ∷ os)).inner ≡ (after os).inner + (if all_failed threshold (o ∷ os) then 1 else 0)
  unfolding after
  signals_at_threshold none os h = ground (arith, all_failed_iff threshold (none ∷ os), h)
  signals_at_threshold (some e) os h =
      ground (arith, counts os, all_failed_iff threshold (some e ∷ os))
