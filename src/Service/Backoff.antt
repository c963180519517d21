-- ===== src/Service/Backoff.antt =====
-- application/service/backoff.go: delays that grow by a factor up to a limit. The random numbers
-- are those of a generator `draw`, with its state.
use oasis_modbus2mqtt.Prelude.{ℕ, zero, suc, ◌*◌, ◌/◌, ◌^◌, Bool, true, false, ltb, if◌then◌else◌}
use oasis_modbus2mqtt.Prelude.Int.{pos, negsuc, ltb_ℤ}
pub mod Limits
use oasis_modbus2mqtt.Float64.{
  Float64, nan, inf, fin, of_nat, nearest, unit, mul, add, negate, less,
}
use oasis_modbus2mqtt.Prelude.Time.{Duration}

-- `float64(d)` of a duration in nanoseconds.
abbrev float_of : Duration → Float64
float_of (pos n) = of_nat n
float_of (negsuc n) = nearest true (suc n * unit) 1

abbrev signed : Bool → ℕ → Duration
signed false n = pos n
signed true zero = pos 0
signed true (suc n) = negsuc n

-- `time.Duration(x)`: towards zero. What the conversion gives for a value that no int64 holds
-- is up to the implementation.
unfoldable pub duration_of : Duration → Float64 → Duration
unfolding unit
duration_of unspecified nan = unspecified
duration_of unspecified (inf s) = unspecified
duration_of unspecified (fin s a) =
    if ltb (a / unit) (2 ^ 63) then signed s (a / unit) else unspecified

-- `ReconnectConfig` and the generator, which do not change.
pub record BackoffConfig (R : Type 0) : Type 0 where
  pub min : Duration
  pub max : Duration
  pub factor : Float64
  pub jitter : Float64
  pub draw : R → Float64 × R

pub record Backoff (R : Type 0) : Type 0 where
  pub current : Duration
  pub rng : R

module _ {R : Type 0} (unspecified : Duration) (cfg : BackoffConfig R) where
  -- `NewBackoffWithRand`
  unfoldable pub new_backoff : R → Backoff R
  new_backoff rng = record { current = cfg.min; rng = rng }

  -- The delay with its jitter: `1 + (b.rng.Float64()*2-1)*b.jitter` times the current one.
  unfoldable pub jittered : Duration → Float64 → Duration
  unfolding duration_of mul add negate of_nat
  jittered current random =
      let mult =
        add (of_nat 1) (mul (add (mul random (of_nat 2)) (negate (of_nat 1))) cfg.jitter) in
      duration_of unspecified (mul (float_of current) mult)

  -- The delay that grows: the next current one.
  unfoldable pub grown : Duration → Duration
  unfolding duration_of mul
  grown current =
      let next = duration_of unspecified (mul (float_of current) cfg.factor) in
      if ltb_ℤ cfg.max next then cfg.max else next

  -- `Next`
  unfoldable pub next : Backoff R → Duration × Backoff R
  unfolding jittered grown
  next b =
      let (random, rng) = cfg.draw b.rng in
      let jitters = less (of_nat 0) cfg.jitter in
      let actual = if jitters then jittered b.current random else b.current in
      (
        if ltb_ℤ actual (pos 0) then pos 0 else actual,
        record { current = grown b.current; rng = if jitters then rng else b.rng },
      )

  -- `Reset`
  unfoldable pub reset : Backoff R → Backoff R
  reset b = record b { current = cfg.min }
