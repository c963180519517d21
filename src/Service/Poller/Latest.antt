-- ===== src/Service/Poller/Latest.antt =====
-- What the latest snapshot is made of.
use oasis_modbus2mqtt.Prelude.{◌≡◌, ap, Bool, true, false, ◌&&◌, List, [], ◌∷◌, if◌then◌else◌}
use oasis_modbus2mqtt.Prelude.Errors.{Result, ok, err}
use oasis_modbus2mqtt.Port.{Ctx}
use oasis_modbus2mqtt.Prelude.Step.{Step}
use oasis_modbus2mqtt.Prelude.Time.{Time}
use oasis_modbus2mqtt.Domain.Snapshot.{Snapshot, empty_snapshot}
use oasis_modbus2mqtt.Service.Poller.{
  Tier, hot, medium, slow, merge, Poller, polled, do_poll, ctx_done, is_error,
}

-- A snapshot with the fields of each tier from a snapshot of its own.
unfoldable pub assemble : Snapshot → Snapshot → Snapshot → Time → Snapshot
unfolding empty_snapshot
assemble h m s t = record {
  firmware = s.firmware;
  device_id = s.device_id;
  device_config = s.device_config;
  power_on = h.power_on;
  switching = h.switching;
  heat_capable = h.heat_capable;
  cool_capable = h.cool_capable;
  current_mode = m.current_mode;
  operation = h.operation;
  operation_time_left = h.operation_time_left;
  target_temp = h.target_temp;
  room_temp = m.room_temp;
  supply_temp = h.supply_temp;
  fan_target1 = h.fan_target1;
  fan_state1 = h.fan_state1;
  fan_state2 = h.fan_state2;
  heater_pwm = h.heater_pwm;
  damper_open = h.damper_open;
  pid_demand = h.pid_demand;
  filter_pct = h.filter_pct;
  errors = [];
  raw_error0 = h.raw_error0;
  raw_error1 = h.raw_error1;
  raw_error2 = m.raw_error2;
  raw_error3 = m.raw_error3;
  room_humidity = m.room_humidity;
  polled_at = t;
}

abbrev pub same : Tier → Tier → Bool
same hot hot = true
same medium medium = true
same slow slow = true
same _ _ = false

-- The newest partial snapshot that a tier has delivered, the newest outcome standing first, and
-- the time of the newest one of all.
abbrev pub newest : Tier → List (Tier × Result Snapshot) → Snapshot
newest tier [] = empty_snapshot
newest tier ((t, ok partial) ∷ os) = if same tier t then partial else newest tier os
newest tier ((t, err e) ∷ os) = newest tier os

abbrev pub newest_time : List (Tier × Result Snapshot) → Time
newest_time [] = 0
newest_time ((t, ok partial) ∷ os) = partial.polled_at
newest_time ((t, err e) ∷ os) = newest_time os

-- The outcomes of a run of `do_poll`, newest first, and the poller after it.
module _ {S : Type 0} (poll : Tier → Ctx → Step S Snapshot) (now : S → Time) where
  unfoldable pub after : List (Ctx × Tier) → Poller S → Poller S
  unfolding do_poll
  after [] p = p
  after ((ctx, tier) ∷ cs) p = do_poll poll now ctx tier (after cs p)

  unfoldable pub outcomes : List (Ctx × Tier) → Poller S → List (Tier × Result Snapshot)
  unfolding after
  outcomes [] p = []
  outcomes ((ctx, tier) ∷ cs) p = (tier, (poll tier ctx (after cs p).world).0) ∷ outcomes cs p

  abbrev assembled : List (Tier × Result Snapshot) → Snapshot
  assembled os = assemble (newest hot os) (newest medium os) (newest slow os) (newest_time os)

  latest-if :
      (b : Bool) (x y : Poller S) (l : Snapshot)
      → x.latest ≡ l
      → y.latest ≡ l
      → (if b then x else y).latest ≡ l
  latest-if true x y l h k = h
  latest-if false x y l h k = k

  pub polled-assembled :
      (ctx : Ctx) (tier : Tier) (r : Result Snapshot × S) (p : Poller S)
      (os : List (Tier × Result Snapshot))
      → p.latest ≡ assembled os
      → (polled poll now ctx tier r p).latest ≡ assembled ((tier, r.0) ∷ os)
  unfolding polled assemble
  polled-assembled ctx hot (ok partial, s) p os h = ap (λ l. merge hot l partial) h
  polled-assembled ctx medium (ok partial, s) p os h = ap (λ l. merge medium l partial) h
  polled-assembled ctx slow (ok partial, s) p os h = ap (λ l. merge slow l partial) h
  polled-assembled ctx tier (err e, s) p os h =
      latest-if (ctx_done ctx (now s) && is_error e ctx.cause) _ _ _ h h

  -- The poller after its tiers have got these outcomes, newest first, each with the world in which
  -- the reads ended: reads of several tiers may overlap, but the lock keeps their merges apart.
  unfoldable merged : List (Ctx × Tier × (Result Snapshot × S)) → Poller S → Poller S
  unfolding polled
  merged [] p = p
  merged ((ctx, tier, r) ∷ rs) p = polled poll now ctx tier r (merged rs p)

  abbrev answers : List (Ctx × Tier × (Result Snapshot × S)) → List (Tier × Result Snapshot)
  answers [] = []
  answers ((ctx, tier, r) ∷ rs) = (tier, r.0) ∷ answers rs

  -- Whatever outcomes the polls of the three tiers have had and in whatever order they were merged,
  -- from the empty snapshot on, each field of the latest snapshot is the one of the newest
  -- successful poll of the tier that owns the field, and it is zero while that tier has had none;
  -- `PolledAt` is the time of the newest successful poll of any tier.
  merged-assemble :
      (rs : List (Ctx × Tier × (Result Snapshot × S))) (p : Poller S)
      → p.latest ≡ empty_snapshot
      → (merged rs p).latest
        ≡ assemble
            (newest hot (answers rs))
            (newest medium (answers rs))
            (newest slow (answers rs))
            (newest_time (answers rs))
  unfolding merged assemble
  merged-assemble [] p h = h
  merged-assemble ((ctx, tier, r) ∷ rs) p h =
      polled-assembled ctx tier r (merged rs p) (answers rs) (merged-assemble rs p h)

  -- The same for a run in which each poll is merged before the next one starts.
  pub latest-assemble :
      (cs : List (Ctx × Tier)) (p : Poller S)
      → p.latest ≡ empty_snapshot
      → (after cs p).latest
        ≡ assemble
            (newest hot (outcomes cs p))
            (newest medium (outcomes cs p))
            (newest slow (outcomes cs p))
            (newest_time (outcomes cs p))
  unfolding after outcomes assemble
  latest-assemble [] p h = h
  latest-assemble ((ctx, tier) ∷ cs) p h =
      polled-assembled ctx tier (poll tier ctx (after cs p).world) (after cs p) (outcomes cs p)
        (latest-assemble cs p h)
