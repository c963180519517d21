-- ===== src/Service/Poller.antt =====
-- application/service/poller.go: the latest snapshot, merged from the polls of three tiers. The lock
-- keeps merges apart. `polled` goes on from the outcome of a poll with the merge and the calls of the
-- subscribers as one step; the code makes these calls once it has let the lock go, so that those of
-- two tiers may interleave, which is left out. `do_poll` is a poll with what follows it. The goroutines are in
-- Tiers. The panics of NewPoller are in App/Wiring.
pub mod Latest
pub mod Tiers
use oasis_modbus2mqtt.Prelude.{
  ◌+◌, Bool, false, ◌&&◌, Option, none, some, List, [], ◌∷◌, ◌++◌, leb, if◌then◌else◌,
}
use oasis_modbus2mqtt.Prelude.Errors.{
  Error, sentinel, wrap, wrap_two, message, net_error, exception, errors_is, Result, ok, err,
}
use oasis_modbus2mqtt.Port.{Ctx}
use oasis_modbus2mqtt.Prelude.Step.{Step}
use oasis_modbus2mqtt.Prelude.Time.{Time}
use oasis_modbus2mqtt.Domain.Snapshot.{Snapshot, empty_snapshot}

pub data Tier : Type 0 where
  hot medium slow : Tier

-- `MergeHot`, `MergeMedium` and `MergeSlow` of the default merger.
unfoldable pub merge_hot : Snapshot → Snapshot → Snapshot
merge_hot prev partial = record prev {
  power_on = partial.power_on;
  switching = partial.switching;
  heat_capable = partial.heat_capable;
  cool_capable = partial.cool_capable;
  operation = partial.operation;
  operation_time_left = partial.operation_time_left;
  raw_error0 = partial.raw_error0;
  raw_error1 = partial.raw_error1;
  supply_temp = partial.supply_temp;
  filter_pct = partial.filter_pct;
  heater_pwm = partial.heater_pwm;
  damper_open = partial.damper_open;
  pid_demand = partial.pid_demand;
  fan_state1 = partial.fan_state1;
  fan_state2 = partial.fan_state2;
  target_temp = partial.target_temp;
  fan_target1 = partial.fan_target1;
  polled_at = partial.polled_at;
}

unfoldable pub merge_medium : Snapshot → Snapshot → Snapshot
merge_medium prev partial = record prev {
  room_temp = partial.room_temp;
  room_humidity = partial.room_humidity;
  raw_error2 = partial.raw_error2;
  raw_error3 = partial.raw_error3;
  current_mode = partial.current_mode;
  polled_at = partial.polled_at;
}

unfoldable pub merge_slow : Snapshot → Snapshot → Snapshot
merge_slow prev partial = record prev {
  firmware = partial.firmware;
  device_id = partial.device_id;
  device_config = partial.device_config;
  polled_at = partial.polled_at;
}

unfoldable pub merge : Tier → Snapshot → Snapshot → Snapshot
unfolding merge_hot merge_medium merge_slow
merge hot prev partial = merge_hot prev partial
merge medium prev partial = merge_medium prev partial
merge slow prev partial = merge_slow prev partial

-- The poller beside the world that its controller and its subscribers act on. A subscriber is the
-- change that its callback makes to that world. Each failed poll that is not due to the end of the
-- context counts in `ModbusErrorsTotal`.
pub record Poller (S : Type 0) : Type 0 where
  pub world : S
  pub latest : Snapshot
  pub subscribers : List (Snapshot → S → S)
  pub poll_errors : List Tier
  pub last_successful_poll : Time

unfoldable pub new_poller : {S : Type 0} → S → Poller S
new_poller s = record {
  world = s;
  latest = empty_snapshot;
  subscribers = [];
  poll_errors = [];
  last_successful_poll = 0;
}

-- `Subscribe`; a nil callback is none.
unfoldable pub subscribe : {S : Type 0} → Option (Snapshot → S → S) → Poller S → Poller S
subscribe none p = p
subscribe (some cb) p = record p { subscribers = p.subscribers ++ (cb ∷ []) }

-- `for _, cb := range subs { cb(merged) }`
unfoldable pub notify : {S : Type 0} → List (Snapshot → S → S) → Snapshot → S → S
notify [] merged s = s
notify (cb ∷ cbs) merged s = notify cbs merged (cb merged s)

-- `errors.Is(err, target)` for a target that is itself an error value.
abbrev pub is_error : Error → Error → Bool
is_error e (sentinel s) = errors_is e s
is_error e (net_error late op) = false
is_error e (exception code) = false
is_error e (message text) = false
is_error e (wrap context f) = false
is_error e (wrap_two context f g) = false

-- `ctx.Err() != nil` at a time.
abbrev pub ctx_done : Ctx → Time → Bool
ctx_done ctx t = elim ctx.done_at [ none ↦ false | some d ↦ leb d t ]

module _ {S : Type 0} (poll : Tier → Ctx → Step S Snapshot) (now : S → Time) where
  -- What `doPoll` does with the outcome of a poll.
  unfoldable pub polled : Ctx → Tier → Result Snapshot × S → Poller S → Poller S
  unfolding merge notify
  polled ctx tier (ok partial, s) p =
      let merged = merge tier p.latest partial in
      let t = notify p.subscribers merged s in
      record p { world = t; latest = merged; last_successful_poll = now t }
  polled ctx tier (err e, s) p =
      if ctx_done ctx (now s) && is_error e ctx.cause
      then record p { world = s }
      else record p { world = s; poll_errors = tier ∷ p.poll_errors }

  -- `doPoll`
  unfoldable pub do_poll : Ctx → Tier → Poller S → Poller S
  unfolding polled
  do_poll ctx tier p = polled ctx tier (poll tier ctx p.world) p
