-- ===== src/Tests/Tiers.antt =====
-- The goroutines of the poller, from their start until all of them have returned.
use oasis_modbus2mqtt.Prelude.{ℕ, ◌≡◌, ◌⊎◌, refl, ◌+◌, true, false, some}
use oasis_modbus2mqtt.Prelude.Errors.{Sentinel, sentinel, Result, ok, err}
use oasis_modbus2mqtt.Port.{Ctx}
use oasis_modbus2mqtt.Domain.Snapshot.{Snapshot, empty_snapshot}
use oasis_modbus2mqtt.Service.Poller.{Tier, hot, medium, slow, Poller, new_poller}
use oasis_modbus2mqtt.Service.Poller.Latest.{assemble, newest, newest_time}
use oasis_modbus2mqtt.Service.Poller.Tiers.{
  returned, polling, Tiers, start_tiers, turn, close_done, deliver, delivers, ticks, returns,
  closes, Run, started, next,
}
use oasis_modbus2mqtt.Service.Poller.Tiers.Ends.{ends, has_polled, All3, run-assembled}

-- A context that is done at 50, polls at the time of a counter, of which those of the slow tier fail.
abbrev until_50 : Ctx
until_50 = record { done_at = some 50; cause = sentinel Sentinel.canceled; prefer_done = false }

abbrev polls : Tier → Ctx → ℕ → Result Snapshot × ℕ
polls hot ctx s = (ok (record empty_snapshot { fan_target1 = s; polled_at = s }), s + 1)
polls medium ctx s = (ok (record empty_snapshot { room_humidity = s; polled_at = s }), s + 1)
polls slow ctx s = (err (sentinel Sentinel.timeout), s + 1)

abbrev begun : Poller ℕ
begun = new_poller 1

abbrev got : Tier → ℕ → Tiers ℕ → Tiers ℕ
got tier at s = deliver polls (λ n. n) until_50 tier (polls tier until_50 at) s

-- The hot tier polls, and again while the first polls of the others have not ended.
abbrev polled_all : Tiers ℕ
polled_all =
    got slow 7 (got medium 5 (got hot 9 (turn hot polling (got hot 3 (start_tiers begun)))))

abbrev left : Tiers ℕ
left = turn slow returned (turn medium returned (turn hot returned polled_all))

all_returned : (tier : Tier) → left.phase tier ≡ returned
unfolding turn
all_returned hot = refl
all_returned medium = refl
all_returned slow = refl

abbrev ended : Tiers ℕ
ended = close_done left

ended-Run : Run polls (λ n. n) until_50 begun ended
unfolding start_tiers turn deliver
ended-Run =
    next
      (next
        (next
          (next
            (next
              (next
                (next
                  (next (next started (delivers hot (polls hot until_50 3) refl refl))
                    (ticks hot refl refl))
                  (delivers hot (polls hot until_50 9) refl refl))
                (delivers medium (polls medium until_50 5) refl refl))
              (delivers slow (polls slow until_50 7) refl refl))
            (returns hot 50 refl refl refl))
          (returns medium 51 refl refl refl))
        (returns slow 52 refl refl refl))
      (closes all_returned refl)

begun-empty : begun.latest ≡ empty_snapshot
unfolding new_poller
begun-empty = refl

run-assembled_example :
    (ended.poller.latest
      ≡ assemble
          (newest hot ended.outcomes)
          (newest medium ended.outcomes)
          (newest slow ended.outcomes)
          (newest_time ended.outcomes))
    × ((ended.done ≡ false)
        ⊎ ((ends until_50 ≡ true)
            × All3 (λ u. (ended.phase u ≡ returned) × (has_polled u ended.outcomes ≡ true))))
run-assembled_example = run-assembled polls (λ n. n) until_50 begun ended begun-empty ended-Run
