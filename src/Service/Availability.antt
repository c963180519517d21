-- ===== src/Service/Availability.antt =====
-- application/service/availability_manager.go: online and offline by the age of the last poll. The
-- two callbacks are the events that they stand for; a callback that is nil leaves no event.
pub mod Transitions
use oasis_modbus2mqtt.Prelude.{Bool, true, false, not, ◌&&◌, ◌||◌, List, [], ◌∷◌, if◌then◌else◌}
use oasis_modbus2mqtt.Prelude.Int.{ltb_ℤ}
use oasis_modbus2mqtt.Prelude.Time.{Time, Duration, is_zero, time_sub}

pub data Event : Type 0 where
  online offline : Event

pub record Availability : Type 0 where
  pub threshold : Duration
  pub has_on_online : Bool
  pub has_on_offline : Bool
  pub is_offline : Bool
  pub events : List Event

-- `NewAvailabilityManager`, before `SetCallbacks`.
unfoldable pub new_availability : Duration → Availability
new_availability threshold = record {
  threshold = threshold;
  has_on_online = false;
  has_on_offline = false;
  is_offline = true;
  events = [];
}

-- `SetCallbacks`, told of each callback whether it is there.
unfoldable pub set_callbacks : Bool → Bool → Availability → Availability
set_callbacks on_online on_offline a = record a {
  has_on_online = on_online;
  has_on_offline = on_offline;
}

-- A poll is stale if there was none or it is older than the threshold.
unfoldable pub is_stale : Time → Time → Duration → Bool
unfolding time_sub
is_stale polled_at now threshold = is_zero polled_at || ltb_ℤ threshold (time_sub now polled_at)

abbrev pub emit : Bool → Event → Availability → Availability
emit present e a = if present then record a { events = e ∷ a.events } else a

-- The transition of `tick`, from the test of staleness and `isOffline`.
unfoldable pub settle : Bool → Bool → Availability → Availability
settle stale is_offline a =
    if stale && not is_offline
    then emit a.has_on_offline offline (record a { is_offline = true })
    else if not stale && is_offline
    then emit a.has_on_online online (record a { is_offline = false })
    else a

-- `tick`, for a snapshot polled at `polled_at`.
unfoldable pub tick : Time → Time → Availability → Availability
unfolding settle
tick polled_at now a = settle (is_stale polled_at now a.threshold) a.is_offline a
