-- ===== src/Interface/Health.antt =====
-- interface/http/handler/health.go: the probes. A response is its status code and the two fields of
-- its body.
use oasis_modbus2mqtt.Prelude.{
  ℕ, ◌≡◌, ◌≢◌, inl, inr, refl, sym, ap, ◌∙◌, ◌↔◌, Bool, true, false, not, ◌||◌, Option, none, some,
  arith, if◌then◌else◌, Bool-cases,
}
use oasis_modbus2mqtt.Prelude.Int.{pos, ltb_ℤ, leb_ℤ, ◌≤ℤ◌}
use oasis_modbus2mqtt.Prelude.Time.{Time, Duration, is_zero, time_sub}
use Prim.Native.String.{String}
use oasis_modbus2mqtt.Service.Availability.{is_stale, Availability, tick, settle}

pub record Response : Type 0 where
  pub code : ℕ
  pub status : String
  pub reason : Option String

-- `NewHealth` panics on a threshold that is not positive: then there is no handler.
unfoldable pub new_health : Duration → Option Duration
new_health threshold = if leb_ℤ threshold (pos 0) then none else some threshold

-- `Live`
unfoldable pub live : Response
live = record { code = 200; status = "ok"; reason = none }

abbrev not_ready : String → Response
not_ready reason = record { code = 503; status = "not_ready"; reason = some reason }

-- `Ready`, with what `Connected`, `Snapshot().PolledAt` and `Now` say.
unfoldable pub ready : Duration → Bool → Time → Time → Response
unfolding time_sub
ready threshold connected polled_at now =
    if not connected
    then not_ready "mqtt_not_connected"
    else if is_zero polled_at || ltb_ℤ threshold (time_sub now polled_at)
    then not_ready "stale_snapshot"
    else record { code = 200; status = "ok"; reason = none }

is_stale_mono :
    (polled_at now : Time) (low high : Duration)
    → low ≤ℤ high
    → is_stale polled_at now low ≡ false
    → is_stale polled_at now high ≡ false
unfolding is_stale
is_stale_mono polled_at now low high h fresh = ground arith

settled_offline :
    (stale off : Bool) (a : Availability)
    → a.is_offline ≡ off
    → (settle stale off a).is_offline ≡ stale
unfolding settle
settled_offline stale off a e = ground arith

offline-tick :
    (polled_at now : Time) (a : Availability)
    → (tick polled_at now a).is_offline ≡ false
    → is_stale polled_at now a.threshold ≡ false
unfolding tick
offline-tick polled_at now a h =
    sym (settled_offline (is_stale polled_at now a.threshold) a.is_offline a refl) ∙ h

not_200 : (reason : String) → not_ready reason ≢ live
unfolding live
not_200 reason e = absurd (omega (arith, ap (λ (r : Response). r.code) e))

other_reason : ◌≢◌ {A = Option String} (some "stale_snapshot") (some "mqtt_not_connected")
other_reason e = cc

-- The readiness probe answers as the liveness probe does, 200 and "ok", just when MQTT is connected
-- and the availability manager's test, at the threshold of the probe, does not find the snapshot
-- stale; it gives the missing connection as its reason just when there is none.
pub ready_iff :
    (threshold : Duration) (connected : Bool) (polled_at now : Time)
    → ((ready threshold connected polled_at now ≡ live)
        ↔ ((connected ≡ true) × (is_stale polled_at now threshold ≡ false)))
      × (((ready threshold connected polled_at now).reason ≡ some "mqtt_not_connected")
          ↔ (connected ≡ false))
unfolding ready is_stale live
ready_iff threshold false polled_at now =
    ((λ e. absurd (not_200 "mqtt_not_connected" e), λ h. cc (h.0)), (λ e. refl, λ e. refl))
ready_iff threshold true polled_at now =
    elim (Bool-cases (is_zero polled_at || ltb_ℤ threshold (time_sub now polled_at))) [
      | inl stale ↦ rw stale (
        (λ e. absurd (not_200 "stale_snapshot" e), λ h. cc (h.1)),
        (λ e. absurd (other_reason e), λ e. cc),
      )
      | inr fresh ↦ rw fresh ((λ e. (refl, refl), λ h. refl), (λ e. cc, λ e. cc))
    ]

-- If the threshold of the availability manager is at most that of the probe, and the manager counts
-- the controller as online behind a tick, then the readiness probe of a connected bridge answers 200
-- at that moment. Of a manager with a threshold above that of the probe nothing is said.
pub tick-ready :
    (threshold : Duration) (a : Availability) (polled_at now : Time)
    → a.threshold ≤ℤ threshold
    → (tick polled_at now a).is_offline ≡ false
    → ready threshold true polled_at now ≡ live
tick-ready threshold a polled_at now h online = (ready_iff threshold true polled_at now).0.1 (
  refl,
  is_stale_mono polled_at now a.threshold threshold h (offline-tick polled_at now a online),
)
