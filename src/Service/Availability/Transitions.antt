-- ===== src/Service/Availability/Transitions.antt =====
-- The events that the availability manager emits.
use oasis_modbus2mqtt.Prelude.Time.{Time, Duration}
use oasis_modbus2mqtt.Service.Availability.{
  Event, online, offline, Availability, new_availability, set_callbacks, is_stale, settle, tick,
  emit,
}
use mathlib.Core.Path.{subst}
use oasis_modbus2mqtt.Prelude.{◌≡◌, refl, sym, ap, ◌∙◌, Bool, true, false, List, [], ◌∷◌}

-- What the manager has said last, if newest events stand first; it starts as offline.
abbrev pub said_offline : List Event → Bool
said_offline [] = true
said_offline (online ∷ es) = false
said_offline (offline ∷ es) = true

-- Online and offline take turns, and the first event is online.
abbrev pub Alternates : List Event → Type 0
Alternates [] = Unit
Alternates (online ∷ es) = (said_offline es ≡ true) × Alternates es
Alternates (offline ∷ es) = (said_offline es ≡ false) × Alternates es

-- The ticks that have happened: the time of the last poll and the time of the tick, newest first.
unfoldable pub after_ticks : List (Time × Time) → Availability → Availability
unfolding tick
after_ticks [] a = a
after_ticks ((polled_at, now) ∷ ts) a = tick polled_at now (after_ticks ts a)

unfoldable pub wired : Duration → Availability
unfolding new_availability set_callbacks
wired threshold = set_callbacks true true (new_availability threshold)

record IsTold (threshold : Duration) (a : Availability) : Type 0 where
  limit : a.threshold ≡ threshold
  both : (a.has_on_online ≡ true) × (a.has_on_offline ≡ true)
  alternates : Alternates a.events
  told : said_offline a.events ≡ a.is_offline

settle-IsTold :
    (threshold : Duration) (stale offline : Bool) (a : Availability)
    → IsTold threshold a
    → a.is_offline ≡ offline
    → IsTold threshold (settle stale offline a) × ((settle stale offline a).is_offline ≡ stale)
unfolding settle
settle-IsTold threshold true true a h e = (h, e)
settle-IsTold threshold false false a h e = (h, e)
settle-IsTold threshold true false a h e =
    subst
      (λ present.
        IsTold threshold (emit present Event.offline (record a { is_offline = true }))
        × ((emit present Event.offline (record a { is_offline = true })).is_offline ≡ true))
      (sym h.both.1)
      (
        record {
          limit = h.limit;
          both = h.both;
          alternates = (h.told ∙ e, h.alternates);
          told = refl;
        },
        refl,
      )
settle-IsTold threshold false true a h e =
    subst
      (λ present.
        IsTold threshold (emit present Event.online (record a { is_offline = false }))
        × ((emit present Event.online (record a { is_offline = false })).is_offline ≡ false))
      (sym h.both.0)
      (
        record {
          limit = h.limit;
          both = h.both;
          alternates = (h.told ∙ e, h.alternates);
          told = refl;
        },
        refl,
      )

after_ticks-IsTold :
    (threshold : Duration) (ts : List (Time × Time))
    → IsTold threshold (after_ticks ts (wired threshold))
unfolding after_ticks wired
after_ticks-IsTold threshold [] = record {
  limit = refl;
  both = (refl, refl);
  alternates = tt;
  told = refl;
}
after_ticks-IsTold threshold ((polled_at, now) ∷ ts) =
    let a = after_ticks ts (wired threshold) in
    (settle-IsTold threshold (is_stale polled_at now a.threshold) a.is_offline a
      (after_ticks-IsTold threshold ts) refl).0

-- Whatever the ticks have been since the callbacks were set, the two callbacks were called in turn,
-- `onOnline` first, and after one more tick the manager is offline, and has said so last, exactly if
-- the snapshot of that tick is stale.
pub events_alternate :
    (threshold : Duration) (ts : List (Time × Time)) (polled_at now : Time)
    → Alternates (after_ticks ((polled_at, now) ∷ ts) (wired threshold)).events
      × (said_offline (after_ticks ((polled_at, now) ∷ ts) (wired threshold)).events
          ≡ is_stale polled_at now threshold)
unfolding after_ticks tick
events_alternate threshold ts polled_at now =
    let a = after_ticks ts (wired threshold) in
    let h = after_ticks-IsTold threshold ts in
    let next = settle-IsTold threshold (is_stale polled_at now a.threshold) a.is_offline a h refl in
    (next.0.alternates, next.0.told ∙ next.1 ∙ ap (is_stale polled_at now) h.limit)
