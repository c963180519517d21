-- ===== src/App/Delays.antt =====
-- What a configuration that `Load` accepts means for `New` and for the reconnection delays.
use oasis_modbus2mqtt.Prelude.{
  ℕ, ◌≡◌, ◌≢◌, refl, sym, ◌∙◌, ◌⊎◌, inl, inr, some, [], ◌∷◌, ◌++◌, arith,
}
use oasis_modbus2mqtt.Prelude.Text.{Text, codes}
use oasis_modbus2mqtt.Prelude.Int.{pos, ◌≤ℤ◌}
use oasis_modbus2mqtt.Prelude.Time.{Duration}
use oasis_modbus2mqtt.Prelude.Errors.{ok}
use oasis_modbus2mqtt.Float64.{Float64}
use oasis_modbus2mqtt.Config.{Config, HaConfig, PollingConfig, ReconnectConfig, http_addr}
use oasis_modbus2mqtt.Config.Load.{Parsers, Env, load}
use oasis_modbus2mqtt.Config.Load.Exact.{load_iff}
use oasis_modbus2mqtt.Config.Validate.Sound.{IsValid, PollingIsValid, is_empty_of_ne}
use oasis_modbus2mqtt.Service.Backoff.{BackoffConfig, new_backoff, next}
use oasis_modbus2mqtt.Service.Backoff.Limits.{advanced, next_bounds}
use oasis_modbus2mqtt.App.Wiring.{
  new_topic_builder, checked_dispatcher, checked_intervals, checked_topic, Wiring, new_app,
  command_failure_threshold, readiness_threshold,
}

-- The wiring of a configuration.
abbrev pub wiring_of : Config → Wiring
wiring_of c = record {
  topics = record {
    discovery_prefix = c.home_assistant.discovery_prefix;
    device_prefix = c.home_assistant.device_prefix;
  };
  reconnect = c.reconnect;
  failure_threshold = command_failure_threshold;
  polling = c.polling;
  ha_status_topic = c.home_assistant.discovery_prefix ++ codes "/status";
  readiness = readiness_threshold;
  addr = http_addr c.http;
}

builds_topics :
    (h : HaConfig)
    → h.discovery_prefix ≢ []
    → h.device_prefix ≢ []
    → new_topic_builder h
      ≡ some (record { discovery_prefix = h.discovery_prefix; device_prefix = h.device_prefix })
unfolding new_topic_builder
builds_topics h a b = rw (is_empty_of_ne h.discovery_prefix a, is_empty_of_ne h.device_prefix b)

builds_intervals : (p : PollingConfig) → PollingIsValid p → checked_intervals p ≡ some p
unfolding checked_intervals
builds_intervals p v = ground arith

builds_topic :
    (prefix : Text) → checked_topic (prefix ++ codes "/status") ≡ some (prefix ++ codes "/status")
unfolding checked_topic
builds_topic [] = refl
builds_topic (c ∷ s) = refl

builds_app :
    (c : Config)
    → c.home_assistant.discovery_prefix ≢ []
    → IsValid c
    → new_app c ≡ some (wiring_of c)
unfolding new_app checked_dispatcher
builds_app c p v = rw (
  builds_topics c.home_assistant p v.device_prefix,
  builds_intervals c.polling v.polling,
  builds_topic c.home_assistant.discovery_prefix,
)

prefix_ne :
    (raw v : Text) → ((raw ≡ []) × (v ≡ codes "homeassistant")) ⊎ ((raw ≢ []) × (raw ≡ v)) → v ≢ []
prefix_ne raw v (inl h) e = cc (sym h.1 ∙ e)
prefix_ne raw v (inr h) e = h.0 (h.1 ∙ e)

-- A configuration that `Load` returns meets the requirements of every constructor that `New` calls:
-- `New` does not panic, and gives each component the settings of the configuration.
pub load-new_app :
    (parsers : Parsers) (env : Env) (c : Config)
    → load parsers env ≡ ok c
    → new_app c ≡ some (wiring_of c)
load-new_app parsers env c h =
    let (reads, valid) = (load_iff parsers env c).0 h in
    builds_app c (prefix_ne _ _ reads.home_assistant.discovery_prefix) valid

-- The backoff that the supervisor makes of a configuration.
abbrev pub backoff_of : {R : Type 0} → (R → Float64 × R) → ReconnectConfig → BackoffConfig R
backoff_of draw r = record {
  min = r.min_delay;
  max = r.max_delay;
  factor = r.factor;
  jitter = r.jitter_pct;
  draw = draw;
}

-- With a configuration that `Load` returns, whatever the random numbers and however many delays went
-- before, the next delay of a reconnection is not negative, and the delay that it varies is at most
-- RECONNECT_MAX_DELAY.
pub load-next_bounds :
    {R : Type 0} (parsers : Parsers) (env : Env) (c : Config) (unspecified : Duration)
    (draw : R → Float64 × R) (n : ℕ) (rng : R)
    → load parsers env ≡ ok c
    → (pos 0
        ≤ℤ (next unspecified (backoff_of draw c.reconnect) (
            advanced unspecified
              (backoff_of draw c.reconnect)
              n
              (new_backoff unspecified (backoff_of draw c.reconnect) rng))).0)
      × ((advanced unspecified
            (backoff_of draw c.reconnect)
            n
            (new_backoff unspecified (backoff_of draw c.reconnect) rng)).current
          ≤ℤ c.reconnect.max_delay)
load-next_bounds parsers env c unspecified draw n rng h =
    next_bounds unspecified (backoff_of draw c.reconnect) n rng
      ((load_iff parsers env c).0 h).1.reconnect.min_max
