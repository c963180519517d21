-- ===== src/App/Wiring.antt =====
-- `New` of internal/app/app.go, with the checks of the constructors that it calls: a panic is `none`.
-- The components themselves are those of the other modules; what they are given is in a record.
use oasis_modbus2mqtt.Prelude.{ℕ, ◌*◌, ◌||◌, Option, none, some, ◌++◌, leb, if◌then◌else◌}
use oasis_modbus2mqtt.Prelude.Text.{Text, codes}
use oasis_modbus2mqtt.Prelude.Int.{pos, leb_ℤ}
use oasis_modbus2mqtt.Prelude.Time.{Duration, second}
use oasis_modbus2mqtt.Config.{Config, HaConfig, PollingConfig, ReconnectConfig, http_addr}
use oasis_modbus2mqtt.Config.Validate.{is_empty}
use oasis_modbus2mqtt.Interface.Health.{new_health}
use oasis_modbus2mqtt.Mqtt.Topics.{TopicBuilder}

-- `commandFailureThreshold`, `readinessThreshold`, `callbackPublishTimeout`
abbrev pub command_failure_threshold : ℕ
command_failure_threshold = 3

abbrev pub readiness_threshold : Duration
readiness_threshold = pos (120 * second)

abbrev pub callback_publish_timeout : ℕ
callback_publish_timeout = 5 * second

infixl 5 ◌>>=◌
abbrev ◌>>=◌ : {A B : Type 0} → Option A → (A → Option B) → Option B
none >>= f = none
some a >>= f = f a

-- `NewTopicBuilder` of infrastructure/mqtt/topic.go
unfoldable pub new_topic_builder : HaConfig → Option TopicBuilder
new_topic_builder h =
    if is_empty h.discovery_prefix
    then none
    else if is_empty h.device_prefix
    then none
    else some (record { discovery_prefix = h.discovery_prefix; device_prefix = h.device_prefix })

-- The checks of `NewCommandDispatcher`, `NewPoller`, `NewHAStatusListener` and `NewServer`.
unfoldable pub checked_dispatcher : ℕ → Option ℕ
checked_dispatcher threshold = if leb threshold 0 then none else some threshold

unfoldable pub checked_intervals : PollingConfig → Option PollingConfig
checked_intervals p =
    if leb_ℤ p.hot_interval (pos 0)
      || leb_ℤ p.medium_interval (pos 0)
      || leb_ℤ p.slow_interval (pos 0)
    then none
    else some p

unfoldable pub checked_topic : Text → Option Text
checked_topic topic = if is_empty topic then none else some topic

unfoldable pub checked_addr : Text → Option Text
checked_addr addr = if is_empty addr then none else some addr

pub record Wiring : Type 0 where
  pub topics : TopicBuilder
  pub reconnect : ReconnectConfig
  pub failure_threshold : ℕ
  pub polling : PollingConfig
  pub ha_status_topic : Text
  pub readiness : Duration
  pub addr : Text

-- `New`
unfoldable pub new_app : Config → Option Wiring
unfolding new_topic_builder checked_dispatcher checked_intervals checked_topic checked_addr
    new_health http_addr
new_app cfg = do
  topics ← new_topic_builder cfg.home_assistant
  failure_threshold ← checked_dispatcher command_failure_threshold
  polling ← checked_intervals cfg.polling
  ha_status_topic ← checked_topic (cfg.home_assistant.discovery_prefix ++ codes "/status")
  readiness ← new_health readiness_threshold
  addr ← checked_addr (http_addr cfg.http)
  some (record {
    topics = topics;
    reconnect = cfg.reconnect;
    failure_threshold = failure_threshold;
    polling = polling;
    ha_status_topic = ha_status_topic;
    readiness = readiness;
    addr = addr;
  })
