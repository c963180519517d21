-- ===== src/Config/Load/Table.antt =====
-- infrastructure/config: what `Load` reads, as a table of the variables with their defaults.
use oasis_modbus2mqtt.Prelude.{ℕ, ◌*◌, ◌≤◌, ◌≡◌, ◌≢◌, ◌⊎◌, false, []}
use oasis_modbus2mqtt.Prelude.Text.{Text, codes}
use oasis_modbus2mqtt.Prelude.Errors.{ok}
use oasis_modbus2mqtt.Prelude.Int.{ℤ, pos}
use oasis_modbus2mqtt.Prelude.Time.{Duration, second, millisecond}
use oasis_modbus2mqtt.Float64.{Float64, nearest, of_nat, unit}
use Prim.Native.String.{String}
use oasis_modbus2mqtt.Config.{
  ModbusConfig, MqttConfig, HaConfig, PollingConfig, HttpConfig, LoggerConfig, ReconnectConfig,
  Config,
}
use oasis_modbus2mqtt.Config.Load.{Parsers, Env}

-- A field read from a variable: its default where the variable is empty, else what it stands for.
abbrev pub Reads : {A : Type 0} → (Text → A → Type 0) → Text → A → A → Type 0
Reads Means raw default v = ((raw ≡ []) × (v ≡ default)) ⊎ ((raw ≢ []) × Means raw v)

module _ (parsers : Parsers) (env : Env) where
  abbrev pub ReadsText : String → String → Text → Type 0
  ReadsText key default v = Reads (λ raw t. raw ≡ t) (env key) (codes default) v

  abbrev pub ReadsInt : String → ℤ → ℤ → Type 0
  ReadsInt key default v = Reads (λ raw n. parsers.atoi raw ≡ ok n) (env key) default v

  abbrev pub ReadsDuration : String → Duration → Duration → Type 0
  ReadsDuration key default v =
      Reads (λ raw d. parsers.parse_duration raw ≡ ok d) (env key) default v

  abbrev pub ReadsFloat : String → Float64 → Float64 → Type 0
  ReadsFloat key default v = Reads (λ raw x. parsers.parse_float raw ≡ ok x) (env key) default v

  abbrev pub ReadsByte : String → ℕ → ℕ → Type 0
  ReadsByte key default v =
      Reads (λ raw n. (parsers.atoi raw ≡ ok (pos n)) × (n ≤ 255)) (env key) default v

  pub record ModbusConfigReads (c : ModbusConfig) : Type 0 where
    pub host : ReadsText "MODBUS_HOST" "10.90.19.7" c.host
    pub port : ReadsInt "MODBUS_PORT" (pos 502) c.port
    pub slave_id : ReadsByte "MODBUS_SLAVE_ID" 1 c.slave_id
    pub connect_timeout :
        ReadsDuration "MODBUS_CONNECT_TIMEOUT" (pos (5 * second)) c.connect_timeout
    pub read_timeout : ReadsDuration "MODBUS_READ_TIMEOUT" (pos (2 * second)) c.read_timeout
    pub write_timeout : ReadsDuration "MODBUS_WRITE_TIMEOUT" (pos (2 * second)) c.write_timeout
    pub guard_interval :
        ReadsDuration "MODBUS_GUARD_INTERVAL" (pos (100 * millisecond)) c.guard_interval

  pub record MqttConfigReads (c : MqttConfig) : Type 0 where
    pub broker : ReadsText "MQTT_BROKER" "10.90.19.10:1883" c.broker
    pub client_id : ReadsText "MQTT_CLIENT_ID" "oasis-modbus2mqtt" c.client_id
    pub username : ReadsText "MQTT_USERNAME" "" c.username
    pub password : ReadsText "MQTT_PASSWORD" "" c.password
    pub keepalive : ReadsDuration "MQTT_KEEPALIVE" (pos (30 * second)) c.keepalive
    pub qos : ReadsByte "MQTT_QOS" 1 c.qos

  pub record HaConfigReads (c : HaConfig) : Type 0 where
    pub discovery_prefix : ReadsText "HA_DISCOVERY_PREFIX" "homeassistant" c.discovery_prefix
    pub device_prefix : ReadsText "HA_DEVICE_PREFIX" "oasis_syberia" c.device_prefix
    pub device_name : ReadsText "HA_DEVICE_NAME" "Oasis Syberia" c.device_name
    pub manufacturer : ReadsText "HA_MANUFACTURER" "GTC" c.manufacturer
    pub model : ReadsText "HA_MODEL" "Syberia 5" c.model

  pub record PollingConfigReads (c : PollingConfig) : Type 0 where
    pub hot_interval : ReadsDuration "POLL_HOT_INTERVAL" (pos (5 * second)) c.hot_interval
    pub medium_interval : ReadsDuration "POLL_MEDIUM_INTERVAL" (pos (15 * second)) c.medium_interval
    pub slow_interval : ReadsDuration "POLL_SLOW_INTERVAL" (pos (60 * second)) c.slow_interval
    pub availability_threshold :
        ReadsDuration "AVAILABILITY_THRESHOLD" (pos (30 * second)) c.availability_threshold

  pub record HttpConfigReads (c : HttpConfig) : Type 0 where
    pub port : ReadsInt "HTTP_PORT" (pos 8080) c.port

  pub record LoggerConfigReads (c : LoggerConfig) : Type 0 where
    pub level : ReadsText "LOG_LEVEL" "info" c.level

  pub record ReconnectConfigReads (c : ReconnectConfig) : Type 0 where
    pub min_delay : ReadsDuration "RECONNECT_MIN_DELAY" (pos second) c.min_delay
    pub max_delay : ReadsDuration "RECONNECT_MAX_DELAY" (pos (60 * second)) c.max_delay
    pub factor : ReadsFloat "RECONNECT_FACTOR" (of_nat 2) c.factor
    pub jitter_pct : ReadsFloat "RECONNECT_JITTER_PCT" (nearest false unit 5) c.jitter_pct

  -- Every field of a configuration is read from its variable.
  pub record ConfigReads (c : Config) : Type 0 where
    pub modbus : ModbusConfigReads c.modbus
    pub mqtt : MqttConfigReads c.mqtt
    pub home_assistant : HaConfigReads c.home_assistant
    pub polling : PollingConfigReads c.polling
    pub http : HttpConfigReads c.http
    pub logger : LoggerConfigReads c.logger
    pub reconnect : ReconnectConfigReads c.reconnect
