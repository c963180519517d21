-- ===== src/Config.antt =====
-- infrastructure/config/config.go: the configuration as records, and what it prints of them.
pub mod Load
pub mod Validate
use oasis_modbus2mqtt.Prelude.{ℕ, ◌++◌}
use oasis_modbus2mqtt.Prelude.Text.{Text, codes, format_int}
use oasis_modbus2mqtt.Prelude.Int.{ℤ}
use oasis_modbus2mqtt.Prelude.Time.{Duration}
use oasis_modbus2mqtt.Float64.{Float64}

pub record ModbusConfig : Type 0 where
  pub host : Text
  pub port : ℤ
  pub slave_id : ℕ
  pub connect_timeout : Duration
  pub read_timeout : Duration
  pub write_timeout : Duration
  pub guard_interval : Duration

pub record MqttConfig : Type 0 where
  pub broker : Text
  pub client_id : Text
  pub username : Text
  pub password : Text
  pub keepalive : Duration
  pub qos : ℕ

pub record HaConfig : Type 0 where
  pub discovery_prefix : Text
  pub device_prefix : Text
  pub device_name : Text
  pub manufacturer : Text
  pub model : Text

pub record PollingConfig : Type 0 where
  pub hot_interval : Duration
  pub medium_interval : Duration
  pub slow_interval : Duration
  pub availability_threshold : Duration

pub record HttpConfig : Type 0 where
  pub port : ℤ

pub record LoggerConfig : Type 0 where
  pub level : Text

pub record ReconnectConfig : Type 0 where
  pub min_delay : Duration
  pub max_delay : Duration
  pub factor : Float64
  pub jitter_pct : Float64

pub record Config : Type 0 where
  pub modbus : ModbusConfig
  pub mqtt : MqttConfig
  pub home_assistant : HaConfig
  pub polling : PollingConfig
  pub http : HttpConfig
  pub logger : LoggerConfig
  pub reconnect : ReconnectConfig

-- `ModbusConfig.Addr`
unfoldable pub modbus_addr : ModbusConfig → Text
unfolding format_int
modbus_addr m = m.host ++ (codes ":" ++ format_int m.port)

-- `HTTPConfig.Addr`
unfoldable pub http_addr : HttpConfig → Text
unfolding format_int
http_addr h = codes "0.0.0.0:" ++ format_int h.port
