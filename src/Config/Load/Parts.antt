-- ===== src/Config/Load/Parts.antt =====
-- infrastructure/config: each part of `Load` against the rows of its variables in the table.
use oasis_modbus2mqtt.Prelude.{◌*◌, ◌≡◌, false, arith}
use oasis_modbus2mqtt.Prelude.Errors.{ok}
use oasis_modbus2mqtt.Prelude.Int.{pos}
use oasis_modbus2mqtt.Prelude.Time.{second, millisecond}
use oasis_modbus2mqtt.Float64.{nearest, of_nat, unit}
use oasis_modbus2mqtt.Config.{
  ModbusConfig, MqttConfig, HaConfig, PollingConfig, HttpConfig, LoggerConfig, ReconnectConfig,
}
use oasis_modbus2mqtt.Config.Load.{
  Parsers, Env, load_modbus, load_mqtt, load_home_assistant, load_polling, load_http, load_logger,
  load_reconnect,
}
use oasis_modbus2mqtt.Config.Load.Table.{
  ModbusConfigReads, MqttConfigReads, HaConfigReads, PollingConfigReads, HttpConfigReads,
  LoggerConfigReads, ReconnectConfigReads,
}
use oasis_modbus2mqtt.Config.Load.Fields.{
  text_of, of_text, int_of, of_int, duration_of, of_duration, float_of, of_float, byte_of, of_byte,
}

module _ (parsers : Parsers) (env : Env) where
  pub load_modbus_reads :
      (c : ModbusConfig) → load_modbus parsers env ≡ ok c → ModbusConfigReads parsers env c
  unfolding load_modbus
  load_modbus_reads c h = ground (
    arith,
    text_of parsers env "MODBUS_HOST" "10.90.19.7",
    int_of parsers env "loading MODBUS_PORT" "MODBUS_PORT" (pos 502) c.port,
    byte_of parsers env "loading MODBUS_SLAVE_ID" "MODBUS_SLAVE_ID" 1 c.slave_id,
    duration_of parsers env "loading MODBUS_CONNECT_TIMEOUT" "MODBUS_CONNECT_TIMEOUT"
        (pos (5 * second)) c.connect_timeout,
    duration_of parsers env "loading MODBUS_READ_TIMEOUT" "MODBUS_READ_TIMEOUT" (pos (2 * second))
        c.read_timeout,
    duration_of parsers env "loading MODBUS_WRITE_TIMEOUT" "MODBUS_WRITE_TIMEOUT" (pos (2 * second))
        c.write_timeout,
    duration_of parsers env "loading MODBUS_GUARD_INTERVAL" "MODBUS_GUARD_INTERVAL"
        (pos (100 * millisecond)) c.guard_interval,
  )

  pub load_modbus_of :
      (c : ModbusConfig) → ModbusConfigReads parsers env c → load_modbus parsers env ≡ ok c
  unfolding load_modbus
  load_modbus_of c r = ground (
    arith,
    of_text parsers env "MODBUS_HOST" "10.90.19.7" c.host r.host,
    of_int parsers env "loading MODBUS_PORT" "MODBUS_PORT" (pos 502) c.port r.port,
    of_byte parsers env "loading MODBUS_SLAVE_ID" "MODBUS_SLAVE_ID" 1 c.slave_id r.slave_id,
    of_duration parsers env "loading MODBUS_CONNECT_TIMEOUT" "MODBUS_CONNECT_TIMEOUT"
        (pos (5 * second)) c.connect_timeout r.connect_timeout,
    of_duration parsers env "loading MODBUS_READ_TIMEOUT" "MODBUS_READ_TIMEOUT" (pos (2 * second))
        c.read_timeout r.read_timeout,
    of_duration parsers env "loading MODBUS_WRITE_TIMEOUT" "MODBUS_WRITE_TIMEOUT" (pos (2 * second))
        c.write_timeout r.write_timeout,
    of_duration parsers env "loading MODBUS_GUARD_INTERVAL" "MODBUS_GUARD_INTERVAL"
        (pos (100 * millisecond)) c.guard_interval r.guard_interval,
  )

  pub load_mqtt_reads :
      (c : MqttConfig) → load_mqtt parsers env ≡ ok c → MqttConfigReads parsers env c
  unfolding load_mqtt
  load_mqtt_reads c h = ground (
    arith,
    text_of parsers env "MQTT_BROKER" "10.90.19.10:1883",
    text_of parsers env "MQTT_CLIENT_ID" "oasis-modbus2mqtt",
    text_of parsers env "MQTT_USERNAME" "",
    text_of parsers env "MQTT_PASSWORD" "",
    duration_of parsers env "loading MQTT_KEEPALIVE" "MQTT_KEEPALIVE" (pos (30 * second))
        c.keepalive,
    byte_of parsers env "loading MQTT_QOS" "MQTT_QOS" 1 c.qos,
  )

  pub load_mqtt_of : (c : MqttConfig) → MqttConfigReads parsers env c → load_mqtt parsers env ≡ ok c
  unfolding load_mqtt
  load_mqtt_of c r = ground (
    arith,
    of_text parsers env "MQTT_BROKER" "10.90.19.10:1883" c.broker r.broker,
    of_text parsers env "MQTT_CLIENT_ID" "oasis-modbus2mqtt" c.client_id r.client_id,
    of_text parsers env "MQTT_USERNAME" "" c.username r.username,
    of_text parsers env "MQTT_PASSWORD" "" c.password r.password,
    of_duration parsers env "loading MQTT_KEEPALIVE" "MQTT_KEEPALIVE" (pos (30 * second))
        c.keepalive r.keepalive,
    of_byte parsers env "loading MQTT_QOS" "MQTT_QOS" 1 c.qos r.qos,
  )

  pub load_home_assistant_reads :
      (c : HaConfig) → load_home_assistant parsers env ≡ ok c → HaConfigReads parsers env c
  unfolding load_home_assistant
  load_home_assistant_reads c h = ground (
    arith,
    text_of parsers env "HA_DISCOVERY_PREFIX" "homeassistant",
    text_of parsers env "HA_DEVICE_PREFIX" "oasis_syberia",
    text_of parsers env "HA_DEVICE_NAME" "Oasis Syberia",
    text_of parsers env "HA_MANUFACTURER" "GTC",
    text_of parsers env "HA_MODEL" "Syberia 5",
  )

  pub load_home_assistant_of :
      (c : HaConfig) → HaConfigReads parsers env c → load_home_assistant parsers env ≡ ok c
  unfolding load_home_assistant
  load_home_assistant_of c r = ground (
    arith,
    of_text parsers env "HA_DISCOVERY_PREFIX" "homeassistant" c.discovery_prefix r.discovery_prefix,
    of_text parsers env "HA_DEVICE_PREFIX" "oasis_syberia" c.device_prefix r.device_prefix,
    of_text parsers env "HA_DEVICE_NAME" "Oasis Syberia" c.device_name r.device_name,
    of_text parsers env "HA_MANUFACTURER" "GTC" c.manufacturer r.manufacturer,
    of_text parsers env "HA_MODEL" "Syberia 5" c.model r.model,
  )

  pub load_polling_reads :
      (c : PollingConfig) → load_polling parsers env ≡ ok c → PollingConfigReads parsers env c
  unfolding load_polling
  load_polling_reads c h = ground (
    arith,
    duration_of parsers env "loading POLL_HOT_INTERVAL" "POLL_HOT_INTERVAL" (pos (5 * second))
        c.hot_interval,
    duration_of parsers env "loading POLL_MEDIUM_INTERVAL" "POLL_MEDIUM_INTERVAL"
        (pos (15 * second)) c.medium_interval,
    duration_of parsers env "loading POLL_SLOW_INTERVAL" "POLL_SLOW_INTERVAL" (pos (60 * second))
        c.slow_interval,
    duration_of parsers env "loading AVAILABILITY_THRESHOLD" "AVAILABILITY_THRESHOLD"
        (pos (30 * second)) c.availability_threshold,
  )

  pub load_polling_of :
      (c : PollingConfig) → PollingConfigReads parsers env c → load_polling parsers env ≡ ok c
  unfolding load_polling
  load_polling_of c r = ground (
    arith,
    of_duration parsers env "loading POLL_HOT_INTERVAL" "POLL_HOT_INTERVAL" (pos (5 * second))
        c.hot_interval r.hot_interval,
    of_duration parsers env "loading POLL_MEDIUM_INTERVAL" "POLL_MEDIUM_INTERVAL"
        (pos (15 * second)) c.medium_interval r.medium_interval,
    of_duration parsers env "loading POLL_SLOW_INTERVAL" "POLL_SLOW_INTERVAL" (pos (60 * second))
        c.slow_interval r.slow_interval,
    of_duration parsers env "loading AVAILABILITY_THRESHOLD" "AVAILABILITY_THRESHOLD"
        (pos (30 * second)) c.availability_threshold r.availability_threshold,
  )

  pub load_http_reads :
      (c : HttpConfig) → load_http parsers env ≡ ok c → HttpConfigReads parsers env c
  unfolding load_http
  load_http_reads c h =
      ground (arith, int_of parsers env "loading HTTP_PORT" "HTTP_PORT" (pos 8080) c.port)

  pub load_http_of : (c : HttpConfig) → HttpConfigReads parsers env c → load_http parsers env ≡ ok c
  unfolding load_http
  load_http_of c r =
      ground (arith, of_int parsers env "loading HTTP_PORT" "HTTP_PORT" (pos 8080) c.port r.port)

  pub load_logger_reads :
      (c : LoggerConfig) → load_logger parsers env ≡ ok c → LoggerConfigReads parsers env c
  unfolding load_logger
  load_logger_reads c h = ground (arith, text_of parsers env "LOG_LEVEL" "info")

  pub load_logger_of :
      (c : LoggerConfig) → LoggerConfigReads parsers env c → load_logger parsers env ≡ ok c
  unfolding load_logger
  load_logger_of c r = ground (arith, of_text parsers env "LOG_LEVEL" "info" c.level r.level)

  pub load_reconnect_reads :
      (c : ReconnectConfig) → load_reconnect parsers env ≡ ok c → ReconnectConfigReads parsers env c
  unfolding load_reconnect
  load_reconnect_reads c h = ground (
    arith,
    duration_of parsers env "loading RECONNECT_MIN_DELAY" "RECONNECT_MIN_DELAY" (pos second)
        c.min_delay,
    duration_of parsers env "loading RECONNECT_MAX_DELAY" "RECONNECT_MAX_DELAY" (pos (60 * second))
        c.max_delay,
    float_of parsers env "loading RECONNECT_FACTOR" "RECONNECT_FACTOR" (of_nat 2) c.factor,
    float_of parsers env "loading RECONNECT_JITTER_PCT" "RECONNECT_JITTER_PCT"
        (nearest false unit 5) c.jitter_pct,
  )

  pub load_reconnect_of :
      (c : ReconnectConfig) → ReconnectConfigReads parsers env c → load_reconnect parsers env ≡ ok c
  unfolding load_reconnect
  load_reconnect_of c r = ground (
    arith,
    of_duration parsers env "loading RECONNECT_MIN_DELAY" "RECONNECT_MIN_DELAY" (pos second)
        c.min_delay r.min_delay,
    of_duration parsers env "loading RECONNECT_MAX_DELAY" "RECONNECT_MAX_DELAY" (pos (60 * second))
        c.max_delay r.max_delay,
    of_float parsers env "loading RECONNECT_FACTOR" "RECONNECT_FACTOR" (of_nat 2) c.factor r.factor,
    of_float parsers env "loading RECONNECT_JITTER_PCT" "RECONNECT_JITTER_PCT"
        (nearest false unit 5) c.jitter_pct r.jitter_pct,
  )
