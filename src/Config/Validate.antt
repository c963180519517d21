-- ===== src/Config/Validate.antt =====
-- infrastructure/config/config.go: `Validate`. The texts of the errors are without the values that
-- they print.
use oasis_modbus2mqtt.Prelude.{
  ℕ, ◌≤◌, ◌<◌, ◌≡◌, ◌≢◌, refl, ◌⊎◌, inl, inr, ◌↔◌, Bool, true, false, not, ◌&&◌, ◌||◌, Option, none,
  some, [], ◌∷◌, arith, ltb, leb, ◌==◌, if◌then◌else◌, Bool-cases,
}
use oasis_modbus2mqtt.Prelude.Text.{Text}
use oasis_modbus2mqtt.Prelude.Errors.{Error, message}
use oasis_modbus2mqtt.Prelude.Int.{ℤ, pos, ltb_ℤ, leb_ℤ, ◌≤ℤ◌, ◌<ℤ◌}
use oasis_modbus2mqtt.Float64.{Float64, is_nan, less, of_nat}
use Prim.Native.String.{String}
pub mod Sound
use oasis_modbus2mqtt.Config.{
  ModbusConfig, MqttConfig, HaConfig, PollingConfig, HttpConfig, ReconnectConfig, Config,
}

abbrev pub is_empty : Text → Bool
is_empty [] = true
is_empty (c ∷ s) = false

-- `x <= y` of two float64: no order holds of a NaN.
unfoldable pub less_eq : Float64 → Float64 → Bool
less_eq x y = not (is_nan x || is_nan y) && not (less y x)

-- `if cond { return errors.New(…) }`, with what follows it.
abbrev pub fail_if : Bool → String → Option Error → Option Error
fail_if failed text rest = if failed then some (message text) else rest

-- The checks of `Validate` on one part of the configuration, in front of the rest of them.
unfoldable pub validate_modbus : ModbusConfig → Option Error → Option Error
validate_modbus m rest = fail_if (is_empty m.host) "validate: MODBUS_HOST is empty" (
    fail_if (ltb_ℤ m.port (pos 1) || ltb_ℤ (pos 65535) m.port)
      "validate: MODBUS_PORT out of range [1,65535]"
      (fail_if (ltb m.slave_id 1 || ltb 247 m.slave_id)
        "validate: MODBUS_SLAVE_ID out of range [1,247]"
        (fail_if (leb_ℤ m.connect_timeout (pos 0)) "validate: MODBUS_CONNECT_TIMEOUT must be > 0" (
          fail_if (leb_ℤ m.read_timeout (pos 0)) "validate: MODBUS_READ_TIMEOUT must be > 0" (
            fail_if (leb_ℤ m.write_timeout (pos 0)) "validate: MODBUS_WRITE_TIMEOUT must be > 0" (
              fail_if (ltb_ℤ m.guard_interval (pos 0))
                "validate: MODBUS_GUARD_INTERVAL must be >= 0" (rest)))))))

unfoldable pub validate_mqtt : MqttConfig → Option Error → Option Error
validate_mqtt m rest = fail_if (is_empty m.broker) "validate: MQTT_BROKER is empty" (
    fail_if (is_empty m.client_id) "validate: MQTT_CLIENT_ID is empty" (
      fail_if (ltb 2 m.qos) "validate: MQTT_QOS out of range [0,2]"
        (fail_if (leb_ℤ m.keepalive (pos 0)) "validate: MQTT_KEEPALIVE must be > 0" (rest))))

unfoldable pub validate_home_assistant : HaConfig → Option Error → Option Error
validate_home_assistant h rest =
    fail_if (is_empty h.device_prefix) "validate: HA_DEVICE_PREFIX is empty" (rest)

unfoldable pub validate_http : HttpConfig → Option Error → Option Error
validate_http h rest =
    fail_if (ltb_ℤ h.port (pos 1) || ltb_ℤ (pos 65535) h.port)
      "validate: HTTP_PORT out of range [1,65535]" (rest)

unfoldable pub validate_polling : PollingConfig → Option Error → Option Error
validate_polling p rest =
    fail_if (leb_ℤ p.hot_interval (pos 0)) "validate: POLL_HOT_INTERVAL must be > 0" (
      fail_if (leb_ℤ p.medium_interval (pos 0)) "validate: POLL_MEDIUM_INTERVAL must be > 0" (
        fail_if (leb_ℤ p.slow_interval (pos 0)) "validate: POLL_SLOW_INTERVAL must be > 0" (
          fail_if (leb_ℤ p.availability_threshold (pos 0))
            "validate: AVAILABILITY_THRESHOLD must be > 0"
            (fail_if (ltb_ℤ p.medium_interval p.hot_interval)
              "validate: POLL_HOT_INTERVAL must be <= POLL_MEDIUM_INTERVAL"
              (fail_if (ltb_ℤ p.slow_interval p.medium_interval)
                "validate: POLL_MEDIUM_INTERVAL must be <= POLL_SLOW_INTERVAL" (rest))))))

unfoldable pub validate_reconnect : ReconnectConfig → Option Error → Option Error
validate_reconnect r rest =
    fail_if (leb_ℤ r.min_delay (pos 0)) "validate: RECONNECT_MIN_DELAY must be > 0" (
      fail_if (leb_ℤ r.max_delay (pos 0)) "validate: RECONNECT_MAX_DELAY must be > 0" (
        fail_if (ltb_ℤ r.max_delay r.min_delay)
          "validate: RECONNECT_MIN_DELAY must be <= RECONNECT_MAX_DELAY"
          (fail_if (less_eq r.factor (of_nat 1)) "validate: RECONNECT_FACTOR must be > 1.0" (
            fail_if (less r.jitter_pct (of_nat 0) || less (of_nat 1) r.jitter_pct)
              "validate: RECONNECT_JITTER_PCT out of range [0,1]" (rest)))))

-- `Validate`
unfoldable pub validate : Config → Option Error
validate c = validate_modbus c.modbus (
    validate_mqtt c.mqtt (
      validate_home_assistant c.home_assistant
        (validate_http c.http (validate_polling c.polling (validate_reconnect c.reconnect none)))))
