-- ===== src/Config/Validate/Sound.antt =====
-- infrastructure/config/config.go: the invariants that `Validate` stands for, and that it passes just
-- the configurations that have them.
use oasis_modbus2mqtt.Prelude.{
  ◌≤◌, ◌≡◌, ◌≢◌, ◌∙◌, refl, ◌⊎◌, inl, inr, ◌↔◌, true, false, Option, none, [], ◌∷◌, arith,
}
use oasis_modbus2mqtt.Prelude.Text.{Text}
use oasis_modbus2mqtt.Prelude.Errors.{Error}
use oasis_modbus2mqtt.Prelude.Int.{pos, ◌≤ℤ◌, ◌<ℤ◌}
use oasis_modbus2mqtt.Float64.{Float64, is_nan, less, of_nat}
use oasis_modbus2mqtt.Config.{
  ModbusConfig, MqttConfig, HaConfig, PollingConfig, HttpConfig, ReconnectConfig, Config,
}
use oasis_modbus2mqtt.Config.Validate.{
  is_empty, less_eq, validate_modbus, validate_mqtt, validate_home_assistant, validate_http,
  validate_polling, validate_reconnect, validate,
}

pub record ModbusIsValid (m : ModbusConfig) : Type 0 where
  pub host : m.host ≢ []
  pub port : (pos 1 ≤ℤ m.port) × (m.port ≤ℤ pos 65535)
  pub slave_id : (1 ≤ m.slave_id) × (m.slave_id ≤ 247)
  pub connect_timeout : pos 0 <ℤ m.connect_timeout
  pub read_timeout : pos 0 <ℤ m.read_timeout
  pub write_timeout : pos 0 <ℤ m.write_timeout
  pub guard_interval : pos 0 ≤ℤ m.guard_interval

pub record MqttIsValid (m : MqttConfig) : Type 0 where
  pub broker : m.broker ≢ []
  pub client_id : m.client_id ≢ []
  pub qos : m.qos ≤ 2
  pub keepalive : pos 0 <ℤ m.keepalive

pub record PollingIsValid (p : PollingConfig) : Type 0 where
  pub hot : pos 0 <ℤ p.hot_interval
  pub medium : pos 0 <ℤ p.medium_interval
  pub slow : pos 0 <ℤ p.slow_interval
  pub threshold : pos 0 <ℤ p.availability_threshold
  pub hot_medium : p.hot_interval ≤ℤ p.medium_interval
  pub medium_slow : p.medium_interval ≤ℤ p.slow_interval

pub record ReconnectIsValid (r : ReconnectConfig) : Type 0 where
  pub min : pos 0 <ℤ r.min_delay
  pub max : pos 0 <ℤ r.max_delay
  pub min_max : r.min_delay ≤ℤ r.max_delay
  pub factor : (is_nan r.factor ≡ true) ⊎ (less (of_nat 1) r.factor ≡ true)
  pub jitter : (less r.jitter_pct (of_nat 0) ≡ false) × (less (of_nat 1) r.jitter_pct ≡ false)

pub record IsValid (c : Config) : Type 0 where
  pub modbus : ModbusIsValid c.modbus
  pub mqtt : MqttIsValid c.mqtt
  pub device_prefix : c.home_assistant.device_prefix ≢ []
  pub http_port : (pos 1 ≤ℤ c.http.port) × (c.http.port ≤ℤ pos 65535)
  pub polling : PollingIsValid c.polling
  pub reconnect : ReconnectIsValid c.reconnect

is_empty-false : (s : Text) → is_empty s ≡ false → s ≢ []
is_empty-false [] h e = cc
is_empty-false (c ∷ s) h e = cc

pub is_empty_of_ne : (s : Text) → s ≢ [] → is_empty s ≡ false
is_empty_of_ne [] h = absurd (h refl)
is_empty_of_ne (c ∷ s) h = refl

one_is_number : is_nan (of_nat 1) ≡ false
unfolding is_nan of_nat
one_is_number = refl

nan_or_less :
    (x : Float64) → less_eq x (of_nat 1) ≡ false → (is_nan x ≡ true) ⊎ (less (of_nat 1) x ≡ true)
unfolding less_eq
nan_or_less x h = ground (arith, one_is_number)

not_less_eq :
    (x : Float64) → (is_nan x ≡ true) ⊎ (less (of_nat 1) x ≡ true) → less_eq x (of_nat 1) ≡ false
unfolding less_eq
not_less_eq x (inl h) = rw h
not_less_eq x (inr h) = ground arith

validate_modbus_sound :
    (m : ModbusConfig) (rest : Option Error)
    → validate_modbus m rest ≡ none
    → ModbusIsValid m × (rest ≡ none)
unfolding validate_modbus
validate_modbus_sound m rest h = ground (arith, is_empty-false m.host)

validate_modbus_complete :
    (m : ModbusConfig) (rest : Option Error) → ModbusIsValid m → validate_modbus m rest ≡ rest
unfolding validate_modbus
validate_modbus_complete m rest v = ground (arith, is_empty_of_ne m.host)

validate_mqtt_sound :
    (m : MqttConfig) (rest : Option Error)
    → validate_mqtt m rest ≡ none
    → MqttIsValid m × (rest ≡ none)
unfolding validate_mqtt
validate_mqtt_sound m rest e = ground (arith, is_empty-false m.broker, is_empty-false m.client_id)

validate_mqtt_complete :
    (m : MqttConfig) (rest : Option Error) → MqttIsValid m → validate_mqtt m rest ≡ rest
unfolding validate_mqtt
validate_mqtt_complete m rest valid =
    ground (arith, is_empty_of_ne m.broker, is_empty_of_ne m.client_id)

validate_home_assistant_sound :
    (h : HaConfig) (rest : Option Error)
    → validate_home_assistant h rest ≡ none
    → (h.device_prefix ≢ []) × (rest ≡ none)
unfolding validate_home_assistant
validate_home_assistant_sound h rest e = ground (arith, is_empty-false h.device_prefix)

validate_home_assistant_complete :
    (h : HaConfig) (rest : Option Error)
    → (h.device_prefix ≢ [])
    → validate_home_assistant h rest ≡ rest
unfolding validate_home_assistant
validate_home_assistant_complete h rest valid = ground (arith, is_empty_of_ne h.device_prefix)

validate_http_sound :
    (h : HttpConfig) (rest : Option Error)
    → validate_http h rest ≡ none
    → ((pos 1 ≤ℤ h.port) × (h.port ≤ℤ pos 65535)) × (rest ≡ none)
unfolding validate_http
validate_http_sound h rest e = ground arith

validate_http_complete :
    (h : HttpConfig) (rest : Option Error)
    → ((pos 1 ≤ℤ h.port) × (h.port ≤ℤ pos 65535))
    → validate_http h rest ≡ rest
unfolding validate_http
validate_http_complete h rest valid = ground arith

validate_polling_sound :
    (p : PollingConfig) (rest : Option Error)
    → validate_polling p rest ≡ none
    → PollingIsValid p × (rest ≡ none)
unfolding validate_polling
validate_polling_sound p rest e = ground arith

validate_polling_complete :
    (p : PollingConfig) (rest : Option Error) → PollingIsValid p → validate_polling p rest ≡ rest
unfolding validate_polling
validate_polling_complete p rest valid = ground arith

validate_reconnect_sound :
    (r : ReconnectConfig) (rest : Option Error)
    → validate_reconnect r rest ≡ none
    → ReconnectIsValid r × (rest ≡ none)
unfolding validate_reconnect
validate_reconnect_sound r rest e = ground (arith, nan_or_less r.factor)

validate_reconnect_complete :
    (r : ReconnectConfig) (rest : Option Error)
    → ReconnectIsValid r
    → validate_reconnect r rest ≡ rest
unfolding validate_reconnect
validate_reconnect_complete r rest valid = ground (arith, not_less_eq r.factor)

validate_sound : (c : Config) → validate c ≡ none → IsValid c
unfolding validate
validate_sound c e =
    let (modbus, e1) = validate_modbus_sound c.modbus _ e in
    let (mqtt, e2) = validate_mqtt_sound c.mqtt _ e1 in
    let (prefix, e3) = validate_home_assistant_sound c.home_assistant _ e2 in
    let (port, e4) = validate_http_sound c.http _ e3 in
    let (polling, e5) = validate_polling_sound c.polling _ e4 in
    let (reconnect, e6) = validate_reconnect_sound c.reconnect _ e5 in
    record {
      modbus = modbus;
      mqtt = mqtt;
      device_prefix = prefix;
      http_port = port;
      polling = polling;
      reconnect = reconnect;
    }

validate_complete : (c : Config) → IsValid c → validate c ≡ none
unfolding validate
validate_complete c v =
    validate_modbus_complete c.modbus _ v.modbus
    ∙ (validate_mqtt_complete c.mqtt _ v.mqtt
        ∙ (validate_home_assistant_complete c.home_assistant _ v.device_prefix
            ∙ (validate_http_complete c.http _ v.http_port
                ∙ (validate_polling_complete c.polling _ v.polling
                    ∙ validate_reconnect_complete c.reconnect none v.reconnect))))

-- `Validate` accepts a configuration just when it has every invariant of `IsValid`: the texts that
-- must not be empty, the ranges of ports, slave id and QoS, the durations that must be positive,
-- the order of the intervals and of the delays, and a factor and a jitter in range; a factor or a
-- jitter that is not a number is accepted too.
pub validate_iff : (c : Config) → (validate c ≡ none) ↔ IsValid c
validate_iff c = (validate_sound c, λ v. validate_complete c v)
