-- ===== src/Config/Load.antt =====
-- infrastructure/config/helpers.go and `Load` of config.go. What `strconv` and `time` parse is the
-- argument `parsers`; the environment is a function from names to texts, empty where a variable is
-- not set, as `os.Getenv` has it. The texts of the errors are shortened to what they are about.
pub mod Table
pub mod Fields
pub mod Parts
pub mod Exact
use oasis_modbus2mqtt.Prelude.{ℕ, ◌*◌, Bool, false, none, some, [], ◌∷◌, ◌||◌, if◌then◌else◌}
use oasis_modbus2mqtt.Prelude.Text.{Text, codes}
use oasis_modbus2mqtt.Prelude.Errors.{wrap, message, Result, ok, err, ◌>>=◌}
use oasis_modbus2mqtt.Prelude.Int.{ℤ, pos, pos_part, ltb_ℤ}
use oasis_modbus2mqtt.Prelude.Time.{Duration, second, millisecond}
use oasis_modbus2mqtt.Float64.{Float64, nearest, of_nat, unit}
use Prim.Native.String.{String}
use oasis_modbus2mqtt.Config.{
  ModbusConfig, MqttConfig, HaConfig, PollingConfig, HttpConfig, LoggerConfig, ReconnectConfig,
  Config,
}
use oasis_modbus2mqtt.Config.Validate.{validate}

pub record Parsers : Type 0 where
  pub atoi : Text → Result ℤ
  pub parse_bool : Text → Result Bool
  pub parse_duration : Text → Result Duration
  pub parse_float : Text → Result Float64

abbrev pub Env : Type 0
Env = String → Text

-- `if err != nil { return 0, fmt.Errorf("…: %w", err) }`
abbrev pub in_context : {A : Type 0} → String → Result A → Result A
in_context context (ok a) = ok a
in_context context (err e) = err (wrap context e)

-- `byte(n)`, if an int is in its range.
abbrev byte_of : ℤ → Result ℕ
byte_of n =
    if ltb_ℤ n (pos 0) || ltb_ℤ (pos 255) n
    then err (message "out of byte range [0,255]")
    else ok (pos_part n)

module _ (parsers : Parsers) (env : Env) where
  -- `getEnvOrDefault`
  unfoldable pub get_env_or_default : String → Text → Text
  get_env_or_default key default = elim (env key) [ [] ↦ default | c ∷ v ↦ c ∷ v ]

  -- `getEnvOrDefaultInt`
  unfoldable pub get_env_or_default_int : String → ℤ → Result (ℤ)
  get_env_or_default_int key default = elim (env key) [
    | [] ↦ ok default
    | c ∷ v ↦ in_context "invalid" (parsers.atoi (c ∷ v))
  ]

  -- `getEnvOrDefaultBool`
  unfoldable pub get_env_or_default_bool : String → Bool → Result (Bool)
  get_env_or_default_bool key default = elim (env key) [
    | [] ↦ ok default
    | c ∷ v ↦ in_context "invalid" (parsers.parse_bool (c ∷ v))
  ]

  -- `getEnvOrDefaultDuration`
  unfoldable pub get_env_or_default_duration : String → Duration → Result (Duration)
  get_env_or_default_duration key default = elim (env key) [
    | [] ↦ ok default
    | c ∷ v ↦ in_context "invalid" (parsers.parse_duration (c ∷ v))
  ]

  -- `getEnvOrDefaultByte`
  unfoldable pub get_env_or_default_byte : String → ℕ → Result (ℕ)
  get_env_or_default_byte key default = elim (env key) [
    | [] ↦ ok default
    | c ∷ v ↦ in_context "invalid" (parsers.atoi (c ∷ v)) >>= byte_of
  ]

  -- `getEnvOrDefaultFloat`
  unfoldable pub get_env_or_default_float : String → Float64 → Result (Float64)
  get_env_or_default_float key default = elim (env key) [
    | [] ↦ ok default
    | c ∷ v ↦ in_context "invalid" (parsers.parse_float (c ∷ v))
  ]

  -- The part of `Load` under `// Modbus`, and so on for each part.
  unfoldable pub load_modbus : Result ModbusConfig
  load_modbus = do
    let host = get_env_or_default "MODBUS_HOST" (codes "10.90.19.7")
    port ← in_context "loading MODBUS_PORT" (get_env_or_default_int "MODBUS_PORT" (pos 502))
    slave_id ← in_context "loading MODBUS_SLAVE_ID" (get_env_or_default_byte "MODBUS_SLAVE_ID" 1)
    connect_timeout ←
        in_context "loading MODBUS_CONNECT_TIMEOUT"
          (get_env_or_default_duration "MODBUS_CONNECT_TIMEOUT" (pos (5 * second)))
    read_timeout ←
        in_context "loading MODBUS_READ_TIMEOUT"
          (get_env_or_default_duration "MODBUS_READ_TIMEOUT" (pos (2 * second)))
    write_timeout ←
        in_context "loading MODBUS_WRITE_TIMEOUT"
          (get_env_or_default_duration "MODBUS_WRITE_TIMEOUT" (pos (2 * second)))
    guard_interval ←
        in_context "loading MODBUS_GUARD_INTERVAL"
          (get_env_or_default_duration "MODBUS_GUARD_INTERVAL" (pos (100 * millisecond)))
    ok (record {
      host = host;
      port = port;
      slave_id = slave_id;
      connect_timeout = connect_timeout;
      read_timeout = read_timeout;
      write_timeout = write_timeout;
      guard_interval = guard_interval;
    })

  -- `// MQTT`
  unfoldable pub load_mqtt : Result MqttConfig
  load_mqtt = do
    let broker = get_env_or_default "MQTT_BROKER" (codes "10.90.19.10:1883")
    let client_id = get_env_or_default "MQTT_CLIENT_ID" (codes "oasis-modbus2mqtt")
    let username = get_env_or_default "MQTT_USERNAME" (codes "")
    let password = get_env_or_default "MQTT_PASSWORD" (codes "")
    keepalive ←
        in_context "loading MQTT_KEEPALIVE"
          (get_env_or_default_duration "MQTT_KEEPALIVE" (pos (30 * second)))
    qos ← in_context "loading MQTT_QOS" (get_env_or_default_byte "MQTT_QOS" 1)
    ok (record {
      broker = broker;
      client_id = client_id;
      username = username;
      password = password;
      keepalive = keepalive;
      qos = qos;
    })

  -- `// HomeAssistant`
  unfoldable pub load_home_assistant : Result HaConfig
  load_home_assistant = do
    let discovery_prefix = get_env_or_default "HA_DISCOVERY_PREFIX" (codes "homeassistant")
    let device_prefix = get_env_or_default "HA_DEVICE_PREFIX" (codes "oasis_syberia")
    let device_name = get_env_or_default "HA_DEVICE_NAME" (codes "Oasis Syberia")
    let manufacturer = get_env_or_default "HA_MANUFACTURER" (codes "GTC")
    let model = get_env_or_default "HA_MODEL" (codes "Syberia 5")
    ok (record {
      discovery_prefix = discovery_prefix;
      device_prefix = device_prefix;
      device_name = device_name;
      manufacturer = manufacturer;
      model = model;
    })

  -- `// Polling`
  unfoldable pub load_polling : Result PollingConfig
  load_polling = do
    hot_interval ←
        in_context "loading POLL_HOT_INTERVAL"
          (get_env_or_default_duration "POLL_HOT_INTERVAL" (pos (5 * second)))
    medium_interval ←
        in_context "loading POLL_MEDIUM_INTERVAL"
          (get_env_or_default_duration "POLL_MEDIUM_INTERVAL" (pos (15 * second)))
    slow_interval ←
        in_context "loading POLL_SLOW_INTERVAL"
          (get_env_or_default_duration "POLL_SLOW_INTERVAL" (pos (60 * second)))
    availability_threshold ←
        in_context "loading AVAILABILITY_THRESHOLD"
          (get_env_or_default_duration "AVAILABILITY_THRESHOLD" (pos (30 * second)))
    ok (record {
      hot_interval = hot_interval;
      medium_interval = medium_interval;
      slow_interval = slow_interval;
      availability_threshold = availability_threshold;
    })

  -- `// HTTP`
  unfoldable pub load_http : Result HttpConfig
  load_http = do
    port ← in_context "loading HTTP_PORT" (get_env_or_default_int "HTTP_PORT" (pos 8080))
    ok (record { port = port })

  -- `// Logger`
  unfoldable pub load_logger : Result LoggerConfig
  load_logger = do
    let level = get_env_or_default "LOG_LEVEL" (codes "info")
    ok (record { level = level })

  -- `// Reconnect`
  unfoldable pub load_reconnect : Result ReconnectConfig
  load_reconnect = do
    min_delay ←
        in_context "loading RECONNECT_MIN_DELAY"
          (get_env_or_default_duration "RECONNECT_MIN_DELAY" (pos second))
    max_delay ←
        in_context "loading RECONNECT_MAX_DELAY"
          (get_env_or_default_duration "RECONNECT_MAX_DELAY" (pos (60 * second)))
    factor ←
        in_context "loading RECONNECT_FACTOR"
          (get_env_or_default_float "RECONNECT_FACTOR" (of_nat 2))
    jitter_pct ←
        in_context "loading RECONNECT_JITTER_PCT"
          (get_env_or_default_float "RECONNECT_JITTER_PCT" (nearest false unit 5))
    ok (record {
      min_delay = min_delay;
      max_delay = max_delay;
      factor = factor;
      jitter_pct = jitter_pct;
    })

  -- `Load`, up to the call of `Validate`.
  unfoldable pub load_parts : Result Config
  load_parts = do
    modbus ← load_modbus
    mqtt ← load_mqtt
    home_assistant ← load_home_assistant
    polling ← load_polling
    http ← load_http
    logger ← load_logger
    reconnect ← load_reconnect
    ok (record {
      modbus = modbus;
      mqtt = mqtt;
      home_assistant = home_assistant;
      polling = polling;
      http = http;
      logger = logger;
      reconnect = reconnect;
    })

  -- `Load`
  unfoldable pub load : Result Config
  load = do
    cfg ← load_parts
    elim (validate cfg) [ none ↦ ok cfg | some e ↦ err (wrap "loading config" e) ]
