-- ===== src/Tests/Startup.antt =====
-- The configuration and the start of the bridge on concrete values.
use oasis_modbus2mqtt.Prelude.{
  ◌+◌, ◌≤◌, ltb, if◌then◌else◌, ℕ, ◌*◌, ◌≡◌, refl, ◌↔◌, true, false, Option, none, some, [], arith,
}
use oasis_modbus2mqtt.Prelude.Text.{codes}
use oasis_modbus2mqtt.Prelude.Errors.{Sentinel, Error, sentinel, message, ok, err}
use oasis_modbus2mqtt.Prelude.Int.{pos, ◌≤ℤ◌}
use oasis_modbus2mqtt.Prelude.Time.{second, millisecond}
use oasis_modbus2mqtt.Float64.{Float64, of_nat, nearest, unit, is_nan, less}
use oasis_modbus2mqtt.Config.{MqttConfig, HaConfig, Config}
use oasis_modbus2mqtt.Config.Load.{
  Parsers, Env, load, load_parts, load_modbus, load_mqtt, load_home_assistant, load_polling,
  load_http, load_logger, load_reconnect, get_env_or_default, get_env_or_default_int,
  get_env_or_default_duration, get_env_or_default_byte, get_env_or_default_float,
}
use oasis_modbus2mqtt.Config.Load.Exact.{load_iff}
use oasis_modbus2mqtt.Config.Load.Table.{ConfigReads}
use oasis_modbus2mqtt.Config.Validate.{
  validate, validate_modbus, validate_mqtt, validate_home_assistant, validate_http,
  validate_polling, validate_reconnect, less_eq,
}
use oasis_modbus2mqtt.Config.Validate.Sound.{IsValid}
use oasis_modbus2mqtt.Service.Backoff.{new_backoff, next}
use oasis_modbus2mqtt.Service.Backoff.Limits.{advanced}
use oasis_modbus2mqtt.Service.Availability.{Availability, is_stale, tick, settle}
use oasis_modbus2mqtt.Port.{Ctx}
use oasis_modbus2mqtt.Service.Supervisor.{Connection, Supervisor, initial_connect, reconnect_loop}
use oasis_modbus2mqtt.Service.Supervisor.Termination.{Ends, loops_end}
use oasis_modbus2mqtt.Interface.Health.{ready, live, ready_iff, tick-ready}
use oasis_modbus2mqtt.App.Wiring.{new_app}
use oasis_modbus2mqtt.App.Delays.{wiring_of, backoff_of, load-new_app, load-next_bounds}
use oasis_modbus2mqtt.App.Run.{run, context_done}
use oasis_modbus2mqtt.App.Order.{Call, recorded, outcome, starts, run-outcome}

-- Parsers that refuse everything, and an environment in which nothing is set.
abbrev refusing : Parsers
refusing = record {
  atoi = λ raw. err (message "invalid syntax");
  parse_bool = λ raw. err (message "invalid syntax");
  parse_duration = λ raw. err (message "invalid duration");
  parse_float = λ raw. err (message "invalid syntax");
}

abbrev unset : Env
unset key = []

abbrev pub default_mqtt : MqttConfig
default_mqtt = record {
  broker = codes "10.90.19.10:1883";
  client_id = codes "oasis-modbus2mqtt";
  username = [];
  password = [];
  keepalive = pos (30 * second);
  qos = 1;
}

abbrev pub default_ha : HaConfig
default_ha = record {
  discovery_prefix = codes "homeassistant";
  device_prefix = codes "oasis_syberia";
  device_name = codes "Oasis Syberia";
  manufacturer = codes "GTC";
  model = codes "Syberia 5";
}

abbrev defaults : Config
defaults = record {
  modbus = record {
    host = codes "10.90.19.7";
    port = pos 502;
    slave_id = 1;
    connect_timeout = pos (5 * second);
    read_timeout = pos (2 * second);
    write_timeout = pos (2 * second);
    guard_interval = pos (100 * millisecond);
  };
  mqtt = default_mqtt;
  home_assistant = default_ha;
  polling = record {
    hot_interval = pos (5 * second);
    medium_interval = pos (15 * second);
    slow_interval = pos (60 * second);
    availability_threshold = pos (30 * second);
  };
  http = record { port = pos 8080 };
  logger = record { level = codes "info" };
  reconnect = record {
    min_delay = pos second;
    max_delay = pos (60 * second);
    factor = of_nat 2;
    jitter_pct = nearest false unit 5;
  };
}

loaded : load refusing unset ≡ ok defaults
unfolding load load_parts load_modbus load_mqtt load_home_assistant load_polling load_http
    load_logger load_reconnect get_env_or_default get_env_or_default_int get_env_or_default_duration
    get_env_or_default_byte get_env_or_default_float validate validate_modbus validate_mqtt
    validate_home_assistant validate_http validate_polling validate_reconnect less_eq of_nat nearest
    unit is_nan less
loaded = refl

load_iff_example :
    (load refusing unset ≡ ok defaults) ↔ (ConfigReads refusing unset defaults × IsValid defaults)
load_iff_example = load_iff refusing unset defaults

load-new_app_example : new_app defaults ≡ some (wiring_of defaults)
load-new_app_example = load-new_app refusing unset defaults loaded

abbrev halves : ℕ → Float64 × ℕ
halves rng = (nearest false unit 2, rng)

load-next_bounds_example :
    (pos 0
      ≤ℤ (next (pos 0) (backoff_of halves defaults.reconnect) (
          advanced
            (pos 0)
            (backoff_of halves defaults.reconnect)
            3
            (new_backoff (pos 0) (backoff_of halves defaults.reconnect) 0))).0)
    × ((advanced
          (pos 0)
          (backoff_of halves defaults.reconnect)
          3
          (new_backoff (pos 0) (backoff_of halves defaults.reconnect) 0)).current
        ≤ℤ pos (60 * second))
load-next_bounds_example = load-next_bounds refusing unset defaults (pos 0) halves 3 0 loaded

abbrev broken_mqtt : Call → Option Error
broken_mqtt Call.mqtt_connect = some (sentinel Sentinel.timeout)
broken_mqtt _ = none

run-outcome_example :
    run (recorded broken_mqtt) context_done [] ≡ outcome broken_mqtt none starts []
run-outcome_example = run-outcome broken_mqtt context_done

-- A connection that refuses every attempt, each of which takes a nanosecond, and a deadline.
abbrev refusing_connection : Connection ℕ
refusing_connection = record {
  connect = λ ctx w. (some (sentinel Sentinel.eof), w + 1);
  force_close = λ w. (none, w);
}

abbrev slept : ℕ → ℕ → ℕ
slept t w = if ltb w t then t else w

slept_keeps : (t w : ℕ) → w ≤ slept t w
slept_keeps t w = ground arith

abbrev until_9 : Ctx
until_9 = record { done_at = some 9; cause = sentinel Sentinel.canceled; prefer_done = false }

abbrev trying : Supervisor ℕ ℕ
trying = record {
  world = 5;
  backoff = new_backoff (pos 0) (backoff_of halves defaults.reconnect) 0;
  triggered = false;
  reconnect_failed = 0;
}

loops_end_example :
    Ends until_9 (
      initial_connect refusing_connection
        (λ w. w)
        slept
        (pos 0)
        (backoff_of halves defaults.reconnect)
        6
        until_9
        trying)
    × Ends until_9 (
        reconnect_loop refusing_connection
          (λ w. w)
          slept
          (pos 0)
          (backoff_of halves defaults.reconnect)
          6
          until_9
          trying)
loops_end_example =
    loops_end refusing_connection (λ w. w) slept (pos 0) (backoff_of halves defaults.reconnect)
      (λ ctx w. omega arith) slept_keeps until_9 9 refl 5 trying (omega arith)

ready_iff_example :
    ((ready (pos 120) true 0 50 ≡ live) ↔ ((true ≡ true) × (is_stale 0 50 (pos 120) ≡ false)))
    × (((ready (pos 120) true 0 50).reason ≡ some "mqtt_not_connected") ↔ (true ≡ false))
ready_iff_example = ready_iff (pos 120) true 0 50

abbrev fresh : Availability
fresh = record {
  threshold = pos 30;
  has_on_online = true;
  has_on_offline = true;
  is_offline = true;
  events = [];
}

back_online : (tick 40 50 fresh).is_offline ≡ false
unfolding tick settle is_stale
back_online = refl

tick-ready_example : ready (pos 120) true 40 50 ≡ live
tick-ready_example = tick-ready (pos 120) fresh 40 50 (omega arith) back_online
