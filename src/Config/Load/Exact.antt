-- ===== src/Config/Load/Exact.antt =====
-- infrastructure/config: `Load` returns a configuration just when the table of the variables and the
-- invariants give it.
use oasis_modbus2mqtt.Prelude.{◌≡◌, ◌↔◌, none, arith}
use oasis_modbus2mqtt.Prelude.Errors.{ok}
use oasis_modbus2mqtt.Config.{Config}
use oasis_modbus2mqtt.Config.Load.{
  Parsers, Env, load_modbus, load_mqtt, load_home_assistant, load_polling, load_http, load_logger,
  load_reconnect, load_parts, load,
}
use oasis_modbus2mqtt.Config.Validate.{validate}
use oasis_modbus2mqtt.Config.Validate.Sound.{IsValid, validate_iff}
use oasis_modbus2mqtt.Config.Load.Table.{ConfigReads}
use oasis_modbus2mqtt.Config.Load.Parts.{
  load_modbus_reads, load_modbus_of, load_mqtt_reads, load_mqtt_of, load_home_assistant_reads,
  load_home_assistant_of, load_polling_reads, load_polling_of, load_http_reads, load_http_of,
  load_logger_reads, load_logger_of, load_reconnect_reads, load_reconnect_of,
}

module _ (parsers : Parsers) (env : Env) where
  load_parts_steps :
      (c : Config)
      → load_parts parsers env ≡ ok c
      → (load_modbus parsers env ≡ ok c.modbus)
        × (load_mqtt parsers env ≡ ok c.mqtt)
        × (load_home_assistant parsers env ≡ ok c.home_assistant)
        × (load_polling parsers env ≡ ok c.polling)
        × (load_http parsers env ≡ ok c.http)
        × (load_logger parsers env ≡ ok c.logger)
        × (load_reconnect parsers env ≡ ok c.reconnect)
  unfolding load_parts
  load_parts_steps c h = ground arith

  load_parts_reads : (c : Config) → load_parts parsers env ≡ ok c → ConfigReads parsers env c
  load_parts_reads c h =
      let e = load_parts_steps c h in
      record {
        modbus = load_modbus_reads parsers env c.modbus e.0;
        mqtt = load_mqtt_reads parsers env c.mqtt e.1;
        home_assistant = load_home_assistant_reads parsers env c.home_assistant e.2;
        polling = load_polling_reads parsers env c.polling e.3;
        http = load_http_reads parsers env c.http e.4;
        logger = load_logger_reads parsers env c.logger e.5;
        reconnect = load_reconnect_reads parsers env c.reconnect e.6;
      }

  load_parts_of : (c : Config) → ConfigReads parsers env c → load_parts parsers env ≡ ok c
  unfolding load_parts
  load_parts_of c r = ground (
    arith,
    load_modbus_of parsers env c.modbus r.modbus,
    load_mqtt_of parsers env c.mqtt r.mqtt,
    load_home_assistant_of parsers env c.home_assistant r.home_assistant,
    load_polling_of parsers env c.polling r.polling,
    load_http_of parsers env c.http r.http,
    load_logger_of parsers env c.logger r.logger,
    load_reconnect_of parsers env c.reconnect r.reconnect,
  )

  checked : (c d : Config) → validate d ≡ none → c ≡ d → validate c ≡ none
  checked c d h e = rw e h

  load_checks :
      (c : Config) → load parsers env ≡ ok c → (load_parts parsers env ≡ ok c) × (validate c ≡ none)
  unfolding load
  load_checks c h = ground (arith, checked c)

  load_of_parts :
      (c : Config) → load_parts parsers env ≡ ok c → validate c ≡ none → load parsers env ≡ ok c
  unfolding load
  load_of_parts c h v = ground arith

  -- `Load` returns a configuration just when each of its fields is what the variable of the field
  -- stands for, or the default of the field where that variable is empty, and the configuration has
  -- every invariant of `Validate`. MODBUS_HOST and MQTT_BROKER have defaults like the others.
  pub load_iff : (c : Config) → (load parsers env ≡ ok c) ↔ (ConfigReads parsers env c × IsValid c)
  load_iff c = (
    λ h. let (p, v) = load_checks c h in (load_parts_reads c p, (validate_iff c).0 v),
    λ h. load_of_parts c (load_parts_of c h.0) ((validate_iff c).1 h.1),
  )
