-- ===== src/DiscoveryBuilder.antt =====
-- infrastructure/discovery/builder.go: the discovery configs of the catalog, the climate entity, the
-- derived binary sensors and the derived sensor. `json.Marshal` is the argument `marshal_json`.
pub mod Configs
pub mod Consistency
pub mod Commands
pub mod Values
pub mod Limits
pub mod Identity
pub mod Payloads
use oasis_modbus2mqtt.Prelude.{ℕ, false, List, [], ◌∷◌, ◌++◌, map}
use oasis_modbus2mqtt.Prelude.Text.{Text, codes}
use oasis_modbus2mqtt.Prelude.Errors.{wrap, Result, ok, err, ◌>>=◌}
use oasis_modbus2mqtt.Float64.{of_nat, nearest, unit}
use Prim.Native.String.{String}
use oasis_modbus2mqtt.Config.{HaConfig}
use oasis_modbus2mqtt.Config.Load.{in_context}
use oasis_modbus2mqtt.Domain.Catalog.{registers_with_entity}
use oasis_modbus2mqtt.Domain.Catalog.Entry.{
  EntityKind, no_entity, sensor, binary_sensor, switch, climate, button, EntityCategory,
  default_category, diagnostic, category_string, EntityHint, no_hint, RegisterDef,
}
use oasis_modbus2mqtt.Mqtt.Topics.{
  TopicBuilder, discovery_topic, state_topic, command_topic, availability_topic,
}
use oasis_modbus2mqtt.UseCase.Publish.{Message}
use oasis_modbus2mqtt.DiscoveryBuilder.Payloads.{
  DeviceInfo, BaseEntity, SensorPayload, BinarySensorPayload, SwitchPayload, ClimatePayload,
  Payload, sensor_config, binary_sensor_config, switch_config, climate_config,
}

module _ (topics : TopicBuilder) (ha_cfg : HaConfig) where
  -- `deviceInfo`
  unfoldable pub device_info : Text → DeviceInfo
  device_info firmware = record {
    identifiers = ha_cfg.device_prefix ∷ [];
    name = ha_cfg.device_name;
    manufacturer = ha_cfg.manufacturer;
    model = ha_cfg.model;
    sw_version = firmware;
    configuration_url = codes "";
  }

  -- `baseFor`
  unfoldable pub base_for : String → String → EntityHint → Text → BaseEntity
  unfolding device_info
  base_for object_id name hint firmware = record {
    name = codes name;
    unique_id = ha_cfg.device_prefix ++ (codes "_" ++ codes object_id);
    object_id = codes "";
    device = device_info firmware;
    availability_topic = availability_topic topics;
    payload_available = codes "online";
    payload_not_available = codes "offline";
    entity_category = codes (category_string hint.category);
    icon = codes hint.icon;
    qos = 1;
  }

  -- The payloads of `buildDerivedSensor`, `buildSensor`, `buildSwitch`, `buildClimate` and
  -- `buildBinarySensor`.
  unfoldable pub derived_sensor_payload :
      String → String → EntityCategory → String → Text → SensorPayload
  unfolding base_for
  derived_sensor_payload object_id name category icon firmware = record {
    base = base_for object_id name (record no_hint { category = category; icon = icon }) firmware;
    state_topic = state_topic topics (codes object_id);
    device_class = codes "";
    unit_of_measurement = codes "";
    state_class = codes "";
    suggested_display_precision = 0;
  }

  unfoldable pub sensor_payload : RegisterDef → Text → SensorPayload
  unfolding base_for
  sensor_payload reg firmware = record {
    base = base_for reg.hint.object_id reg.hint.name reg.hint firmware;
    state_topic = state_topic topics (codes reg.hint.object_id);
    device_class = codes reg.hint.device_class;
    unit_of_measurement = codes reg.hint.unit;
    state_class = codes reg.hint.state_class;
    suggested_display_precision = reg.hint.precision;
  }

  unfoldable pub switch_payload : RegisterDef → Text → SwitchPayload
  unfolding base_for
  switch_payload reg firmware = record {
    base = base_for reg.hint.object_id reg.hint.name reg.hint firmware;
    state_topic = state_topic topics (codes reg.hint.object_id);
    command_topic = command_topic topics (codes reg.hint.object_id);
    payload_on = codes "ON";
    payload_off = codes "OFF";
  }

  unfoldable pub climate_payload : Text → ClimatePayload
  unfolding base_for
  climate_payload firmware = record {
    base = record (base_for "climate" "" (record no_hint { icon = "mdi:hvac" }) firmware) {
      object_id = codes "climate";
    };
    modes = map codes ("off" ∷ "heat" ∷ "fan_only" ∷ []);
    mode_state_topic = state_topic topics (codes "hvac_mode");
    mode_command_topic = command_topic topics (codes "hvac_mode");
    temperature_state_topic = state_topic topics (codes "target_temperature");
    temperature_command_topic = command_topic topics (codes "target_temperature");
    temp_step = nearest false unit 2;
    min_temp = of_nat 5;
    max_temp = of_nat 30;
    temperature_unit = codes "C";
    current_temperature_topic = state_topic topics (codes "room_temperature");
    fan_modes = map codes ("1" ∷ "2" ∷ "3" ∷ "4" ∷ "5" ∷ "6" ∷ "7" ∷ "8" ∷ "9" ∷ "10" ∷ []);
    fan_mode_state_topic = state_topic topics (codes "fan_target");
    fan_mode_command_topic = command_topic topics (codes "fan_target");
    action_topic = state_topic topics (codes "hvac_action");
  }

  unfoldable pub binary_sensor_payload :
      String
      → String
      → String
      → String
      → String
      → EntityCategory
      → String
      → Text
      → BinarySensorPayload
  unfolding base_for
  binary_sensor_payload object_id name device_class on off category icon firmware = record {
    base = base_for object_id name (record no_hint { category = category; icon = icon }) firmware;
    state_topic = state_topic topics (codes object_id);
    device_class = codes device_class;
    payload_on = codes on;
    payload_off = codes off;
  }

  module _ (marshal_json : Payload → Result Text) where
    -- `marshal`
    unfoldable pub marshal : String → String → Payload → Result Message
    marshal component object_id payload = do
      bytes ← in_context "discovery: marshal" (marshal_json payload)
      ok (record {
        topic = discovery_topic topics (codes component) (codes object_id);
        payload = bytes;
      })

    -- What one entry of the catalog adds in the loop of `Build`.
    unfoldable pub build_register : EntityKind → RegisterDef → Text → Result (List Message)
    unfolding marshal
    build_register sensor reg firmware = do
      d ← marshal "sensor" reg.hint.object_id (sensor_config (sensor_payload reg firmware))
      ok (d ∷ [])
    build_register switch reg firmware = do
      d ← marshal "switch" reg.hint.object_id (switch_config (switch_payload reg firmware))
      ok (d ∷ [])
    build_register binary_sensor reg firmware = ok []
    build_register climate reg firmware = ok []
    build_register button reg firmware = ok []
    build_register no_entity reg firmware = ok []

    unfoldable pub build_registers : List RegisterDef → Text → Result (List Message)
    build_registers [] firmware = ok []
    build_registers (reg ∷ regs) firmware = do
      d ← build_register reg.hint.kind reg firmware
      rest ← build_registers regs firmware
      ok (d ++ rest)

    abbrev build_binary_sensor :
        String → String → String → String → String → EntityCategory → String → Text → Result Message
    build_binary_sensor object_id name device_class on off category icon firmware =
        marshal "binary_sensor" object_id (
          binary_sensor_config
            (binary_sensor_payload object_id name device_class on off category icon firmware))

    -- `Build`
    unfoldable pub build : Text → Result (List Message)
    unfolding marshal build_registers registers_with_entity
    build firmware = do
      out ← build_registers registers_with_entity firmware
      climate_message ← marshal "climate" "climate" (climate_config (climate_payload firmware))
      heater ←
          build_binary_sensor "heater_active" "Heater active" "heat" "ON" "OFF" default_category ""
            firmware
      damper ←
          build_binary_sensor "damper_open" "Damper open" "opening" "OPEN" "CLOSED" default_category
            "" firmware
      problem ← build_binary_sensor "problem" "Problem" "problem" "ON" "OFF" diagnostic "" firmware
      current_op ← marshal "sensor" "current_operation" (
          sensor_config (
            derived_sensor_payload "current_operation" "Current operation" diagnostic "mdi:cog-sync"
              firmware))
      ok (out ++ (climate_message ∷ heater ∷ damper ∷ problem ∷ current_op ∷ []))
