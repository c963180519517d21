-- ===== src/DiscoveryBuilder/Payloads.antt =====
-- infrastructure/discovery/payloads.go: the discovery payloads, before they are marshalled. An
-- embedded `baseEntity` is a field `base`.
use oasis_modbus2mqtt.Prelude.{ℕ, List}
use oasis_modbus2mqtt.Prelude.Text.{Text}
use oasis_modbus2mqtt.Float64.{Float64}

pub record DeviceInfo : Type 0 where
  pub identifiers : List Text
  pub name : Text
  pub manufacturer : Text
  pub model : Text
  pub sw_version : Text
  pub configuration_url : Text

pub record BaseEntity : Type 0 where
  pub name : Text
  pub unique_id : Text
  pub object_id : Text
  pub device : DeviceInfo
  pub availability_topic : Text
  pub payload_available : Text
  pub payload_not_available : Text
  pub entity_category : Text
  pub icon : Text
  pub qos : ℕ

pub record SensorPayload : Type 0 where
  pub base : BaseEntity
  pub state_topic : Text
  pub device_class : Text
  pub unit_of_measurement : Text
  pub state_class : Text
  pub suggested_display_precision : ℕ

pub record BinarySensorPayload : Type 0 where
  pub base : BaseEntity
  pub state_topic : Text
  pub device_class : Text
  pub payload_on : Text
  pub payload_off : Text

pub record SwitchPayload : Type 0 where
  pub base : BaseEntity
  pub state_topic : Text
  pub command_topic : Text
  pub payload_on : Text
  pub payload_off : Text

pub record ClimatePayload : Type 0 where
  pub base : BaseEntity
  pub modes : List Text
  pub mode_state_topic : Text
  pub mode_command_topic : Text
  pub temperature_state_topic : Text
  pub temperature_command_topic : Text
  pub temp_step : Float64
  pub min_temp : Float64
  pub max_temp : Float64
  pub temperature_unit : Text
  pub current_temperature_topic : Text
  pub fan_modes : List Text
  pub fan_mode_state_topic : Text
  pub fan_mode_command_topic : Text
  pub action_topic : Text

-- The argument `any` of `marshal`.
pub data Payload : Type 0 where
  sensor_config : SensorPayload → Payload
  binary_sensor_config : BinarySensorPayload → Payload
  switch_config : SwitchPayload → Payload
  climate_config : ClimatePayload → Payload
