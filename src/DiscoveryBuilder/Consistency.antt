-- ===== src/DiscoveryBuilder/Consistency.antt =====
-- The discovery configs beside what the bridge publishes and subscribes to.
use oasis_modbus2mqtt.Prelude.{◌≡◌, refl, true, List, [], ◌∷◌, ◌++◌, map, All, Among, Among-map-All}
use oasis_modbus2mqtt.Prelude.Text.{Text, codes}
use oasis_modbus2mqtt.Prelude.Dict.{all_among, all_among_sound}
use Prim.Native.String.{String}
use oasis_modbus2mqtt.Config.{HaConfig}
use oasis_modbus2mqtt.Domain.Snapshot.{Snapshot}
use oasis_modbus2mqtt.Mqtt.Topics.{TopicBuilder, state_topic}
use oasis_modbus2mqtt.UseCase.Publish.{Message}
use oasis_modbus2mqtt.UseCase.PublishState.{payloads, build_messages}
use oasis_modbus2mqtt.DiscoveryBuilder.{
  climate_payload, sensor_payload, switch_payload, binary_sensor_payload, derived_sensor_payload,
}
use oasis_modbus2mqtt.DiscoveryBuilder.Configs.{Announced, configs}
use oasis_modbus2mqtt.DiscoveryBuilder.Payloads.{
  Payload, sensor_config, binary_sensor_config, switch_config, climate_config,
}

-- The state topics and the command topics that a payload tells Home Assistant of.
abbrev pub state_topics : Payload → List Text
state_topics (sensor_config p) = p.state_topic ∷ []
state_topics (binary_sensor_config p) = p.state_topic ∷ []
state_topics (switch_config p) = p.state_topic ∷ []
state_topics (climate_config p) =
    p.mode_state_topic ∷ p.temperature_state_topic ∷ p.current_temperature_topic
    ∷ p.fan_mode_state_topic ∷ p.action_topic ∷ []

abbrev pub command_topics : Payload → List Text
command_topics (sensor_config p) = []
command_topics (binary_sensor_config p) = []
command_topics (switch_config p) = p.command_topic ∷ []
command_topics (climate_config p) =
    p.mode_command_topic ∷ p.temperature_command_topic ∷ p.fan_mode_command_topic ∷ []

abbrev pub all_of : (Payload → List Text) → List Announced → List Text
all_of list_of [] = []
all_of list_of (a ∷ rest) = list_of a.payload ++ all_of list_of rest

abbrev state_objects : List Text
state_objects = map codes (
    "firmware" ∷ "device_id" ∷ "operation_time_left" ∷ "supply_temperature" ∷ "filter_clog"
    ∷ "heat_demand" ∷ "supply_fan_speed" ∷ "exhaust_fan_speed" ∷ "room_temperature"
    ∷ "room_humidity" ∷ "power" ∷ "hvac_mode" ∷ "target_temperature" ∷ "room_temperature"
    ∷ "fan_target" ∷ "hvac_action" ∷ "heater_active" ∷ "damper_open" ∷ "problem"
    ∷ "current_operation" ∷ [])

abbrev objects_of : {A : Type 0} → List (String × A) → List Text
objects_of [] = []
objects_of ((o, a) ∷ rest) = codes o ∷ objects_of rest

abbrev pub topics_of : List Message → List Text
topics_of [] = []
topics_of (m ∷ ms) = m.topic ∷ topics_of ms

module _ (topics : TopicBuilder) (ha_cfg : HaConfig) (firmware : Text) where
  announced_states :
      all_of state_topics (configs topics ha_cfg firmware) ≡ map (state_topic topics) state_objects
  unfolding configs climate_payload sensor_payload switch_payload binary_sensor_payload
      derived_sensor_payload
  announced_states = refl

  published_topics :
      (snap : Snapshot)
      → topics_of (build_messages (λ o. state_topic topics (codes o)) snap)
        ≡ map (state_topic topics) (objects_of (payloads snap))
  unfolding build_messages
  published_topics snap = refl

  announced_among : (snap : Snapshot) → all_among state_objects (objects_of (payloads snap)) ≡ true
  unfolding all_among payloads
  announced_among snap = refl

  published_among : (snap : Snapshot) → all_among (objects_of (payloads snap)) state_objects ≡ true
  unfolding all_among payloads
  published_among snap = refl

  -- Of the same device, the state topics of the discovery configs are those that every snapshot is
  -- published on: each topic that is announced is published, and each that is published announced.
  pub states_announced :
      (snap : Snapshot)
      → All
          (λ t. Among t (topics_of (build_messages (λ o. state_topic topics (codes o)) snap)))
          (all_of state_topics (configs topics ha_cfg firmware))
        × All
            (λ t. Among t (all_of state_topics (configs topics ha_cfg firmware)))
            (topics_of (build_messages (λ o. state_topic topics (codes o)) snap))
  states_announced snap =
      rw (announced_states, published_topics snap)
        (
          Among-map-All (state_topic topics) state_objects (objects_of (payloads snap))
              (all_among_sound state_objects (objects_of (payloads snap)) (announced_among snap)),
          Among-map-All (state_topic topics) (objects_of (payloads snap)) state_objects
              (all_among_sound (objects_of (payloads snap)) state_objects (published_among snap)),
        )
