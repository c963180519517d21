-- ===== src/DiscoveryBuilder/Identity.antt =====
-- The identities of the discovery configs.
use oasis_modbus2mqtt.Prelude.{
  ◌≡◌, refl, sym, inl, inr, Bool, true, not, ◌&&◌, List, [], ◌∷◌, ◌++◌, map, arith, Among, All,
}
use mathlib.Core.Path.{subst}
use oasis_modbus2mqtt.Prelude.Text.{Text, codes}
use oasis_modbus2mqtt.Prelude.Dict.{text_eq_iff, among}
use oasis_modbus2mqtt.Config.{HaConfig}
use oasis_modbus2mqtt.Mqtt.Topics.{TopicBuilder, append_cancel, availability_topic}
use oasis_modbus2mqtt.Mqtt.Client.{availability_online, availability_offline}
use oasis_modbus2mqtt.DiscoveryBuilder.{
  base_for, climate_payload, sensor_payload, switch_payload, binary_sensor_payload,
  derived_sensor_payload,
}
use oasis_modbus2mqtt.DiscoveryBuilder.Configs.{Announced, configs}
use oasis_modbus2mqtt.DiscoveryBuilder.Payloads.{
  BaseEntity, Payload, sensor_config, binary_sensor_config, switch_config, climate_config,
}

abbrev pub base_of : Payload → BaseEntity
base_of (sensor_config p) = p.base
base_of (binary_sensor_config p) = p.base
base_of (switch_config p) = p.base
base_of (climate_config p) = p.base

abbrev pub unique_ids : List Announced → List Text
unique_ids [] = []
unique_ids (a ∷ rest) = (base_of a.payload).unique_id ∷ unique_ids rest

-- No text stands twice.
abbrev pub Unique : List Text → Type 0
Unique [] = Unit
Unique (s ∷ ss) = (¬ Among s ss) × Unique ss

unfoldable unique : List Text → Bool
unfolding among
unique [] = true
unique (s ∷ ss) = not (among s ss) && unique ss

among_complete : (s : Text) (ts : List Text) → Among s ts → among s ts ≡ true
unfolding among
among_complete s [] h = absurd h
among_complete s (t ∷ ts) (inl e) = ground (arith, text_eq_iff t s)
among_complete s (t ∷ ts) (inr h) = ground (arith, among_complete s ts h)

unique_sound : (ss : List Text) → unique ss ≡ true → Unique ss
unfolding unique
unique_sound [] h = tt
unique_sound (s ∷ ss) h =
    (λ m. let found = among_complete s ss m in ground arith, unique_sound ss (ground arith))

Among-unmap :
    (f : Text → Text)
    → ((s t : Text) → f s ≡ f t → s ≡ t)
    → (s : Text) (ts : List Text) → Among (f s) (map f ts)
    → Among s ts
Among-unmap f inj s [] h = h
Among-unmap f inj s (t ∷ ts) (inl e) = inl (inj t s e)
Among-unmap f inj s (t ∷ ts) (inr h) = inr (Among-unmap f inj s ts h)

Unique-map :
    (f : Text → Text)
    → ((s t : Text) → f s ≡ f t → s ≡ t)
    → (ss : List Text) → Unique ss
    → Unique (map f ss)
Unique-map f inj [] u = tt
Unique-map f inj (s ∷ ss) u = (λ m. u.0 (Among-unmap f inj s ss m), Unique-map f inj ss u.1)

abbrev objects : List Text
objects = map codes (
    "firmware" ∷ "device_id" ∷ "operation_time_left" ∷ "supply_temperature" ∷ "filter_clog"
    ∷ "heat_demand" ∷ "supply_fan_speed" ∷ "exhaust_fan_speed" ∷ "room_temperature"
    ∷ "room_humidity" ∷ "power" ∷ "climate" ∷ "heater_active" ∷ "damper_open" ∷ "problem"
    ∷ "current_operation" ∷ [])

objects-unique : unique objects ≡ true
unfolding unique
objects-unique = refl

abbrev id_of : Text → Text → Text
id_of prefix o = prefix ++ (codes "_" ++ o)

ids :
    (topics : TopicBuilder) (ha_cfg : HaConfig) (firmware : Text)
    → unique_ids (configs topics ha_cfg firmware) ≡ map (id_of ha_cfg.device_prefix) objects
unfolding configs climate_payload sensor_payload switch_payload binary_sensor_payload
    derived_sensor_payload base_for
ids topics ha_cfg firmware = refl

-- The availability of a config is that which the MQTT client publishes.
abbrev pub SharesAvailability : TopicBuilder → BaseEntity → Type 0
SharesAvailability topics b =
    (b.availability_topic ≡ availability_topic topics)
    × (b.payload_available ≡ availability_online)
    × (b.payload_not_available ≡ availability_offline)

-- Whatever the device prefix, no two discovery configs have the same unique id, and every config
-- names the topic and the two payloads with which the MQTT client publishes the availability of the
-- bridge.
pub unique_ids-Unique :
    (topics : TopicBuilder) (ha_cfg : HaConfig) (firmware : Text)
    → Unique (unique_ids (configs topics ha_cfg firmware))
      × All (λ a. SharesAvailability topics (base_of a.payload)) (configs topics ha_cfg firmware)
unfolding configs climate_payload sensor_payload switch_payload binary_sensor_payload
    derived_sensor_payload base_for
unique_ids-Unique topics ha_cfg firmware = (
  subst Unique (sym (ids topics ha_cfg firmware)) (
      Unique-map (id_of ha_cfg.device_prefix)
        (λ s t e. append_cancel (codes "_") s t (append_cancel ha_cfg.device_prefix _ _ e)) objects
        (unique_sound objects objects-unique)),
  (
    (refl, refl, refl),
    (
      (refl, refl, refl),
      (
        (refl, refl, refl),
        (
          (refl, refl, refl),
          (
            (refl, refl, refl),
            (
              (refl, refl, refl),
              (
                (refl, refl, refl),
                (
                  (refl, refl, refl),
                  (
                    (refl, refl, refl),
                    (
                      (refl, refl, refl),
                      (
                        (refl, refl, refl),
                        (
                          (refl, refl, refl),
                          (
                            (refl, refl, refl),
                            ((refl, refl, refl), ((refl, refl, refl), ((refl, refl, refl), tt))),
                          ),
                        ),
                      ),
                    ),
                  ),
                ),
              ),
            ),
          ),
        ),
      ),
    ),
  ),
)
