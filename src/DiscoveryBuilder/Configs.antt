-- ===== src/DiscoveryBuilder/Configs.antt =====
-- The configs that `Build` marshals, as a list: what each is for, and its payload.
use oasis_modbus2mqtt.Prelude.{◌≡◌, refl, sym, ap, ◌∙◌, ◌↔◌, List, [], ◌∷◌, ◌++◌, arith}
use oasis_modbus2mqtt.Prelude.Text.{Text, codes}
use oasis_modbus2mqtt.Prelude.Errors.{Result, ok, ◌>>=◌}
use Prim.Native.String.{String}
use oasis_modbus2mqtt.Config.{HaConfig}
use oasis_modbus2mqtt.Domain.Catalog.{registers_with_entity}
use oasis_modbus2mqtt.Domain.Catalog.Entry.{
  EntityKind, no_entity, sensor, binary_sensor, switch, climate, button, EntityCategory,
  default_category, diagnostic, RegisterDef,
}
use oasis_modbus2mqtt.Mqtt.Topics.{TopicBuilder, discovery_topic}
use oasis_modbus2mqtt.UseCase.Publish.{Message}
use oasis_modbus2mqtt.DiscoveryBuilder.{
  sensor_payload, switch_payload, climate_payload, binary_sensor_payload, derived_sensor_payload,
  marshal, build_register, build_registers, build,
}
use oasis_modbus2mqtt.DiscoveryBuilder.Payloads.{
  Payload, sensor_config, binary_sensor_config, switch_config, climate_config,
}

pub record Announced : Type 0 where
  pub component : String
  pub object_id : String
  pub payload : Payload

abbrev announce : String → String → Payload → Announced
announce component object_id payload = record {
  component = component;
  object_id = object_id;
  payload = payload;
}

module _ (topics : TopicBuilder) (ha_cfg : HaConfig) (firmware : Text) where
  -- The configs of one entry of the catalog.
  unfoldable pub of_register : EntityKind → RegisterDef → List Announced
  of_register sensor reg =
      announce "sensor" reg.hint.object_id
        (sensor_config (sensor_payload topics ha_cfg reg firmware))
      ∷ []
  of_register switch reg =
      announce "switch" reg.hint.object_id
        (switch_config (switch_payload topics ha_cfg reg firmware))
      ∷ []
  of_register binary_sensor reg = []
  of_register climate reg = []
  of_register button reg = []
  of_register no_entity reg = []

  unfoldable pub of_registers : List RegisterDef → List Announced
  of_registers [] = []
  of_registers (reg ∷ regs) = of_register reg.hint.kind reg ++ of_registers regs

  abbrev climate_announced : Announced
  climate_announced =
      announce "climate" "climate" (climate_config (climate_payload topics ha_cfg firmware))

  abbrev binary_announced : String → String → String → String → String → EntityCategory → Announced
  binary_announced object_id name device_class on off category =
      announce "binary_sensor" object_id (
        binary_sensor_config (
          binary_sensor_payload topics ha_cfg object_id name device_class on off category ""
            firmware))

  abbrev heater_announced : Announced
  heater_announced =
      binary_announced "heater_active" "Heater active" "heat" "ON" "OFF" default_category

  abbrev damper_announced : Announced
  damper_announced =
      binary_announced "damper_open" "Damper open" "opening" "OPEN" "CLOSED" default_category

  abbrev problem_announced : Announced
  problem_announced = binary_announced "problem" "Problem" "problem" "ON" "OFF" diagnostic

  abbrev operation_announced : Announced
  operation_announced = announce "sensor" "current_operation" (
      sensor_config (
        derived_sensor_payload topics ha_cfg "current_operation" "Current operation" diagnostic
          "mdi:cog-sync" firmware))

  unfoldable pub extras : List Announced
  extras =
      climate_announced ∷ heater_announced ∷ damper_announced ∷ problem_announced
      ∷ operation_announced ∷ []

  unfoldable pub configs : List Announced
  unfolding of_register of_registers extras registers_with_entity
  configs = of_registers registers_with_entity ++ extras

  module _ (marshal_json : Payload → Result Text) where
    -- Each message is that of its config.
    unfoldable pub Marshalled : List Announced → List Message → Type 0
    Marshalled [] [] = Unit
    Marshalled [] (m ∷ ms) = ⊥
    Marshalled (a ∷ rest) [] = ⊥
    Marshalled (a ∷ rest) (m ∷ ms) =
        ((m.topic ≡ discovery_topic topics (codes a.component) (codes a.object_id))
          × (marshal_json a.payload ≡ ok m.payload))
        × Marshalled rest ms

    all_marshalled : List Announced → Result (List Message)
    all_marshalled [] = ok []
    all_marshalled (a ∷ rest) = do
      m ← marshal topics ha_cfg marshal_json a.component a.object_id a.payload
      ms ← all_marshalled rest
      ok (m ∷ ms)

    all_marshalled-append :
        (xs ys : List Announced)
        → all_marshalled (xs ++ ys)
          ≡ (all_marshalled xs >>= λ ms. all_marshalled ys >>= λ ns. ok (ms ++ ns))
    unfolding all_marshalled
    all_marshalled-append [] ys = ground arith
    all_marshalled-append (x ∷ xs) ys = ground (arith, all_marshalled-append xs ys)

    marshalled : Announced → Result Message
    marshalled a = marshal topics ha_cfg marshal_json a.component a.object_id a.payload

    -- Five messages behind a list of them, or the first error.
    then_five :
        (r : Result (List Message)) (a b c d e : Announced)
        → (r >>= λ out. marshalled a >>= λ a'. marshalled b >>= λ b'. marshalled c >>= λ c'.
            marshalled d >>= λ d'. marshalled e >>= λ e'. ok (out ++ (a' ∷ b' ∷ c' ∷ d' ∷ e' ∷ [])))
          ≡ (r >>= λ out. all_marshalled (a ∷ b ∷ c ∷ d ∷ e ∷ []) >>= λ ns. ok (out ++ ns))
    unfolding marshalled all_marshalled
    then_five r a b c d e = ground arith

    build_register-eq :
        (kind : EntityKind) (reg : RegisterDef)
        → build_register topics ha_cfg marshal_json kind reg firmware
          ≡ all_marshalled (of_register kind reg)
    unfolding build_register of_register all_marshalled
    build_register-eq sensor reg = refl
    build_register-eq switch reg = refl
    build_register-eq binary_sensor reg = refl
    build_register-eq climate reg = refl
    build_register-eq button reg = refl
    build_register-eq no_entity reg = refl

    build_registers-eq :
        (regs : List RegisterDef)
        → build_registers topics ha_cfg marshal_json regs firmware
          ≡ all_marshalled (of_registers regs)
    unfolding build_registers of_registers all_marshalled
    build_registers-eq [] = refl
    build_registers-eq (reg ∷ regs) = sym (
        all_marshalled-append (of_register reg.hint.kind reg) (of_registers regs) ∙ (λ i.
          sym (build_register-eq reg.hint.kind reg) i >>= λ ms.
          sym (build_registers-eq regs) i >>= λ ns. ok (ms ++ ns)))

    build-eq : build topics ha_cfg marshal_json firmware ≡ all_marshalled configs
    unfolding build configs extras marshalled
    build-eq =
        then_five (build_registers topics ha_cfg marshal_json registers_with_entity firmware)
          climate_announced heater_announced damper_announced problem_announced operation_announced
        ∙ (ap (λ r. r >>= λ out. all_marshalled extras >>= λ ns. ok (out ++ ns))
              (build_registers-eq registers_with_entity)
            ∙ sym (all_marshalled-append (of_registers registers_with_entity) extras))

    Marshalled-sound :
        (rest : List Announced) (ms : List Message)
        → all_marshalled rest ≡ ok ms
        → Marshalled rest ms
    unfolding all_marshalled Marshalled marshal
    Marshalled-sound [] [] h = tt
    Marshalled-sound [] (m ∷ ms) h = cc
    Marshalled-sound (a ∷ rest) [] h = ground arith
    Marshalled-sound (a ∷ rest) (m ∷ ms) h = ground (arith, Marshalled-sound rest ms)

    Marshalled-complete :
        (rest : List Announced) (ms : List Message)
        → Marshalled rest ms
        → all_marshalled rest ≡ ok ms
    unfolding all_marshalled Marshalled marshal
    Marshalled-complete [] [] h = refl
    Marshalled-complete [] (m ∷ ms) h = absurd h
    Marshalled-complete (a ∷ rest) [] h = absurd h
    Marshalled-complete (a ∷ rest) (m ∷ ms) h = ground (arith, Marshalled-complete rest ms)

    -- `Build` returns messages just when they are those of its configs: one for each, in order, on
    -- the discovery topic of its component and object, with the JSON of its payload; if the JSON of
    -- one of them cannot be made, there are none and `Build` fails.
    pub build_iff :
        (ms : List Message)
        → (build topics ha_cfg marshal_json firmware ≡ ok ms) ↔ Marshalled configs ms
    build_iff ms = (
      λ h. Marshalled-sound configs ms (sym build-eq ∙ h),
      λ h. build-eq ∙ Marshalled-complete configs ms h,
    )
