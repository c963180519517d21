-- ===== src/Domain/DeviceConfig.antt =====
-- domain/entity/device_config.go: the components installed, a nibble each of Type_Dev. A nibble
-- that names no component is kept as it is.
use oasis_modbus2mqtt.Prelude.{
  ℕ, ◌/◌, ◌%◌, ◌^◌, Bool, not, List, [], ◌∷◌, ◌++◌, ◌==◌, if◌then◌else◌, get_or,
}
use oasis_modbus2mqtt.Prelude.Text.{Text, codes}
use Prim.Native.String.{String}

abbrev pub HeaterType : Type 0
HeaterType = ℕ

abbrev pub CoolerType : Type 0
CoolerType = ℕ

abbrev pub RecuperatorType : Type 0
RecuperatorType = ℕ

unfoldable pub heater_string : HeaterType → String
heater_string h =
    get_or ("none" ∷ "electric_heater" ∷ "water_heater" ∷ "combined_heater" ∷ []) h "unknown_heater"

unfoldable pub cooler_string : CoolerType → String
cooler_string c = get_or ("none" ∷ "kkb_cooler" ∷ "fancoil_cooler" ∷ []) c "unknown_cooler"

unfoldable pub recuperator_string : RecuperatorType → String
recuperator_string r =
    get_or ("none" ∷ "plate_recuperator" ∷ "rotor_recuperator" ∷ []) r "unknown_recuperator"

pub record DeviceConfig : Type 0 where
  pub heater : HeaterType
  pub cooler : CoolerType
  pub recuperator : RecuperatorType
  pub raw : ℕ

unfoldable pub device_config_from_register : ℕ → DeviceConfig
device_config_from_register raw = record {
  heater = raw % 16;
  cooler = raw / 2 ^ 4 % 16;
  recuperator = raw / 2 ^ 8 % 16;
  raw = raw;
}

unfoldable pub has_heater : DeviceConfig → Bool
has_heater c = not (c.heater == 0)

unfoldable pub has_cooler : DeviceConfig → Bool
has_cooler c = not (c.cooler == 0)

unfoldable pub has_recuperator : DeviceConfig → Bool
has_recuperator c = not (c.recuperator == 0)

-- `append` of a part that is installed.
abbrev pub add_part : Bool → String → List String → List String
add_part installed part parts = if installed then part ∷ parts else parts

-- `strings.Join(parts, ", ")`
unfoldable pub join_parts : List String → Text
join_parts [] = []
join_parts (p ∷ []) = codes p
join_parts (p ∷ q ∷ ps) = codes p ++ (codes ", " ++ join_parts (q ∷ ps))

unfoldable pub config_string : DeviceConfig → Text
unfolding has_heater has_cooler has_recuperator heater_string cooler_string recuperator_string
    join_parts
config_string c =
    let parts = add_part (has_heater c) (heater_string c.heater) (
      add_part (has_cooler c) (cooler_string c.cooler)
        (add_part (has_recuperator c) (recuperator_string c.recuperator) [])) in
    elim parts [ [] ↦ codes "none" | p ∷ ps ↦ join_parts (p ∷ ps) ]
