-- ===== src/Domain/Catalog/Table.antt =====
-- The table of domain/catalog/registers.go, in its order.
pub mod Hot
pub mod Others
use oasis_modbus2mqtt.Prelude.{List, [], ◌∷◌}
use oasis_modbus2mqtt.Domain.Catalog.Entry.{RegisterDef}
use oasis_modbus2mqtt.Domain.Catalog.Table.Hot.{
  state_0_register, state_1_register, error_code_register, error_code_1_register,
  last_time_register, tkank_register, zagrfiltr1_register, doutputs_register, reg_register,
  fan_state_1_register, fan_state_2_register, temp_target_register, fan_target_1_register,
}
use oasis_modbus2mqtt.Domain.Catalog.Table.Others.{
  firmware_register, deviceid_register, tkomn_x10_p_register, room_hum_p_register,
  error_code_2_register, error_code_3_register, type_dev_register, dev_keys_2_register,
  power_dev_register,
}

-- `Registers`
abbrev pub registers : List RegisterDef
registers =
    firmware_register ∷ deviceid_register ∷ state_0_register ∷ state_1_register
    ∷ error_code_register ∷ error_code_1_register ∷ last_time_register ∷ tkank_register
    ∷ zagrfiltr1_register ∷ doutputs_register ∷ reg_register ∷ fan_state_1_register
    ∷ fan_state_2_register ∷ tkomn_x10_p_register ∷ room_hum_p_register ∷ error_code_2_register
    ∷ error_code_3_register ∷ type_dev_register ∷ temp_target_register ∷ fan_target_1_register
    ∷ dev_keys_2_register ∷ power_dev_register ∷ []
