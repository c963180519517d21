-- ===== src/Domain/Catalog/Table/Others.antt =====
-- domain/catalog/registers.go: the entries of the other tiers, and the one that is only written.
use oasis_modbus2mqtt.Domain.Register.{RegisterKind}
use oasis_modbus2mqtt.Domain.Catalog.Entry.{
  no_group, medium_group, slow_group, sensor, switch, default_category, diagnostic, no_hint,
  RegisterDef,
}

abbrev pub firmware_register : RegisterDef
firmware_register = record {
  addr = 0;
  kind = RegisterKind.input;
  name = "Firmware";
  group = slow_group;
  hint = record {
    kind = sensor;
    object_id = "firmware";
    name = "Firmware";
    device_class = "";
    unit = "";
    state_class = "";
    category = diagnostic;
    icon = "mdi:chip";
    precision = 0;
  };
  description = "controller firmware version (BCD)";
}

abbrev pub deviceid_register : RegisterDef
deviceid_register = record {
  addr = 79;
  kind = RegisterKind.input;
  name = "DeviceID";
  group = slow_group;
  hint = record {
    kind = sensor;
    object_id = "device_id";
    name = "Device ID";
    device_class = "";
    unit = "";
    state_class = "";
    category = diagnostic;
    icon = "";
    precision = 0;
  };
  description = "unique device identifier";
}

abbrev pub tkomn_x10_p_register : RegisterDef
tkomn_x10_p_register = record {
  addr = 57;
  kind = RegisterKind.input;
  name = "TKomn_x10_P";
  group = medium_group;
  hint = record {
    kind = sensor;
    object_id = "room_temperature";
    name = "Room temperature";
    device_class = "temperature";
    unit = "°C";
    state_class = "measurement";
    category = default_category;
    icon = "";
    precision = 1;
  };
  description = "remote-panel room temperature, scale 1/10 degC";
}

abbrev pub room_hum_p_register : RegisterDef
room_hum_p_register = record {
  addr = 58;
  kind = RegisterKind.input;
  name = "Room_Hum_P";
  group = medium_group;
  hint = record {
    kind = sensor;
    object_id = "room_humidity";
    name = "Room humidity";
    device_class = "humidity";
    unit = "%";
    state_class = "measurement";
    category = default_category;
    icon = "";
    precision = 0;
  };
  description = "remote-panel relative humidity";
}

abbrev pub error_code_2_register : RegisterDef
error_code_2_register = record {
  addr = 69;
  kind = RegisterKind.input;
  name = "Error_Code_2";
  group = medium_group;
  hint = no_hint;
  description = "extended error mask 2 (T4/T5/filter2/fan2)";
}

abbrev pub error_code_3_register : RegisterDef
error_code_3_register = record {
  addr = 70;
  kind = RegisterKind.input;
  name = "Error_Code_3";
  group = medium_group;
  hint = no_hint;
  description = "extended error mask 3 (bit 6 reserved)";
}

abbrev pub type_dev_register : RegisterDef
type_dev_register = record {
  addr = 0;
  kind = RegisterKind.holding;
  name = "Type_Dev";
  group = slow_group;
  hint = no_hint;
  description = "device configuration: heater (0..3), cooler (4..7), recuperator (8..11)";
}

abbrev pub dev_keys_2_register : RegisterDef
dev_keys_2_register = record {
  addr = 86;
  kind = RegisterKind.holding;
  name = "Dev_Keys_2";
  group = medium_group;
  hint = no_hint;
  description = "device keys: bits 0..1 = HVAC mode (off/heat/cool/auto)";
}

abbrev pub power_dev_register : RegisterDef
power_dev_register = record {
  addr = 2;
  kind = RegisterKind.holding;
  name = "Power_Dev";
  group = no_group;
  hint = record {
    kind = switch;
    object_id = "power";
    name = "Power";
    device_class = "";
    unit = "";
    state_class = "";
    category = default_category;
    icon = "mdi:power";
    precision = 0;
  };
  description = "edge-triggered power-on/off command (always reads as 0)";
}
