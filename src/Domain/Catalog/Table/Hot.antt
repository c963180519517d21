-- ===== src/Domain/Catalog/Table/Hot.antt =====
-- domain/catalog/registers.go: the entries of the hot tier.
use oasis_modbus2mqtt.Domain.Register.{RegisterKind}
use oasis_modbus2mqtt.Domain.Catalog.Entry.{
  hot_group, sensor, default_category, diagnostic, no_hint, RegisterDef,
}

abbrev pub state_0_register : RegisterDef
state_0_register = record {
  addr = 2;
  kind = RegisterKind.input;
  name = "State_0";
  group = hot_group;
  hint = no_hint;
  description = "primary controller state bitfield (power, switching, capabilities)";
}

abbrev pub state_1_register : RegisterDef
state_1_register = record {
  addr = 3;
  kind = RegisterKind.input;
  name = "State_1";
  group = hot_group;
  hint = no_hint;
  description = "current operation code (bits 0..4)";
}

abbrev pub error_code_register : RegisterDef
error_code_register = record {
  addr = 4;
  kind = RegisterKind.input;
  name = "Error_Code";
  group = hot_group;
  hint = no_hint;
  description = "primary error mask (sensor faults, freeze threats, fan/fire/overheat)";
}

abbrev pub error_code_1_register : RegisterDef
error_code_1_register = record {
  addr = 5;
  kind = RegisterKind.input;
  name = "Error_Code_1";
  group = hot_group;
  hint = no_hint;
  description = "extended error mask 1";
}

abbrev pub last_time_register : RegisterDef
last_time_register = record {
  addr = 6;
  kind = RegisterKind.input;
  name = "Last_Time";
  group = hot_group;
  hint = record {
    kind = sensor;
    object_id = "operation_time_left";
    name = "Operation time left";
    device_class = "";
    unit = "s";
    state_class = "";
    category = diagnostic;
    icon = "";
    precision = 0;
  };
  description = "minutes/seconds remaining for current operation (split byte)";
}

abbrev pub tkank_register : RegisterDef
tkank_register = record {
  addr = 9;
  kind = RegisterKind.input;
  name = "TkanK";
  group = hot_group;
  hint = record {
    kind = sensor;
    object_id = "supply_temperature";
    name = "Supply temperature";
    device_class = "temperature";
    unit = "°C";
    state_class = "measurement";
    category = default_category;
    icon = "";
    precision = 1;
  };
  description = "T1 corrected supply-air temperature, scale 1/10 degC";
}

abbrev pub zagrfiltr1_register : RegisterDef
zagrfiltr1_register = record {
  addr = 14;
  kind = RegisterKind.input;
  name = "ZagrFiltr1";
  group = hot_group;
  hint = record {
    kind = sensor;
    object_id = "filter_clog";
    name = "Filter clog";
    device_class = "";
    unit = "%";
    state_class = "measurement";
    category = default_category;
    icon = "mdi:air-filter";
    precision = 0;
  };
  description = "filter1 clog percentage";
}

abbrev pub doutputs_register : RegisterDef
doutputs_register = record {
  addr = 16;
  kind = RegisterKind.input;
  name = "DOutputs";
  group = hot_group;
  hint = no_hint;
  description = "discrete outputs bitfield (PWM, Y1 damper, fan speeds, valves)";
}

abbrev pub reg_register : RegisterDef
reg_register = record {
  addr = 18;
  kind = RegisterKind.input;
  name = "Reg";
  group = hot_group;
  hint = record {
    kind = sensor;
    object_id = "heat_demand";
    name = "Heat demand";
    device_class = "";
    unit = "%";
    state_class = "measurement";
    category = diagnostic;
    icon = "";
    precision = 0;
  };
  description = "PID heat-demand percentage";
}

abbrev pub fan_state_1_register : RegisterDef
fan_state_1_register = record {
  addr = 25;
  kind = RegisterKind.input;
  name = "Fan_State_1";
  group = hot_group;
  hint = record {
    kind = sensor;
    object_id = "supply_fan_speed";
    name = "Supply fan speed";
    device_class = "";
    unit = "";
    state_class = "measurement";
    category = default_category;
    icon = "";
    precision = 0;
  };
  description = "actual supply-fan speed";
}

abbrev pub fan_state_2_register : RegisterDef
fan_state_2_register = record {
  addr = 30;
  kind = RegisterKind.input;
  name = "Fan_State_2";
  group = hot_group;
  hint = record {
    kind = sensor;
    object_id = "exhaust_fan_speed";
    name = "Exhaust fan speed";
    device_class = "";
    unit = "";
    state_class = "measurement";
    category = default_category;
    icon = "";
    precision = 0;
  };
  description = "actual exhaust-fan speed";
}

abbrev pub temp_target_register : RegisterDef
temp_target_register = record {
  addr = 31;
  kind = RegisterKind.holding;
  name = "Temp_Target";
  group = hot_group;
  hint = no_hint;
  description = "climate target temperature, scale 1/10 degC, range 50..300";
}

abbrev pub fan_target_1_register : RegisterDef
fan_target_1_register = record {
  addr = 32;
  kind = RegisterKind.holding;
  name = "Fan_Target_1";
  group = hot_group;
  hint = no_hint;
  description = "supply-fan target speed (1..10)";
}
