-- ===== src/Domain/Catalog/Entry.antt =====
-- domain/catalog/poll_group.go and entity_hint.go: what an entry of the register catalog says.
use Prim.Native.String.{String}
use oasis_modbus2mqtt.Prelude.{ℕ, Bool, true, false, ◌*◌}
use oasis_modbus2mqtt.Prelude.Time.{second}
use oasis_modbus2mqtt.Domain.Register.{RegisterKind}

pub data PollGroup : Type 0 where
  no_group hot_group medium_group slow_group : PollGroup

unfoldable pub group_string : PollGroup → String
group_string no_group = "none"
group_string hot_group = "hot"
group_string medium_group = "medium"
group_string slow_group = "slow"

-- `Period`, in nanoseconds.
unfoldable pub period : PollGroup → ℕ
period hot_group = 5 * second
period medium_group = 15 * second
period slow_group = 60 * second
period no_group = 0

abbrev pub group_eq : PollGroup → PollGroup → Bool
group_eq no_group no_group = true
group_eq hot_group hot_group = true
group_eq medium_group medium_group = true
group_eq slow_group slow_group = true
group_eq _ _ = false

pub data EntityKind : Type 0 where
  no_entity sensor binary_sensor switch climate button : EntityKind

unfoldable pub entity_kind_string : EntityKind → String
entity_kind_string no_entity = "none"
entity_kind_string sensor = "sensor"
entity_kind_string binary_sensor = "binary_sensor"
entity_kind_string switch = "switch"
entity_kind_string climate = "climate"
entity_kind_string button = "button"

pub data EntityCategory : Type 0 where
  default_category diagnostic config : EntityCategory

unfoldable pub category_string : EntityCategory → String
category_string default_category = ""
category_string diagnostic = "diagnostic"
category_string config = "config"

-- `EntityHint`; the two string types for classes are strings.
pub record EntityHint : Type 0 where
  pub kind : EntityKind
  pub object_id : String
  pub name : String
  pub device_class : String
  pub unit : String
  pub state_class : String
  pub category : EntityCategory
  pub icon : String
  pub precision : ℕ

-- `EntityHint{}`
abbrev pub no_hint : EntityHint
no_hint = record {
  kind = no_entity;
  object_id = "";
  name = "";
  device_class = "";
  unit = "";
  state_class = "";
  category = default_category;
  icon = "";
  precision = 0;
}

pub record RegisterDef : Type 0 where
  pub addr : ℕ
  pub kind : RegisterKind
  pub name : String
  pub group : PollGroup
  pub hint : EntityHint
  pub description : String
