-- ===== src/Domain/Catalog.antt =====
-- domain/catalog/registers.go: the lookups in the register catalog.
pub mod Entry
pub mod Table
pub mod Lookup
use oasis_modbus2mqtt.Prelude.{
  ℕ, Bool, true, false, ◌&&◌, Option, none, some, List, [], ◌∷◌, ◌==◌, if◌then◌else◌,
}
use oasis_modbus2mqtt.Domain.Register.{RegisterKind, kind_eq}
use oasis_modbus2mqtt.Domain.Catalog.Entry.{PollGroup, group_eq, EntityKind, no_entity, RegisterDef}
use oasis_modbus2mqtt.Domain.Catalog.Table.{registers}

-- The loop of `RegistersByGroup` and of `RegistersWithEntity`.
abbrev pub select : (RegisterDef → Bool) → List RegisterDef → List RegisterDef
select keep [] = []
select keep (r ∷ rs) = let rest = select keep rs in if keep r then r ∷ rest else rest

unfoldable pub registers_by_group : PollGroup → List RegisterDef
registers_by_group g = select (λ r. group_eq r.group g) registers

-- The loop of `RegisterByAddr`.
abbrev pub find : RegisterKind → ℕ → List RegisterDef → Option RegisterDef
find kind addr [] = none
find kind addr (r ∷ rs) =
    let rest = find kind addr rs in if kind_eq r.kind kind && (r.addr == addr) then some r else rest

unfoldable pub register_by_addr : RegisterKind → ℕ → Option RegisterDef
register_by_addr kind addr = find kind addr registers

abbrev has_entity : EntityKind → Bool
has_entity no_entity = false
has_entity _ = true

unfoldable pub registers_with_entity : List RegisterDef
registers_with_entity = select (λ r. has_entity r.hint.kind) registers
