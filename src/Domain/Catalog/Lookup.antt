-- ===== src/Domain/Catalog/Lookup.antt =====
-- The lookup by kind and address.
use mathlib.Core.Path.{subst, subst₂}
use oasis_modbus2mqtt.Prelude.{
  ℕ, ◌≡◌, refl, sym, ap, ◌∙◌, ◌↔◌, ◌⊎◌, inl, inr, Bool, true, false, ◌&&◌, some, List, [], ◌∷◌, All,
  ◌==◌, ==_iff, if◌then◌else◌, Bool-cases,
}
use oasis_modbus2mqtt.Domain.Register.{RegisterKind, kind_eq}
use oasis_modbus2mqtt.Domain.Catalog.{find, register_by_addr}
use oasis_modbus2mqtt.Domain.Catalog.Entry.{RegisterDef}
use oasis_modbus2mqtt.Domain.Catalog.Table.{registers}

-- An entry stands in a list.
abbrev pub Listed : RegisterDef → List RegisterDef → Type 0
Listed r [] = ⊥
Listed r (x ∷ xs) = (x ≡ r) ⊎ Listed r xs

kind_eq_sound : (a b : RegisterKind) → kind_eq a b ≡ true → a ≡ b
kind_eq_sound RegisterKind.invalid RegisterKind.invalid h = refl
kind_eq_sound RegisterKind.input RegisterKind.input h = refl
kind_eq_sound RegisterKind.holding RegisterKind.holding h = refl
kind_eq_sound RegisterKind.invalid RegisterKind.input h = cc
kind_eq_sound RegisterKind.invalid RegisterKind.holding h = cc
kind_eq_sound RegisterKind.input RegisterKind.invalid h = cc
kind_eq_sound RegisterKind.input RegisterKind.holding h = cc
kind_eq_sound RegisterKind.holding RegisterKind.invalid h = cc
kind_eq_sound RegisterKind.holding RegisterKind.input h = cc

and_both : (a b : Bool) → (a && b) ≡ true → (a ≡ true) × (b ≡ true)
and_both true b h = (refl, h)
and_both false b h = cc

some_inj : {a b : RegisterDef} → some a ≡ some b → a ≡ b
some_inj h = cc

module _ (kind : RegisterKind) (addr : ℕ) where
  abbrev matches : RegisterDef → Bool
  matches x = kind_eq x.kind kind && (x.addr == addr)

  find_sound :
      (rs : List RegisterDef) (r : RegisterDef)
      → find kind addr rs ≡ some r
      → Listed r rs × ((r.kind ≡ kind) × (r.addr ≡ addr))
  find_sound [] r h = cc
  find_sound (x ∷ rs) r h = elim (Bool-cases (matches x)) [
    | inl found ↦
        let same : x ≡ r =
          some_inj (sym (ap (λ b. if b then some x else find kind addr rs) found) ∙ h) in
        let both = and_both (kind_eq x.kind kind) (x.addr == addr) found in
        (
          inl same,
          (
            sym (ap (λ y. y.kind) same) ∙ kind_eq_sound x.kind kind both.0,
            sym (ap (λ y. y.addr) same) ∙ (==_iff x.addr addr).0 both.1,
          ),
        )
    | inr missed ↦
        let (listed, fits) =
          find_sound rs r (sym (ap (λ b. if b then some x else find kind addr rs) missed) ∙ h) in
        (inr listed, fits)
  ]

all_at :
    (P : RegisterDef → Type 0) (xs : List RegisterDef) (r : RegisterDef)
    → All P xs
    → Listed r xs
    → P r
all_at P [] r h m = absurd m
all_at P (x ∷ xs) r h (inl e) = subst P e h.0
all_at P (x ∷ xs) r h (inr m) = all_at P xs r h.1 m

-- No two entries share a register.
keys_are_unique : All (λ r. register_by_addr r.kind r.addr ≡ some r) registers
unfolding register_by_addr
keys_are_unique = (
  refl,
  (
    refl,
    (
      refl,
      (
        refl,
        (
          refl,
          (
            refl,
            (
              refl,
              (
                refl,
                (
                  refl,
                  (
                    refl,
                    (
                      refl,
                      (
                        refl,
                        (
                          refl,
                          (
                            refl,
                            (refl, (refl, (refl, (refl, (refl, (refl, (refl, (refl, tt)))))))),
                          ),
                        ),
                      ),
                    ),
                  ),
                ),
              ),
            ),
          ),
        ),
      ),
    ),
  ),
)

-- The lookup gives an entry exactly if it stands in the catalog with that kind and address; so no
-- two entries share a register.
pub register_by_addr_iff :
    (kind : RegisterKind) (addr : ℕ) (r : RegisterDef)
    → (register_by_addr kind addr ≡ some r)
      ↔ (Listed r registers × ((r.kind ≡ kind) × (r.addr ≡ addr)))
unfolding register_by_addr
register_by_addr_iff kind addr r = (
  find_sound kind addr registers r,
  λ (listed, fits).
      subst₂ (λ c a. register_by_addr c a ≡ some r) fits.0 fits.1
        (all_at (λ x. register_by_addr x.kind x.addr ≡ some x) registers r keys_are_unique listed),
)
