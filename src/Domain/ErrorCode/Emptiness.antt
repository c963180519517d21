-- ===== src/Domain/ErrorCode/Emptiness.antt =====
-- When `DecodeErrors` reports nothing.
use oasis_modbus2mqtt.Domain.ErrorCode.{
  ErrorBit, documented, placeholders, error_bit_catalog, bit_set, flag_set, decode_from,
  decode_errors, is_empty,
}
use oasis_modbus2mqtt.Prelude.{
  ℕ, ◌<◌, ◌≡◌, refl, ◌↔◌, ◌⊎◌, inl, inr, Bool, true, false, not, ◌&&◌, ◌||◌, none, some, List, [],
  ◌∷◌, ◌++◌, arith, ◌==◌, if◌then◌else◌, Bool-cases, holds_below, holds_below_at,
}

abbrev none_set : List ℕ → ℕ → Bool
none_set [] v = true
none_set (b ∷ bs) v = not (bit_set v b) && none_set bs v

abbrev pub all_bits : List ℕ
all_bits = 0 ∷ 1 ∷ 2 ∷ 3 ∷ 4 ∷ 5 ∷ 6 ∷ 7 ∷ 8 ∷ 9 ∷ 10 ∷ 11 ∷ 12 ∷ 13 ∷ 14 ∷ 15 ∷ []

abbrev pub documented_bits : List ℕ
documented_bits = 0 ∷ 1 ∷ 2 ∷ 3 ∷ 4 ∷ 5 ∷ 6 ∷ 7 ∷ 8 ∷ 9 ∷ 10 ∷ 11 ∷ 13 ∷ 14 ∷ 15 ∷ []

abbrev pub open_bits : List ℕ
open_bits = 0 ∷ 1 ∷ 2 ∷ 3 ∷ 4 ∷ 5 ∷ 7 ∷ 8 ∷ 9 ∷ 10 ∷ 11 ∷ 12 ∷ 13 ∷ 14 ∷ 15 ∷ []

-- No bit is set but perhaps that of the value `spare`.
abbrev only : List ℕ → ℕ → ℕ → Bool
only bits spare v = if none_set bits v then v == 0 || v == spare else not (v == 0 || v == spare)

documented_table : holds_below (only documented_bits 4096) 65536 ≡ true
unfolding holds_below
documented_table = refl

all_table : holds_below (only all_bits 0) 65536 ≡ true
unfolding holds_below
all_table = refl

open_table : holds_below (only open_bits 64) 65536 ≡ true
unfolding holds_below
open_table = refl

is_empty-append :
    (xs ys : List ErrorBit) (e0 e1 e2 e3 : ℕ)
    → is_empty (decode_from (xs ++ ys) e0 e1 e2 e3)
      ≡ (is_empty (decode_from xs e0 e1 e2 e3) && is_empty (decode_from ys e0 e1 e2 e3))
unfolding decode_from is_empty
is_empty-append [] ys e0 e1 e2 e3 = refl
is_empty-append (d ∷ xs) ys e0 e1 e2 e3 = ground (arith, is_empty-append xs ys e0 e1 e2 e3)

-- The bits of a segment of the catalog.
abbrev pub bits_of : List ErrorBit → List ℕ
bits_of [] = []
bits_of (d ∷ ds) = d.bit ∷ bits_of ds

-- Every definition of the segment reads the value `v`.
abbrev Reads : ℕ → ℕ → ℕ → ℕ → ℕ → List ErrorBit → Type 0
Reads e0 e1 e2 e3 v [] = Unit
Reads e0 e1 e2 e3 v (d ∷ ds) =
    (flag_set e0 e1 e2 e3 d.register d.bit ≡ bit_set v d.bit) × Reads e0 e1 e2 e3 v ds

is_empty-segment :
    (ds : List ErrorBit) (e0 e1 e2 e3 v : ℕ)
    → Reads e0 e1 e2 e3 v ds
    → is_empty (decode_from ds e0 e1 e2 e3) ≡ none_set (bits_of ds) v
unfolding decode_from is_empty
is_empty-segment [] e0 e1 e2 e3 v h = refl
is_empty-segment (d ∷ ds) e0 e1 e2 e3 v (h, hs) =
    ground (arith, is_empty-segment ds e0 e1 e2 e3 v hs)

-- The four segments of the catalog.
documented_segment :
    (e0 e1 e2 e3 : ℕ) → is_empty (decode_from documented e0 e1 e2 e3) ≡ none_set documented_bits e0
unfolding documented decode_from
documented_segment e0 e1 e2 e3 = is_empty-segment documented e0 e1 e2 e3 e0 (search)

segment1 :
    (e0 e1 e2 e3 : ℕ)
    → is_empty (decode_from (placeholders "Error_Code_1" "E1_b" none 16 0) e0 e1 e2 e3)
      ≡ none_set all_bits e1
unfolding placeholders decode_from
segment1 e0 e1 e2 e3 =
    is_empty-segment (placeholders "Error_Code_1" "E1_b" none 16 0) e0 e1 e2 e3 e1 (search)

segment2 :
    (e0 e1 e2 e3 : ℕ)
    → is_empty (decode_from (placeholders "Error_Code_2" "E2_b" none 16 0) e0 e1 e2 e3)
      ≡ none_set all_bits e2
unfolding placeholders decode_from
segment2 e0 e1 e2 e3 =
    is_empty-segment (placeholders "Error_Code_2" "E2_b" none 16 0) e0 e1 e2 e3 e2 (search)

segment3 :
    (e0 e1 e2 e3 : ℕ)
    → is_empty (decode_from (placeholders "Error_Code_3" "E3_b" (some 6) 16 0) e0 e1 e2 e3)
      ≡ none_set open_bits e3
unfolding placeholders decode_from
segment3 e0 e1 e2 e3 =
    is_empty-segment (placeholders "Error_Code_3" "E3_b" (some 6) 16 0) e0 e1 e2 e3 e3 (search)

is_empty-decode :
    (e0 e1 e2 e3 : ℕ)
    → is_empty (decode_errors e0 e1 e2 e3) ≡ (
        none_set documented_bits e0
        && (none_set all_bits e1 && (none_set all_bits e2 && none_set open_bits e3)))
unfolding decode_errors error_bit_catalog
is_empty-decode e0 e1 e2 e3 = rw (
  is_empty-append, is_empty-append, is_empty-append, documented_segment, segment1, segment2,
  segment3,
)

only_sound :
    (bits : List ℕ) (spare v : ℕ)
    → holds_below (only bits spare) 65536 ≡ true
    → v < 65536
    → (none_set bits v ≡ true) ↔ ((v ≡ 0) ⊎ (v ≡ spare))
only_sound bits spare v table h =
    let cell = holds_below_at (only bits spare) 65536 v h table in
    elim (Bool-cases (none_set bits v)) [
      | inl clear ↦ ground (arith, cell)
      | inr set ↦ ground (arith, cell)
    ]

only_zero : (v : ℕ) → v < 65536 → (none_set all_bits v ≡ true) ↔ (v ≡ 0)
only_zero v h =
    let cell = holds_below_at (only all_bits 0) 65536 v h all_table in
    elim (Bool-cases (none_set all_bits v)) [
      | inl clear ↦ ground (arith, cell)
      | inr set ↦ ground (arith, cell)
    ]

and_iff :
    {P Q : Type 0} (a b : Bool) → (a ≡ true) ↔ P → (b ≡ true) ↔ Q → ((a && b) ≡ true) ↔ (P × Q)
and_iff true true p q = (λ h. (p.0 refl, q.0 refl), λ h. refl)
and_iff true false p q = (λ h. cc, λ h. q.1 h.1)
and_iff false b p q = (λ h. cc, λ h. absurd (cc (p.1 h.0)))

-- Nothing is reported exactly when the second and third error registers are zero, the first has
-- at most bit 12 and the fourth at most bit 6.
pub no_errors_iff :
    (e0 e1 e2 e3 : ℕ)
    → e0 < 65536
    → e1 < 65536
    → e2 < 65536
    → e3 < 65536
    → (is_empty (decode_errors e0 e1 e2 e3) ≡ true)
      ↔ (((e0 ≡ 0) ⊎ (e0 ≡ 4096)) × ((e1 ≡ 0) × ((e2 ≡ 0) × ((e3 ≡ 0) ⊎ (e3 ≡ 64)))))
no_errors_iff e0 e1 e2 e3 h0 h1 h2 h3 = rw is_empty-decode (
    and_iff _ _ (only_sound documented_bits 4096 e0 documented_table h0) (
      and_iff _ _ (only_zero e1 h1)
        (and_iff _ _ (only_zero e2 h2) (only_sound open_bits 64 e3 open_table h3))))
