-- ===== src/Domain/ErrorCode/Exactness.antt =====
-- Which flags `DecodeErrors` reports.
use text.Mathlib.Text.{◌==◌ as str_eq}
use oasis_modbus2mqtt.Domain.ErrorCode.{
  ErrorBit, ErrorSet, documented, placeholders, error_bit_catalog, bit_set, flag_set, decode_from,
  decode_errors,
}
use oasis_modbus2mqtt.Domain.ErrorCode.Emptiness.{all_bits, documented_bits, open_bits, bits_of}
use oasis_modbus2mqtt.Prelude.{
  ℕ, ◌≡◌, refl, ap, ◌∙◌, if◌then◌else◌, Bool, true, false, ◌&&◌, ◌||◌, none, some, List, [], ◌∷◌,
  ◌++◌, arith, ◌==◌,
}
use Prim.Native.String.{String}

-- A set holds a flag of this register and bit.
abbrev pub reports : ErrorSet → String → ℕ → Bool
reports [] r b = false
reports (d ∷ s) r b = (str_eq d.register r && d.bit == b) || reports s r b

abbrev pub one_of : List ℕ → ℕ → Bool
one_of [] b = false
one_of (c ∷ cs) b = c == b || one_of cs b

-- The bit is set in the value of the register that has this name, and it is one of these bits.
abbrev pub shows : String → List ℕ → ℕ → String → ℕ → Bool
shows name bits value r b = str_eq name r && (one_of bits b && bit_set value b)

reports-append :
    (xs ys : List ErrorBit) (e0 e1 e2 e3 : ℕ) (r : String) (b : ℕ)
    → reports (decode_from (xs ++ ys) e0 e1 e2 e3) r b
      ≡ (reports (decode_from xs e0 e1 e2 e3) r b || reports (decode_from ys e0 e1 e2 e3) r b)
unfolding decode_from
reports-append [] ys e0 e1 e2 e3 r b = refl
reports-append (d ∷ xs) ys e0 e1 e2 e3 r b = ground (arith, reports-append xs ys e0 e1 e2 e3 r b)

-- Every definition of the segment is of this register, and reads this value.
abbrev IsOf : String → ℕ → ℕ → ℕ → ℕ → ℕ → List ErrorBit → Type 0
IsOf name v e0 e1 e2 e3 [] = Unit
IsOf name v e0 e1 e2 e3 (d ∷ ds) =
    ((d.register ≡ name) × (flag_set e0 e1 e2 e3 d.register d.bit ≡ bit_set v d.bit))
    × IsOf name v e0 e1 e2 e3 ds

place : (n b v : ℕ) → (n == b) ≡ true → bit_set v n ≡ bit_set v b
place n b v h = let same : n ≡ b = ground arith in rw same refl

reports-if :
    (f : Bool) (d : ErrorBit) (rest : ErrorSet) (r : String) (b : ℕ)
    → reports (if f then d ∷ rest else rest) r b
      ≡ (f && (str_eq d.register r && d.bit == b) || reports rest r b)
reports-if true d rest r b = refl
reports-if false d rest r b = refl

-- One more bit of a register.
join :
    (e k o here there : Bool)
    → (k ≡ true → here ≡ there)
    → (here && (e && k) || (e && (o && there))) ≡ (e && ((k || o) && there))
join false k o true there h = refl
join false k o false there h = refl
join true true o here there h = ground (arith, h)
join true false o true there h = refl
join true false o false there h = refl

reports-segment :
    (ds : List ErrorBit) (name : String) (v e0 e1 e2 e3 : ℕ) (r : String) (b : ℕ)
    → IsOf name v e0 e1 e2 e3 ds
    → reports (decode_from ds e0 e1 e2 e3) r b ≡ shows name (bits_of ds) v r b
unfolding decode_from
reports-segment [] name v e0 e1 e2 e3 r b h = elim (str_eq name r) as (λ e. false ≡ (e && false)) [
  | true ↦ refl
  | false ↦ refl
]
reports-segment (d ∷ ds) name v e0 e1 e2 e3 r b h =
    reports-if (flag_set e0 e1 e2 e3 d.register d.bit) d (decode_from ds e0 e1 e2 e3) r b
    ∙ (ap
          (λ f.
            f && (str_eq d.register r && d.bit == b) || reports (decode_from ds e0 e1 e2 e3) r b)
          h.0.1
        ∙ (ap
              (λ n.
                bit_set v d.bit && (str_eq n r && d.bit == b)
                || reports (decode_from ds e0 e1 e2 e3) r b)
              h.0.0
            ∙ (ap (λ x. bit_set v d.bit && (str_eq name r && d.bit == b) || x)
                  (reports-segment ds name v e0 e1 e2 e3 r b h.1)
                ∙ join (str_eq name r) (d.bit == b) (one_of (bits_of ds) b) (bit_set v d.bit)
                    (bit_set v b) (place d.bit b v))))

-- The four segments of the catalog.
documented_shown :
    (e0 e1 e2 e3 : ℕ) (r : String) (b : ℕ)
    → reports (decode_from (documented) e0 e1 e2 e3) r b ≡ shows "Error_Code" documented_bits e0 r b
unfolding documented placeholders decode_from
documented_shown e0 e1 e2 e3 r b =
    reports-segment (documented) "Error_Code" e0 e0 e1 e2 e3 r b (search)

shown1 :
    (e0 e1 e2 e3 : ℕ) (r : String) (b : ℕ)
    → reports (decode_from (placeholders "Error_Code_1" "E1_b" none 16 0) e0 e1 e2 e3) r b
      ≡ shows "Error_Code_1" all_bits e1 r b
unfolding documented placeholders decode_from
shown1 e0 e1 e2 e3 r b =
    reports-segment (placeholders "Error_Code_1" "E1_b" none 16 0) "Error_Code_1" e1 e0 e1 e2 e3 r b
      (search)

shown2 :
    (e0 e1 e2 e3 : ℕ) (r : String) (b : ℕ)
    → reports (decode_from (placeholders "Error_Code_2" "E2_b" none 16 0) e0 e1 e2 e3) r b
      ≡ shows "Error_Code_2" all_bits e2 r b
unfolding documented placeholders decode_from
shown2 e0 e1 e2 e3 r b =
    reports-segment (placeholders "Error_Code_2" "E2_b" none 16 0) "Error_Code_2" e2 e0 e1 e2 e3 r b
      (search)

shown3 :
    (e0 e1 e2 e3 : ℕ) (r : String) (b : ℕ)
    → reports (decode_from (placeholders "Error_Code_3" "E3_b" (some 6) 16 0) e0 e1 e2 e3) r b
      ≡ shows "Error_Code_3" open_bits e3 r b
unfolding documented placeholders decode_from
shown3 e0 e1 e2 e3 r b =
    reports-segment (placeholders "Error_Code_3" "E3_b" (some 6) 16 0) "Error_Code_3" e3 e0 e1 e2 e3
      r b (search)

-- A flag is reported exactly when its bit is set in the value of its register and it is one of the
-- bits that are decoded: 0 to 11 and 13 to 15 of Error_Code, all 16 of Error_Code_1 and of
-- Error_Code_2, and all but 6 of Error_Code_3. Under other names nothing is reported.
pub reports-decode_errors :
    (e0 e1 e2 e3 : ℕ) (r : String) (b : ℕ)
    → reports (decode_errors e0 e1 e2 e3) r b ≡ (
        shows "Error_Code" documented_bits e0 r b
        || (shows "Error_Code_1" all_bits e1 r b
            || (shows "Error_Code_2" all_bits e2 r b || shows "Error_Code_3" open_bits e3 r b)))
unfolding decode_errors error_bit_catalog
reports-decode_errors e0 e1 e2 e3 r b =
    rw (reports-append, reports-append, reports-append, documented_shown, shown1, shown2, shown3)
      refl
