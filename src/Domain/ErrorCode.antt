-- ===== src/Domain/ErrorCode.antt =====
-- domain/entity/error_code.go: the error flags of the four error registers.
pub mod Emptiness
pub mod Exactness
use text.Mathlib.Text.{◌==◌ as str_eq}
use oasis_modbus2mqtt.Prelude.Text.{leb_text}
use oasis_modbus2mqtt.Prelude.{
  ℕ, zero, suc, ◌+◌, ◌/◌, ◌%◌, ◌^◌, Bool, true, false, Option, none, some, List, [], ◌∷◌, ◌++◌, map,
  ◌==◌, if◌then◌else◌,
}
use oasis_modbus2mqtt.Prelude.Text.{Text, codes, format_uint}
use Prim.Native.String.{String}

-- `ErrorBit`, and `errorBitDef` with the same four fields.
pub record ErrorBit : Type 0 where
  pub register : String
  pub bit : ℕ
  pub code : Text
  pub description : Text

abbrev pub ErrorSet : Type 0
ErrorSet = List ErrorBit

abbrev pub error3_reserved_bit : ℕ
error3_reserved_bit = 6

abbrev documented_bit : ℕ → String → String → ErrorBit
documented_bit bit code description = record {
  register = "Error_Code";
  bit = bit;
  code = codes code;
  description = codes description;
}

-- The table of the documented bits of Error_Code.
unfoldable pub documented : List ErrorBit
documented =
    documented_bit 0 "E00" "T1 sensor fault (open or short)"
    ∷ documented_bit 1 "E01" "T2 sensor fault (open or short)"
    ∷ documented_bit 2 "E02" "T3 sensor fault (open or short)"
    ∷ documented_bit 3 "E03" "filter1 pressure sensor fault"
    ∷ documented_bit 4 "E04" "filter1 100% clogged"
    ∷ documented_bit 5 "E05" "no coolant in the system"
    ∷ documented_bit 6 "E06" "freeze threat (water temperature below 5C)"
    ∷ documented_bit 7 "E07" "freeze threat (capillary sensor)"
    ∷ documented_bit 8 "E08" "freeze threat (air temperature below 5C)"
    ∷ documented_bit 9 "E09" "fan1 pressure sensor fault"
    ∷ documented_bit 10 "E10" "FAN1 FAULT"
    ∷ documented_bit 11 "E11" "FIRE"
    ∷ documented_bit 13 "E13" "CALORIFIER OVERHEAT"
    ∷ documented_bit 14 "E14" "KKB1 pressure fault"
    ∷ documented_bit 15 "E15" "KKB2 pressure fault"
    ∷ []

abbrev placeholder : String → String → ℕ → ErrorBit
placeholder register prefix b = record {
  register = register;
  bit = b;
  code = codes prefix ++ format_uint b;
  description =
      codes "undocumented bit " ++ (format_uint b ++ (codes " (" ++ (codes register ++ codes ")")));
}

-- The loop `for bit := …; bit < 16; bit++` with `n` rounds left, which skips one bit or none.
unfoldable pub placeholders : String → String → Option ℕ → ℕ → ℕ → List ErrorBit
unfolding format_uint
placeholders register prefix skipped zero b = []
placeholders register prefix skipped (suc n) b =
    let rest = placeholders register prefix skipped n (b + 1) in
    elim skipped [
      | none ↦ placeholder register prefix b ∷ rest
      | some s ↦ if b == s then rest else placeholder register prefix b ∷ rest
    ]

-- `buildErrorBitCatalog`
unfoldable pub error_bit_catalog : List ErrorBit
unfolding documented placeholders
error_bit_catalog =
    documented
    ++ (placeholders "Error_Code_1" "E1_b" none 16 0
        ++ (placeholders "Error_Code_2" "E2_b" none 16 0
            ++ placeholders "Error_Code_3" "E3_b" (some error3_reserved_bit) 16 0))

-- The `switch` on the register's name; no value stands for `continue`.
unfoldable pub register_value : ℕ → ℕ → ℕ → ℕ → String → Option ℕ
register_value e0 e1 e2 e3 r =
    if str_eq r "Error_Code"
    then some e0
    else if str_eq r "Error_Code_1"
    then some e1
    else if str_eq r "Error_Code_2"
    then some e2
    else if str_eq r "Error_Code_3"
    then some e3
    else none

-- `raw & (1 << bit) != 0`
abbrev pub bit_set : ℕ → ℕ → Bool
bit_set raw bit = raw / 2 ^ bit % 2 == 1

abbrev pub flag_set : ℕ → ℕ → ℕ → ℕ → String → ℕ → Bool
flag_set e0 e1 e2 e3 r bit = elim (register_value e0 e1 e2 e3 r) [
  | none ↦ false
  | some raw ↦ bit_set raw bit
]

-- The loop of `DecodeErrors` over the catalog.
unfoldable pub decode_from : List ErrorBit → ℕ → ℕ → ℕ → ℕ → ErrorSet
unfolding register_value
decode_from [] e0 e1 e2 e3 = []
decode_from (def ∷ defs) e0 e1 e2 e3 =
    let rest = decode_from defs e0 e1 e2 e3 in
    if flag_set e0 e1 e2 e3 def.register def.bit then def ∷ rest else rest

unfoldable pub decode_errors : ℕ → ℕ → ℕ → ℕ → ErrorSet
unfolding decode_from error_bit_catalog
decode_errors = decode_from error_bit_catalog

unfoldable pub is_empty : ErrorSet → Bool
is_empty [] = true
is_empty (b ∷ s) = false

-- `sort.Strings`
unfoldable pub insert_sorted : Text → List Text → List Text
insert_sorted t [] = t ∷ []
insert_sorted t (u ∷ us) = if leb_text t u then t ∷ u ∷ us else u ∷ insert_sorted t us

unfoldable pub sort_strings : List Text → List Text
unfolding insert_sorted
sort_strings [] = []
sort_strings (t ∷ ts) = insert_sorted t (sort_strings ts)

-- `ErrorSet.Codes`
unfoldable pub error_codes : ErrorSet → List Text
unfolding sort_strings
error_codes s = sort_strings (map (λ b. b.code) s)

-- `strings.Join(codes, ",")`
unfoldable pub join_codes : List Text → Text
join_codes [] = []
join_codes (c ∷ []) = c
join_codes (c ∷ d ∷ cs) = c ++ (b',' ∷ join_codes (d ∷ cs))

-- `ErrorSet.String`
unfoldable pub error_set_string : ErrorSet → Text
unfolding error_codes join_codes
error_set_string s = join_codes (error_codes s)
