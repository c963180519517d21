-- ===== src/Prelude/Text.antt =====
-- Texts: `String` for names that are compared whole, lists of code points for payloads that are
-- scanned or built from digits; `strconv.FormatUint`, `fmt.Sprintf("%d")` and `%04X`, and the
-- tests of `strings` that the program uses.
use Prim.Native.Nat.{ℕ, zero, suc, ◌+◌, ◌-◌, ◌/◌, ◌%◌}
use Prim.Native.Char.{code}
use Prim.Native.String.{String}
use mathlib.Core.Bool.{Bool, true, false, ◌&&◌, ◌||◌}
use mathlib.Core.List.{List, [], ◌∷◌, map}
use oasis_modbus2mqtt.Prelude.Int.{ℤ, pos, negsuc}
use oasis_modbus2mqtt.Prelude.Tests.{ltb, leb, ◌==◌, if◌then◌else◌}

abbrev pub Text : Type 0
Text = List ℕ

abbrev pub codes : String → Text
codes String.[] = []
codes (String.◌∷◌ c s) = code c ∷ codes s

-- Two texts are the same.
abbrev pub text_eq : Text → Text → Bool
text_eq [] [] = true
text_eq [] (d ∷ t) = false
text_eq (c ∷ s) [] = false
text_eq (c ∷ s) (d ∷ t) = (c == d) && text_eq s t

-- The decimal digits of `n`, most significant first, in front of `out`; the fuel bounds their
-- number.
unfoldable pub emit_digits : ℕ → ℕ → Text → Text
emit_digits zero n out = out
emit_digits (suc fuel) n out =
    let rest = emit_digits fuel (n / 10) ((b'0' + n % 10) ∷ out) in
    if ltb n 10 then (b'0' + n) ∷ out else rest

-- `strconv.FormatUint(n, 10)`: 20 digits are enough for a uint64.
unfoldable pub format_uint : ℕ → Text
unfolding emit_digits
format_uint n = emit_digits 20 n []

-- `strconv.FormatInt(n, 10)`, and `%d` of an int.
unfoldable pub format_int : ℤ → Text
format_int (pos n) = format_uint n
format_int (negsuc n) = b'-' ∷ format_uint (suc n)

-- One digit of `%X`.
abbrev pub hex_digit : ℕ → ℕ
hex_digit d = if ltb d 10 then b'0' + d else b'A' + (d - 10)

-- `fmt.Sprintf("%04X", n)` of a uint16.
unfoldable pub format_hex4 : ℕ → Text
format_hex4 n =
    hex_digit (n / 4096 % 16)
    ∷ hex_digit (n / 256 % 16)
    ∷ hex_digit (n / 16 % 16)
    ∷ hex_digit (n % 16)
    ∷ []

-- `unicode.ToLower` on the characters that it maps into ASCII: A to Z, the dotted capital I and
-- the Kelvin sign. The program compares the result with ASCII words only, so that the other
-- letters, which it maps outside ASCII, can stay.
abbrev pub lower : ℕ → ℕ
lower c =
    if leb b'A' c && leb c b'Z'
    then c + 32
    else if c == 0x130
    then b'i'
    else if c == 0x212a
    then b'k'
    else c

-- `strings.ToLower`.
unfoldable pub to_lower : Text → Text
to_lower = map lower

-- Simple case folding, for `strings.EqualFold` against a text in ASCII without `k` and `s`.
abbrev pub fold_ascii : ℕ → ℕ
fold_ascii c = if leb b'A' c && leb c b'Z' then c + 32 else c

unfoldable pub equal_fold : Text → Text → Bool
equal_fold s t = text_eq (map fold_ascii s) (map fold_ascii t)

-- `unicode.IsSpace`.
abbrev pub is_space : ℕ → Bool
is_space c =
    (leb 9 c && leb c 13)
    || c == 0x20
    || c == 0x85
    || c == 0xa0
    || c == 0x1680
    || (leb 0x2000 c && leb c 0x200a)
    || c == 0x2028
    || c == 0x2029
    || c == 0x202f
    || c == 0x205f
    || c == 0x3000

unfoldable pub trim_left : Text → Text
trim_left [] = []
trim_left (c ∷ s) = if is_space c then trim_left s else c ∷ s

-- Drops white space at the end: a space stays where something else follows it.
unfoldable pub trim_right : Text → Text
trim_right [] = []
trim_right (c ∷ s) =
    let rest = trim_right s in
    elim rest [ [] ↦ if is_space c then [] else c ∷ [] | d ∷ r ↦ c ∷ d ∷ r ]

-- `strings.TrimSpace`.
unfoldable pub trim_space : Text → Text
unfolding trim_left trim_right
trim_space s = trim_right (trim_left s)

-- Go's `<=` on strings of ASCII.
abbrev pub leb_text : Text → Text → Bool
leb_text [] t = true
leb_text (c ∷ s) [] = false
leb_text (c ∷ s) (d ∷ t) = if c == d then leb_text s t else ltb c d
