-- ===== src/Modbus/Decode/RoundTrip.antt =====
-- The two byte codings undo one another.
use oasis_modbus2mqtt.Modbus.Decode.{pairs, bytes_to_uint16, uint16_to_bytes}
use oasis_modbus2mqtt.Prelude.{
  ℕ, ◌*◌, ◌/◌, ◌%◌, ◌<◌, ◌≡◌, refl, ◌⊎◌, inl, inr, List, [], ◌∷◌, arith, ◌==◌, Bool-cases, ==_iff,
  length, All,
}
use oasis_modbus2mqtt.Prelude.Errors.{Sentinel, sentinel, wrap, ok, err}

abbrev pub Words : List ℕ → Type 0
Words = All (λ r. r < 65536)

abbrev pub Bytes : List ℕ → Type 0
Bytes = All (λ b. b < 256)

length-uint16_to_bytes : (v : List ℕ) → length (uint16_to_bytes v) ≡ 2 * length v
unfolding uint16_to_bytes
length-uint16_to_bytes [] = refl
length-uint16_to_bytes (r ∷ v) = omega (arith, length-uint16_to_bytes v)

pairs-uint16_to_bytes : (v : List ℕ) → Words v → pairs (uint16_to_bytes v) ≡ v
unfolding pairs uint16_to_bytes
pairs-uint16_to_bytes [] h = refl
pairs-uint16_to_bytes (r ∷ v) (h, hs) = ground (arith, pairs-uint16_to_bytes v hs)

-- Decoding the bytes of any list of 16-bit registers gives the registers back.
pub decode-encode : (v : List ℕ) → Words v → bytes_to_uint16 (uint16_to_bytes v) ≡ ok v
unfolding bytes_to_uint16
decode-encode v h = ground (arith, length-uint16_to_bytes v, pairs-uint16_to_bytes v h)

uint16_to_bytes-pairs : (b : List ℕ) → Bytes b → length b % 2 ≡ 0 → uint16_to_bytes (pairs b) ≡ b
unfolding pairs uint16_to_bytes
uint16_to_bytes-pairs [] h e = refl
uint16_to_bytes-pairs (x ∷ []) h e = absurd (omega arith)
uint16_to_bytes-pairs (x ∷ y ∷ b) (hx, (hy, hs)) e = ground (arith, uint16_to_bytes-pairs b hs)

Words-pairs : (b : List ℕ) → Bytes b → Words (pairs b)
unfolding pairs
Words-pairs [] h = tt
Words-pairs (x ∷ []) h = tt
Words-pairs (x ∷ y ∷ b) (hx, (hy, hs)) = (omega arith, Words-pairs b hs)

length-pairs : (b : List ℕ) → length (pairs b) ≡ length b / 2
unfolding pairs
length-pairs [] = omega arith
length-pairs (x ∷ []) = omega arith
length-pairs (x ∷ y ∷ b) = omega (arith, length-pairs b)

-- Decoding an even number of bytes succeeds with half as many 16-bit registers, which encode to
-- those bytes; an odd number of bytes is an ErrInvalidByteCount.
pub decode_total :
    (b : List ℕ)
    → Bytes b
    → ((length b % 2 ≡ 0)
        × (v : List ℕ) × (bytes_to_uint16 b ≡ ok v)
        × (length v ≡ length b / 2)
        × Words v
        × (uint16_to_bytes v ≡ b))
      ⊎ ((length b % 2 ≡ 1)
          × (bytes_to_uint16 b ≡ err (wrap "decode" (sentinel Sentinel.invalid_byte_count))))
unfolding bytes_to_uint16
decode_total b h = elim (Bool-cases (length b % 2 == 0)) [
  | inl even ↦ inl (
    (==_iff _ _).0 even,
    pairs b,
    rw even,
    length-pairs b,
    Words-pairs b h,
    uint16_to_bytes-pairs b h ((==_iff _ _).0 even),
  )
  | inr odd ↦ inr (ground arith, rw odd)
]
