-- ===== src/Ledger/Bytes/RoundTrip.antt =====
-- Bytes that are printed and read again.
use scale_out_distributed_le.Common.{
  ℕ, ◌+◌, ◌*◌, ◌/◌, ◌%◌, ◌^◌, ◌<◌, ◌≡◌, refl, some, List, [], ◌∷◌, arith, length, map, leb, ◌&&◌,
  Option-cases, inl, inr, All, if◌then◌else◌,
}
use scale_out_distributed_le.Js.Decimal.{Text}
use scale_out_distributed_le.Ledger.Bytes.{
  int_to_byte_array, long_to_byte_array, hex_digit, bytes_to_hex_string, hex_to_bin, bytes_of_pairs,
  hex_string_to_bytes,
}

abbrev pub IsByte : ℕ → Type 0
IsByte b = b < 256

-- The number of a list of bytes, the highest first.
abbrev pub big_endian : ℕ → List ℕ → ℕ
big_endian n [] = n
big_endian n (b ∷ bs) = big_endian (n * 256 + b) bs

-- The bytes of an int and of a long are four and eight, and stand for the number.
big_endian-bytes :
    (i l : ℕ)
    → i < 2 ^ 32
    → l < 2 ^ 64
    → (All IsByte (int_to_byte_array i) × (big_endian 0 (int_to_byte_array i) ≡ i))
      × (All IsByte (long_to_byte_array l) × (big_endian 0 (long_to_byte_array l) ≡ l))
unfolding int_to_byte_array long_to_byte_array
big_endian-bytes i l hi hl = omega arith

hex_to_bin-hex_digit : (d : ℕ) → d < 16 → hex_to_bin (hex_digit d) ≡ some d
unfolding hex_to_bin
hex_to_bin-hex_digit d h = ground arith

even-length : (bs : List ℕ) → length (bytes_to_hex_string bs) % 2 ≡ 0
unfolding bytes_to_hex_string
even-length [] = refl
even-length (b ∷ bs) = omega (arith, even-length bs)

bytes_of_pairs-hex :
    (bs : List ℕ) → All IsByte bs → bytes_of_pairs (bytes_to_hex_string bs) ≡ some bs
unfolding bytes_of_pairs bytes_to_hex_string
bytes_of_pairs-hex [] h = refl
bytes_of_pairs-hex (b ∷ bs) h =
    let high = hex_to_bin-hex_digit (b / 16 % 16) (omega arith) in
    let low = hex_to_bin-hex_digit (b % 16) (omega arith) in
    let byte : (b / 16 % 16 * 16 + b % 16) % 256 ≡ b = omega arith in
    ground (arith, high, low, bytes_of_pairs-hex bs h.1, byte)

-- The hexadecimal text of bytes is read as these bytes.
pub hex_string_to_bytes-hex :
    (bs : List ℕ) → All IsByte bs → hex_string_to_bytes (bytes_to_hex_string bs) ≡ some bs
unfolding hex_string_to_bytes
hex_string_to_bytes-hex bs h = ground (arith, even-length bs, bytes_of_pairs-hex bs h)

-- A letter from A to F in lower case, and any other character itself.
abbrev pub lower : ℕ → ℕ
lower c = if leb b'A' c && leb c b'F' then c + 32 else c

hex_digit-hex_to_bin : (c d : ℕ) → hex_to_bin c ≡ some d → (d < 16) × (hex_digit d ≡ lower c)
unfolding hex_to_bin
hex_digit-hex_to_bin c d e = ground arith

hex-bytes_of_pairs :
    (hex : Text) (bs : List ℕ)
    → bytes_of_pairs hex ≡ some bs
    → bytes_to_hex_string bs ≡ map lower hex
unfolding bytes_of_pairs bytes_to_hex_string
hex-bytes_of_pairs [] bs e = let shape : bs ≡ [] = ground arith in rw shape refl
hex-bytes_of_pairs (c ∷ []) bs e = ground arith
hex-bytes_of_pairs (c ∷ d ∷ hex) bs e = elim (Option-cases (hex_to_bin c)) [
  | inl bad ↦ ground arith
  | inr (high, first) ↦ elim (Option-cases (hex_to_bin d)) [
    | inl bad ↦ ground arith
    | inr (low, second) ↦ elim (Option-cases (bytes_of_pairs hex)) [
      | inl bad ↦ ground arith
      | inr (bytes, others) ↦
          let shape : bs ≡ (high * 16 + low) % 256 ∷ bytes = ground arith in
          let (high_bound, high_digit) = hex_digit-hex_to_bin c high first in
          let (low_bound, low_digit) = hex_digit-hex_to_bin d low second in
          let hi : (high * 16 + low) % 256 / 16 % 16 ≡ high = omega arith in
          let lo : (high * 16 + low) % 256 % 16 ≡ low = omega arith in
          rw (shape, hi, lo, high_digit, low_digit, hex-bytes_of_pairs hex bytes others) refl
    ]
  ]
]

-- Text that is read as bytes is the text of these bytes, but for the case of its letters.
pub hex-hex_string_to_bytes :
    (hex : Text) (bs : List ℕ)
    → hex_string_to_bytes hex ≡ some bs
    → bytes_to_hex_string bs ≡ map lower hex
unfolding hex_string_to_bytes
hex-hex_string_to_bytes hex bs e = hex-bytes_of_pairs hex bs (ground arith)
