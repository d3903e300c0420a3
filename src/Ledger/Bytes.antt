-- ===== src/Ledger/Bytes.antt =====
-- utils/Utils.java: bytes of numbers, and hexadecimal text. A byte, an int and a long are bit
-- patterns; a character is its code. An IllegalArgumentException is `none`.
pub mod RoundTrip
use scale_out_distributed_le.Common.{
  ℕ, ◌+◌, ◌-◌, ◌*◌, ◌/◌, ◌%◌, ◌^◌, Bool, true, false, not, ◌&&◌, Option, none, some, List, [], ◌∷◌,
  leb, ltb, ◌==◌, if◌then◌else◌, length,
}
use scale_out_distributed_le.Js.Decimal.{Text}

unfoldable pub int_to_byte_array : ℕ → List ℕ
int_to_byte_array n = n / 2 ^ 24 % 256 ∷ n / 2 ^ 16 % 256 ∷ n / 2 ^ 8 % 256 ∷ n % 256 ∷ []

unfoldable pub long_to_byte_array : ℕ → List ℕ
long_to_byte_array n =
    n / 2 ^ 56 % 256
    ∷ n / 2 ^ 48 % 256
    ∷ n / 2 ^ 40 % 256
    ∷ n / 2 ^ 32 % 256
    ∷ n / 2 ^ 24 % 256
    ∷ n / 2 ^ 16 % 256
    ∷ n / 2 ^ 8 % 256
    ∷ n % 256
    ∷ []

-- `HEX[d]`
abbrev pub hex_digit : ℕ → ℕ
hex_digit d = if ltb d 10 then b'0' + d else b'a' + (d - 10)

unfoldable pub bytes_to_hex_string : List ℕ → Text
bytes_to_hex_string [] = []
bytes_to_hex_string (b ∷ bs) = hex_digit (b / 16 % 16) ∷ hex_digit (b % 16) ∷ bytes_to_hex_string bs

unfoldable pub hex_to_bin : ℕ → Option ℕ
hex_to_bin ch =
    if leb b'0' ch && leb ch b'9'
    then some (ch - b'0')
    else if leb b'A' ch && leb ch b'F'
    then some (ch - b'A' + 10)
    else if leb b'a' ch && leb ch b'f'
    then some (ch - b'a' + 10)
    else none

-- The loop over two characters at a time.
unfoldable pub bytes_of_pairs : Text → Option (List ℕ)
unfolding hex_to_bin
bytes_of_pairs [] = some []
bytes_of_pairs (c ∷ []) = none
bytes_of_pairs (c ∷ d ∷ hex) =
    let rest = bytes_of_pairs hex in
    elim (hex_to_bin c) [
      | none ↦ none
      | some high ↦ elim (hex_to_bin d) [
        | none ↦ none
        | some low ↦ elim rest [ none ↦ none | some bytes ↦ some ((high * 16 + low) % 256 ∷ bytes) ]
      ]
    ]

unfoldable pub hex_string_to_bytes : Text → Option (List ℕ)
unfolding bytes_of_pairs
hex_string_to_bytes hex = if not (length hex % 2 == 0) then none else bytes_of_pairs hex
