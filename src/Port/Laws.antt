-- ===== src/Port/Laws.antt =====
-- Which texts `normalizePort` reads as a port.
use scale_out_distributed_le.Common.{ℕ, ◌<◌, ◌≡◌, ◌≢◌, refl, true, false, [], ◌∷◌, ◌++◌, arith, All}
use scale_out_distributed_le.Js.Decimal.{
  Text, IsDigit, to_string, to_string-IsDigit, to_string-ne-nil, digits_value,
  digits_value-to_string,
}
use scale_out_distributed_le.Port.{
  is_space, is_digit, trim_start, leading_digits, Parsed, plus, minus, unsigned, signed, port,
  no_port, normalize_port,
}

-- The text does not go on with a digit.
abbrev pub EndsDigits : Text → Type 0
EndsDigits [] = Unit
EndsDigits (c ∷ s) = is_digit c ≡ false

abbrev pub AllSpaces : Text → Type 0
AllSpaces = All (λ c. is_space c ≡ true)

-- A digit and a sign are no space.
digit-not_space : (c : ℕ) → IsDigit c → is_space c ≡ false
unfolding is_space
digit-not_space c h = ground arith

trim-spaces : (w s : Text) → AllSpaces w → trim_start (w ++ s) ≡ trim_start s
unfolding trim_start
trim-spaces [] s h = refl
trim-spaces (c ∷ w) s h = rw h.0 (trim-spaces w s h.1)

digits-leading : (d rest : Text) → All IsDigit d → EndsDigits rest → leading_digits (d ++ rest) ≡ d
unfolding leading_digits
digits-leading [] [] h e = refl
digits-leading [] (c ∷ rest) h e = rw e
digits-leading (c ∷ d) rest h e = ground (arith, digits-leading d rest h.1 e)

unsigned-digits :
    (sign : ℕ → Parsed) (d : Text) → d ≢ [] → unsigned sign d ≡ sign (digits_value 0 d)
unfolding unsigned
unsigned-digits sign [] h = absurd (h refl)
unsigned-digits sign (c ∷ d) h = refl

-- A run of digits is read as its number, a minus sign before it as the sign.
signed-digits :
    (d rest : Text)
    → All IsDigit d
    → d ≢ []
    → EndsDigits rest
    → (trim_start (d ++ rest) ≡ d ++ rest) × (signed (d ++ rest) ≡ plus (digits_value 0 d))
unfolding trim_start signed
signed-digits [] rest h ne e = absurd (ne refl)
signed-digits (c ∷ d) rest h ne e =
    ground (
      arith,
      digit-not_space c h.0,
      digits-leading (c ∷ d) rest h e,
      unsigned-digits plus (c ∷ d) ne,
    )

minus-digits :
    (d rest : Text)
    → All IsDigit d
    → d ≢ []
    → EndsDigits rest
    → (trim_start (b'-' ∷ (d ++ rest)) ≡ b'-' ∷ (d ++ rest))
      × (signed (b'-' ∷ (d ++ rest)) ≡ minus (digits_value 0 d))
unfolding trim_start signed is_space
minus-digits d rest h ne e = (refl, rw (digits-leading d rest h e) (unsigned-digits minus d ne))

-- White space, the decimal print of a number and anything that does not go on with a digit is read
-- as the port with that number.
normalize_port-number :
    (w : Text) (n : ℕ) (rest : Text)
    → AllSpaces w
    → EndsDigits rest
    → normalize_port (w ++ (to_string n ++ rest)) ≡ port n
unfolding normalize_port
normalize_port-number w n rest h e =
    let (untrimmed, read) =
      signed-digits (to_string n) rest (to_string-IsDigit n) (to_string-ne-nil n) e in
    ground (arith, trim-spaces w (to_string n ++ rest) h, untrimmed, read, digits_value-to_string n)

-- White space, a minus sign, the decimal print of a positive number and anything that does not go
-- on with a digit is read as no port.
pub normalize_port-negative :
    (w : Text) (n : ℕ) (rest : Text)
    → AllSpaces w
    → 0 < n
    → EndsDigits rest
    → normalize_port (w ++ b'-' ∷ (to_string n ++ rest)) ≡ no_port
unfolding normalize_port
normalize_port-negative w n rest h pos e =
    let (untrimmed, read) =
      minus-digits (to_string n) rest (to_string-IsDigit n) (to_string-ne-nil n) e in
    ground (
      arith,
      trim-spaces w (b'-' ∷ (to_string n ++ rest)) h,
      untrimmed,
      read,
      digits_value-to_string n,
    )
