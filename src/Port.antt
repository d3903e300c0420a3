-- ===== src/Port.antt =====
-- The port of tracker-server/app.js: `normalizePort`, over the code points of its text, and the
-- part of the language's `parseInt` with radix 10 that it uses. Numbers are not rounded to doubles.
pub mod Laws
use scale_out_distributed_le.Common.{
  ℕ, Bool, true, false, ◌&&◌, ◌||◌, Option, none, some, List, [], ◌∷◌, leb, ◌==◌, if◌then◌else◌,
}
use scale_out_distributed_le.Js.Decimal.{Text, codes, digits_value}

-- The white space and line ends that `parseInt` passes over.
abbrev spaces : List ℕ
spaces =
    9 ∷ 10 ∷ 11 ∷ 12 ∷ 13 ∷ 32 ∷ 160 ∷ 5760 ∷ 8192 ∷ 8193 ∷ 8194 ∷ 8195 ∷ 8196 ∷ 8197 ∷ 8198 ∷ 8199
    ∷ 8200 ∷ 8201 ∷ 8202 ∷ 8232 ∷ 8233 ∷ 8239 ∷ 8287 ∷ 12288 ∷ 65279 ∷ []

contains : ℕ → List ℕ → Bool
contains c [] = false
contains c (d ∷ ds) = c == d || contains c ds

unfoldable pub is_space : ℕ → Bool
unfolding contains
is_space c = contains c spaces

abbrev pub is_digit : ℕ → Bool
is_digit c = leb b'0' c && leb c b'9'

unfoldable pub trim_start : Text → Text
trim_start [] = []
trim_start (c ∷ s) = if is_space c then trim_start s else c ∷ s

unfoldable pub leading_digits : Text → Text
leading_digits [] = []
leading_digits (c ∷ s) = let rest = leading_digits s in if is_digit c then c ∷ rest else []

-- The result of `parseInt`: NaN, or a sign and a magnitude; `minus 0` is -0.
pub data Parsed : Type 0 where
  nan : Parsed
  plus : ℕ → Parsed
  minus : ℕ → Parsed

unsigned : (ℕ → Parsed) → Text → Parsed
unsigned sign [] = nan
unsigned sign (c ∷ s) = sign (digits_value 0 (c ∷ s))

signed : Text → Parsed
signed [] = nan
signed (c ∷ s) =
    if c == b'-'
    then unsigned minus (leading_digits s)
    else if c == b'+'
    then unsigned plus (leading_digits s)
    else unsigned plus (leading_digits (c ∷ s))

unfoldable pub parse_int : Text → Parsed
unfolding signed unsigned trim_start leading_digits digits_value
parse_int val = signed (trim_start val)

-- `normalizePort` returns its argument, a number or false.
pub data Port : Type 0 where
  named_pipe : Text → Port
  port : ℕ → Port
  no_port : Port

abbrev port_of : Text → Parsed → Port
port_of val nan = named_pipe val
port_of val (plus n) = port n
port_of val (minus n) = if n == 0 then port 0 else no_port

unfoldable pub normalize_port : Text → Port
unfolding parse_int
normalize_port val = port_of val (parse_int val)

-- `normalizePort(process.env.PORT || '3000')`
unfoldable pub configured_port : Option Text → Port
unfolding normalize_port
configured_port none = normalize_port (codes "3000")
configured_port (some []) = normalize_port (codes "3000")
configured_port (some (c ∷ s)) = normalize_port (c ∷ s)
