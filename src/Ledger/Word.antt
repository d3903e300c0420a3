-- ===== src/Ledger/Word.antt =====
-- The `int` and `long` of Java as bit patterns: numbers below 2 ^ 32 and 2 ^ 64, with sums that wrap
-- and comparisons that read the highest bit as the sign.
use scale_out_distributed_le.Common.{
  ℕ, ◌+◌, ◌-◌, ◌%◌, ◌^◌, ◌<◌, ◌≡◌, ◌↔◌, Bool, true, arith, ltb, if◌then◌else◌,
}

abbrev pub IsInt : ℕ → Type 0
IsInt n = n < 2 ^ 32

abbrev pub IsLong : ℕ → Type 0
IsLong n = n < 2 ^ 64

unfoldable pub add_long : ℕ → ℕ → ℕ
add_long a b = (a + b) % 2 ^ 64

unfoldable pub add_int : ℕ → ℕ → ℕ
add_int a b = (a + b) % 2 ^ 32

unfoldable pub sub_long : ℕ → ℕ → ℕ
sub_long a b = (a + 2 ^ 64 - b) % 2 ^ 64

-- `(int) n`
unfoldable pub int_of_long : ℕ → ℕ
int_of_long n = n % 2 ^ 32

-- The sign is extended.
unfoldable pub long_of_int : ℕ → ℕ
long_of_int n = if ltb n (2 ^ 31) then n else n + 2 ^ 64 - 2 ^ 32

-- `a < b` on longs
unfoldable pub lt_long : ℕ → ℕ → Bool
lt_long a b = ltb (add_long a (2 ^ 63)) (add_long b (2 ^ 63))

-- A sum of money that is not negative and fits an int.
abbrev pub IsMoney : ℕ → Type 0
IsMoney n = n < 2 ^ 31

pub lt_long-IsMoney : (a b : ℕ) → IsMoney a → IsMoney b → (lt_long a b ≡ true) ↔ (a < b)
unfolding lt_long add_long
lt_long-IsMoney a b ha hb = ground arith
