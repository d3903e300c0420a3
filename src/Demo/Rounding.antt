-- ===== src/Demo/Rounding.antt =====
-- What the page shows of a server's averages.
use scale_out_distributed_le.Common.{ℕ, ◌+◌, ◌*◌, ◌≤◌, ◌<◌, arith}
use native.Mathlib.Nat.{div-add-mod, mod-lt}
use scale_out_distributed_le.Transactions.{ratio}
use scale_out_distributed_le.Demo.{hundredths}

-- The number of hundredths `h` is the quotient `a / n`, rounded to the nearest with halves up.
abbrev pub IsRounded : (h a n : ℕ) → Type 0
IsRounded h a n = (2 * n * h ≤ 200 * a + n) × (200 * a + n < 2 * n * h + 2 * n)

pub hundredths-IsRounded : (a n : ℕ) → 0 < n → IsRounded (hundredths (ratio a n)) a n
unfolding hundredths
hundredths-IsRounded a n h =
    omega (arith, div-add-mod (200 * a + n) (2 * n), mod-lt (200 * a + n) {m = 2 * n} (omega arith))
