-- ===== src/Ledger/Verification/Money.antt =====
-- `checkMoney`, against the plain sum of what the sources are worth.
use scale_out_distributed_le.Common.{
  ℕ, ◌+◌, ◌-◌, ◌%◌, ◌^◌, ◌<◌, ◌≡◌, ◌≢◌, ◌↔◌, true, Option, none, some, arith, Option-cases, inl,
  inr,
}
use scale_out_distributed_le.Ledger.Word.{add_long, lt_long}
use scale_out_distributed_le.Ledger.Transaction.{
  Transaction, Sources, transaction, nil, cons, amount, remainder, source,
}
use scale_out_distributed_le.Ledger.Verification.{worth, money_from, check_money}

-- Every source involves the sender.
abbrev pub Involved : (sender_id : ℕ) → Sources → Type 0
Involved s nil = Unit
Involved s (cons t ts) = (worth s t ≢ none) × Involved s ts

abbrev pub value_of : Option ℕ → ℕ
value_of none = 0
value_of (some v) = v

-- The sum of what the sources are worth, without a bound.
abbrev pub total : (sender_id : ℕ) → Sources → ℕ
total s nil = 0
total s (cons t ts) = value_of (worth s t) + total s ts

money_from-sum :
    (s expected sum : ℕ) (ss : Sources)
    → sum < 2 ^ 64
    → money_from s expected sum ss ≡ true
    → Involved s ss × ((sum + total s ss) % 2 ^ 64 ≡ expected)
unfolding money_from add_long
money_from-sum s expected sum nil b e = (tt, ground arith)
money_from-sum s expected sum (cons t ts) b e = elim (Option-cases (worth s t)) [
  | inl foreign ↦ ground arith
  | inr (v, own) ↦
      let (rest, adds) =
        money_from-sum s expected (add_long sum v) ts (omega arith) (ground arith) in
      ((ground arith, rest), ground arith)
]

money_from-true :
    (s expected sum : ℕ) (ss : Sources)
    → expected < 2 ^ 63
    → Involved s ss
    → sum + total s ss ≡ expected
    → money_from s expected sum ss ≡ true
unfolding money_from add_long lt_long
money_from-true s expected sum nil b h e = ground arith
money_from-true s expected sum (cons t ts) b h e = elim (Option-cases (worth s t)) [
  | inl foreign ↦ ground arith
  | inr (v, own) ↦
      let exact : (sum + v) % 2 ^ 64 ≡ sum + v = ground arith in
      ground (arith, own, exact, money_from-true s expected (sum + v) ts b h.1)
]

-- The sources of a transaction that passes are all worth something to the sender by their receiver
-- or sender, and together as much, up to multiples of 2 ^ 64, as its amount and its remainder.
pub check_money-total :
    (s : ℕ) (t : Transaction)
    → check_money s t ≡ true
    → Involved s (source t) × (total s (source t) % 2 ^ 64 ≡ (amount t + remainder t) % 2 ^ 64)
unfolding check_money add_long
check_money-total s t e =
    let (involved, adds) =
      money_from-sum s (add_long (amount t) (remainder t)) 0 (source t) (omega arith) e in
    (involved, omega (arith, adds))

-- Where the amount and the remainder, and the sources together, are below 2 ^ 63, `checkMoney`
-- passes exactly when every source involves the sender and the sources are together worth the
-- amount and the remainder.
pub check_money_iff :
    (s : ℕ) (t : Transaction)
    → amount t + remainder t < 2 ^ 63
    → total s (source t) < 2 ^ 63
    → (check_money s t ≡ true)
      ↔ (Involved s (source t) × (total s (source t) ≡ amount t + remainder t))
unfolding check_money add_long
check_money_iff s t a b = (
  λ e. let (involved, adds) = check_money-total s t e in (involved, omega arith),
  λ h.
      money_from-true s (add_long (amount t) (remainder t)) 0 (source t) (omega arith) h.0
        (omega arith),
)

-- No lower bound is checked: a transaction with one source may send a negative amount, here -k, and
-- keep more than the source is worth.
pub check_money_mints :
    (s n r k v : ℕ) (src : Transaction) (b : Option ℕ)
    → worth s src ≡ some v
    → v < 2 ^ 63
    → 0 < k
    → v + k < 2 ^ 63
    → check_money s (transaction n (some s) r (2 ^ 64 - k) (v + k) (cons src nil) b) ≡ true
unfolding check_money money_from add_long lt_long
check_money_mints s n r k v src b w bound pos more =
    let sum : (0 + v) % 2 ^ 64 ≡ v = omega arith in
    let expected : (2 ^ 64 - k + (v + k)) % 2 ^ 64 ≡ v = omega arith in
    ground (arith, w, sum, expected)
