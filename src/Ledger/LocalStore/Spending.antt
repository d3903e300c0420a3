-- ===== src/Ledger/LocalStore/Spending.antt =====
-- Transactions that spend what a store counts, under the check of the node that receives them.
use scale_out_distributed_le.Common.{
  ℕ, ◌+◌, ◌^◌, ◌<◌, ◌≡◌, refl, ◌∙◌, true, false, not, Option, none, some, arith, Bool-cases, inl,
  inr,
}
use scale_out_distributed_le.Ledger.Transaction.{
  Transaction, Sources, transaction, source, sender, amount, remainder, id_eq, cons, nil,
}
use scale_out_distributed_le.Ledger.LocalStore.{is_receiver, is_sender}
use scale_out_distributed_le.Ledger.LocalStore.Balance.{holding}
use scale_out_distributed_le.Ledger.Verification.{worth, check_money}
use scale_out_distributed_le.Ledger.Verification.Money.{
  Involved, total, check_money_iff, check_money-total,
}

-- Every source involves the node, as its sender or as its receiver and not as both.
abbrev pub OneSided : (own : ℕ) → Sources → Type 0
OneSided own nil = Unit
OneSided own (cons t ts) = (is_receiver own t ≡ not (is_sender own t)) × OneSided own ts

abbrev pub holdings_of : (own : ℕ) → Sources → ℕ
holdings_of own nil = 0
holdings_of own (cons t ts) = holding own t + holdings_of own ts

id_eq_symm : (a b : Option ℕ) → id_eq a b ≡ id_eq b a
id_eq_symm none none = refl
id_eq_symm none (some b) = refl
id_eq_symm (some a) none = refl
id_eq_symm (some a) (some b) = ground arith

worth-holding :
    (own : ℕ) (t : Transaction)
    → is_receiver own t ≡ not (is_sender own t)
    → worth own t ≡ some (holding own t)
unfolding worth
worth-holding own t h = ground (arith, id_eq_symm (some own) (sender t))

total-holdings :
    (own : ℕ) (ss : Sources)
    → OneSided own ss
    → Involved own ss × (total own ss ≡ holdings_of own ss)
total-holdings own nil h = (tt, refl)
total-holdings own (cons t ts) h =
    let (rest, sum) = total-holdings own ts h.1 in
    let w = worth-holding own t h.0 in ((ground (arith, w), rest), ground (arith, w, sum))

-- A transaction whose amount and remainder are what the store counts for its sources, below 2 ^ 63,
-- passes `checkMoney`, where no source was sent by the node to itself.
pub spend_passes :
    (own : ℕ) (t : Transaction)
    → OneSided own (source t)
    → amount t + remainder t < 2 ^ 63
    → holdings_of own (source t) ≡ amount t + remainder t
    → check_money own t ≡ true
spend_passes own t h bound e =
    let (involved, sum) = total-holdings own (source t) h in
    (check_money_iff own t bound (omega arith)).1 (involved, sum ∙ e)

-- A transaction with one source that the node sent to itself, with a remainder, and that spends
-- what the store counts for it, the amount and the remainder, is refused by its receiver.
pub self_spend_refused :
    (own n n' r a m amount remainder : ℕ) (ss : Sources) (b b' : Option ℕ)
    → 0 < m
    → m < 2 ^ 64
    → let src = transaction n (some own) own a m ss b in
      amount + remainder ≡ holding own src
      → check_money own (transaction n' (some own) r amount remainder (cons src nil) b') ≡ false
unfolding worth
self_spend_refused own n n' r a m amount remainder ss b b' pos bound e =
    let src = transaction n (some own) own a m ss b in
    let t = transaction n' (some own) r amount remainder (cons src nil) b' in
    let counted : holding own src ≡ a + m = ground arith in
    let w : worth own src ≡ some a = ground arith in
    elim (Bool-cases (check_money own t)) [
      | inl passed ↦
          let sum : total own (cons src nil) ≡ a = ground (arith, w) in
          absurd (omega (arith, sum, counted, (check_money-total own t passed).1))
      | inr refused ↦ refused
    ]
