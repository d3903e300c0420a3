-- ===== src/Ledger/TransactionTuple/Amount.antt =====
-- The amount of a tuple against what its transactions are worth.
use scale_out_distributed_le.Common.{
  ℕ, ◌+◌, ◌%◌, ◌^◌, ◌<◌, ◌≤◌, ◌==◌, ◌≡◌, refl, sym, ap, ◌∙◌, subst, Bool, true, false, ◌||◌, Option,
  none, some, arith, Bool-cases, Option-cases, some_injective, inl, inr,
}
use scale_out_distributed_le.Ledger.Word.{add_long, long_of_int, int_of_long, add_int, lt_long}
use scale_out_distributed_le.Ledger.Transaction.{
  Transaction, Sources, transaction, compare_to, nil, cons, contains, is_same, amount, remainder,
}
use scale_out_distributed_le.Ledger.LocalStore.Balance.{holding}
use scale_out_distributed_le.Ledger.LocalStore.Spending.{holdings_of}
use scale_out_distributed_le.Ledger.TransactionTuple.{
  TransactionTuple, insert, insert_all, add_to_int, amount_with, add_transaction_and_amount,
  add_each, combined, merge_non_overlapping_same_chains_tuple, add_transaction, new_tuple,
}

-- The amount of a tuple is what its transactions are worth to the node, as an int.
abbrev pub IsCounted {ℓ} : {BitSet : Type ℓ} → (own : ℕ) → TransactionTuple BitSet → Type 0
IsCounted own tuple = tuple.amount ≡ holdings_of own tuple.transactions % 2 ^ 32

add_to_int-mod : (n v : ℕ) → add_to_int (n % 2 ^ 32) v ≡ (n + v) % 2 ^ 32
unfolding add_long long_of_int int_of_long
add_to_int-mod n v = ground arith

pub amount_with-mod :
    (own : ℕ) (t : Transaction) (n : ℕ)
    → amount_with own t (n % 2 ^ 32) ≡ (n + holding own t) % 2 ^ 32
amount_with-mod own t n = ground (
  arith,
  add_to_int-mod n (remainder t),
  add_to_int-mod n (amount t),
  add_to_int-mod (n + remainder t) (amount t),
)

pub holdings_of-insert :
    (own : ℕ) (t : Transaction) (ss : Sources)
    → holdings_of own (insert t ss) ≡ holdings_of own ss + holding own t
unfolding insert
holdings_of-insert own t nil = omega arith
holdings_of-insert own t (cons s ss) = ground (arith, holdings_of-insert own t ss)

pub contains-insert :
    (t u : Transaction) (ss : Sources) → contains (insert t ss) u ≡ (is_same u t || contains ss u)
unfolding insert contains
contains-insert t u nil = ground arith
contains-insert t u (cons s ss) = ground (arith, contains-insert t u ss)

is_same-congr : (u t s : Transaction) → is_same u t ≡ true → is_same u s ≡ is_same t s
unfolding compare_to
is_same-congr (transaction un none ur ua um us ub) (transaction tn none tr ta tm ts tb)
      (transaction sn none sr sa sm ss sb) e =
    refl
is_same-congr (transaction un none ur ua um us ub) (transaction tn none tr ta tm ts tb)
      (transaction sn (some x) sr sa sm ss sb) e =
    refl
is_same-congr (transaction un none ur ua um us ub) (transaction tn (some y) tr ta tm ts tb) s e =
    ground arith
is_same-congr (transaction un (some x) ur ua um us ub) (transaction tn none tr ta tm ts tb) s e =
    ground arith
is_same-congr (transaction un (some x) ur ua um us ub) (transaction tn (some y) tr ta tm ts tb)
      (transaction sn none sr sa sm ss sb) e =
    refl
is_same-congr (transaction un (some x) ur ua um us ub) (transaction tn (some y) tr ta tm ts tb)
      (transaction sn (some z) sr sa sm ss sb) e =
    ground arith

contains-congr :
    (u t : Transaction) (ss : Sources) → is_same u t ≡ true → contains ss u ≡ contains ss t
unfolding contains
contains-congr u t nil e = refl
contains-congr u t (cons s ss) e = ground (arith, is_same-congr u t s e, contains-congr u t ss e)

module _ {ℓ} {BitSet : Type ℓ} (own : ℕ) where
  -- The tuple is counted and contains what the first one does, and the transactions of a set.
  abbrev pub Adds : (tuple tuple' : TransactionTuple BitSet) → (ts : Sources) → Type 0
  Adds tuple tuple' ts =
      IsCounted own tuple'
      × ((u : Transaction)
          → contains tuple'.transactions u ≡ (contains tuple.transactions u || contains ts u))

  pub add_transaction_and_amount-Adds :
      (tuple tuple' : TransactionTuple BitSet) (t : Transaction) (added : Bool)
      → add_transaction_and_amount own tuple t ≡ some (tuple', added)
      → IsCounted own tuple
      → Adds tuple tuple' (cons t nil)
  unfolding add_transaction_and_amount contains
  add_transaction_and_amount-Adds tuple tuple' t added e h =
      let more = record tuple {
        transactions = insert t tuple.transactions;
        amount = amount_with own t tuple.amount;
      } in
      elim (Bool-cases (contains tuple.transactions t)) [
        | inl old ↦
            let same =
              some_injective {A = TransactionTuple BitSet × Bool} (tuple, false) (tuple', added)
                (ground (arith, old)) in
            subst (λ x. Adds tuple x (cons t nil)) (ap (λ p. p.0) same)
              (h, λ u. ground (arith, old, contains-congr u t tuple.transactions))
        | inr new ↦
            let same =
              some_injective {A = TransactionTuple BitSet × Bool} (more, true) (tuple', added)
                (ground (arith, new)) in
            subst (λ x. Adds tuple x (cons t nil)) (ap (λ p. p.0) same)
              (
                ap (amount_with own t) h
                    ∙ amount_with-mod own t (holdings_of own tuple.transactions)
                    ∙ ap (λ n. n % 2 ^ 32) (sym (holdings_of-insert own t tuple.transactions)),
                λ u. ground (arith, contains-insert t u tuple.transactions),
              )
      ]

  add_each-Adds :
      (tuple tuple' : TransactionTuple BitSet) (ts : Sources)
      → add_each own tuple ts ≡ some tuple'
      → IsCounted own tuple
      → Adds tuple tuple' ts
  unfolding add_each contains
  add_each-Adds tuple tuple' nil e h =
      subst (λ x. Adds tuple x nil) (some_injective tuple tuple' e) (h, λ u. ground arith)
  add_each-Adds tuple tuple' (cons t ts) e h =
      elim (Option-cases (add_transaction_and_amount own tuple t)) [
        | inl refused ↦ ground (arith, refused)
        | inr ((next, added), done) ↦
            let (first, holds) = add_transaction_and_amount-Adds tuple next t added done h in
            let (counted, rest) = add_each-Adds next tuple' ts (ground (arith, done)) first in
            (counted, λ u. ground (arith, rest u, holds u))
      ]

  -- A tuple made from two tuples has the amount, as an int, that its transactions are worth to the
  -- node, each counted once, and contains a transaction exactly when one of the two does.
  pub combined-Adds :
      (tuple1 tuple2 tuple : TransactionTuple BitSet) (chains : BitSet)
      → combined own tuple1 tuple2 chains ≡ some tuple
      → (tuple.amount ≡ holdings_of own tuple.transactions % 2 ^ 32)
        × ((u : Transaction)
            → contains tuple.transactions u
              ≡ (contains tuple1.transactions u || contains tuple2.transactions u))
  unfolding combined contains
  combined-Adds tuple1 tuple2 tuple chains e =
      let empty : TransactionTuple BitSet = record {
        amount = 0;
        transactions = nil;
        chains_required = some chains;
      } in
      elim (Option-cases (add_each own empty tuple1.transactions)) [
        | inl refused ↦ ground (arith, refused)
        | inr (first, done) ↦
            let (counted, holds) = add_each-Adds empty first tuple1.transactions done refl in
            let (all, rest) =
              add_each-Adds first tuple tuple2.transactions (ground (arith, done)) counted in
            (all, λ u. ground (arith, rest u, holds u))
      ]

  -- A transaction that the node received from another, worth 2 ^ 31 or more and less than 2 ^ 32,
  -- with the chains that it requires, makes a tuple whose amount reads as negative: it is less than
  -- whatever is to be sent, from 0 up, though the store counts the transaction in full.
  pub new_tuple_overflows :
      (or : BitSet → BitSet → BitSet) (chains_of : Transaction → Option BitSet)
      (n s a m to_send : ℕ) (ss : Sources) (b : Option ℕ) (chains : BitSet)
      → own == s ≡ false
      → 2 ^ 31 ≤ a
      → a < 2 ^ 32
      → to_send < 2 ^ 63
      → chains_of (transaction n (some s) own a m ss b) ≡ some chains
      → let t = transaction n (some s) own a m ss b in
        (holding own t ≡ a)
        × ((tuple : TransactionTuple BitSet) × (new_tuple own or chains_of t ≡ some tuple)
            × (lt_long (long_of_int tuple.amount) to_send ≡ true))
  unfolding new_tuple add_transaction add_transaction_and_amount contains lt_long long_of_int
      add_long int_of_long insert
  new_tuple_overflows or chains_of n s a m to_send ss b chains other low high bound required =
      let t = transaction n (some s) own a m ss b in
      let made : TransactionTuple BitSet = record {
        amount = a;
        transactions = cons t nil;
        chains_required = some chains;
      } in
      let exact : amount_with own t 0 ≡ a = ground (arith, other) in
      (ground (arith, other), (made, ground (arith, other, exact, required), ground arith))

-- No transaction of the second set is in the first one, and none is in it twice.
abbrev pub AllNew : Sources → Sources → Type 0
AllNew ss nil = Unit
AllNew ss (cons t ts) = (contains ss t ≡ false) × AllNew (insert t ss) ts

holdings_of-insert_all :
    (own : ℕ) (ss ts : Sources)
    → AllNew ss ts
    → holdings_of own (insert_all ss ts) ≡ holdings_of own ss + holdings_of own ts
unfolding insert_all
holdings_of-insert_all own ss nil h = omega arith
holdings_of-insert_all own ss (cons t ts) h =
    rw h.0
      (ground (arith, holdings_of-insert own t ss, holdings_of-insert_all own (insert t ss) ts h.1))

-- Merging a tuple into another one with none of its transactions adds the amounts.
pub merge-IsCounted {ℓ} :
    {BitSet : Type ℓ} (own : ℕ) (tuple other : TransactionTuple BitSet)
    → AllNew tuple.transactions other.transactions
    → IsCounted own tuple
    → IsCounted own other
    → IsCounted own (merge_non_overlapping_same_chains_tuple own tuple other)
unfolding merge_non_overlapping_same_chains_tuple add_int
merge-IsCounted own tuple other new a b =
    ground (arith, a, b, holdings_of-insert_all own tuple.transactions other.transactions new)
