-- ===== src/Ledger/TransactionTuple.antt =====
-- TransactionTuple.java: transactions that are sources together, with what they are worth to the
-- node that creates a transaction. The amount is an int, though transactions have longs. The bit sets
-- of chains, their union and the chains that a transaction requires are arguments, which
-- TransactionCreator/Search fills; an exception is `none`.
pub mod Amount
pub mod Picked
use scale_out_distributed_le.Common.{
  ℕ, ◌+◌, Bool, true, false, not, ◌&&◌, Option, none, some, if◌then◌else◌,
}
use Prim.Native.Nat.{Ordering}
use scale_out_distributed_le.Ledger.Word.{add_long, long_of_int, int_of_long, add_int}
use scale_out_distributed_le.Ledger.Transaction.{
  Transaction, Sources, nil, cons, amount, remainder, compare_to, contains,
}
use scale_out_distributed_le.Ledger.LocalStore.{is_receiver, is_sender}

pub record TransactionTuple {ℓ} (BitSet : Type ℓ) : Type ℓ where
  pub amount : ℕ
  pub transactions : Sources
  pub chains_required : Option BitSet

-- `add` of a TreeSet for a transaction that it does not contain.
unfoldable pub insert : Transaction → Sources → Sources
insert t nil = cons t nil
insert t (cons s ss) =
    let rest = insert t ss in
    elim (compare_to t s) [ Ordering.lt ↦ cons t (cons s ss) | _ ↦ cons s rest ]

-- `addAll` of a TreeSet
unfoldable pub insert_all : Sources → (others : Sources) → Sources
unfolding insert
insert_all ss nil = ss
insert_all ss (cons t ts) = insert_all (if contains ss t then ss else insert t ss) ts

-- `sum += value` of an int and a long
abbrev pub add_to_int : (sum value : ℕ) → ℕ
add_to_int sum value = int_of_long (add_long (long_of_int sum) value)

-- The amount with what a transaction is worth to the node.
abbrev pub amount_with : (own : ℕ) → Transaction → (sum : ℕ) → ℕ
amount_with own t sum =
    let sum = if is_sender own t then add_to_int sum (remainder t) else sum in
    if is_receiver own t then add_to_int sum (amount t) else sum

module _ {ℓ} {BitSet : Type ℓ} (own : ℕ) where
  unfoldable pub add_transaction_and_amount :
      TransactionTuple BitSet → Transaction → Option (TransactionTuple BitSet × Bool)
  unfolding insert contains
  add_transaction_and_amount tuple t =
      if not (is_sender own t) && not (is_receiver own t)
      then none
      else if contains tuple.transactions t
      then some (tuple, false)
      else some (
        record tuple {
          transactions = insert t tuple.transactions;
          amount = amount_with own t tuple.amount;
        },
        true,
      )

  unfoldable pub add_each : TransactionTuple BitSet → Sources → Option (TransactionTuple BitSet)
  unfolding add_transaction_and_amount
  add_each tuple nil = some tuple
  add_each tuple (cons t ts) = elim (add_transaction_and_amount tuple t) [
    | none ↦ none
    | some (tuple', _) ↦ add_each tuple' ts
  ]

  -- The constructor from two tuples.
  unfoldable pub combined :
      (tuple1 tuple2 : TransactionTuple BitSet)
      → (chains : BitSet) → Option (TransactionTuple BitSet)
  unfolding add_each
  combined tuple1 tuple2 chains =
      elim (add_each (record { amount = 0; transactions = nil; chains_required = some chains })
        tuple1.transactions) [ none ↦ none | some first ↦ add_each first tuple2.transactions ]

  unfoldable pub merge_non_overlapping_same_chains_tuple :
      (tuple other : TransactionTuple BitSet) → TransactionTuple BitSet
  unfolding insert_all
  merge_non_overlapping_same_chains_tuple tuple other = record tuple {
    transactions = insert_all tuple.transactions other.transactions;
    amount = add_int tuple.amount other.amount;
  }

  module _ (or : BitSet → BitSet → BitSet) (chains_of : Transaction → Option BitSet) where
    abbrev pub or_null : Option BitSet → BitSet → BitSet
    or_null none chains = chains
    or_null (some old) chains = or old chains

    unfoldable pub add_transaction :
        TransactionTuple BitSet → Transaction → Option (TransactionTuple BitSet)
    unfolding add_transaction_and_amount
    add_transaction tuple t = elim (add_transaction_and_amount tuple t) [
      | none ↦ none
      | some (tuple', false) ↦ some tuple'
      | some (tuple', true) ↦ elim (chains_of t) [
        | none ↦ none
        | some chains ↦
            some (record tuple' { chains_required = some (or_null tuple'.chains_required chains) })
      ]
    ]

    unfoldable pub new_tuple : Transaction → Option (TransactionTuple BitSet)
    unfolding add_transaction
    new_tuple t =
        add_transaction (record { amount = 0; transactions = nil; chains_required = none }) t
