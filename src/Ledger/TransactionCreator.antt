-- ===== src/Ledger/TransactionCreator.antt =====
-- TransactionCreator.java: `createTransaction`. The result of `bestSources` (Search) is an
-- argument; a NotEnoughMoneyException is `none`.
pub mod Created
pub mod Search
use scale_out_distributed_le.Common.{
  ℕ, Bool, true, false, ◌||◌, Option, none, some, List, [], ◌∷◌, ◌==◌, if◌then◌else◌,
}
use scale_out_distributed_le.Ledger.Word.{sub_long, lt_long, long_of_int}
use scale_out_distributed_le.Ledger.Transaction.{Transaction, Sources, transaction, nil, cons}
use scale_out_distributed_le.Ledger.LocalStore.{
  LocalStore, add_unspent_transaction, remove_unspent_transactions, get_new_transaction_id,
}
use scale_out_distributed_le.Ledger.TransactionTuple.{TransactionTuple}

-- The elements of a set in order.
abbrev pub elements : Sources → List Transaction
elements nil = []
elements (cons t ts) = t ∷ elements ts

-- `createTransaction` with the sources it uses: they are taken from the store, and the transaction is
-- added where it leaves a remainder or is sent to the node itself.
unfoldable pub created_from :
    LocalStore → (receiver amount remainder : ℕ) → Sources → LocalStore × Transaction
unfolding remove_unspent_transactions get_new_transaction_id add_unspent_transaction lt_long
created_from store receiver amount remainder sources =
    let (numbered, number) =
      get_new_transaction_id (remove_unspent_transactions store (elements sources)) in
    let t = transaction number (some store.own_node) receiver amount remainder sources none in
    (
      if lt_long 0 remainder || receiver == store.own_node
          then add_unspent_transaction numbered t
          else numbered,
      t,
    )

unfoldable pub create_transaction {ℓ} :
    {BitSet : Type ℓ}
    → (best_sources : Option (TransactionTuple BitSet)) → LocalStore
    → (receiver amount : ℕ) → Option (LocalStore × Transaction)
unfolding created_from sub_long long_of_int
create_transaction best_sources store receiver amount =
    if lt_long store.available_money amount then none else elim best_sources [
      | none ↦ none
      | some sources ↦ some (
          created_from store receiver amount (sub_long (long_of_int sources.amount) amount)
            sources.transactions)
    ]
