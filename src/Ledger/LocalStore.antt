-- ===== src/Ledger/LocalStore.antt =====
-- LocalStore.java: the unspent transactions of a node and the money that it has. The set is a list
-- without two equal elements.
pub mod Balance
pub mod Spending
use scale_out_distributed_le.Common.{
  ℕ, ◌+◌, ◌%◌, ◌^◌, Bool, true, false, Option, none, some, List, [], ◌∷◌, ◌++◌, ◌==◌, if◌then◌else◌,
}
use scale_out_distributed_le.Ledger.Word.{add_long, sub_long}
use scale_out_distributed_le.Ledger.Transaction.{
  Transaction, sender, receiver, amount, remainder, id_eq, equals,
}

-- `available_money` is a long and `transaction_id` an int, as bit patterns.
pub record LocalStore : Type 0 where
  pub own_node : ℕ
  pub unspent : List Transaction
  pub available_money : ℕ
  pub transaction_id : ℕ

-- `unspent.contains(t)`
unfoldable pub has : Transaction → List Transaction → Bool
has t [] = false
has t (o ∷ os) = if equals t o then true else has t os

-- `unspent.remove(t)`
unfoldable pub without : Transaction → List Transaction → List Transaction
without t [] = []
without t (o ∷ os) = if equals t o then os else o ∷ without t os

-- The node is the receiver, or the sender, of a transaction.
abbrev pub is_receiver : ℕ → Transaction → Bool
is_receiver own t = own == receiver t

abbrev pub is_sender : ℕ → Transaction → Bool
is_sender own t = id_eq (some own) (sender t)

abbrev pub money_added : (own : ℕ) → Transaction → (money : ℕ) → ℕ
money_added own t money =
    let money = if is_receiver own t then add_long money (amount t) else money in
    if is_sender own t then add_long money (remainder t) else money

abbrev pub money_removed : (own : ℕ) → Transaction → (money : ℕ) → ℕ
money_removed own t money =
    let money = if is_receiver own t then sub_long money (amount t) else money in
    if is_sender own t then sub_long money (remainder t) else money

unfoldable pub add_unspent_transaction : LocalStore → Transaction → LocalStore
unfolding has
add_unspent_transaction store t = if has t store.unspent then store else record store {
  unspent = store.unspent ++ t ∷ [];
  available_money = money_added store.own_node t store.available_money;
}

-- The loop of `removeUnspentTransactions`, and its body.
unfoldable pub remove_unspent_transaction : LocalStore → Transaction → LocalStore
unfolding has without
remove_unspent_transaction store t =
    if has t store.unspent
    then record store {
      unspent = without t store.unspent;
      available_money = money_removed store.own_node t store.available_money;
    }
    else store

unfoldable pub remove_unspent_transactions : LocalStore → List Transaction → LocalStore
unfolding remove_unspent_transaction
remove_unspent_transactions store [] = store
remove_unspent_transactions store (t ∷ ts) =
    remove_unspent_transactions (remove_unspent_transaction store t) ts

-- `transactionId++`, with the value before.
unfoldable pub get_new_transaction_id : LocalStore → LocalStore × ℕ
get_new_transaction_id store =
    (record store { transaction_id = (store.transaction_id + 1) % 2 ^ 32 }, store.transaction_id)
