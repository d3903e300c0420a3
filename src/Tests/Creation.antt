-- ===== src/Tests/Creation.antt =====
-- The theorems on the creation of transactions, at inputs that meet their hypotheses.
use scale_out_distributed_le.Common.{◌≡◌, refl, Bool, true, ◌||◌, none, some, [], ◌∷◌, arith}
use scale_out_distributed_le.Ledger.Word.{
  add_long, sub_long, lt_long, add_int, int_of_long, long_of_int,
}
use scale_out_distributed_le.Ledger.Transaction.{
  Transaction, transaction, nil, cons, compare_to, contains, contains_all, size, equals,
}
use scale_out_distributed_le.Ledger.LocalStore.{
  LocalStore, has, without, add_unspent_transaction, remove_unspent_transaction,
  remove_unspent_transactions, get_new_transaction_id,
}
use scale_out_distributed_le.Ledger.LocalStore.Balance.{holding}
use scale_out_distributed_le.Ledger.TransactionTuple.{
  TransactionTuple, insert, add_transaction_and_amount, add_each, combined, add_transaction,
  new_tuple,
}
use scale_out_distributed_le.Ledger.TransactionTuple.Amount.{new_tuple_overflows}
use scale_out_distributed_le.Ledger.TransactionCreator.{created_from, create_transaction}
use scale_out_distributed_le.Ledger.TransactionCreator.Created.{create_transaction-money}

unfoldable creation : Unit {0}
unfolding add_long sub_long lt_long add_int int_of_long long_of_int compare_to contains contains_all
    size equals has without add_unspent_transaction remove_unspent_transaction
    remove_unspent_transactions get_new_transaction_id insert add_transaction_and_amount add_each
    combined add_transaction new_tuple created_from create_transaction
creation = tt

-- Node 0 received 60 and 50, and sends 80 to node 1.
abbrev sixty : Transaction
sixty = transaction 3 (some 1) 0 60 5 nil (some 2)

abbrev fifty : Transaction
fifty = transaction 4 (some 2) 0 50 0 nil (some 7)

abbrev both : TransactionTuple Bool
both = record {
  amount = 110;
  transactions = cons sixty (cons fifty nil);
  chains_required = some true;
}

abbrev before : LocalStore
before = record {
  own_node = 0;
  unspent = fifty ∷ sixty ∷ [];
  available_money = 110;
  transaction_id = 9;
}

abbrev sends : Transaction
sends = transaction 9 (some 0) 1 80 30 (cons sixty (cons fifty nil)) none

abbrev afterwards : LocalStore
afterwards = record {
  own_node = 0;
  unspent = sends ∷ [];
  available_money = 30;
  transaction_id = 10;
}

created : create_transaction (some both) before 1 80 ≡ some (afterwards, sends)
unfolding creation
created = refl

create_transaction-money_example : 30 ≡ sub_long 110 80
unfolding creation
create_transaction-money_example =
    create_transaction-money both before afterwards 1 80 sends refl
      (refl, (omega arith, omega arith), (refl, (omega arith, omega arith), tt)) (omega arith)
      (omega arith) (omega arith) refl created

-- Node 0 received 3 * 10 ^ 9.
abbrev large : Transaction
large = transaction 3 (some 1) 0 3000000000 5 nil (some 2)

new_tuple_overflows_example :
    (holding 0 large ≡ 3000000000)
    × ((tuple : TransactionTuple Bool) × (new_tuple 0 ◌||◌ (λ t. some true) large ≡ some tuple)
        × (lt_long (long_of_int tuple.amount) 10 ≡ true))
new_tuple_overflows_example =
    new_tuple_overflows 0 ◌||◌ (λ t. some true) 3 1 3000000000 5 10 nil (some 2) true refl
      (omega arith) (omega arith) (omega arith) refl
