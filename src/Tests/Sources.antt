-- ===== src/Tests/Sources.antt =====
-- The theorems on the choice of sources, at inputs that meet their hypotheses.
use mathlib.Core.List.{reverse}
use mathlib.Core.List.Permᴰ
use scale_out_distributed_le.Common.{
  ◌≡◌, refl, true, false, Option, none, some, List, [], ◌∷◌, ◌==◌, arith, if◌then◌else◌,
}
use scale_out_distributed_le.Ledger.Word.{
  add_long, sub_long, lt_long, add_int, int_of_long, long_of_int,
}
use scale_out_distributed_le.Ledger.Transaction
use scale_out_distributed_le.Ledger.Transaction.{
  Transaction, transaction, nil, cons, compare_to, contains, contains_all, size, source, sender,
  equals,
}
use scale_out_distributed_le.Ledger.LocalStore.{
  LocalStore, has, without, add_unspent_transaction, remove_unspent_transaction,
  remove_unspent_transactions, get_new_transaction_id,
}
use scale_out_distributed_le.Ledger.Verification.{check_money}
use scale_out_distributed_le.Ledger.TransactionTuple.{
  insert, insert_all, add_transaction_and_amount, add_each, combined, add_transaction, new_tuple,
  merge_non_overlapping_same_chains_tuple,
}
use scale_out_distributed_le.Ledger.TransactionTuple.Picked.{IsIn, AllOf, IsChosen}
use scale_out_distributed_le.Ledger.TransactionCreator.{created_from, create_transaction}
use scale_out_distributed_le.Ledger.Proof.Required.{BitSet}
use scale_out_distributed_le.Ledger.TransactionCreator.Search.{
  Tuple, tuple_equals, add_tuple, cleanup, merge_candidate, group_candidates, first_round, try_pair,
  try_each, try_all, do_one_round, rounds, best_sources, create_from_best,
}
use scale_out_distributed_le.Ledger.TransactionCreator.Search.Chosen.{best_sources-IsChosen}
use scale_out_distributed_le.Ledger.TransactionCreator.Search.Payment.{create_from_best-passes}

unfoldable search_run : Unit {0}
unfolding add_long sub_long lt_long add_int int_of_long long_of_int compare_to contains contains_all
    size equals has without add_unspent_transaction remove_unspent_transaction
    remove_unspent_transactions get_new_transaction_id insert insert_all add_transaction_and_amount
    add_each combined add_transaction new_tuple merge_non_overlapping_same_chains_tuple created_from
    create_transaction tuple_equals add_tuple cleanup merge_candidate group_candidates first_round
    try_pair try_each try_all do_one_round rounds best_sources create_from_best
search_run = tt

-- Node 0 received 60, 50 and 10. The first needs chain 1, the others chain 2.
abbrev sixty : Transaction
sixty = transaction 3 (some 1) 0 60 5 nil (some 2)

abbrev fifty : Transaction
fifty = transaction 4 (some 2) 0 50 0 nil (some 7)

abbrev ten : Transaction
ten = transaction 5 (some 2) 0 10 0 nil (some 8)

abbrev requires : Transaction → Option BitSet
requires t =
    some (if Transaction.number t == 3 then false ∷ true ∷ [] else false ∷ false ∷ true ∷ [])

abbrev before : LocalStore
before = record {
  own_node = 0;
  unspent = fifty ∷ sixty ∷ ten ∷ [];
  available_money = 120;
  transaction_id = 9;
}

-- Sets are gone through in reverse.
abbrev in_turn : List Tuple → List Tuple
in_turn tuples = reverse tuples

-- 80 needs both chains.
abbrev all_three : Tuple
all_three = record {
  amount = 120;
  transactions = cons sixty (cons fifty (cons ten nil));
  chains_required = some (false ∷ true ∷ true ∷ []);
}

chosen : best_sources 0 80 in_turn requires before.unspent ≡ some (some all_three)
unfolding search_run
chosen = refl

best_sources-IsChosen_example :
    IsChosen 0 before.unspent all_three × (lt_long (long_of_int 120) 80 ≡ false)
best_sources-IsChosen_example =
    best_sources-IsChosen 0 80 in_turn requires before.unspent
      (unfold compare_to in ((refl, (refl, tt)), ((refl, tt), (tt, tt)))) Permᴰ.reverse all_three
      chosen

-- 80 are sent to node 1.
abbrev sends : Transaction
sends = transaction 9 (some 0) 1 80 40 all_three.transactions none

abbrev afterwards : LocalStore
afterwards = record {
  own_node = 0;
  unspent = sends ∷ [];
  available_money = 40;
  transaction_id = 10;
}

sent : create_from_best in_turn requires before 1 80 ≡ some (afterwards, sends)
unfolding search_run
sent = refl

create_from_best-passes_example :
    (sender sends ≡ some 0)
    × (Transaction.amount sends ≡ 80)
    × AllOf (λ s. IsIn s before.unspent) (source sends)
    × (check_money 0 sends ≡ true)
create_from_best-passes_example =
    create_from_best-passes in_turn requires before afterwards 1 80 sends Permᴰ.reverse
      (unfold compare_to in ((refl, (refl, tt)), ((refl, tt), (tt, tt)))) (refl, (refl, (refl, tt)))
      (omega arith) (omega arith) sent
