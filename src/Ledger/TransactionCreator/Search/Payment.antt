-- ===== src/Ledger/TransactionCreator/Search/Payment.antt =====
-- Transactions from the sources that are chosen.
use mathlib.Core.List.{Permᴰ}
use scale_out_distributed_le.Common.{
  ℕ, ◌%◌, ◌^◌, ◌<◌, ◌≤◌, ◌≡◌, sym, ap, ◌∙◌, subst, true, false, not, Option, none, some, List,
  arith, All, sum_by, Bool-cases, Option-cases, some_injective, inl, inr,
}
use scale_out_distributed_le.Ledger.Word.{add_long, lt_long, long_of_int}
use scale_out_distributed_le.Ledger.Transaction
use scale_out_distributed_le.Ledger.Transaction.{
  Transaction, Sources, nil, cons, transaction, source, sender,
}
use scale_out_distributed_le.Ledger.LocalStore.{LocalStore, is_receiver, is_sender}
use scale_out_distributed_le.Ledger.LocalStore.Balance.{holding}
use scale_out_distributed_le.Ledger.LocalStore.Spending.{OneSided, holdings_of}
use scale_out_distributed_le.Ledger.Verification.{check_money}
use scale_out_distributed_le.Ledger.TransactionTuple.Picked.{
  Different, IsIn, AllOf, All-IsIn, picked-le,
}
use scale_out_distributed_le.Ledger.TransactionCreator.{create_transaction}
use scale_out_distributed_le.Ledger.TransactionCreator.Created.{
  create_transaction-passes, create_transaction-some,
}
use scale_out_distributed_le.Ledger.Proof.Required.{BitSet}
use scale_out_distributed_le.Ledger.TransactionCreator.Search.{
  Tuple, best_sources, create_from_best,
}
use scale_out_distributed_le.Ledger.TransactionCreator.Search.Chosen.{best_sources-IsChosen}

-- The node is the sender or the receiver of a transaction, and not both.
abbrev pub IsOneSided : (own : ℕ) → Transaction → Type 0
IsOneSided own t = is_receiver own t ≡ not (is_sender own t)

All-OneSided :
    (own : ℕ) (us : List Transaction) (ss : Sources)
    → All (IsOneSided own) us
    → AllOf (λ t. IsIn t us) ss
    → OneSided own ss
All-OneSided own us nil h i = tt
All-OneSided own us (cons t ts) h i =
    (All-IsIn (IsOneSided own) t us h i.0, All-OneSided own us ts h i.1)

enough :
    (sum h amount : ℕ)
    → sum ≡ h % 2 ^ 32
    → h < 2 ^ 31
    → amount < 2 ^ 63
    → lt_long (long_of_int sum) amount ≡ false
    → amount ≤ h
unfolding lt_long long_of_int add_long
enough sum h amount e b c f = ground arith

-- Where the unspent transactions of a store are together worth less than 2 ^ 31, no two of them are
-- alike and each has the node as its sender or its receiver and not as both, and the amount to send
-- is below 2 ^ 63, a transaction that is created of the sources that `bestSources` chooses, in
-- whatever order maps and sets are gone through, has the node as its sender, the amount to send, and
-- only unspent transactions as its sources, and passes `checkMoney`, one of the checks of a receiver.
pub create_from_best-passes :
    (in_order : List Tuple → List Tuple) (required : Transaction → Option BitSet)
    (store store' : LocalStore) (receiver amount : ℕ) (t : Transaction)
    → ((xs : List Tuple) → Permᴰ (in_order xs) xs)
    → Different store.unspent
    → All (IsOneSided store.own_node) store.unspent
    → sum_by (holding store.own_node) store.unspent < 2 ^ 31
    → amount < 2 ^ 63
    → create_from_best in_order required store receiver amount ≡ some (store', t)
    → (sender t ≡ some store.own_node)
      × (Transaction.amount t ≡ amount)
      × AllOf (λ s. IsIn s store.unspent) (source t)
      × (check_money store.own_node t ≡ true)
unfolding create_from_best create_transaction
create_from_best-passes in_order required store store' receiver amount t order d one b k e =
    let own = store.own_node in
    elim (Option-cases (best_sources own amount in_order required store.unspent)) [
      | inl failed ↦ ground (arith, failed)
      | inr (none, nothing) ↦
          ground (arith, nothing, Bool-cases (lt_long store.available_money amount))
      | inr (some tuple, found) ↦
          let (chosen, covered) =
            best_sources-IsChosen own amount in_order required store.unspent d order tuple found in
          let (counted, (inside, sum)) = chosen in
          let h = holdings_of own tuple.transactions in
          let small : h < 2 ^ 31 =
            omega (arith, sum, picked-le own tuple.transactions store.unspent, b) in
          let created : create_transaction (some tuple) store receiver amount ≡ some (store', t) =
            ground (arith, found) in
          let (rich, sent, paid, sources) =
            create_transaction-some tuple store store' receiver amount t created in
          let (made, does, passes) =
            create_transaction-passes tuple store receiver amount counted
              (All-OneSided own store.unspent tuple.transactions one inside) small
              (enough tuple.amount h amount counted small k covered) rich in
          let same = some_injective made (store', t) (sym does ∙ created) in
          (
            sent,
            paid,
            subst (AllOf (λ s. IsIn s store.unspent)) (sym sources) inside,
            subst (λ t. check_money own t ≡ true) (ap (λ p. p.1) same) passes,
          )
    ]
