-- ===== src/Ledger/TransactionCreator/Created.antt =====
-- The transaction that `createTransaction` makes, and the store after it.
use scale_out_distributed_le.Common.{
  ℕ, ◌+◌, ◌%◌, ◌^◌, ◌<◌, ◌≤◌, ◌==◌, ◌≡◌, refl, sym, ap, ◌∙◌, subst, Bool, true, false, ◌||◌, none,
  some, arith, Bool-cases, some_injective, inl, inr, if◌then◌else◌,
}
use scale_out_distributed_le.Ledger.Word.{add_long, sub_long, long_of_int, lt_long}
use scale_out_distributed_le.Ledger.Transaction
use scale_out_distributed_le.Ledger.Transaction.{
  sender, source, Transaction, Sources, nil, cons, transaction, amount, remainder,
}
use scale_out_distributed_le.Ledger.LocalStore.{
  LocalStore, has, money_added, money_removed, remove_unspent_transaction,
  remove_unspent_transactions, add_unspent_transaction, get_new_transaction_id,
}
use scale_out_distributed_le.Ledger.LocalStore.Balance.{holding, HasLongs}
use scale_out_distributed_le.Ledger.LocalStore.Spending.{OneSided, holdings_of, spend_passes}
use scale_out_distributed_le.Ledger.Verification.{check_money}
use scale_out_distributed_le.Ledger.TransactionTuple.{TransactionTuple}
use scale_out_distributed_le.Ledger.TransactionTuple.Amount.{IsCounted}
use scale_out_distributed_le.Ledger.TransactionCreator.{elements, created_from, create_transaction}

-- The remainder is what the sources are worth without the amount.
exact_remainder :
    (sum h amount : ℕ)
    → sum ≡ h % 2 ^ 32
    → h < 2 ^ 31
    → amount ≤ h
    → amount + sub_long (long_of_int sum) amount ≡ h
unfolding sub_long long_of_int
exact_remainder sum h amount e b k = ground arith

created_from-passes :
    (store : LocalStore) (receiver amount remainder : ℕ) (sources : Sources)
    → OneSided store.own_node sources
    → amount + remainder < 2 ^ 63
    → amount + remainder ≡ holdings_of store.own_node sources
    → check_money store.own_node (created_from store receiver amount remainder sources).1 ≡ true
unfolding created_from
created_from-passes store receiver amount remainder sources o b e =
    spend_passes store.own_node _ o b (sym e)

-- From a tuple with the amount that its transactions are worth as an int, where none of them was
-- sent by the node to itself, they are together worth less than 2 ^ 31 and at least the amount to
-- send, and the store has as much, a transaction is created that passes `checkMoney`.
pub create_transaction-passes {ℓ} :
    {BitSet : Type ℓ} (tuple : TransactionTuple BitSet) (store : LocalStore) (receiver amount : ℕ)
    → IsCounted store.own_node tuple
    → OneSided store.own_node tuple.transactions
    → holdings_of store.own_node tuple.transactions < 2 ^ 31
    → amount ≤ holdings_of store.own_node tuple.transactions
    → lt_long store.available_money amount ≡ false
    → (made : LocalStore × Transaction) × (create_transaction (some tuple) store receiver amount
        ≡ some made)
      × (check_money store.own_node made.1 ≡ true)
unfolding create_transaction
create_transaction-passes tuple store receiver amount c o b k rich =
    let h = holdings_of store.own_node tuple.transactions in
    let exact = exact_remainder tuple.amount h amount c b k in
    let remainder = sub_long (long_of_int tuple.amount) amount in
    (
      created_from store receiver amount remainder tuple.transactions,
      ground (arith, rich),
      created_from-passes store receiver amount remainder tuple.transactions o
          (omega (arith, exact)) exact,
    )

-- The shape of what is created.
pub create_transaction-some {ℓ} :
    {BitSet : Type ℓ} (tuple : TransactionTuple BitSet) (store store' : LocalStore)
    (receiver amount : ℕ) (t : Transaction)
    → create_transaction (some tuple) store receiver amount ≡ some (store', t)
    → (lt_long store.available_money amount ≡ false)
      × (sender t ≡ some store.own_node)
      × (Transaction.amount t ≡ amount)
      × (source t ≡ tuple.transactions)
unfolding create_transaction created_from
create_transaction-some tuple store store' receiver amount t e =
    let remainder = sub_long (long_of_int tuple.amount) amount in
    let made = created_from store receiver amount remainder tuple.transactions in
    elim (Bool-cases (lt_long store.available_money amount)) [
      | inl poor ↦ ground (arith, poor)
      | inr rich ↦
          let same = some_injective made (store', t) (ground (arith, rich)) in
          (
            rich,
            ap (λ p. sender p.1) (sym same),
            ap (λ p. Transaction.amount p.1) (sym same),
            ap (λ p. source p.1) (sym same),
          )
    ]

-- Every source is in the store when its turn comes.
abbrev pub AllIn : LocalStore → Sources → Type 0
AllIn store nil = Unit
AllIn store (cons t ts) =
    (has t store.unspent ≡ true) × HasLongs t × AllIn (remove_unspent_transaction store t) ts

money_removed-holding :
    (own : ℕ) (t : Transaction) (m : ℕ)
    → HasLongs t
    → m < 2 ^ 64
    → ((money_removed own t m + holding own t) % 2 ^ 64 ≡ m) × (money_removed own t m < 2 ^ 64)
unfolding sub_long
money_removed-holding own t m h b = ground (arith, h.0, h.1)

remove-owner :
    (store : LocalStore) (t : Transaction)
    → (remove_unspent_transaction store t).own_node ≡ store.own_node
unfolding remove_unspent_transaction
remove-owner store t = ground (arith, Bool-cases (has t store.unspent))

remove-money :
    (store : LocalStore) (t : Transaction)
    → has t store.unspent ≡ true
    → (remove_unspent_transaction store t).available_money
      ≡ money_removed store.own_node t store.available_money
unfolding remove_unspent_transaction
remove-money store t h = ground (arith, h)

-- Taking the sources out takes away what they are worth.
removals-money :
    (store : LocalStore) (ss : Sources)
    → AllIn store ss
    → store.available_money < 2 ^ 64
    → let store' = remove_unspent_transactions store (elements ss) in
      ((store'.available_money + holdings_of store.own_node ss) % 2 ^ 64 ≡ store.available_money)
      × (store'.available_money < 2 ^ 64)
      × (store'.own_node ≡ store.own_node)
unfolding remove_unspent_transactions
removals-money store nil h b = (omega (arith, b), b, refl)
removals-money store (cons t ts) h b =
    let next = remove_unspent_transaction store t in
    let owner = remove-owner store t in
    let money = remove-money store t h.0 in
    let (first, below) = money_removed-holding store.own_node t store.available_money h.1 b in
    let (rest, bound, same) = removals-money next ts h.2 (ground (arith, money, below)) in
    let store' = remove_unspent_transactions next (elements ts) in
    let rest' =
      subst (λ o. (store'.available_money + holdings_of o ts) % 2 ^ 64 ≡ next.available_money) owner
        rest in
    (ground (arith, rest', first, money), bound, same ∙ owner)

add-money :
    (store : LocalStore) (t : Transaction)
    → has t store.unspent ≡ false
    → (add_unspent_transaction store t).available_money
      ≡ money_added store.own_node t store.available_money
unfolding add_unspent_transaction
add-money store t h = ground (arith, h)

-- The money that is left, with the new transaction where it is added.
money_after :
    (own number receiver amount remainder left money : ℕ) (sources : Sources)
    → (left + (amount + remainder)) % 2 ^ 64 ≡ money
    → left < 2 ^ 64
    → amount + remainder < 2 ^ 31
    → (if lt_long 0 remainder || receiver == own
        then money_added own
            (transaction number (some own) receiver amount remainder sources none)
            left
        else left)
      ≡ (if receiver == own then money else sub_long money amount)
unfolding lt_long add_long sub_long
money_after own number receiver amount remainder left money sources e b k = ground arith

money_if :
    (kept : Bool) (a b : LocalStore)
    → (if kept then a else b).available_money
      ≡ (if kept then a.available_money else b.available_money)
money_if true a b = refl
money_if false a b = refl

created_from-money :
    (store : LocalStore) (receiver amount remainder : ℕ) (sources : Sources)
    → AllIn store sources
    → amount + remainder ≡ holdings_of store.own_node sources
    → amount + remainder < 2 ^ 31
    → store.available_money < 2 ^ 64
    → let (store', t) = created_from store receiver amount remainder sources in
      has t (remove_unspent_transactions store (elements sources)).unspent ≡ false
      → store'.available_money ≡ (
          if receiver == store.own_node
          then store.available_money
          else sub_long store.available_money amount)
unfolding created_from get_new_transaction_id
created_from-money store receiver amount remainder sources i e b m f =
    let removed = remove_unspent_transactions store (elements sources) in
    let (left, bound, owner) = removals-money store sources i m in
    let numbered = (get_new_transaction_id removed).0 in
    let t = (created_from store receiver amount remainder sources).1 in
    let after =
      money_after store.own_node removed.transaction_id receiver amount remainder
        removed.available_money store.available_money sources (ground (arith, left, e)) bound b in
    let adds = add-money numbered t f in
    let adds' =
      subst
        (λ o.
          (add_unspent_transaction numbered t).available_money
          ≡ money_added o t removed.available_money)
        owner adds in
    let kept = lt_long 0 remainder || receiver == store.own_node in
    money_if kept (add_unspent_transaction numbered t) numbered
    ∙ ap (λ m. if kept then m else removed.available_money) adds'
    ∙ after

-- From a tuple with the amount that its transactions are worth as an int, where these are different
-- transactions of the store, with longs for amounts and together worth less than 2 ^ 31 and at least
-- the amount to send, and a transaction is created that is not in the store yet, the money of the
-- store, a long, goes down by the amount, and by nothing where the node sends to itself.
pub create_transaction-money {ℓ} :
    {BitSet : Type ℓ} (tuple : TransactionTuple BitSet) (store store' : LocalStore)
    (receiver amount : ℕ) (t : Transaction)
    → IsCounted store.own_node tuple
    → AllIn store tuple.transactions
    → holdings_of store.own_node tuple.transactions < 2 ^ 31
    → amount ≤ holdings_of store.own_node tuple.transactions
    → store.available_money < 2 ^ 64
    → has t (remove_unspent_transactions store (elements tuple.transactions)).unspent ≡ false
    → create_transaction (some tuple) store receiver amount ≡ some (store', t)
    → store'.available_money ≡ (
        if receiver == store.own_node
        then store.available_money
        else sub_long store.available_money amount)
unfolding create_transaction
create_transaction-money tuple store store' receiver amount t c i b k m f e =
    let h = holdings_of store.own_node tuple.transactions in
    let exact = exact_remainder tuple.amount h amount c b k in
    let remainder = sub_long (long_of_int tuple.amount) amount in
    let made = created_from store receiver amount remainder tuple.transactions in
    elim (Bool-cases (lt_long store.available_money amount)) [
      | inl poor ↦ ground (arith, poor)
      | inr rich ↦
          let same = some_injective made (store', t) (ground (arith, rich)) in
          ap (λ p. p.0.available_money) (sym same)
          ∙ created_from-money store receiver amount remainder tuple.transactions i exact
              (omega (arith, exact)) m
              (subst
                (λ t.
                  has t (remove_unspent_transactions store (elements tuple.transactions)).unspent
                  ≡ false)
                (ap (λ p. p.1) (sym same)) f)
    ]
