-- ===== src/Ledger/Verification.antt =====
-- validation/Verification.java: the checks of a transaction that a node receives. A
-- ValidationException is `false`, or `none` where there is a result. The blocks of the chain view
-- of each node are an argument; a map from transactions is a list, searched with `equals`.
pub mod Money
pub mod Spending
pub mod Closed
pub mod Accepted
pub mod Messages
use scale_out_distributed_le.Common.{
  ℕ, ◌+◌, Bool, true, false, not, ◌&&◌, Option, none, some, List, [], ◌∷◌, leb, ◌==◌, if◌then◌else◌,
}
use scale_out_distributed_le.Ledger.Word.{add_long, lt_long}
use scale_out_distributed_le.Ledger.Transaction.{
  Transaction, Sources, transaction, nil, cons, number, sender, receiver, amount, remainder, source,
  contains, size, id_eq, equals,
}
use scale_out_distributed_le.Ledger.Block.{Block, transactions}

-- What a source is worth to the sender of a transaction; `none` where it does not involve them.
unfoldable pub worth : (sender_id : ℕ) → Transaction → Option ℕ
worth sender_id txj =
    if receiver txj == sender_id
    then some (amount txj)
    else if id_eq (sender txj) (some sender_id)
    then some (remainder txj)
    else none

-- The loop of `checkMoney`, with its sum.
unfoldable pub money_from : (sender_id expected_sum sum : ℕ) → Sources → Bool
money_from sender_id expected_sum sum nil = sum == expected_sum
money_from sender_id expected_sum sum (cons txj ss) = elim (worth sender_id txj) [
  | none ↦ false
  | some value ↦
      let rest = money_from sender_id expected_sum (add_long sum value) ss in
      if lt_long expected_sum (add_long sum value) then false else rest
]

unfoldable pub check_money : (sender_id : ℕ) → Transaction → Bool
unfolding money_from worth add_long lt_long
check_money sender_id t = money_from sender_id (add_long (amount t) (remainder t)) 0 (source t)

-- No element of the first set stands in the second.
unfoldable pub none_in : Sources → Sources → Bool
none_in nil set = true
none_in (cons t ts) set = if contains set t then false else none_in ts set

unfoldable pub intersect_empty : Sources → Sources → Bool
unfolding none_in contains size
intersect_empty set_a set_b =
    if leb (size set_b) (size set_a) then none_in set_a set_b else none_in set_b set_a

-- The transactions of one block: whether the transaction was found, or `none` for double spending.
unfoldable pub scan_block : Transaction → (found : Bool) → List Transaction → Option Bool
unfolding intersect_empty
scan_block t found [] = some found
scan_block t found (txj ∷ txs) =
    if equals t txj
    then scan_block t true txs
    else if not (intersect_empty (source t) (source txj))
    then none
    else scan_block t found txs

unfoldable pub check_double_spending : Transaction → (chain_view : List Block) → Bool
unfolding scan_block
check_double_spending t [] = true
check_double_spending t (block ∷ blocks) =
    let rest = check_double_spending t blocks in
    elim (scan_block t false (transactions block)) [
      | none ↦ false
      | some found ↦ if found then true else rest
    ]

abbrev pub Cache : Type 0
Cache = List (Transaction × Bool)

-- `cache.get(t)`
unfoldable pub cached : Transaction → Cache → Option Bool
cached t [] = none
cached t ((o, valid) ∷ cache) = if equals t o then some valid else cached t cache

abbrev or_cached : Option Bool → Option Bool → Option Bool
or_cached none other = other
or_cached (some valid) other = some valid

abbrev pub is_nil : Sources → Bool
is_nil nil = true
is_nil (cons _ _) = false

-- `getBlockNumber` of a transaction without a sender is 0 unless it was set.
abbrev pub or_else_zero : Option ℕ → ℕ
or_else_zero none = 0
or_else_zero (some n) = n

unfoldable pub validate_genesis_transaction : Transaction → Cache → Option Cache
validate_genesis_transaction (transaction n s r a m ss b) cache =
    if not (or_else_zero b == 0)
    then none
    else if not (is_nil ss)
    then none
    else if not (m == 0)
    then none
    else some ((transaction n s r a m ss b, true) ∷ cache)

-- The checks of a transaction with a sender, before its sources are looked at.
unfoldable pub passes : (chain_views : ℕ → List Block) → (sender_id : ℕ) → Transaction → Bool
unfolding check_money check_double_spending
passes chain_views sender_id t =
    check_money sender_id t && check_double_spending t (chain_views sender_id)

unfoldable mutual
  unfolding validate_genesis_transaction passes cached

  pub validate_transaction :
      (chain_views : ℕ → List Block)
      → (validation_cache : Cache) → Transaction
      → Cache
      → Option Cache
  validate_transaction chain_views global (transaction n none r a m ss b) cache =
      validate_genesis_transaction (transaction n none r a m ss b) cache
  validate_transaction chain_views global (transaction n (some s) r a m ss b) cache =
      let rest = validate_sources chain_views global ss cache in
      if not (passes chain_views s (transaction n (some s) r a m ss b)) then none else elim rest [
        | none ↦ none
        | some cache' ↦ some ((transaction n (some s) r a m ss b, true) ∷ cache')
      ]

  pub validate_sources :
      (chain_views : ℕ → List Block) → (validation_cache : Cache) → Sources → Cache → Option Cache
  validate_sources chain_views global nil cache = some cache
  validate_sources chain_views global (cons txj ss) cache =
      let new = validate_transaction chain_views global txj cache in
      elim (or_cached (cached txj global) (cached txj cache)) [
        | none ↦ elim new [
          | none ↦ none
          | some cache' ↦ validate_sources chain_views global ss cache'
        ]
        | some valid ↦ if not valid then none else validate_sources chain_views global ss cache
      ]
