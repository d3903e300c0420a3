-- ===== src/Ledger/TransactionCreator/Search.antt =====
-- `bestSources` of TransactionCreator.java. Hash maps and sets are lists without two equal elements;
-- `in_order` puts the elements into the order in which a hash map or set is gone through. The chains
-- that a transaction requires are an argument (Proof/Required), and an exception is `none`.
pub mod Rounds
pub mod Groups
pub mod Chosen
pub mod Payment
use scale_out_distributed_le.Common.{
  ℕ, zero, suc, ◌+◌, ◌-◌, ◌^◌, Bool, true, false, not, ◌&&◌, Option, none, some, List, [], ◌∷◌,
  ◌++◌, select, leb, ltb, ◌==◌, if◌then◌else◌, length,
}
use scale_out_distributed_le.Ledger.Word.{lt_long, long_of_int}
use scale_out_distributed_le.Ledger.Transaction.{Transaction, Sources, contains, contains_all, size}
use scale_out_distributed_le.Ledger.TransactionTuple.{
  TransactionTuple, new_tuple, combined, merge_non_overlapping_same_chains_tuple,
}
use scale_out_distributed_le.Ledger.LocalStore.{LocalStore}
use scale_out_distributed_le.Ledger.TransactionCreator.{create_transaction}
use scale_out_distributed_le.Ledger.Proof.Required.{BitSet, or_bits, bits_equal, cardinality}

abbrev pub Tuple : Type 0
Tuple = TransactionTuple BitSet

-- `getChainsRequired`, which is set by the constructors.
abbrev pub bits_of : Tuple → BitSet
bits_of tuple = elim tuple.chains_required [ none ↦ [] | some bits ↦ bits ]

-- `currentBest` and `currentBestTuple`
pub record Search : Type 0 where
  pub current_best : ℕ
  pub current_best_tuple : Option Tuple

-- `Integer.MAX_VALUE`
abbrev pub max_value : ℕ
max_value = 2 ^ 31 - 1

-- `equals` of tuples, with the `equals` of sets on the transactions.
unfoldable pub tuple_equals : Tuple → Tuple → Bool
unfolding size contains_all contains
tuple_equals tuple other =
    if not (tuple.amount == other.amount)
    then false
    else if not (bits_equal (bits_of tuple) (bits_of other))
    then false
    else size tuple.transactions == size other.transactions
      && contains_all tuple.transactions other.transactions

unfoldable pub add_tuple : Tuple → List Tuple → List Tuple
unfolding tuple_equals
add_tuple tuple [] = tuple ∷ []
add_tuple tuple (other ∷ others) =
    if tuple_equals tuple other then other ∷ others else other ∷ add_tuple tuple others

unfoldable pub cleanup : List Tuple → (previous_best : ℕ) → Search → List Tuple
cleanup tuples previous_best s =
    if s.current_best == previous_best
    then tuples
    else select (λ tuple. ltb (cardinality (bits_of tuple)) s.current_best) tuples

module _ (own amount : ℕ) (in_order : List Tuple → List Tuple)
    (required : Transaction → Option BitSet) where
  -- The tuple has enough for the amount to send.
  abbrev pub covers : Tuple → Bool
  covers tuple = not (lt_long (long_of_int tuple.amount) amount)

  -- `merge` of the map of candidates.
  unfoldable pub merge_candidate : Tuple → List Tuple → List Tuple
  unfolding merge_non_overlapping_same_chains_tuple
  merge_candidate tuple [] = tuple ∷ []
  merge_candidate tuple (old ∷ others) =
      if bits_equal (bits_of old) (bits_of tuple)
      then merge_non_overlapping_same_chains_tuple own old tuple ∷ others
      else old ∷ merge_candidate tuple others

  -- Step 1: the transactions with the same required chains are put together.
  unfoldable pub group_candidates : List Transaction → List Tuple → Option (List Tuple)
  unfolding new_tuple merge_candidate
  group_candidates [] candidates = some candidates
  group_candidates (t ∷ ts) candidates = elim (new_tuple own or_bits required t) [
    | none ↦ none
    | some tuple ↦ group_candidates ts (merge_candidate tuple candidates)
  ]

  -- Step 2: the candidates that are left.
  unfoldable pub first_round : List Tuple → Search → List Tuple × Search
  unfolding lt_long long_of_int
  first_round [] s = ([], s)
  first_round (tuple ∷ tuples) s =
      let chains = cardinality (bits_of tuple) in
      let found : Search = record { current_best = chains; current_best_tuple = some tuple } in
      let rest = first_round tuples s in
      let rest_found = first_round tuples found in
      if leb s.current_best chains
      then rest
      else if covers tuple
      then rest_found
      else (tuple ∷ rest.0, rest.1)

  -- The body of the loops of `doOneRound`.
  unfoldable pub try_pair :
      (skip_contains_check : Bool)
      → (t1 t2 : Tuple) → Search × List Tuple
      → Option (Search × List Tuple)
  unfolding combined add_tuple lt_long long_of_int
  try_pair skip_contains_check t1 t2 (s, next_round) =
      let r3 = or_bits (bits_of t1) (bits_of t2) in
      let chains = cardinality r3 in
      if not skip_contains_check && contains_all t2.transactions t1.transactions
      then some (s, next_round)
      else if leb s.current_best chains
      then some (s, next_round)
      else elim (combined own t1 t2 r3) [
        | none ↦ none
        | some t3 ↦
            if covers t3
            then some (record { current_best = chains; current_best_tuple = some t3 }, next_round)
            else some (s, add_tuple t3 next_round)
      ]

  unfoldable pub try_each :
      (skip_contains_check : Bool)
      → (t1 : Tuple) → (current_round : List Tuple) → Search × List Tuple
      → Option (Search × List Tuple)
  unfolding try_pair
  try_each skip t1 [] state = some state
  try_each skip t1 (t2 ∷ ts) state = elim (try_pair skip t1 t2 state) [
    | none ↦ none
    | some state' ↦ try_each skip t1 ts state'
  ]

  unfoldable pub try_all :
      (skip_contains_check : Bool)
      → (base_elements current_round : List Tuple) → Search × List Tuple
      → Option (Search × List Tuple)
  unfolding try_each
  try_all skip [] current_round state = some state
  try_all skip (t1 ∷ ts) current_round state = elim (try_each skip t1 current_round state) [
    | none ↦ none
    | some state' ↦ try_all skip ts current_round state'
  ]

  -- With an empty set for the next round.
  unfoldable pub do_one_round :
      (base_elements current_round : List Tuple) → Search → Option (Search × List Tuple)
  unfolding try_all
  do_one_round base_elements current_round s =
      let current = in_order current_round in
      if ltb (length current_round) (length base_elements)
      then try_all true current current (s, [])
      else try_all false base_elements current (s, [])

  -- Step 3: `count` rounds at most.
  unfoldable pub rounds :
      (count : ℕ)
      → (candidates current_round : List Tuple) → (previous_best : ℕ) → Search
      → Option (Option Tuple)
  unfolding do_one_round cleanup
  rounds zero candidates current_round previous_best s = some s.current_best_tuple
  rounds (suc count) candidates current_round previous_best s =
      elim (do_one_round candidates current_round s) [
        | none ↦ none
        | some (s', next_round) ↦
            let rest =
              rounds count candidates (cleanup next_round previous_best s') s'.current_best s' in
            if leb (length next_round) 1 then some s'.current_best_tuple else rest
      ]

  -- `bestSources` of the unspent transactions.
  unfoldable pub best_sources : (unspent : List Transaction) → Option (Option Tuple)
  unfolding group_candidates first_round cleanup rounds
  best_sources unspent = elim (group_candidates unspent []) [
    | none ↦ none
    | some groups ↦
        let (left, s) =
          first_round (in_order groups)
            (record { current_best = max_value; current_best_tuple = none }) in
        let candidates = cleanup left max_value s in
        if leb (length candidates) 1
        then some s.current_best_tuple
        else rounds (length candidates - 1) candidates candidates s.current_best s
  ]

-- `createTransaction` with `bestSources`.
unfoldable pub create_from_best :
    (in_order : List Tuple → List Tuple)
    → (required : Transaction → Option BitSet) → LocalStore
    → (receiver amount : ℕ) → Option (LocalStore × Transaction)
unfolding best_sources create_transaction
create_from_best in_order required store receiver amount =
    elim (best_sources store.own_node amount in_order required store.unspent) [
      | none ↦ none
      | some best ↦ create_transaction best store receiver amount
    ]
