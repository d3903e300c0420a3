-- ===== src/Ledger/LocalStore/Balance.antt =====
-- The money of a store against its unspent transactions.
use scale_out_distributed_le.Common.{
  ℕ, ◌+◌, ◌%◌, ◌^◌, ◌<◌, ◌≡◌, refl, true, Option, none, some, List, [], ◌∷◌, arith, All, sum_by,
  sum_by-append, Bool-cases, inl, inr, if◌then◌else◌,
}
use scale_out_distributed_le.Ledger.Word.{add_long, sub_long}
use scale_out_distributed_le.Ledger.Transaction.{
  Transaction, sender, amount, remainder, id_eq, equals,
}
use scale_out_distributed_le.Ledger.LocalStore.{
  LocalStore, has, without, is_receiver, is_sender, money_added, money_removed,
  add_unspent_transaction, remove_unspent_transaction, remove_unspent_transactions,
  get_new_transaction_id,
}

-- What a transaction is worth to the store of a node.
abbrev pub holding : (own : ℕ) → Transaction → ℕ
holding own t =
    (if is_receiver own t then amount t else 0) + (if is_sender own t then remainder t else 0)

abbrev pub holdings : LocalStore → ℕ
holdings store = sum_by (holding store.own_node) store.unspent

-- The money is what the unspent transactions are worth, as a long.
abbrev pub IsBalanced : LocalStore → Type 0
IsBalanced store = store.available_money ≡ holdings store % 2 ^ 64

id_eq-true : (a b : Option ℕ) → id_eq a b ≡ true → a ≡ b
id_eq-true none none e = refl
id_eq-true none (some b) e = ground arith
id_eq-true (some a) none e = ground arith
id_eq-true (some a) (some b) e = ground arith

equals-holding : (own : ℕ) (t o : Transaction) → equals t o ≡ true → holding own t ≡ holding own o
unfolding equals
equals-holding own t o e = ground (arith, id_eq-true (sender t) (sender o))

holdings-without :
    (own : ℕ) (t : Transaction) (ts : List Transaction)
    → has t ts ≡ true
    → sum_by (holding own) ts ≡ holding own t + sum_by (holding own) (without t ts)
unfolding has without
holdings-without own t [] e = ground arith
holdings-without own t (o ∷ os) e = elim (Bool-cases (equals t o)) [
  | inl same ↦ rw same (ground (arith, equals-holding own t o same))
  | inr other ↦ rw other (ground (arith, other, holdings-without own t os))
]

money_added-mod :
    (own : ℕ) (t : Transaction) (n : ℕ)
    → money_added own t (n % 2 ^ 64) ≡ (n + holding own t) % 2 ^ 64
unfolding add_long
money_added-mod own t n = ground arith

money_removed-mod :
    (own : ℕ) (t : Transaction) (n : ℕ)
    → amount t < 2 ^ 64
    → remainder t < 2 ^ 64
    → money_removed own t ((holding own t + n) % 2 ^ 64) ≡ n % 2 ^ 64
unfolding sub_long
money_removed-mod own t n a b = ground arith

-- A transaction whose amounts are longs.
abbrev pub HasLongs : Transaction → Type 0
HasLongs t = (amount t < 2 ^ 64) × (remainder t < 2 ^ 64)

add-IsBalanced :
    (store : LocalStore) (t : Transaction)
    → IsBalanced store
    → IsBalanced (add_unspent_transaction store t)
unfolding add_unspent_transaction
add-IsBalanced store t h = elim (Bool-cases (has t store.unspent)) [
  | inl old ↦ ground (arith, h)
  | inr new ↦ rw new (
      ground (
        arith,
        h,
        money_added-mod store.own_node t (holdings store),
        sum_by-append (holding store.own_node) store.unspent (t ∷ []),
      ))
]

remove-IsBalanced :
    (store : LocalStore) (t : Transaction)
    → HasLongs t
    → IsBalanced store
    → IsBalanced (remove_unspent_transaction store t)
unfolding remove_unspent_transaction
remove-IsBalanced store t l h = elim (Bool-cases (has t store.unspent)) [
  | inl there ↦ rw there (
      ground (
        arith,
        h,
        holdings-without store.own_node t store.unspent there,
        money_removed-mod store.own_node t
            (sum_by (holding store.own_node) (without t store.unspent)) l.0 l.1,
      ))
  | inr gone ↦ ground (arith, h)
]

removals-IsBalanced :
    (store : LocalStore) (ts : List Transaction)
    → All HasLongs ts
    → IsBalanced store
    → IsBalanced (remove_unspent_transactions store ts)
unfolding remove_unspent_transactions
removals-IsBalanced store [] l h = h
removals-IsBalanced store (t ∷ ts) l h =
    removals-IsBalanced (remove_unspent_transaction store t) ts l.1
      (remove-IsBalanced store t l.0 h)

-- What is done to a store.
pub data Change : Type 0 where
  adds : Transaction → Change
  removes : List Transaction → Change
  numbers : Change

abbrev pub changed : LocalStore → Change → LocalStore
changed store (adds t) = add_unspent_transaction store t
changed store (removes ts) = remove_unspent_transactions store ts
changed store numbers = (get_new_transaction_id store).0

abbrev pub HasLongAmounts : Change → Type 0
HasLongAmounts (adds t) = Unit
HasLongAmounts (removes ts) = All HasLongs ts
HasLongAmounts numbers = Unit

unfoldable pub run : LocalStore → List Change → LocalStore
run store [] = store
run store (c ∷ cs) = run (changed store c) cs

-- Whatever transactions are added to a store whose money is what its unspent transactions are worth
-- as a long, as in a new store, and whatever transactions with longs for amounts are removed from it,
-- the money stays what the unspent transactions are worth.
pub run-IsBalanced :
    (store : LocalStore) (changes : List Change)
    → All HasLongAmounts changes
    → IsBalanced store
    → IsBalanced (run store changes)
unfolding run get_new_transaction_id
run-IsBalanced store [] l h = h
run-IsBalanced store (adds t ∷ cs) l h =
    run-IsBalanced (add_unspent_transaction store t) cs l.1 (add-IsBalanced store t h)
run-IsBalanced store (removes ts ∷ cs) l h =
    run-IsBalanced (remove_unspent_transactions store ts) cs l.1
      (removals-IsBalanced store ts l.0 h)
run-IsBalanced store (numbers ∷ cs) l h = run-IsBalanced (get_new_transaction_id store).0 cs l.1 h
