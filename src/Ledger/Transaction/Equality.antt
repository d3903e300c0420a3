-- ===== src/Ledger/Transaction/Equality.antt =====
-- `equals` of transactions, with the search in a set of sources.
use scale_out_distributed_le.Common.{ℕ, ◌≡◌, refl, true, Option, none, some, arith}
use scale_out_distributed_le.Ledger.Transaction.{
  Transaction, Sources, nil, cons, transaction, sender, source, block_number, compare_to, is_same,
  contains, contains_all, id_eq, equals,
}

pub id_eq_refl : (a : Option ℕ) → id_eq a a ≡ true
id_eq_refl none = refl
id_eq_refl (some a) = ground arith

pub is_same_refl : (t : Transaction) → is_same t t ≡ true
unfolding compare_to
is_same_refl (transaction n none r a m ss b) = refl
is_same_refl (transaction n (some s) r a m ss b) = ground arith

-- The elements of the second set stand in the first one.
abbrev HasAll : Sources → Sources → Type 0
HasAll ss nil = Unit
HasAll ss (cons t ts) = (contains ss t ≡ true) × HasAll ss ts

HasAll-cons : (s : Transaction) (ss ts : Sources) → HasAll ss ts → HasAll (cons s ss) ts
unfolding contains
HasAll-cons s ss nil h = tt
HasAll-cons s ss (cons t ts) h = (ground arith, HasAll-cons s ss ts h.1)

HasAll-refl : (ss : Sources) → HasAll ss ss
unfolding contains
HasAll-refl nil = tt
HasAll-refl (cons s ss) = (ground (arith, is_same_refl s), HasAll-cons s ss ss (HasAll-refl ss))

contains_all-HasAll : (ss ts : Sources) → HasAll ss ts → contains_all ss ts ≡ true
unfolding contains_all
contains_all-HasAll ss nil h = refl
contains_all-HasAll ss (cons t ts) h = ground (arith, h.0, contains_all-HasAll ss ts h.1)

pub equals_refl : (t : Transaction) → equals t t ≡ true
unfolding equals
equals_refl t = ground (
  arith,
  id_eq_refl (sender t),
  id_eq_refl (block_number t),
  contains_all-HasAll (source t) (source t) (HasAll-refl (source t)),
)
