-- ===== src/Ledger/Block.antt =====
-- model/Block.java: a block of a node's chain. `first` is a block whose previous block is null.
pub mod Equality
use scale_out_distributed_le.Common.{
  ℕ, ◌+◌, ◌≡◌, Bool, true, false, not, ◌&&◌, Option, none, some, List, [], ◌∷◌, arith, ◌==◌,
  if◌then◌else◌,
}
use scale_out_distributed_le.Ledger.Transaction
use scale_out_distributed_le.Ledger.Transaction.{Transaction, id_eq}

pub data Block : Type 0 where
  first : (number : ℕ) → (owner : Option ℕ) → (transactions : List Transaction) → Block
  after :
      (previous : Block)
      → (number : ℕ) → (owner : Option ℕ) → (transactions : List Transaction) → Block

abbrev pub number : Block → ℕ
number (first n o ts) = n
number (after p n o ts) = n

abbrev pub owner : Block → Option ℕ
owner (first n o ts) = o
owner (after p n o ts) = o

abbrev pub transactions : Block → List Transaction
transactions (first n o ts) = ts
transactions (after p n o ts) = ts

-- `new Block(previousBlock, owner)`
abbrev pub new_block : (previous : Block) → (owner : ℕ) → Block
new_block previous owner = after previous (number previous + 1) (some owner) []

-- The transaction with a number; `none` is an IllegalStateException.
pub find : List Transaction → ℕ → Option Transaction
find [] n = none
find (t ∷ ts) n = if Transaction.number t == n then some t else find ts n

unfoldable pub get_transaction : Block → ℕ → Option Transaction
unfolding find
get_transaction block n = find (transactions block) n

-- `equals` of two lists
unfoldable pub all_equal : List Transaction → List Transaction → Bool
all_equal [] [] = true
all_equal [] (_ ∷ _) = false
all_equal (_ ∷ _) [] = false
all_equal (t ∷ ts) (o ∷ os) = Transaction.equals t o && all_equal ts os

unfoldable pub equals : Block → Block → Bool
equals (first n o ts) (first n' o' ts') =
    if not (n == n') then false else if not (id_eq o o') then false else all_equal ts ts'
equals (first n o ts) (after p' n' o' ts') = false
equals (after p n o ts) (first n' o' ts') = false
equals (after p n o ts) (after p' n' o' ts') =
    let same_previous = equals p p' in
    if not (n == n')
    then false
    else if not (id_eq o o')
    then false
    else if not same_previous
    then false
    else all_equal ts ts'
