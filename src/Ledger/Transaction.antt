-- ===== src/Ledger/Transaction.antt =====
-- model/Transaction.java: transactions, with the transactions that are their sources. A node is its
-- id: the local store holds one object for each. The sources are a TreeSet, here the list of its
-- elements in order, which is searched with `compareTo`; the references to sources have no cycle.
-- Amounts are longs, as bit patterns.
pub mod Equality
use scale_out_distributed_le.Common.{
  ℕ, suc, ◌+◌, ◌≡◌, refl, Bool, true, false, not, ◌&&◌, Option, none, some, arith, ◌==◌,
  if◌then◌else◌,
}
use Prim.Native.Nat.{compare, Ordering}
use mathlib.Core.List.{List, [], ◌∷◌}

mutual
  pub data Transaction : Type 0 where
    transaction :
        (number : ℕ)
        → (sender : Option ℕ) → (receiver amount remainder : ℕ) → (source : Sources)
        → (block_number : Option ℕ) → Transaction

  pub data Sources : Type 0 where
    nil : Sources
    cons : Transaction → Sources → Sources

abbrev pub number : Transaction → ℕ
number (transaction n s r a m ss b) = n

abbrev pub sender : Transaction → Option ℕ
sender (transaction n s r a m ss b) = s

abbrev pub receiver : Transaction → ℕ
receiver (transaction n s r a m ss b) = r

abbrev pub amount : Transaction → ℕ
amount (transaction n s r a m ss b) = a

abbrev pub remainder : Transaction → ℕ
remainder (transaction n s r a m ss b) = m

abbrev pub source : Transaction → Sources
source (transaction n s r a m ss b) = ss

abbrev pub block_number : Transaction → Option ℕ
block_number (transaction n s r a m ss b) = b

-- `compareTo`: the transactions of the genesis block, which have no sender, are all alike.
abbrev compare_senders : Option ℕ → Option ℕ → (numbers : Ordering) → Ordering
compare_senders none (some _) numbers = Ordering.lt
compare_senders (some _) none numbers = Ordering.gt
compare_senders none none numbers = Ordering.eq
compare_senders (some s) (some t) numbers = elim (compare s t) [
  | Ordering.eq ↦ numbers
  | unequal ↦ unequal
]

unfoldable pub compare_to : Transaction → Transaction → Ordering
compare_to t o = compare_senders (sender t) (sender o) (compare (number t) (number o))

-- The comparison gives 0.
abbrev pub is_same : Transaction → Transaction → Bool
is_same t o = elim (compare_to t o) [ Ordering.eq ↦ true | _ ↦ false ]

-- `set.contains(t)`, `set.containsAll(others)` and `set.size()` of a TreeSet
unfoldable pub contains : Sources → Transaction → Bool
contains nil t = false
contains (cons s ss) t = if is_same t s then true else contains ss t

unfoldable pub contains_all : Sources → Sources → Bool
contains_all ss nil = true
contains_all ss (cons t ts) = contains ss t && contains_all ss ts

unfoldable pub size : Sources → ℕ
size nil = 0
size (cons s ss) = suc (size ss)

abbrev pub id_eq : Option ℕ → Option ℕ → Bool
id_eq none none = true
id_eq none (some _) = false
id_eq (some _) none = false
id_eq (some a) (some b) = a == b

-- `equals`, with the `equals` of sets on the sources: as many, and each found in the other set.
unfoldable pub equals : Transaction → Transaction → Bool
equals t o =
    if not (number t == number o)
    then false
    else if not (receiver t == receiver o)
    then false
    else if not (id_eq (sender t) (sender o))
    then false
    else if not (amount t == amount o)
    then false
    else if not (remainder t == remainder o)
    then false
    else if not (size (source t) == size (source o) && contains_all (source t) (source o))
    then false
    else id_eq (block_number t) (block_number o)
