-- ===== src/Ledger/Proof/Required.antt =====
-- `appendChains2` of model/Proof.java, and `chainsRequired` of TransactionCreator.java: the chains
-- that a transaction needs of those that its receiver does not know. A missing block number is
-- `none`. `appendChains` is not called anywhere.
use scale_out_distributed_le.Common.{
  ℕ, zero, suc, ◌+◌, Bool, true, false, ◌||◌, Option, none, some, List, [], ◌∷◌, leb, ◌==◌,
  if◌then◌else◌, length,
}
use scale_out_distributed_le.Ledger.Transaction.{Transaction, Sources, transaction, nil, cons}
use scale_out_distributed_le.Ledger.Block.{Block}
use scale_out_distributed_le.Ledger.Proof.{get_block_number}
use scale_out_distributed_le.Ledger.MetaKnowledge.{
  MetaKnowledge, merge_max, get_last_known_block_number,
}

-- The last known block is this one or a later one; `none` stands for the number -1.
abbrev pub is_known : (last_known : Option ℕ) → (block_number : ℕ) → Bool
is_known none k = false
is_known (some last) k = leb k last

module _ (nr_of_nodes receiver_id : ℕ) (owner_chains : ℕ → List Block) (receiver_chain : List Block)
    (meta_knowledge : MetaKnowledge) where
  unfoldable mutual
    unfolding get_block_number merge_max get_last_known_block_number

    -- The map from nodes to the highest number of a block.
    pub append_chains2 : Transaction → List (ℕ × ℕ) → Option (List (ℕ × ℕ))
    append_chains2 (transaction n none r a m ss b) chains = some chains
    append_chains2 (transaction n (some owner) r a m ss b) chains =
        let number = get_block_number owner_chains (transaction n (some owner) r a m ss b) in
        if owner == receiver_id then some chains else elim number [
          | none ↦ none
          | some k ↦
              let found = merge_max owner k chains in
              let rest = append_sources2 ss found in
              if is_known (get_last_known_block_number meta_knowledge receiver_chain owner) k
              then some chains
              else if leb nr_of_nodes (length found + 1)
              then some found
              else rest
        ]

    pub append_sources2 : Sources → List (ℕ × ℕ) → Option (List (ℕ × ℕ))
    append_sources2 nil chains = some chains
    append_sources2 (cons s ss) chains = elim (append_chains2 s chains) [
      | none ↦ none
      | some chains' ↦ append_sources2 ss chains'
    ]

-- A BitSet, as its bits up to the highest that is set.
abbrev pub BitSet : Type 0
BitSet = List Bool

abbrev pub set_bit : ℕ → BitSet → BitSet
set_bit zero [] = true ∷ []
set_bit zero (b ∷ bs) = true ∷ bs
set_bit (suc i) [] = false ∷ set_bit i []
set_bit (suc i) (b ∷ bs) = b ∷ set_bit i bs

abbrev pub or_bits : BitSet → BitSet → BitSet
or_bits [] bs = bs
or_bits (a ∷ xs) [] = a ∷ xs
or_bits (a ∷ xs) (b ∷ bs) = (a || b) ∷ or_bits xs bs

abbrev pub cardinality : BitSet → ℕ
cardinality [] = 0
cardinality (b ∷ bs) = (if b then 1 else 0) + cardinality bs

abbrev pub bits_equal : BitSet → BitSet → Bool
bits_equal [] [] = true
bits_equal [] (b ∷ bs) = false
bits_equal (a ∷ xs) [] = false
bits_equal (a ∷ xs) (b ∷ bs) =
    if a then if b then bits_equal xs bs else false else if b then false else bits_equal xs bs

abbrev pub bits_of_ids : List (ℕ × ℕ) → BitSet
bits_of_ids [] = []
bits_of_ids ((id, k) ∷ chains) = set_bit id (bits_of_ids chains)

unfoldable pub chains_required :
    (nr_of_nodes receiver_id : ℕ)
    → (owner_chains : ℕ → List Block) → (receiver_chain : List Block) → MetaKnowledge
    → Transaction
    → Option BitSet
unfolding append_chains2
chains_required nr_of_nodes receiver_id owner_chains receiver_chain meta_knowledge t =
    elim (append_chains2 nr_of_nodes receiver_id owner_chains receiver_chain meta_knowledge t []) [
      | none ↦ none
      | some chains ↦ some (bits_of_ids chains)
    ]
