-- ===== src/Ledger/Receipt.antt =====
-- `applyUpdates` of model/Proof.java, with `updateMetaKnowledge` of model/Node.java: what a node does
-- with the blocks of a proof. Nodes are ids; a block is known by its number, and `previousBlock` is
-- the block before it in its chain. The chains are a map of the ids.
pub mod Applied
use scale_out_distributed_le.Common.{
  ℕ, Bool, true, false, Option, none, some, List, [], ◌∷◌, ◌==◌, if◌then◌else◌,
}
use scale_out_distributed_le.Ledger.ChainView.{
  Outcome, returns, index_out_of_bounds, illegal_state, unsupported_operation,
}
use scale_out_distributed_le.Ledger.Chain.{Chain, get_last_block, update}
use scale_out_distributed_le.Ledger.MetaKnowledge.{MetaKnowledge, update_last_known_block_number}

module _ {ℓ} {Block : Type ℓ} (number : Block → ℕ) where
  abbrev pub put_chain : (ℕ → Chain Block) → (id : ℕ) → Chain Block → ℕ → Chain Block
  put_chain chains id chain i = if i == id then chain else chains i

  unfoldable pub update_meta_knowledge : MetaKnowledge → List (ℕ × List Block) → MetaKnowledge
  unfolding update_last_known_block_number get_last_block
  update_meta_knowledge m [] = m
  update_meta_knowledge m ((id, blocks) ∷ entries) =
      let next : MetaKnowledge = elim (get_last_block blocks) [
        | none ↦ m
        | some last ↦ update_last_known_block_number m id (number last)
      ] in
      update_meta_knowledge (if id == m.owner then m else next) entries

  -- The loop over the chains, and whether it came to its end.
  unfoldable pub update_chains :
      (is_in_cache : Block → Bool)
      → (ℕ → Chain Block)
      → List (ℕ × List Block)
      → (ℕ → Chain Block) × Bool
  unfolding update
  update_chains is_in_cache chains [] = (chains, true)
  update_chains is_in_cache chains ((id, updates) ∷ entries) =
      elim (update number is_in_cache (chains id) updates) [
        | returns chain ↦ update_chains is_in_cache (put_chain chains id chain) entries
        | index_out_of_bounds ↦ (chains, false)
        | illegal_state ↦ (chains, false)
        | unsupported_operation ↦ (chains, false)
      ]

  -- With the meta knowledge of the sender.
  unfoldable pub apply_proof :
      (is_in_cache : Block → Bool)
      → (chain_updates : List (ℕ × List Block)) → (ℕ → Chain Block) × MetaKnowledge
      → ((ℕ → Chain Block) × MetaKnowledge) × Bool
  unfolding update_chains update_meta_knowledge
  apply_proof is_in_cache chain_updates (chains, m) =
      let (chains', finished) = update_chains is_in_cache chains chain_updates in
      ((chains', if finished then update_meta_knowledge m chain_updates else m), finished)
