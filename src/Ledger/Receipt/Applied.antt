-- ===== src/Ledger/Receipt/Applied.antt =====
-- The chains after the blocks of a proof are applied, against the views on which it was verified.
use scale_out_distributed_le.Common.{
  ℕ, ◌<◌, ◌≡◌, refl, sym, ap, ◌∙◌, subst, Bool, true, false, List, [], ◌∷◌, arith, All, length,
  ◌==◌, Bool-cases, Option-cases, inl, inr, if◌then◌else◌,
}
use scale_out_distributed_le.Ledger.ChainView.{returns, new_view, is_valid}
use scale_out_distributed_le.Ledger.ChainView.Laws.{NumberedFrom, blocks, returns_injective}
use scale_out_distributed_le.Ledger.Chain.{Chain, update, get_last_block, set_last_committed_block}
use scale_out_distributed_le.Ledger.Chain.Updates.{
  update-returns, update-blocks_of_view, update-extended, extended,
}
use scale_out_distributed_le.Ledger.MetaKnowledge.{MetaKnowledge}
use scale_out_distributed_le.Ledger.Receipt.{put_chain, update_chains, apply_proof}

module _ {ℓ} {Block : Type ℓ} (number : Block → ℕ) where
  -- The updates for a node, none where the map has no entry.
  abbrev pub updates_for : (id : ℕ) → List (ℕ × List Block) → List Block
  updates_for id [] = []
  updates_for id ((i, updates) ∷ entries) =
      let rest = updates_for id entries in if i == id then updates else rest

  -- Every node has one entry at most, as in a map.
  abbrev pub IsMap : List (ℕ × List Block) → Type 0
  IsMap [] = Unit
  IsMap ((id, updates) ∷ entries) = All (λ e. (e.0 == id) ≡ false) entries × IsMap entries

  update-none :
      (is_in_cache : Block → Bool) (chain : Chain Block)
      → chain.is_own ≡ false
      → update number is_in_cache chain [] ≡ returns chain
  unfolding update get_last_block
  update-none c chain other = ground (arith, other)

  updates_for-none :
      (id : ℕ) (entries : List (ℕ × List Block))
      → All (λ e. (e.0 == id) ≡ false) entries
      → updates_for id entries ≡ []
  updates_for-none id [] h = refl
  updates_for-none id ((i, updates) ∷ entries) h =
      ground (arith, h.0, updates_for-none id entries h.1)

  set_last_committed_block-is_own :
      (chain : Chain Block) (block : Block)
      → (set_last_committed_block number chain block).is_own ≡ chain.is_own
  unfolding set_last_committed_block
  set_last_committed_block-is_own chain block =
      ground (arith, Option-cases chain.last_committed_block)

  update-is_own :
      (is_in_cache : Block → Bool) (chain chain' : Chain Block) (updates : List Block)
      → chain.is_own ≡ false
      → update number is_in_cache chain updates ≡ returns chain'
      → chain'.is_own ≡ false
  update-is_own c chain chain' updates other e = elim (Option-cases (get_last_block updates)) [
    | inl nothing ↦
        ap (λ x. x.is_own)
          (returns_injective chain' chain (sym e ∙ unfold update in ground (arith, other, nothing)))
        ∙ other
    | inr (last, found) ↦
        ap (λ x. x.is_own) (update-extended number c chain chain' updates last found e)
        ∙ set_last_committed_block-is_own (extended number c chain updates last) last
        ∙ other
  ]

  update_chains-going_on :
      (is_in_cache : Block → Bool) (chains : ℕ → Chain Block) (id : ℕ) (updates : List Block)
      (entries : List (ℕ × List Block)) (chain : Chain Block)
      → update number is_in_cache (chains id) updates ≡ returns chain
      → update_chains number is_in_cache chains ((id, updates) ∷ entries)
        ≡ update_chains number is_in_cache (put_chain number chains id chain) entries
  unfolding update_chains
  update_chains-going_on c chains id updates entries chain e = ground (arith, e)

  pub update_chains-update :
      (is_in_cache : Block → Bool) (chains : ℕ → Chain Block) (entries : List (ℕ × List Block))
      → ((id : ℕ) → (chains id).is_own ≡ false)
      → IsMap entries
      → ((update_chains number is_in_cache chains entries).1 ≡ true)
        × ((id : ℕ)
            → update number is_in_cache (chains id) (updates_for id entries)
              ≡ returns ((update_chains number is_in_cache chains entries).0 id))
  update_chains-update c chains [] other map =
      unfold update_chains in (refl, λ id. update-none c (chains id) (other id))
  update_chains-update c chains ((id, updates) ∷ entries) other (fresh, map) =
      let (chain, e) = update-returns number c (chains id) updates (other id) in
      let chains' = put_chain number chains id chain in
      let others : (i : ℕ) → (chains' i).is_own ≡ false = λ i. elim (Bool-cases (i == id)) [
        | inl same ↦ rw same (update-is_own c (chains id) chain updates (other id) e)
        | inr apart ↦ rw apart (other i)
      ] in
      let (finished, rest) = update_chains-update c chains' entries others map in
      let step = update_chains-going_on c chains id updates entries chain e in
      let final = update_chains number c chains ((id, updates) ∷ entries) in
      let after : (i : ℕ)
          → update number c (chains' i) (updates_for i entries) ≡ returns (final.0 i) =
        λ i. rest i ∙ ap (λ p. returns (p.0 i)) (sym step) in
      let settled : returns (chains' id) ≡ returns (final.0 id) =
        sym (update-none c (chains' id) (others id))
        ∙ ap (update number c (chains' id)) (sym (updates_for-none id entries fresh))
        ∙ after id in
      let here : chain ≡ chains' id = ground arith in
      let own_updates : updates_for id ((id, updates) ∷ entries) ≡ updates = ground arith in
      (
        ap (λ p. p.1) step ∙ finished,
        λ i. elim (Bool-cases (id == i)) [
          | inl same ↦
              subst
                (λ j.
                  update number c (chains j) (updates_for j ((id, updates) ∷ entries))
                  ≡ returns (final.0 j))
                (ground (arith, same))
                (ap (update number c (chains id)) own_updates ∙ e ∙ ap returns here ∙ settled)
          | inr apart ↦
              ap (update number c (chains i)) (
                subst (λ b. (if b then updates else updates_for i entries) ≡ updates_for i entries)
                  (sym apart) refl)
              ∙ ap (λ x. update number c x (updates_for i entries)) (ground (arith, apart))
              ∙ after i
        ],
      )

  -- Where a node applies the updates of a proof, one list for each other node at most, to chains of
  -- other nodes that are not empty and numbered from 0, and the view of each chain with its updates
  -- is valid, then all updates are applied, and each chain has exactly the blocks of its view.
  pub apply_proof-views :
      (equals : Block → Block → Bool) (is_in_cache : Block → Bool) (chains : ℕ → Chain Block)
      (entries : List (ℕ × List Block)) (m : MetaKnowledge)
      → ((a b : Block) → equals a b ≡ true → number a ≡ number b)
      → IsMap entries
      → ((id : ℕ) → (chains id).is_own ≡ false)
      → ((id : ℕ) → (0 < length (chains id).blocks) × NumberedFrom number 0 (chains id).blocks)
      → ((id : ℕ)
          → (is_valid number equals
              (chains id).blocks
              (new_view (chains id).blocks (updates_for id entries) false)).1
            ≡ true)
      → let ((chains', m'), finished) = apply_proof number is_in_cache entries (chains, m) in
        (finished ≡ true)
        × ((id : ℕ)
            → (chains' id).blocks
              ≡ blocks
                  (chains id).blocks
                  (is_valid number equals
                    (chains id).blocks
                    (new_view (chains id).blocks (updates_for id entries) false)).0)
  apply_proof-views equals c chains entries m differ map other numbered valid =
      let (finished, updated) = update_chains-update c chains entries other map in
      unfold apply_proof in
      (
        finished,
        λ id.
            update-blocks_of_view number equals c (chains id)
              ((update_chains number c chains entries).0 id) (updates_for id entries) false differ
              (numbered id).0 (numbered id).1 (valid id) (updated id),
      )
