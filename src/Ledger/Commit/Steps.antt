-- ===== src/Ledger/Commit/Steps.antt =====
-- What the calls on the chain of the node itself do to its blocks.
use scale_out_distributed_le.Common.{
  ℕ, zero, suc, ◌+◌, ◌≡◌, refl, sym, ap, false, some, List, [], ◌∷◌, ◌++◌, arith, ◌==◌, get_elem?,
  Bool-cases, Option-cases, inl, inr, if◌then◌else◌,
}
use scale_out_distributed_le.Ledger.ChainView.{
  Outcome, returns, index_out_of_bounds, illegal_state, unsupported_operation,
}
use scale_out_distributed_le.Ledger.ChainView.Laws.{NumberedFrom, returns_injective}
use scale_out_distributed_le.Ledger.Transaction.{Transaction}
use scale_out_distributed_le.Ledger.Chain.{
  Chain, get_last_block, append_new_block, set_last_committed_block,
}
use scale_out_distributed_le.Ledger.Commit.{
  OwnBlock, OwnNode, block_after, with_chain, append_block, replace, with_transaction, committed,
  add_transaction, set_next, walk_back, commit,
}

pub replace-get_elem? :
    (k : ℕ) (old block : OwnBlock) (bs : List OwnBlock) (m : ℕ)
    → get_elem? bs k ≡ some old
    → get_elem? (replace k block bs) m ≡ (if m == k then some block else get_elem? bs m)
unfolding replace
replace-get_elem? k old block [] m e = ground arith
replace-get_elem? zero old block (b ∷ bs) zero e = refl
replace-get_elem? zero old block (b ∷ bs) (suc m) e = ground arith
replace-get_elem? (suc k) old block (b ∷ bs) zero e = ground arith
replace-get_elem? (suc k) old block (b ∷ bs) (suc m) e =
    ground (arith, replace-get_elem? k old block bs m e)

pub replace-NumberedFrom :
    (from k : ℕ) (old block : OwnBlock) (bs : List OwnBlock)
    → get_elem? bs k ≡ some old
    → block.number ≡ old.number
    → NumberedFrom OwnBlock.number from bs
    → NumberedFrom OwnBlock.number from (replace k block bs)
unfolding replace
replace-NumberedFrom from k old block [] e same h = tt
replace-NumberedFrom from zero old block (b ∷ bs) e same h = (ground (arith, same, e, h.0), h.1)
replace-NumberedFrom from (suc k) old block (b ∷ bs) e same h =
    (h.0, replace-NumberedFrom (from + 1) k old block bs e same h.1)

append_new_block-blocks :
    (chain chain' : Chain OwnBlock)
    → append_new_block OwnBlock.number block_after chain ≡ returns chain'
    → (last : OwnBlock) × (chain'.blocks ≡ chain.blocks ++ block_after last ∷ [])
      × (get_last_block chain.blocks ≡ some last)
      × (chain'.next_committed ≡ chain.next_committed)
unfolding append_new_block
append_new_block-blocks chain chain' e = elim (Bool-cases chain.is_own) [
  | inr theirs ↦ ground (arith, theirs)
  | inl own ↦ elim (Option-cases (get_last_block chain.blocks)) [
    | inl empty ↦ ground (arith, own, empty)
    | inr (last, found) ↦
        let same =
          returns_injective (record chain { blocks = chain.blocks ++ block_after last ∷ [] }) chain'
            (ground (arith, own, found)) in
        (last, sym (ap (λ c. c.blocks) same), found, sym (ap (λ c. c.next_committed) same))
  ]
]

with_chain-chain :
    (node node' : OwnNode) (o : Outcome (Chain OwnBlock))
    → with_chain node o ≡ returns node'
    → (o ≡ returns node'.chain) × (node'.abstracts ≡ node.abstracts)
with_chain-chain node node' (returns chain) e =
    let same = returns_injective (record node { chain = chain }) node' e in
    (ap (λ n. returns n.chain) same, sym (ap (λ n. n.abstracts) same))
with_chain-chain node node' index_out_of_bounds e = ground arith
with_chain-chain node node' illegal_state e = ground arith
with_chain-chain node node' unsupported_operation e = ground arith

pub append_block-does :
    (node node' : OwnNode)
    → append_block node ≡ returns node'
    → (last : OwnBlock) × (node'.chain.blocks ≡ node.chain.blocks ++ block_after last ∷ [])
      × (get_last_block node.chain.blocks ≡ some last)
      × (node'.chain.next_committed ≡ node.chain.next_committed)
      × (node'.abstracts ≡ node.abstracts)
append_block-does node node' e =
    let (made, kept) =
      with_chain-chain node node' (append_new_block OwnBlock.number block_after node.chain)
        (unfold append_block in e) in
    let (last, grown, found, next) = append_new_block-blocks node.chain node'.chain made in
    (last, grown, found, next, kept)

pub add_transaction-does :
    (node node' : OwnNode) (k : ℕ) (t : Transaction)
    → add_transaction node k t ≡ returns node'
    → (block : OwnBlock) × (get_elem? node.chain.blocks k ≡ some block)
      × (block.finalized ≡ false)
      × (node'.chain.blocks ≡ replace k (with_transaction t block) node.chain.blocks)
      × (node'.chain.next_committed ≡ node.chain.next_committed)
      × (node'.abstracts ≡ node.abstracts)
unfolding add_transaction
add_transaction-does node node' k t e = elim (Option-cases (get_elem? node.chain.blocks k)) [
  | inl missing ↦ ground (arith, missing)
  | inr (block, found) ↦ elim (Bool-cases block.finalized) [
    | inl done ↦ ground (arith, found, done)
    | inr uncommitted ↦
        let changed : OwnNode = record node {
          chain = record node.chain {
            blocks = replace k (with_transaction t block) node.chain.blocks;
          };
        } in
        let same = returns_injective changed node' (ground (arith, found, uncommitted)) in
        (
          block,
          found,
          uncommitted,
          sym (ap (λ n. n.chain.blocks) same),
          sym (ap (λ n. n.chain.next_committed) same),
          sym (ap (λ n. n.abstracts) same),
        )
  ]
]

pub commit-does :
    (node node' : OwnNode) (k : ℕ)
    → commit node k ≡ returns node'
    → (block : OwnBlock) × (get_elem? node.chain.blocks k ≡ some block)
      × (block.finalized ≡ false)
      × (node'.chain.blocks ≡ replace k (committed block) node.chain.blocks)
      × (node'.chain.next_committed
          ≡ walk_back block.number block.number
              (set_next block.number block.number node.chain.next_committed))
      × (node'.abstracts ≡ node.abstracts ++ block.number ∷ [])
unfolding commit
commit-does node node' k e = elim (Option-cases (get_elem? node.chain.blocks k)) [
  | inl missing ↦ ground (arith, missing)
  | inr (block, found) ↦ elim (Bool-cases block.finalized) [
    | inl done ↦ ground (arith, found, done)
    | inr uncommitted ↦ elim (Bool-cases node.chain.is_own) [
      | inr theirs ↦ ground (arith, found, uncommitted, theirs)
      | inl own ↦
          let nr = block.number in
          let changed : OwnNode = record node {
            chain = record (set_last_committed_block OwnBlock.number node.chain (committed block)) {
              blocks = replace k (committed block) node.chain.blocks;
              next_committed = walk_back nr nr (set_next nr nr node.chain.next_committed);
            };
            abstracts = node.abstracts ++ nr ∷ [];
          } in
          let same = returns_injective changed node' (ground (arith, found, uncommitted, own)) in
          (
            block,
            found,
            uncommitted,
            sym (ap (λ n. n.chain.blocks) same),
            sym (ap (λ n. n.chain.next_committed) same),
            sym (ap (λ n. n.abstracts) same),
          )
    ]
  ]
]
