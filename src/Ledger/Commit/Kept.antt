-- ===== src/Ledger/Commit/Kept.antt =====
-- Blocks that were committed, over a run of the node.
use scale_out_distributed_le.Common.{
  ℕ, zero, suc, ◌≡◌, ◌⊎◌, refl, sym, ap, ◌∙◌, true, false, some, List, [], ◌∷◌, ◌++◌, arith, ◌==◌,
  get_elem?, Bool-cases, inl, inr, some_injective,
}
use scale_out_distributed_le.Ledger.ChainView.{
  Outcome, returns, index_out_of_bounds, illegal_state, unsupported_operation,
}
use scale_out_distributed_le.Ledger.Commit.{
  OwnBlock, OwnNode, block_after, replace, with_transaction, committed, Call, append, add, commits,
  call, caught, run_calls,
}
use scale_out_distributed_le.Ledger.Commit.Steps.{
  replace-get_elem?, append_block-does, add_transaction-does, commit-does,
}

-- A call appends a block, or changes one that is not committed.
abbrev Changes : OwnNode → OwnNode → Type 0
Changes node node' =
    ((last : OwnBlock) × (node'.chain.blocks ≡ node.chain.blocks ++ block_after last ∷ []))
    ⊎ ((k : ℕ) × (old : OwnBlock) × (block : OwnBlock) × (get_elem? node.chain.blocks k ≡ some old)
        × (old.finalized ≡ false)
        × (node'.chain.blocks ≡ replace k block node.chain.blocks))

call-Changes :
    (node node' : OwnNode) (event : Call) → call node event ≡ returns node' → Changes node node'
call-Changes node node' append e =
    let (last, grown, found, next, sent) = append_block-does node node' (unfold call in e) in
    inl (last, grown)
call-Changes node node' (add k t) e =
    let (block, found, uncommitted, changed, next, sent) =
      add_transaction-does node node' k t (unfold call in e) in
    inr (k, block, with_transaction t block, found, uncommitted, changed)
call-Changes node node' (commits k) e =
    let (block, found, uncommitted, changed, next, sent) =
      commit-does node node' k (unfold call in e) in
    inr (k, block, committed block, found, uncommitted, changed)

get_elem?-append :
    (bs : List OwnBlock) (block old : OwnBlock) (m : ℕ)
    → get_elem? bs m ≡ some old
    → get_elem? (bs ++ block ∷ []) m ≡ some old
get_elem?-append [] block old m e = ground arith
get_elem?-append (b ∷ bs) block old zero e = e
get_elem?-append (b ∷ bs) block old (suc m) e = get_elem?-append bs block old m e

-- The block with a number is there, and committed.
abbrev Has : OwnBlock → ℕ → OwnNode → Type 0
Has block m node = get_elem? node.chain.blocks m ≡ some block

Changes-Has :
    (node node' : OwnNode) (block : OwnBlock) (m : ℕ)
    → block.finalized ≡ true
    → Changes node node'
    → Has block m node
    → Has block m node'
Changes-Has node node' block m f (inl (last, grown)) h =
    ap (λ bs. get_elem? bs m) grown
    ∙ get_elem?-append node.chain.blocks (block_after last) block m h
Changes-Has node node' block m f (inr (k, old, new, found, uncommitted, changed)) h =
    ap (λ bs. get_elem? bs m) changed
    ∙ replace-get_elem? k old new node.chain.blocks m found
    ∙ elim (Bool-cases (m == k)) [
      | inl same ↦
          let alike =
            some_injective block old
              (sym h ∙ ap (get_elem? node.chain.blocks) (ground (arith, same)) ∙ found) in
          ground (arith, f, uncommitted, ap (λ b. b.finalized) alike)
      | inr other ↦ ground (arith, other, h)
    ]

caught-Has :
    (node : OwnNode) (o : Outcome OwnNode) (block : OwnBlock) (m : ℕ)
    → ((node' : OwnNode) → o ≡ returns node' → Has block m node')
    → Has block m node
    → Has block m (caught node o)
caught-Has node (returns node') block m f h = f node' refl
caught-Has node index_out_of_bounds block m f h = h
caught-Has node illegal_state block m f h = h
caught-Has node unsupported_operation block m f h = h

-- A block that was committed is the same, with the same transactions, after any further calls.
pub run_calls-keeps_committed :
    (events : List Call) (node : OwnNode) (block : OwnBlock) (m : ℕ)
    → get_elem? node.chain.blocks m ≡ some block
    → block.finalized ≡ true
    → get_elem? (run_calls node events).chain.blocks m ≡ some block
unfolding run_calls
run_calls-keeps_committed [] node block m h f = h
run_calls-keeps_committed (event ∷ events) node block m h f =
    run_calls-keeps_committed events (caught node (call node event)) block m
      (caught-Has node (call node event) block m
        (λ node' e. Changes-Has node node' block m f (call-Changes node node' event e) h) h)
      f
