-- ===== src/Ledger/Chain.antt =====
-- model/Chain.java: the blocks that a node has of the chain of a node, its own or another. A block is
-- known by its number. `next_committed` gives for the number of a block the number of its
-- `nextCommittedBlock`; a walk along `previousBlock` goes through the numbers downwards. Whether the
-- main chain has a block in its cache is an argument.
pub mod Updates
pub mod Committed
use scale_out_distributed_le.Common.{
  ℕ, ◌+◌, ◌-◌, Bool, true, false, not, ◌&&◌, Option, none, some, List, [], ◌∷◌, ◌++◌, ltb, leb,
  ◌==◌, if◌then◌else◌, length, get_elem?,
}
use scale_out_distributed_le.Ledger.ChainView.{
  Outcome, returns, illegal_state, unsupported_operation,
}

pub record Chain {ℓ} (Block : Type ℓ) : Type ℓ where
  pub is_own : Bool
  pub blocks : List Block
  pub last_committed_block : Option Block
  pub next_committed : ℕ → Option ℕ

-- The numbers from `from` to `to` get a next committed block.
abbrev pub mark : (from to : ℕ) → (ℕ → Option ℕ) → ℕ → Option ℕ
mark from to next n = if leb from n && leb n to then some to else next n

module _ {ℓ} {Block : Type ℓ} where
  abbrev pub new_chain : (is_own : Bool) → Chain Block
  new_chain is_own = record {
    is_own = is_own;
    blocks = [];
    last_committed_block = none;
    next_committed = λ n. none;
  }

  -- The last element of a list.
  unfoldable pub get_last_block : List Block → Option Block
  get_last_block [] = none
  get_last_block (b ∷ []) = some b
  get_last_block (b ∷ c ∷ bs) = get_last_block (c ∷ bs)

module _ {ℓ} {Block : Type ℓ} (number : Block → ℕ) where
  unfoldable pub set_last_committed_block : Chain Block → Block → Chain Block
  set_last_committed_block chain block = elim chain.last_committed_block [
    | none ↦ record chain { last_committed_block = some block }
    | some last ↦
        if ltb (number last) (number block)
        then record chain { last_committed_block = some block }
        else chain
  ]

  -- Without the search for the genesis transaction.
  unfoldable pub set_genesis_block : Chain Block → Block → Outcome (Chain Block)
  unfolding set_last_committed_block
  set_genesis_block chain genesis_block = elim chain.blocks [
    | [] ↦
        returns
          (set_last_committed_block (record chain { blocks = genesis_block ∷ [] }) genesis_block)
    | _ ∷ _ ↦ illegal_state
  ]

  -- `new_block` makes a block after another one.
  unfoldable pub append_new_block :
      (new_block : Block → Block) → Chain Block → Outcome (Chain Block)
  unfolding get_last_block
  append_new_block new_block chain =
      if not chain.is_own then unsupported_operation else elim (get_last_block chain.blocks) [
        | none ↦ illegal_state
        | some last ↦ returns (record chain { blocks = chain.blocks ++ new_block last ∷ [] })
      ]

  -- The loop of `update`: the number that is next, the first number that has no next committed block
  -- yet (`lastBlockNr + 1`), the blocks to add and the next committed blocks.
  unfoldable pub apply_updates :
      (is_in_cache : Block → Bool)
      → (last_update_nr next_nr open_nr : ℕ) → List Block
      → (ℕ → Option ℕ)
      → List Block × (ℕ → Option ℕ)
  apply_updates is_in_cache last_update_nr next_nr open_nr [] next = ([], next)
  apply_updates is_in_cache last_update_nr next_nr open_nr (block ∷ blocks) next =
      let skipped = apply_updates is_in_cache last_update_nr next_nr open_nr blocks next in
      let uncommitted =
        apply_updates is_in_cache last_update_nr (next_nr + 1) open_nr blocks next in
      let committed =
        apply_updates is_in_cache last_update_nr (next_nr + 1) (number block + 1) blocks
          (mark open_nr (number block) next) in
      if not (number block == next_nr)
      then skipped
      else if not (number block == last_update_nr) && not (is_in_cache block)
      then (block ∷ uncommitted.0, uncommitted.1)
      else (block ∷ committed.0, committed.1)

  abbrev pub next_after : Option Block → ℕ
  next_after none = 0
  next_after (some previous) = number previous + 1

  unfoldable pub update :
      (is_in_cache : Block → Bool) → Chain Block → (updates : List Block) → Outcome (Chain Block)
  unfolding get_last_block apply_updates set_last_committed_block
  update is_in_cache chain updates =
      if chain.is_own then unsupported_operation else elim (get_last_block updates) [
        | none ↦ returns chain
        | some last_committed ↦
            let next_nr = next_after (get_last_block chain.blocks) in
            let (to_add, next) =
              apply_updates is_in_cache (number last_committed) next_nr next_nr updates
                chain.next_committed in
            returns (
              set_last_committed_block
                (record chain { blocks = chain.blocks ++ to_add; next_committed = next })
                last_committed)
      ]
