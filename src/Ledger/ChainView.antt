-- ===== src/Ledger/ChainView.antt =====
-- src/main/java/nl/tudelft/blockchain/scaleoutdistributedledger/model/ChainView.java: a chain of
-- blocks with the blocks that were sent with a proof. The chain is shared with the program and may
-- grow between two calls, so every method takes its blocks. A block is known by its number and its
-- `equals`; numbers are not negative.
pub mod Laws
pub mod Overlap
pub mod Validity
pub mod Honest
pub mod Again
use scale_out_distributed_le.Common.{
  ℕ, zero, suc, ◌+◌, ◌-◌, Bool, true, false, not, Option, none, some, List, [], ◌∷◌, ltb, leb, ◌==◌,
  if◌then◌else◌, length, get_elem?,
}

-- What a method returns, or the exception that it throws.
pub data Outcome {ℓ} (A : Type ℓ) : Type ℓ where
  returns : A → Outcome A
  index_out_of_bounds : Outcome A
  illegal_state : Outcome A
  unsupported_operation : Outcome A

-- `valid` is none before the first check.
pub record ChainView {ℓ} (Block : Type ℓ) : Type ℓ where
  pub updates : List Block
  pub valid : Option Bool
  pub trim : Bool
  pub start_index : ℕ
  pub chain_size : ℕ

module _ {ℓ} {Block : Type ℓ} where
  -- The elements from an index on.
  unfoldable pub drop : ℕ → List Block → List Block
  drop zero xs = xs
  drop (suc n) [] = []
  drop (suc n) (x ∷ xs) = drop n xs

  unfoldable pub new_view : (chain updates : List Block) → (trim : Bool) → ChainView Block
  new_view chain updates trim = record {
    updates = updates;
    valid = none;
    trim = trim;
    start_index = 0;
    chain_size = length chain;
  }

  unfoldable pub reset_validation : ChainView Block → ChainView Block
  reset_validation view = elim view.valid [
    | none ↦ view
    | some valid ↦ if valid then record view { valid = none } else view
  ]

  -- `valid` is set to the outcome of a check.
  abbrev pub decided : ChainView Block → Bool → ChainView Block × Bool
  decided view valid = (record view { valid = some valid }, valid)

  -- `updates.get(index)`
  abbrev pub got : Option Block → Outcome Block
  got none = index_out_of_bounds
  got (some block) = returns block

  -- One overlapping update is passed: removed, or left behind the start index.
  abbrev pub passed : ChainView Block → ChainView Block
  passed view =
      if view.trim
      then record view { updates = drop 1 view.updates }
      else record view { start_index = view.start_index + 1 }

module _ {ℓ} {Block : Type ℓ} (number : Block → ℕ) where
  -- The loop of `checkNoGaps`, over the updates from its index on.
  unfoldable pub no_gaps : List Block → (previous_nr : ℕ) → Bool
  no_gaps [] previous_nr = true
  no_gaps (block ∷ blocks) previous_nr =
      let rest = no_gaps blocks (previous_nr + 1) in
      if not (number block == previous_nr + 1) then false else rest

  unfoldable pub check_no_gaps :
      ChainView Block → (start_index previous_nr : ℕ) → ChainView Block × Bool
  check_no_gaps view start_index previous_nr =
      decided view (no_gaps (drop start_index view.updates) previous_nr)

module _ {ℓ} {Block : Type ℓ} (number : Block → ℕ) (equals : Block → Block → Bool) where
  -- The loop over the overlap, with the chain's own blocks from the first overlapping one on.
  unfoldable pub check_overlap :
      (own_blocks : List Block) → ChainView Block → ChainView Block × Bool
  check_overlap [] view = (view, true)
  check_overlap (own_block ∷ own_blocks) view = elim (get_elem? view.updates view.start_index) [
    | none ↦ (view, true)
    | some updated_block ↦
        let rest = check_overlap own_blocks (passed view) in
        if not (equals own_block updated_block) then decided view false else rest
  ]

  -- `checkIntegrity` from the second `if` on, where the chain has a last block.
  unfoldable pub check_against :
      (chain : List Block) → ChainView Block → (first last_own : ℕ) → ChainView Block × Bool
  unfolding check_overlap check_no_gaps
  check_against chain view first last_own =
      if ltb 1 (first - last_own)
      then decided view false
      else if leb first last_own
      then (let overlap = last_own + 1 - first in
          let (view, same) = check_overlap (drop (length chain - overlap) chain) view in
          if same then check_no_gaps number view view.start_index last_own else (view, false))
      else check_no_gaps number view 0 last_own

  unfoldable pub check_integrity : (chain : List Block) → ChainView Block → ChainView Block × Bool
  unfolding check_against
  check_integrity chain view = elim view.updates [
    | [] ↦ decided view true
    | first ∷ _ ↦
        let view = record view { chain_size = length chain } in
        if length chain == 0
        then check_no_gaps number view 1 (number first)
        else check_against chain view (number first) (length chain - 1)
  ]

  unfoldable pub is_valid : (chain : List Block) → ChainView Block → ChainView Block × Bool
  is_valid chain view = elim view.valid [
    | none ↦ check_integrity chain view
    | some valid ↦ (view, valid)
  ]

  unfoldable pub is_redundant : (chain : List Block) → ChainView Block → ChainView Block × Bool
  is_redundant chain view =
      let (view, valid) = is_valid chain view in
      (view, if not valid then true else elim view.updates [ [] ↦ true | _ ∷ _ ↦ false ])

  unfoldable pub get_block :
      (chain : List Block) → ChainView Block → ℕ → ChainView Block × Outcome Block
  get_block chain view n =
      if ltb n (length chain)
      then (view, got (get_elem? chain n))
      else let (view, valid) = is_valid chain view in
        (
          view,
          if valid
              then got (get_elem? view.updates (n - view.chain_size + view.start_index))
              else illegal_state,
        )

  unfoldable pub size : (chain : List Block) → ChainView Block → ChainView Block × Outcome ℕ
  size chain view =
      let (view, valid) = is_valid chain view in
      (
        view,
        if valid
            then returns (view.chain_size + length view.updates - view.start_index)
            else illegal_state,
      )
