-- ===== src/Ledger/Proof.antt =====
-- model/Proof.java: a transaction with the blocks that show it, and its verification. Nodes are ids;
-- the blocks of their chains, and what is known of a block and the main chain, are arguments. A
-- ProofValidationException is `false`. The flag `locallyVerified` of the objects that are
-- transactions is a list of those that have it, searched with `same`, the identity of objects.
pub mod Anchor
pub mod Proven
pub mod Required
use scale_out_distributed_le.Common.{
  ℕ, Bool, true, false, not, ◌&&◌, ◌||◌, Option, none, some, List, [], ◌∷◌, leb, ◌==◌,
  if◌then◌else◌,
}
use scale_out_distributed_le.Ledger.ChainView.{
  ChainView, Outcome, returns, index_out_of_bounds, illegal_state, unsupported_operation, new_view,
  is_valid, get_block,
}
use scale_out_distributed_le.Ledger.ChainView.Laws.{blocks}
use scale_out_distributed_le.Ledger.Transaction.{
  Transaction, Sources, transaction, nil, cons, sender,
}
use scale_out_distributed_le.Ledger.Block
use scale_out_distributed_le.Ledger.Block.{Block, transactions}
use scale_out_distributed_le.Ledger.LocalStore.{has}

pub record Proof : Type 0 where
  pub main_transaction : Transaction
  pub chain_updates : List (ℕ × List Block)

-- The fields of a block that change, and whether the main chain has it.
pub record Marks : Type 0 where
  pub has_next_committed : Block → Bool
  pub has_no_abstract : Block → Bool
  pub on_main_chain : Block → Bool
  pub is_present : Block → Bool

-- `isOnMainChain`, without the note that it makes of a positive answer.
abbrev pub is_on_main_chain : Marks → Block → Bool
is_on_main_chain marks block =
    if Block.number block == 0
    then true
    else if marks.has_no_abstract block
    then false
    else if marks.on_main_chain block
    then true
    else marks.is_present block

-- `chainUpdates.get(node)`; a view takes null for no updates.
unfoldable pub updates_of : (id : ℕ) → List (ℕ × List Block) → List Block
updates_of id [] = []
updates_of id ((i, updates) ∷ entries) = if i == id then updates else updates_of id entries

-- The view is checked when it is made, and kept; the chain does not change in between.
unfoldable pub get_chain_view : (chains : ℕ → List Block) → Proof → (id : ℕ) → ChainView Block
unfolding updates_of
get_chain_view chains proof id =
    (is_valid Block.number Block.equals (chains id)
      (new_view (chains id) (updates_of id proof.chain_updates) false)).0

-- What the iterator of a view goes through.
abbrev pub chain_view_blocks : (chains : ℕ → List Block) → Proof → (id : ℕ) → List Block
chain_view_blocks chains proof id = blocks (chains id) (get_chain_view chains proof id)

-- Whether a block is committed, or a block after it.
abbrev pub is_anchored : Marks → Block → Bool
is_anchored marks block = marks.has_next_committed block || is_on_main_chain marks block

-- The loop over the blocks of a view, with `seen` and `absmark`; `none` where the transaction is
-- found twice.
unfoldable pub scan_chain :
    Marks
    → Transaction
    → (block_number : ℕ) → (seen absmark : Bool) → List Block
    → Option (Bool × Bool)
unfolding has
scan_chain marks t block_number seen absmark [] = some (seen, absmark)
scan_chain marks t block_number seen absmark (block ∷ blocks) =
    let found = has t (transactions block) in
    let absmark' = absmark || leb block_number (Block.number block) && is_anchored marks block in
    let rest = scan_chain marks t block_number (seen || found) absmark' blocks in
    if found && seen then none else rest

-- What is tested after the loop.
abbrev pub seen_and_marked : Option (Bool × Bool) → Bool
seen_and_marked none = false
seen_and_marked (some (seen, absmark)) = seen && absmark

unfoldable pub verify_chain_with_transaction :
    (chains : ℕ → List Block)
    → Marks
    → Proof
    → (sender_id : ℕ) → Transaction
    → (block_number : ℕ) → Bool
unfolding get_chain_view scan_chain
verify_chain_with_transaction chains marks proof s t block_number =
    let view = get_chain_view chains proof s in
    let (_, valid) = is_valid Block.number Block.equals (chains s) view in
    if not valid
    then false
    else seen_and_marked
        (scan_chain marks t block_number false false (chain_view_blocks chains proof s))

unfoldable pub verify_genesis_transaction :
    (chains : ℕ → List Block) → Marks → Proof → (receiver_id block_number : ℕ) → Bool
unfolding get_chain_view
verify_genesis_transaction chains marks proof r block_number =
    let (_, found) =
      get_block Block.number Block.equals (chains r) (get_chain_view chains proof r) 0 in
    if not (block_number == 0)
    then false
    else elim found [ returns genesis_block ↦ is_on_main_chain marks genesis_block | _ ↦ false ]

-- `isLocallyVerified`
unfoldable pub is_verified :
    (same : Transaction → Transaction → Bool) → Transaction → List Transaction → Bool
is_verified same t [] = false
is_verified same t (o ∷ verified) = if same t o then true else is_verified same t verified

-- The number of the first block that contains the transaction.
unfoldable pub find_block_number : Transaction → List Block → Option ℕ
unfolding has
find_block_number t [] = none
find_block_number t (block ∷ blocks) =
    let rest = find_block_number t blocks in
    if has t (transactions block) then some (Block.number block) else rest

-- `getBlockNumber`, without the note that it makes of the number.
unfoldable pub get_block_number : (chains : ℕ → List Block) → Transaction → Option ℕ
unfolding find_block_number
get_block_number chains (transaction n s r a m ss (some k)) = some k
get_block_number chains (transaction n none r a m ss none) = some 0
get_block_number chains (transaction n (some s) r a m ss none) =
    find_block_number (transaction n (some s) r a m ss none) (chains s)

module _ (chains : ℕ → List Block) (marks : Marks) (same : Transaction → Transaction → Bool)
    (proof : Proof) where
  unfoldable mutual
    unfolding get_block_number verify_genesis_transaction verify_chain_with_transaction is_verified

    -- The transactions that are flagged afterwards, and whether no exception is thrown.
    pub verify_transaction : Transaction → List Transaction → List Transaction × Bool
    verify_transaction (transaction n none r a m ss b) verified =
        let t = transaction n none r a m ss b in
        elim (get_block_number chains t) [
          | none ↦ (verified, is_verified same t verified)
          | some k ↦
              if is_verified same t verified
              then (verified, true)
              else if verify_genesis_transaction chains marks proof r k
              then (t ∷ verified, true)
              else (verified, false)
        ]
    verify_transaction (transaction n (some s) r a m ss b) verified =
        let t = transaction n (some s) r a m ss b in
        let sources = verify_source_transactions ss verified in
        elim (get_block_number chains t) [
          | none ↦ (verified, is_verified same t verified)
          | some k ↦
              if is_verified same t verified
              then (verified, true)
              else if not (verify_chain_with_transaction chains marks proof s t k)
              then (verified, false)
              else if sources.1
              then (t ∷ sources.0, true)
              else sources
        ]

    pub verify_source_transactions : Sources → List Transaction → List Transaction × Bool
    verify_source_transactions nil verified = (verified, true)
    verify_source_transactions (cons t ts) verified =
        let first = verify_transaction t verified in
        let rest = verify_source_transactions ts first.0 in if first.1 then rest else first

  unfoldable pub verify : List Transaction → List Transaction × Bool
  unfolding verify_transaction
  verify verified = elim (sender proof.main_transaction) [
    | none ↦ (verified, false)
    | some _ ↦ verify_transaction proof.main_transaction verified
  ]
