-- ===== src/Ledger/Proof/Anchor.antt =====
-- What is required of the chain of a transaction's sender.
use scale_out_distributed_le.Common.{
  ℕ, ◌+◌, ◌≤◌, ◌≡◌, ◌⊎◌, ◌↔◌, Bool, true, false, List, [], ◌∷◌, arith, count_by, if◌then◌else◌,
}
use scale_out_distributed_le.Ledger.ChainView.{is_valid}
use scale_out_distributed_le.Ledger.Transaction.{Transaction}
use scale_out_distributed_le.Ledger.Block
use scale_out_distributed_le.Ledger.Block.{Block, transactions}
use scale_out_distributed_le.Ledger.LocalStore.{has}
use scale_out_distributed_le.Ledger.Proof.{
  Proof, Marks, get_chain_view, chain_view_blocks, is_anchored, scan_chain, seen_and_marked,
  verify_chain_with_transaction,
}

-- Some block from a number on is committed, or a block after it is.
abbrev pub HasAnchor : Marks → (block_number : ℕ) → List Block → Type 0
HasAnchor marks k [] = ⊥
HasAnchor marks k (b ∷ bs) =
    ((k ≤ Block.number b) × (is_anchored marks b ≡ true)) ⊎ HasAnchor marks k bs

-- The number of blocks that have a transaction.
abbrev pub occurrences : Transaction → List Block → ℕ
occurrences t = count_by (λ b. has t (transactions b))

scan_chain_iff :
    (marks : Marks) (t : Transaction) (k : ℕ) (seen absmark : Bool) (bs : List Block)
    → (seen_and_marked (scan_chain marks t k seen absmark bs) ≡ true) ↔ (
        ((if seen then 1 else 0) + occurrences t bs ≡ 1)
        × ((absmark ≡ true) ⊎ HasAnchor marks k bs))
unfolding scan_chain
scan_chain_iff marks t k seen absmark [] = ground arith
scan_chain_iff marks t k seen absmark (b ∷ bs) = ground (
  arith,
  scan_chain_iff marks t k true absmark bs,
  scan_chain_iff marks t k false absmark bs,
  scan_chain_iff marks t k true true bs,
  scan_chain_iff marks t k false true bs,
)

-- The view of the sender's chain is valid, exactly one of its blocks has the transaction, and a block
-- from the transaction's on is committed or has a block after it that is.
abbrev pub Anchored :
    (chains : ℕ → List Block)
    → Marks
    → Proof
    → (sender_id : ℕ) → Transaction
    → (block_number : ℕ) → Type 0
Anchored chains marks proof s t k =
    let bs = chain_view_blocks chains proof s in
    ((is_valid Block.number Block.equals (chains s) (get_chain_view chains proof s)).1 ≡ true)
    × (occurrences t bs ≡ 1)
    × HasAnchor marks k bs

pub verify_chain_with_transaction_iff :
    (chains : ℕ → List Block) (marks : Marks) (proof : Proof) (s : ℕ) (t : Transaction) (k : ℕ)
    → (verify_chain_with_transaction chains marks proof s t k ≡ true)
      ↔ Anchored chains marks proof s t k
unfolding verify_chain_with_transaction
verify_chain_with_transaction_iff chains marks proof s t k =
    ground (arith, scan_chain_iff marks t k false false (chain_view_blocks chains proof s))
