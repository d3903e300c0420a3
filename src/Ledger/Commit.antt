-- ===== src/Ledger/Commit.antt =====
-- `addTransaction` and `commit` of model/Block.java on the chain of the node itself, with
-- `appendNewBlock` of model/Chain.java. A block is named by its number, and an exception leaves the
-- node as it was. Signing a block and sending its abstract to the main chain succeed.
pub mod Walk
pub mod Steps
pub mod Settled
pub mod Kept
pub mod Recorded
use scale_out_distributed_le.Common.{
  ℕ, zero, suc, ◌+◌, Bool, true, false, not, Option, none, some, List, [], ◌∷◌, ◌++◌, ◌==◌,
  if◌then◌else◌, get_elem?,
}
use scale_out_distributed_le.Ledger.ChainView.{
  Outcome, returns, index_out_of_bounds, illegal_state, unsupported_operation,
}
use scale_out_distributed_le.Ledger.Transaction.{Transaction, transaction}
use scale_out_distributed_le.Ledger.Chain.{
  Chain, new_chain, set_last_committed_block, append_new_block,
}

pub record OwnBlock : Type 0 where
  pub number : ℕ
  pub transactions : List Transaction
  pub has_no_abstract : Bool
  pub finalized : Bool

-- The chain, and the numbers of the blocks whose abstracts are sent to the main chain, in order.
pub record OwnNode : Type 0 where
  pub chain : Chain OwnBlock
  pub abstracts : List ℕ

-- The genesis block of a copy, which is committed and its own next committed block.
abbrev pub start_node : (genesis : List Transaction) → OwnNode
start_node genesis = record {
  chain = record {
    is_own = true;
    blocks =
        record { number = 0; transactions = genesis; has_no_abstract = false; finalized = true }
        ∷ [];
    last_committed_block =
        some (record {
          number = 0;
          transactions = genesis;
          has_no_abstract = false;
          finalized = true;
        });
    next_committed = λ n. if n == 0 then some 0 else none;
  };
  abstracts = [];
}

-- A block of our own after another one.
abbrev pub block_after : OwnBlock → OwnBlock
block_after last = record {
  number = last.number + 1;
  transactions = [];
  has_no_abstract = true;
  finalized = false;
}

abbrev pub with_chain : OwnNode → Outcome (Chain OwnBlock) → Outcome OwnNode
with_chain node (returns chain) = returns (record node { chain = chain })
with_chain node index_out_of_bounds = index_out_of_bounds
with_chain node illegal_state = illegal_state
with_chain node unsupported_operation = unsupported_operation

unfoldable pub append_block : OwnNode → Outcome OwnNode
unfolding append_new_block
append_block node = with_chain node (append_new_block OwnBlock.number block_after node.chain)

-- The block at an index is changed.
unfoldable pub replace : ℕ → OwnBlock → List OwnBlock → List OwnBlock
replace k block [] = []
replace zero block (b ∷ bs) = block ∷ bs
replace (suc k) block (b ∷ bs) = b ∷ replace k block bs

abbrev pub set_block_number : ℕ → Transaction → Transaction
set_block_number k (transaction n s r a m ss b) = transaction n s r a m ss (some k)

-- With the transaction added, and with its abstract made and committed.
abbrev pub with_transaction : Transaction → OwnBlock → OwnBlock
with_transaction t block = record block {
  transactions = block.transactions ++ set_block_number block.number t ∷ [];
}

abbrev pub committed : OwnBlock → OwnBlock
committed block = record block { has_no_abstract = false; finalized = true }

unfoldable pub add_transaction : OwnNode → (k : ℕ) → Transaction → Outcome OwnNode
unfolding replace
add_transaction node k t = elim (get_elem? node.chain.blocks k) [
  | none ↦ index_out_of_bounds
  | some block ↦
      if block.finalized
      then illegal_state
      else returns (record node {
        chain = record node.chain {
          blocks = replace k (with_transaction t block) node.chain.blocks;
        };
      })
]

abbrev pub set_next : (n k : ℕ) → (ℕ → Option ℕ) → ℕ → Option ℕ
set_next n k next i = if i == n then some k else next i

-- The loop of `commit` over the blocks below the number `n`, downwards.
unfoldable pub walk_back : (k n : ℕ) → (ℕ → Option ℕ) → ℕ → Option ℕ
walk_back k zero next = next
walk_back k (suc n) next = elim (next n) [
  | none ↦ walk_back k n (set_next n k next)
  | some _ ↦ next
]

unfoldable pub commit : OwnNode → (k : ℕ) → Outcome OwnNode
unfolding replace walk_back set_last_committed_block
commit node k = elim (get_elem? node.chain.blocks k) [
  | none ↦ index_out_of_bounds
  | some block ↦
      let nr = block.number in
      let chain = set_last_committed_block OwnBlock.number node.chain (committed block) in
      if block.finalized
      then illegal_state
      else if not node.chain.is_own
      then unsupported_operation
      else returns (record node {
        chain = record chain {
          blocks = replace k (committed block) node.chain.blocks;
          next_committed = walk_back nr nr (set_next nr nr node.chain.next_committed);
        };
        abstracts = node.abstracts ++ nr ∷ [];
      })
]

pub data Call : Type 0 where
  append : Call
  add : (k : ℕ) → Transaction → Call
  commits : (k : ℕ) → Call

unfoldable pub call : OwnNode → Call → Outcome OwnNode
unfolding append_block add_transaction commit
call node append = append_block node
call node (add k t) = add_transaction node k t
call node (commits k) = commit node k

abbrev pub caught : OwnNode → Outcome OwnNode → OwnNode
caught node (returns node') = node'
caught node index_out_of_bounds = node
caught node illegal_state = node
caught node unsupported_operation = node

unfoldable pub run_calls : OwnNode → List Call → OwnNode
unfolding call
run_calls node [] = node
run_calls node (event ∷ events) = run_calls (caught node (call node event)) events
