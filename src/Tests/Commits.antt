-- ===== src/Tests/Commits.antt =====
-- The theorems on the chain of the node itself, at inputs that meet their hypotheses.
use scale_out_distributed_le.Common.{
  ℕ, ◌≤◌, ◌≡◌, refl, true, false, not, ◌&&◌, none, some, List, [], ◌∷◌, arith, ◌==◌, get_elem?,
  if◌then◌else◌,
}
use scale_out_distributed_le.Ledger.Transaction.{Transaction, transaction, nil}
use scale_out_distributed_le.Ledger.Chain.{
  append_new_block, get_last_block, set_last_committed_block,
}
use scale_out_distributed_le.Ledger.Commit.{
  OwnBlock, start_node, append_block, replace, add_transaction, walk_back, commit, Call, append,
  add, commits, call, run_calls,
}
use scale_out_distributed_le.Ledger.Commit.Settled.{is_committed, run_calls-next_committed}
use scale_out_distributed_le.Ledger.Commit.Kept.{run_calls-keeps_committed}
use scale_out_distributed_le.Ledger.Commit.Recorded.{times_sent, run_calls-times_sent}

unfoldable committing : Unit {0}
unfolding append_new_block get_last_block set_last_committed_block append_block replace
    add_transaction walk_back commit call run_calls
committing = tt

abbrev pays : Transaction
pays = transaction 0 (some 0) 1 20 80 nil none

-- Three blocks, of which the second and then the first are committed; the last two calls throw.
abbrev calls : List Call
calls = append ∷ add 1 pays ∷ append ∷ append ∷ commits 2 ∷ commits 1 ∷ commits 2 ∷ add 1 pays ∷ []

abbrev block_one : OwnBlock
block_one = record {
  number = 1;
  transactions = transaction 0 (some 0) 1 20 80 nil (some 1) ∷ [];
  has_no_abstract = false;
  finalized = true;
}

reached :
    ((run_calls (start_node []) calls).abstracts ≡ 2 ∷ 1 ∷ [])
    × ((run_calls (start_node []) calls).chain.next_committed 1 ≡ some 1)
    × ((run_calls (start_node []) calls).chain.next_committed 2 ≡ some 2)
    × ((run_calls (start_node []) calls).chain.next_committed 3 ≡ none)
    × (get_elem? (run_calls (start_node []) calls).chain.blocks 1 ≡ some block_one)
unfolding committing
reached = (refl, refl, refl, refl, refl)

run_calls-next_committed_example :
    ((k : ℕ)
      → (run_calls (start_node []) calls).chain.next_committed 1 ≡ some k
      → (1 ≤ k) × (is_committed (run_calls (start_node []) calls) k ≡ true))
    × (is_committed (run_calls (start_node []) calls) 2 ≡ true
        → (k : ℕ) × ((run_calls (start_node []) calls).chain.next_committed 1 ≡ some k))
run_calls-next_committed_example = run_calls-next_committed [] calls 1 2 (omega arith)

run_calls-keeps_committed_example :
    get_elem?
      (run_calls
        (run_calls (start_node []) calls)
        (append ∷ add 1 pays ∷ commits 3 ∷ [])).chain.blocks
      1
    ≡ some block_one
run_calls-keeps_committed_example =
    run_calls-keeps_committed (append ∷ add 1 pays ∷ commits 3 ∷ [])
      (run_calls (start_node []) calls) block_one 1 reached.4 refl

run_calls-times_sent_example :
    times_sent (run_calls (start_node []) calls) 2
    ≡ (if is_committed (run_calls (start_node []) calls) 2 && not (2 == 0) then 1 else 0)
run_calls-times_sent_example = run_calls-times_sent [] calls 2
