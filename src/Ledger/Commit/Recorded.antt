-- ===== src/Ledger/Commit/Recorded.antt =====
-- The abstracts that a run of the node sends to the main chain.
use scale_out_distributed_le.Common.{
  ℕ, ◌+◌, ◌≡◌, refl, sym, ap, ◌∙◌, true, false, not, ◌&&◌, List, [], ◌∷◌, ◌++◌, arith, ◌==◌,
  count_by, count_by-append, get_elem?, Bool-cases, inl, inr, if◌then◌else◌,
}
use scale_out_distributed_le.Ledger.ChainView.{
  Outcome, returns, index_out_of_bounds, illegal_state, unsupported_operation,
}
use scale_out_distributed_le.Ledger.ChainView.Laws.{get_elem?-NumberedFrom}
use scale_out_distributed_le.Ledger.Transaction.{Transaction}
use scale_out_distributed_le.Ledger.Commit.{
  OwnBlock, OwnNode, start_node, block_after, with_transaction, committed, Call, append, add,
  commits, call, caught, run_calls,
}
use scale_out_distributed_le.Ledger.Commit.Steps.{
  append_block-does, add_transaction-does, commit-does,
}
use scale_out_distributed_le.Ledger.Commit.Settled.{
  is_finalized, is_committed, IsSettled, append-is_finalized, replaced-is_committed, call-IsSettled,
  start_node-IsSettled, start_node-committed,
}

-- How often the abstract of a block was sent.
abbrev pub times_sent : OwnNode → ℕ → ℕ
times_sent node m = count_by (λ x. x == m) node.abstracts

abbrev sent_once : OwnNode → ℕ → ℕ
sent_once node m = if is_committed node m && not (m == 0) then 1 else 0

-- The abstracts of the committed blocks were sent, each once; the genesis block has none.
abbrev IsRecorded : OwnNode → Type 0
IsRecorded node = (is_committed node 0 ≡ true) × ((m : ℕ) → times_sent node m ≡ sent_once node m)

unchanged-IsRecorded :
    (a b : OwnNode)
    → ((m : ℕ) → is_committed b m ≡ is_committed a m)
    → b.abstracts ≡ a.abstracts
    → IsRecorded a
    → IsRecorded b
unchanged-IsRecorded a b same kept (genesis, once) = (
  same 0 ∙ genesis,
  λ m.
      ap (count_by (λ x. x == m)) kept
      ∙ once m
      ∙ ap (λ c. if c && not (m == 0) then 1 else 0) (sym (same m)),
)

committed-IsRecorded :
    (a b : OwnNode) (k : ℕ)
    → is_committed a k ≡ false
    → ((m : ℕ) → is_committed b m ≡ (if m == k then true else is_committed a m))
    → b.abstracts ≡ a.abstracts ++ k ∷ []
    → IsRecorded a
    → IsRecorded b
committed-IsRecorded a b k uncommitted done sent (genesis, once) =
    let is_other : (m : ℕ) → m ≡ k → is_committed a m ≡ false =
      λ m same. ap (is_committed a) same ∙ uncommitted in
    let counted : (m : ℕ) → times_sent b m ≡ times_sent a m + ((if k == m then 1 else 0) + 0) =
      λ m. ap (count_by (λ x. x == m)) sent ∙ count_by-append (λ x. x == m) a.abstracts (k ∷ []) in
    (
      done 0 ∙ ground (arith, genesis),
      λ m. counted m ∙ elim (Bool-cases (m == k)) [
        | inl same ↦ ground (arith, once m, done m, is_other m, same, is_other 0, genesis)
        | inr other ↦ ground (arith, once m, done m, other)
      ],
    )

call-IsRecorded :
    (node node' : OwnNode) (event : Call)
    → call node event ≡ returns node'
    → IsSettled node
    → IsRecorded node
    → IsRecorded node'
call-IsRecorded node node' append e s h =
    let (last, grown, found, next, sent) = append_block-does node node' (unfold call in e) in
    unchanged-IsRecorded node node'
      (λ k.
        ap (λ bs. is_finalized (get_elem? bs k)) grown
        ∙ append-is_finalized node.chain.blocks (block_after last) k refl)
      sent h
call-IsRecorded node node' (add k t) e s h =
    let (block, found, uncommitted, changed, next, sent) =
      add_transaction-does node node' k t (unfold call in e) in
    unchanged-IsRecorded node node'
      (λ m.
        replaced-is_committed node node' k block (with_transaction t block) m found changed
        ∙ ground (arith, found, uncommitted))
      sent h
call-IsRecorded node node' (commits k) e s h =
    let (block, found, uncommitted, changed, next, sent) =
      commit-does node node' k (unfold call in e) in
    let numbered : block.number ≡ k =
      omega (arith, get_elem?-NumberedFrom OwnBlock.number 0 node.chain.blocks k block s.0 found) in
    committed-IsRecorded node node' k (ap is_finalized found ∙ uncommitted)
      (λ m. replaced-is_committed node node' k block (committed block) m found changed)
      (sent ∙ ap (λ x. node.abstracts ++ x ∷ []) numbered) h

caught-IsRecorded :
    (node : OwnNode) (o : Outcome OwnNode)
    → ((node' : OwnNode) → o ≡ returns node' → IsSettled node' × IsRecorded node')
    → IsSettled node × IsRecorded node
    → IsSettled (caught node o) × IsRecorded (caught node o)
caught-IsRecorded node (returns node') f h = f node' refl
caught-IsRecorded node index_out_of_bounds f h = h
caught-IsRecorded node illegal_state f h = h
caught-IsRecorded node unsupported_operation f h = h

run_calls-IsRecorded :
    (events : List Call) (node : OwnNode)
    → IsSettled node × IsRecorded node
    → IsRecorded (run_calls node events)
unfolding run_calls
run_calls-IsRecorded [] node h = h.1
run_calls-IsRecorded (event ∷ events) node h =
    run_calls-IsRecorded events (caught node (call node event)) (
      caught-IsRecorded node (call node event)
        (λ node' e.
          (call-IsSettled node node' event e h.0, call-IsRecorded node node' event e h.0 h.1))
        h)

-- After any calls on the own chain, the main chain was sent the abstract of each committed block but
-- the genesis block once, and of no other block.
pub run_calls-times_sent :
    (genesis : List Transaction) (events : List Call) (m : ℕ)
    → let node = run_calls (start_node genesis) events in
      times_sent node m ≡ (if is_committed node m && not (m == 0) then 1 else 0)
run_calls-times_sent genesis events m =
    (run_calls-IsRecorded events (start_node genesis) (
      start_node-IsSettled genesis,
      (
        refl,
        λ m. ground (
          arith,
          start_node-committed genesis m,
          Bool-cases (is_committed (start_node genesis) m),
        ),
      ),
    )).1
      m
