-- ===== src/Ledger/Commit/Settled.antt =====
-- The next committed blocks over a run of the node.
use scale_out_distributed_le.Common.{
  ℕ, zero, suc, ◌+◌, ◌≤◌, ◌<◌, ◌≡◌, ◌⊎◌, refl, sym, ap, ◌∙◌, subst, Bool, true, false, Option, none,
  some, List, [], ◌∷◌, ◌++◌, arith, ◌==◌, ltb, length, get_elem?, Bool-cases, inl, inr,
  if◌then◌else◌,
}
use scale_out_distributed_le.Ledger.ChainView.{
  Outcome, returns, index_out_of_bounds, illegal_state, unsupported_operation,
}
use scale_out_distributed_le.Ledger.ChainView.Laws.{
  NumberedFrom, NumberedFrom-append, get_elem?-NumberedFrom,
}
use scale_out_distributed_le.Ledger.Transaction.{Transaction}
use scale_out_distributed_le.Ledger.Chain.Updates.{next_after-length}
use scale_out_distributed_le.Ledger.Commit.{
  OwnBlock, OwnNode, start_node, block_after, append_block, replace, with_transaction, committed,
  add_transaction, set_next, walk_back, commit, Call, append, add, commits, call, caught, run_calls,
}
use scale_out_distributed_le.Ledger.Commit.Steps.{
  replace-get_elem?, replace-NumberedFrom, append_block-does, add_transaction-does, commit-does,
}
use scale_out_distributed_le.Ledger.Commit.Walk.{
  HasNext, IsFilled, walk_back-keeps, walk_back-new, walk_back-HasNext,
}

abbrev pub is_finalized : Option OwnBlock → Bool
is_finalized none = false
is_finalized (some block) = block.finalized

-- The block with a number is there and was committed.
abbrev pub is_committed : OwnNode → ℕ → Bool
is_committed node k = is_finalized (get_elem? node.chain.blocks k)

-- The blocks are numbered by their places; a next committed block is not earlier and was
-- committed; a block that was committed is its own next committed block; and the blocks that have a
-- next committed block are the first ones.
abbrev pub IsSettled : OwnNode → Type 0
IsSettled node =
    NumberedFrom OwnBlock.number 0 node.chain.blocks
    × ((n k : ℕ) → node.chain.next_committed n ≡ some k → (n ≤ k) × (is_committed node k ≡ true))
    × ((k : ℕ) → is_committed node k ≡ true → node.chain.next_committed k ≡ some k)
    × ((n m : ℕ)
        → n ≤ m
        → HasNext node.chain.next_committed m
        → HasNext node.chain.next_committed n)

pub append-is_finalized :
    (bs : List OwnBlock) (block : OwnBlock) (m : ℕ)
    → block.finalized ≡ false
    → is_finalized (get_elem? (bs ++ block ∷ []) m) ≡ is_finalized (get_elem? bs m)
append-is_finalized [] block zero e = e
append-is_finalized [] block (suc m) e = refl
append-is_finalized (b ∷ bs) block zero e = refl
append-is_finalized (b ∷ bs) block (suc m) e = append-is_finalized bs block m e

-- Nothing was committed, and the blocks stay numbered.
unchanged-IsSettled :
    (a b : OwnNode)
    → NumberedFrom OwnBlock.number 0 b.chain.blocks
    → b.chain.next_committed ≡ a.chain.next_committed
    → ((k : ℕ) → is_committed b k ≡ is_committed a k)
    → IsSettled a
    → IsSettled b
unchanged-IsSettled a b numbered next same (_, later, itself, filled) = (
  numbered,
  λ n k e. let (le, c) = later n k (sym (ap (λ f. f n) next) ∙ e) in (le, same k ∙ c),
  λ k c. ap (λ f. f k) next ∙ itself k (sym (same k) ∙ c),
  λ n m le has.
      subst (λ f. HasNext f n) (sym next) (filled n m le (subst (λ f. HasNext f m) next has)),
)

append_block-IsSettled :
    (node node' : OwnNode) → append_block node ≡ returns node' → IsSettled node → IsSettled node'
append_block-IsSettled node node' e h =
    let (last, grown, found, next, sent) = append_block-does node node' e in
    let numbered : OwnBlock.number (block_after last) ≡ 0 + length node.chain.blocks =
      ground (arith, next_after-length OwnBlock.number node.chain.blocks h.0, found) in
    unchanged-IsSettled node node'
      (subst (NumberedFrom OwnBlock.number 0) (sym grown) (
        NumberedFrom-append OwnBlock.number 0 node.chain.blocks (block_after last ∷ []) h.0
          (numbered, tt)))
      next
      (λ k.
        ap (λ bs. is_finalized (get_elem? bs k)) grown
        ∙ append-is_finalized node.chain.blocks (block_after last) k refl)
      h

-- A block is committed, and the loop goes back from it.
committed-IsSettled :
    (node node' : OwnNode) (k : ℕ)
    → IsSettled node
    → NumberedFrom OwnBlock.number 0 node'.chain.blocks
    → ((m : ℕ) → is_committed node' m ≡ (if m == k then true else is_committed node m))
    → node'.chain.next_committed ≡ walk_back k k (set_next k k node.chain.next_committed)
    → IsSettled node'
committed-IsSettled node node' k (_, later, itself, filled) numbered done next =
    let f = node.chain.next_committed in
    let before = set_next k k f in
    let is_filled : IsFilled k before = λ n m le lt has.
      let (j, e) = filled n m le (has.0, ground (arith, has.1, lt)) in
      (j, ground (arith, e, lt, le)) in
    let kept : (i j : ℕ) → before i ≡ some j → node'.chain.next_committed i ≡ some j =
      λ i j e. ap (λ g. g i) next ∙ walk_back-keeps k k before i j e in
    let earlier : (i : ℕ) → i < k → HasNext node'.chain.next_committed i = λ i lt.
      let (j, e) = walk_back-HasNext k k before i is_filled lt in (j, ap (λ g. g i) next ∙ e) in
    let made : (n j : ℕ)
        → node'.chain.next_committed n ≡ some j
        → (before n ≡ some j) ⊎ ((n < k) × (j ≡ k)) =
      λ n j e. walk_back-new k k before n j (ap (λ g. g n) (sym next) ∙ e) in
    (
      numbered,
      λ n j e. elim (made n j e) [
        | inl there ↦ (ground (arith, there, later n j), done j ∙ ground (arith, there, later n j))
        | inr (below, same) ↦ (omega (arith, below, same), done j ∙ ground (arith, same))
      ],
      λ m c. kept m m (ground (arith, done m, c, itself m)),
      λ n m le has. elim (Bool-cases (ltb n k)) [
        | inl below ↦ earlier n (ground (arith, below))
        | inr above ↦ elim (made m has.0 has.1) [
          | inr (below, same) ↦ ground (arith, below, above, le)
          | inl there ↦ elim (Bool-cases (n == k)) [
            | inl same ↦ (k, kept n k (ground (arith, same)))
            | inr other ↦
                let (j, e) = filled n m le (has.0, ground (arith, there, above, other, le)) in
                (j, kept n j (ground (arith, e, other)))
          ]
        ]
      ],
    )

pub replaced-is_committed :
    (node node' : OwnNode) (k : ℕ) (old block : OwnBlock) (m : ℕ)
    → get_elem? node.chain.blocks k ≡ some old
    → node'.chain.blocks ≡ replace k block node.chain.blocks
    → is_committed node' m ≡ (if m == k then block.finalized else is_committed node m)
replaced-is_committed node node' k old block m found changed =
    ap (λ bs. is_finalized (get_elem? bs m)) changed
    ∙ ap is_finalized (replace-get_elem? k old block node.chain.blocks m found)
    ∙ ground arith

commit-IsSettled :
    (node node' : OwnNode) (k : ℕ)
    → commit node k ≡ returns node'
    → IsSettled node
    → IsSettled node'
commit-IsSettled node node' k e h =
    let (block, found, uncommitted, changed, next, sent) = commit-does node node' k e in
    let numbered : block.number ≡ k =
      omega (arith, get_elem?-NumberedFrom OwnBlock.number 0 node.chain.blocks k block h.0 found) in
    committed-IsSettled node node' k h
      (subst (NumberedFrom OwnBlock.number 0) (sym changed)
        (replace-NumberedFrom 0 k block (committed block) node.chain.blocks found refl h.0))
      (λ m. replaced-is_committed node node' k block (committed block) m found changed)
      (next ∙ ap (λ x. walk_back x x (set_next x x node.chain.next_committed)) numbered)

add_transaction-IsSettled :
    (node node' : OwnNode) (k : ℕ) (t : Transaction)
    → add_transaction node k t ≡ returns node'
    → IsSettled node
    → IsSettled node'
add_transaction-IsSettled node node' k t e h =
    let (block, found, uncommitted, changed, next, sent) = add_transaction-does node node' k t e in
    let added = with_transaction t block in
    unchanged-IsSettled node node'
      (subst (NumberedFrom OwnBlock.number 0) (sym changed)
        (replace-NumberedFrom 0 k block added node.chain.blocks found refl h.0))
      next
      (λ m.
        replaced-is_committed node node' k block added m found changed
        ∙ ground (arith, found, uncommitted))
      h

pub call-IsSettled :
    (node node' : OwnNode) (event : Call)
    → call node event ≡ returns node'
    → IsSettled node
    → IsSettled node'
call-IsSettled node node' append e = append_block-IsSettled node node' (unfold call in e)
call-IsSettled node node' (add k t) e = add_transaction-IsSettled node node' k t (unfold call in e)
call-IsSettled node node' (commits k) e = commit-IsSettled node node' k (unfold call in e)

caught-IsSettled :
    (node : OwnNode) (o : Outcome OwnNode)
    → ((node' : OwnNode) → o ≡ returns node' → IsSettled node')
    → IsSettled node
    → IsSettled (caught node o)
caught-IsSettled node (returns node') f h = f node' refl
caught-IsSettled node index_out_of_bounds f h = h
caught-IsSettled node illegal_state f h = h
caught-IsSettled node unsupported_operation f h = h

run_calls-IsSettled :
    (events : List Call) (node : OwnNode) → IsSettled node → IsSettled (run_calls node events)
unfolding run_calls
run_calls-IsSettled [] node h = h
run_calls-IsSettled (event ∷ events) node h =
    run_calls-IsSettled events (caught node (call node event))
      (caught-IsSettled node (call node event) (λ node' e. call-IsSettled node node' event e h) h)

pub start_node-committed :
    (genesis : List Transaction) (k : ℕ) → is_committed (start_node genesis) k ≡ true → k ≡ 0
start_node-committed genesis zero e = refl
start_node-committed genesis (suc k) e = ground arith

pub start_node-IsSettled : (genesis : List Transaction) → IsSettled (start_node genesis)
start_node-IsSettled genesis = (
  (refl, tt),
  λ n k e.
      let zeros : (n ≡ 0) × (k ≡ 0) = ground (arith, e) in
      (omega (arith, zeros), ap (is_committed (start_node genesis)) zeros.1),
  λ k c. ground (arith, start_node-committed genesis k c),
  λ n m le has. (0, ground (arith, le, has.1)),
)

-- After any calls on the own chain, in whatever order blocks are committed: a next committed block
-- of a block was committed and is not before it, and a block at or after which a block was committed
-- has a next committed block.
pub run_calls-next_committed :
    (genesis : List Transaction) (events : List Call) (n m : ℕ)
    → n ≤ m
    → let node = run_calls (start_node genesis) events in
      ((k : ℕ) → node.chain.next_committed n ≡ some k → (n ≤ k) × (is_committed node k ≡ true))
      × (is_committed node m ≡ true → (k : ℕ) × (node.chain.next_committed n ≡ some k))
run_calls-next_committed genesis events n m le =
    let (_, later, itself, filled) =
      run_calls-IsSettled events (start_node genesis) (start_node-IsSettled genesis) in
    (later n, λ c. filled n m le (m, itself m c))
