-- ===== src/Ledger/ProofConstructor.antt =====
-- ProofConstructor.java: the blocks that a node sends with a transaction, so that the receiver finds
-- the sources of every transaction in them. Nodes are ids; their chains, the number of the next
-- committed block of a block, and what the receiver is known to have, are arguments. An exception
-- (a missing block, block number or committed block) is `failed`. The assertions are left out.
pub mod Growth
pub mod Closed
pub mod Ends
use scale_out_distributed_le.Common.{
  ℕ, zero, suc, ◌+◌, Bool, true, false, ◌||◌, Option, none, some, List, [], ◌∷◌, ◌++◌, ltb, leb,
  ◌==◌, if◌then◌else◌, length, get_elem?,
}
use scale_out_distributed_le.Ledger.ChainView.{
  drop, Outcome, returns, index_out_of_bounds, illegal_state, unsupported_operation,
}
use scale_out_distributed_le.Ledger.Transaction.{
  Transaction, Sources, transaction, nil, cons, source,
}
use scale_out_distributed_le.Ledger.Block.{Block, transactions}
use scale_out_distributed_le.Ledger.MetaKnowledge.{MetaKnowledge, get_blocks_to_send}
use scale_out_distributed_le.Ledger.Proof.{updates_of, get_block_number}

-- `toSend`
abbrev pub ToSend : Type 0
ToSend = List (ℕ × List Block)

pub data Sending : Type 0 where
  sent : ToSend → Sending
  failed out_of_fuel : Sending

unfoldable pub put_blocks : (id : ℕ) → List Block → ToSend → ToSend
put_blocks id blocks [] = (id, blocks) ∷ []
put_blocks id blocks ((i, old) ∷ entries) =
    if i == id then (i, blocks) ∷ entries else (i, old) ∷ put_blocks id blocks entries

-- The new map, and the blocks that were not in it.
unfoldable pub add_blocks_to_send : (id : ℕ) → (to_add : List Block) → ToSend → ToSend × List Block
unfolding put_blocks updates_of
add_blocks_to_send id to_add to_send =
    let current = updates_of id to_send in
    let added = drop (length current) to_add in
    if length current == 0
    then (put_blocks id to_add to_send, to_add)
    else if leb (length to_add) (length current)
    then (put_blocks id current to_send, [])
    else (put_blocks id (current ++ added) to_send, added)

-- The sources of the transactions of some blocks, in the order of the loops.
abbrev pub append_sources : Sources → List Transaction → List Transaction
append_sources nil ts = ts
append_sources (cons s ss) ts = s ∷ append_sources ss ts

abbrev pub sources_of_all : List Transaction → List Transaction
sources_of_all [] = []
sources_of_all (t ∷ ts) = append_sources (source t) (sources_of_all ts)

abbrev pub sources_of_blocks : List Block → List Transaction
sources_of_blocks [] = []
sources_of_blocks (b ∷ bs) = sources_of_all (transactions b) ++ sources_of_blocks bs

-- What is returned, or an exception.
abbrev pub returned : Outcome (List Block) → Option (List Block)
returned (returns blocks) = some blocks
returned index_out_of_bounds = none
returned illegal_state = none
returned unsupported_operation = none

module _ (chains : ℕ → List Block) (next_committed : (id number : ℕ) → Option ℕ)
    (sender_id receiver_id : ℕ) (meta_knowledge : MetaKnowledge) where
  -- The blocks that have to be sent so that a block of a node is shown; `none` is an exception.
  unfoldable pub blocks_for : (id block_number : ℕ) → Option (List Block)
  unfolding get_blocks_to_send
  blocks_for id block_number = elim (get_elem? (chains id) block_number) [
    | none ↦ none
    | some _ ↦ elim (next_committed id block_number) [
      | none ↦ none
      | some next_nr ↦
          returned (get_blocks_to_send meta_knowledge (chains receiver_id) (chains id) id next_nr)
    ]
  ]

  -- One source, in the loop of `processSources`; `process_blocks` is the recursive call.
  unfoldable pub process_source :
      (process_blocks : ℕ → List Block → ToSend → Sending) → Transaction → ToSend → Sending
  unfolding blocks_for get_block_number
  process_source process_blocks (transaction n none r a m ss b) to_send = sent to_send
  process_source process_blocks (transaction n (some owner) r a m ss b) to_send =
      let number = get_block_number chains (transaction n (some owner) r a m ss b) in
      if owner == sender_id || owner == receiver_id then sent to_send else elim number [
        | none ↦ failed
        | some block_number ↦ elim (blocks_for owner block_number) [
          | none ↦ failed
          | some [] ↦ sent to_send
          | some (b ∷ bs) ↦ process_blocks owner (b ∷ bs) to_send
        ]
      ]

  -- The loops over the blocks, their transactions and the sources of these.
  unfoldable pub process_sources :
      (process_blocks : ℕ → List Block → ToSend → Sending) → List Transaction → ToSend → Sending
  unfolding process_source
  process_sources process_blocks [] to_send = sent to_send
  process_sources process_blocks (s ∷ ss) to_send = elim (process_source process_blocks s to_send) [
    | sent to_send' ↦ process_sources process_blocks ss to_send'
    | failed ↦ failed
    | out_of_fuel ↦ out_of_fuel
  ]

  unfoldable pub process_blocks : (fuel : ℕ) → (id : ℕ) → List Block → ToSend → Sending
  unfolding process_sources add_blocks_to_send
  process_blocks zero id blocks to_send = out_of_fuel
  process_blocks (suc fuel) id blocks to_send =
      let (to_send', newly_added) = add_blocks_to_send id blocks to_send in
      process_sources (process_blocks fuel) (sources_of_blocks newly_added) to_send'

  -- `constructProof` of a transaction with a block number, on a new proof.
  unfoldable pub construct_proof : (fuel : ℕ) → (main_block_nr : ℕ) → Sending
  unfolding blocks_for process_blocks
  construct_proof fuel main_block_nr = elim (blocks_for sender_id main_block_nr) [
    | none ↦ failed
    | some [] ↦ sent []
    | some (b ∷ bs) ↦ process_blocks fuel sender_id (b ∷ bs) []
  ]
