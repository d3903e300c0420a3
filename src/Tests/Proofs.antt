-- ===== src/Tests/Proofs.antt =====
-- The theorems on proofs, at inputs that meet their hypotheses.
use scale_out_distributed_le.Common.{
  ℕ, ◌≡◌, ◌≢◌, ◌↔◌, refl, Bool, true, false, ◌&&◌, Option, none, some, List, [], ◌∷◌, arith, All,
  ◌==◌, if◌then◌else◌,
}
use scale_out_distributed_le.Ledger.ChainView.{
  is_valid, check_integrity, new_view, drop, no_gaps, get_block,
}
use scale_out_distributed_le.Ledger.Word.{add_long, sub_long, lt_long}
use scale_out_distributed_le.Ledger.Transaction.{
  Transaction, Sources, transaction, nil, cons, sender, id_eq, compare_to, contains, contains_all,
  size, equals,
}
use scale_out_distributed_le.Ledger.Block
use scale_out_distributed_le.Ledger.Block.{Block, first, after, number}
use scale_out_distributed_le.Ledger.LocalStore.{has}
use scale_out_distributed_le.Ledger.MetaKnowledge.{
  MetaKnowledge, known_of, get_last_known_block_number, get_first_unknown_block_number,
  get_blocks_to_send, take, blocks_from,
}
use scale_out_distributed_le.Ledger.Proof.{
  Proof, Marks, updates_of, get_chain_view, chain_view_blocks, is_verified, verify,
  verify_transaction, verify_genesis_transaction, verify_chain_with_transaction, scan_chain,
}
use scale_out_distributed_le.Ledger.Proof.Proven.{IsProven, verify_iff}
use scale_out_distributed_le.Ledger.Verification.{
  Cache, worth, money_from, check_money, none_in, intersect_empty, scan_block,
  check_double_spending, cached, validate_genesis_transaction, passes, validate_transaction,
}
use scale_out_distributed_le.Ledger.Verification.Closed.{Justified}
use scale_out_distributed_le.Ledger.Verification.Messages.{
  Verification, Message, put_all, validate_received, validate_new_message, accepted_of,
}
use scale_out_distributed_le.Ledger.Verification.Messages.Received.{
  validate_new_message-accepted, NoneRepeated, accepted_of-NoneRepeated, resend_refused,
}
use scale_out_distributed_le.Ledger.ProofConstructor.{
  ToSend, sent, out_of_fuel, put_blocks, add_blocks_to_send, blocks_for, process_source,
  process_sources, process_blocks, construct_proof,
}
use scale_out_distributed_le.Ledger.ProofConstructor.Growth.{IsPart}
use scale_out_distributed_le.Ledger.ProofConstructor.Closed.{
  unknown, IsShown, HasSources, construct_proof-closed,
}
use scale_out_distributed_le.Ledger.ProofConstructor.Ends.{construct_proof_ends}

unfoldable proving : Unit {0}
unfolding is_valid check_integrity new_view drop no_gaps get_block add_long sub_long lt_long
    compare_to contains contains_all size equals Block.equals has known_of
    get_last_known_block_number get_first_unknown_block_number get_blocks_to_send take blocks_from
    updates_of get_chain_view is_verified verify verify_transaction verify_genesis_transaction
    verify_chain_with_transaction scan_chain worth money_from check_money none_in intersect_empty
    scan_block check_double_spending cached validate_genesis_transaction passes validate_transaction
    validate_received validate_new_message accepted_of put_blocks add_blocks_to_send blocks_for
    process_source process_sources process_blocks construct_proof
proving = tt

-- Objects with the same contents are taken for the same object.
unfoldable mutual
  identical : Transaction → Transaction → Bool
  identical (transaction n s r a m ss b) (transaction n' s' r' a' m' ss' b') =
      n == n'
      && id_eq s s'
      && r == r'
      && a == a'
      && m == m'
      && identical_sources ss ss'
      && id_eq b b'

  identical_sources : Sources → Sources → Bool
  identical_sources nil nil = true
  identical_sources nil (cons t ts) = false
  identical_sources (cons t ts) nil = false
  identical_sources (cons t ts) (cons o os) = identical t o && identical_sources ts os

id_eq-eq : (a b : Option ℕ) → id_eq a b ≡ true → a ≡ b
id_eq-eq none none e = refl
id_eq-eq none (some b) e = ground arith
id_eq-eq (some a) none e = ground arith
id_eq-eq (some a) (some b) e = ground arith

mutual
  unfolding identical

  identical-eq : (t o : Transaction) → identical t o ≡ true → t ≡ o
  identical-eq (transaction n s r a m ss b) (transaction n' s' r' a' m' ss' b') e =
      ground (arith, id_eq-eq s s', identical_sources-eq ss ss', id_eq-eq b b')

  identical_sources-eq : (ss os : Sources) → identical_sources ss os ≡ true → ss ≡ os
  identical_sources-eq nil nil e = refl
  identical_sources-eq nil (cons t ts) e = ground arith
  identical_sources-eq (cons t ts) nil e = ground arith
  identical_sources-eq (cons t ts) (cons o os) e =
      ground (arith, identical-eq t o, identical_sources-eq ts os)

-- Every node gets 100 in its genesis block. Node 0 sends 30 to node 1, which sends 10 on to node 2.
abbrev genesis_of : ℕ → Transaction
genesis_of id = transaction 0 none id 100 0 nil (some 0)

abbrev payment : Transaction
payment = transaction 1 (some 0) 1 30 70 (cons (genesis_of 0) nil) (some 1)

abbrev passed_on : Transaction
passed_on = transaction 1 (some 1) 2 10 20 (cons payment nil) (some 1)

abbrev genesis_block : ℕ → Block
genesis_block id = first 0 (some id) (genesis_of id ∷ [])

abbrev second_block : ℕ → Transaction → Block
second_block id t = after (genesis_block id) 1 (some id) (t ∷ [])

-- What node 2 has, and what node 1 sends it; the main chain has the second blocks.
abbrev known_chains : ℕ → List Block
known_chains id = genesis_block id ∷ []

abbrev marks : Marks
marks = record {
  has_next_committed = λ b. false;
  has_no_abstract = λ b. false;
  on_main_chain = λ b. false;
  is_present = λ b. number b == 1;
}

abbrev proof : Proof
proof = record {
  main_transaction = passed_on;
  chain_updates = (1, second_block 1 passed_on ∷ []) ∷ (0, second_block 0 payment ∷ []) ∷ [];
}

verified_test :
    verify known_chains marks identical proof [] ≡ (passed_on ∷ payment ∷ genesis_of 0 ∷ [], true)
unfolding proving identical
verified_test = refl

verify_iff_example :
    let (verified, accepted) = verify known_chains marks identical proof [] in
    ((accepted ≡ true)
      ↔ ((sender passed_on ≢ none) × IsProven known_chains marks identical proof [] passed_on))
    × ((t : Transaction)
        → is_verified identical t verified ≡ true
        → IsProven known_chains marks identical proof [] t)
    × ((t : Transaction)
        → is_verified identical t [] ≡ true
        → is_verified identical t verified ≡ true)
verify_iff_example = verify_iff known_chains marks identical proof [] identical-eq

abbrev message : Message
message = record { chains = known_chains; marks = marks; proof = proof }

abbrev new_verification : Verification
new_verification = record { validation_cache = []; received_transactions = [] }

accepted_test : accepted_of identical (message ∷ message ∷ []) new_verification [] ≡ passed_on ∷ []
unfolding proving identical
accepted_test = refl

accepted : (validate_new_message identical message new_verification []).accepted ≡ true
unfolding proving identical
accepted = refl

validate_new_message-accepted_example :
    let v' = (validate_new_message identical message new_verification []).verification in
    (has passed_on [] ≡ false)
    × (sender passed_on ≢ none)
    × IsProven known_chains marks identical proof [] passed_on
    × ((cache : Cache) × (v'.validation_cache ≡ put_all cache [])
        × All (Justified [] (chain_view_blocks known_chains proof) cache) cache
        × (cached passed_on cache ≡ some true))
validate_new_message-accepted_example =
    validate_new_message-accepted identical message new_verification [] identical-eq accepted

accepted_of-NoneRepeated_example :
    NoneRepeated (accepted_of identical (message ∷ message ∷ []) new_verification [])
accepted_of-NoneRepeated_example =
    accepted_of-NoneRepeated identical (message ∷ message ∷ []) new_verification []

-- The same transaction without the blocks that show it.
abbrev broken : Message
broken = record {
  chains = known_chains;
  marks = marks;
  proof = record { main_transaction = passed_on; chain_updates = [] };
}

is_itself : equals passed_on passed_on ≡ true
unfolding proving
is_itself = refl

not_received : has passed_on [] ≡ false
unfolding proving
not_received = refl

resend_refused_example :
    let handled = validate_new_message identical broken new_verification [] in
    validate_new_message identical message handled.verification handled.verified
    ≡ record { verification = handled.verification; verified = handled.verified; accepted = false }
resend_refused_example =
    resend_refused identical broken message new_verification [] not_received is_itself

-- What node 1 has when it sends to node 2, which is known to have the genesis blocks.
abbrev all_chains : ℕ → List Block
all_chains id =
    if id == 0
    then genesis_block 0 ∷ second_block 0 payment ∷ []
    else if id == 1
    then genesis_block 1 ∷ second_block 1 passed_on ∷ []
    else []

abbrev next_committed : ℕ → ℕ → Option ℕ
next_committed id k = some 1

abbrev knowledge : MetaKnowledge
knowledge = record { owner = 2; known = (0, 0) ∷ (1, 0) ∷ [] }

abbrev to_send : ToSend
to_send = (1, second_block 1 passed_on ∷ []) ∷ (0, second_block 0 payment ∷ []) ∷ []

constructed : construct_proof all_chains next_committed 1 2 knowledge 5 1 ≡ sent to_send
unfolding proving
constructed = refl

construct_proof-closed_example :
    IsPart (unknown all_chains next_committed 1 2 knowledge) to_send
    × IsShown all_chains next_committed 1 2 knowledge to_send 1 1
    × ((id : ℕ)
        → All (HasSources all_chains next_committed 1 2 knowledge to_send) (updates_of id to_send))
construct_proof-closed_example =
    construct_proof-closed all_chains next_committed 1 2 knowledge refl 5 1 to_send (omega arith)
      constructed

construct_proof_ends_example :
    construct_proof all_chains next_committed 1 2 knowledge 5 1 ≢ out_of_fuel
construct_proof_ends_example =
    construct_proof_ends all_chains next_committed 1 2 knowledge refl 2 (λ id h. ground arith) 5 1
      (omega arith) (omega arith)
