-- ===== src/Ledger/MetaKnowledge/Sending.antt =====
-- The blocks that are sent to a node, and the view that the node makes of them.
use scale_out_distributed_le.Common.{
  ℕ, zero, suc, ◌+◌, ◌-◌, ◌≤◌, ◌<◌, ◌≡◌, ◌≢◌, refl, sym, ap, ◌∙◌, Bool, true, false, none, some,
  List, [], ◌∷◌, ◌++◌, arith, length, length-append, ltb, ◌==◌, if◌then◌else◌, Bool-cases,
  Option-cases, inl, inr,
}
use scale_out_distributed_le.Ledger.ChainView.{drop, returns, new_view, is_valid}
use scale_out_distributed_le.Ledger.ChainView.Laws.{NumberedFrom, drop-append, length-drop, blocks}
use scale_out_distributed_le.Ledger.ChainView.Honest.{is_valid-honest}
use scale_out_distributed_le.Ledger.Block.{Block, number, equals}
use scale_out_distributed_le.Ledger.Block.Equality.{equals_refl}
use scale_out_distributed_le.Ledger.MetaKnowledge.{
  MetaKnowledge, known_of, merge_max, get_last_known_block_number, get_first_unknown_block_number,
  update_last_known_block_number, take, blocks_from, get_blocks_to_send,
}

known_of-merge_max :
    (id n : ℕ) (known : List (ℕ × ℕ)) (i : ℕ)
    → known_of i (merge_max id n known) ≡ (
        if id == i
        then (elim (known_of i known) [
          | none ↦ some n
          | some old ↦ some (if ltb old n then n else old)
        ])
        else known_of i known)
unfolding known_of merge_max
known_of-merge_max id n [] i = ground arith
known_of-merge_max id n ((j, old) ∷ known) i = ground (arith, known_of-merge_max id n known i)

-- What is known of a node's chain grows to the number that it is updated with, and never shrinks;
-- what is known of the other nodes' chains stays.
pub first_unknown-update :
    (m : MetaKnowledge) (owner_chain : List Block) (id n i : ℕ)
    → id ≢ m.owner
    → let before = get_first_unknown_block_number m owner_chain i in
      get_first_unknown_block_number (update_last_known_block_number m id n) owner_chain i
      ≡ (if id == i then (if ltb before (n + 1) then n + 1 else before) else before)
unfolding get_first_unknown_block_number get_last_known_block_number update_last_known_block_number
first_unknown-update m owner_chain id n i h =
    ground (arith, known_of-merge_max id n m.known i, Option-cases (known_of i m.known))

take-prefix {ℓ} : {A : Type ℓ} (n : ℕ) (xs ys : List A) → n ≡ length xs → take n (xs ++ ys) ≡ xs
unfolding take
take-prefix zero [] ys e = refl
take-prefix zero (x ∷ xs) ys e = ground arith
take-prefix (suc n) [] ys e = ground arith
take-prefix (suc n) (x ∷ xs) ys e = ap (λ zs. x ∷ zs) (take-prefix n xs ys (omega arith))

drop_past {ℓ} : {Block : Type ℓ} (k : ℕ) (xs : List Block) → length xs ≤ k → drop k xs ≡ []
unfolding drop
drop_past zero [] h = refl
drop_past zero (x ∷ xs) h = absurd (omega arith)
drop_past (suc k) [] h = refl
drop_past (suc k) (x ∷ xs) h = drop_past k xs (omega arith)

take-drop-append {ℓ} :
    {Block : Type ℓ} (k : ℕ) (xs rest : List Block)
    → k ≤ length xs
    → take (length xs - k) (drop k (xs ++ rest)) ≡ drop k xs
take-drop-append k xs rest h =
    ap (take (length xs - k)) (drop-append k xs rest h)
    ∙ take-prefix (length xs - k) (drop k xs) rest (sym (length-drop k xs))

-- The blocks of a chain that are sent up to the end of its first part.
blocks_from-prefix :
    (k : ℕ) (xs rest : List Block)
    → k ≤ length xs
    → 0 < length xs
    → blocks_from k (xs ++ rest) (length xs - 1) ≡ returns (drop k xs)
unfolding blocks_from
blocks_from-prefix k xs rest h pos =
    let end : length xs - 1 + 1 ≡ length xs = omega arith in
    let inside : ltb (length (xs ++ rest)) (length xs) ≡ false =
      ground (arith, length-append xs rest) in
    elim (Bool-cases (ltb (length xs - 1) k)) [
      | inl known ↦ rw known (ap returns (sym (drop_past k xs (ground arith))))
      | inr unknown ↦ rw (unknown, end, inside) (ap returns (take-drop-append k xs rest h))
    ]

get_blocks_to_send-foreign :
    (m : MetaKnowledge) (owner_chain chain : List Block) (id end_block_nr : ℕ)
    → id ≢ m.owner
    → get_blocks_to_send m owner_chain chain id end_block_nr
      ≡ blocks_from (get_first_unknown_block_number m owner_chain id) chain end_block_nr
unfolding get_blocks_to_send
get_blocks_to_send-foreign m owner_chain chain id end_block_nr other = ground arith

-- A node that has the first blocks of a numbered chain, at least one and as many as are known of
-- it, accepts the blocks that are sent to it of this chain up to a block it does not have: its view
-- of them is valid and has the chain up to this block.
pub sent-is_valid :
    (m : MetaKnowledge) (owner_chain chain more rest : List Block) (id : ℕ) (trim : Bool)
    → id ≢ m.owner
    → get_first_unknown_block_number m owner_chain id ≤ length chain
    → 0 < length chain
    → NumberedFrom number 0 (chain ++ more)
    → (sent : List Block) × (get_blocks_to_send m owner_chain
          ((chain ++ more) ++ rest)
          id
          (length (chain ++ more) - 1)
        ≡ returns sent)
      × (let (view, valid) = is_valid number equals chain (new_view chain sent trim) in
          (valid ≡ true) × (blocks chain view ≡ chain ++ more))
sent-is_valid m owner_chain chain more rest id trim other h pos numbered =
    let k = get_first_unknown_block_number m owner_chain id in
    (
      drop k (chain ++ more),
      get_blocks_to_send-foreign m owner_chain ((chain ++ more) ++ rest) id
            (length (chain ++ more) - 1) other
          ∙ blocks_from-prefix k (chain ++ more) rest (omega (arith, h, length-append chain more))
              (omega (arith, pos, length-append chain more)),
      is_valid-honest number equals chain more k trim pos h numbered equals_refl,
    )
