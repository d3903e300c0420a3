-- ===== src/Ledger/ProofConstructor/Ends.antt =====
-- The recursion over the sources ends: every round adds a block or sends nothing new.
use scale_out_distributed_le.Common.{
  ℕ, zero, suc, ◌+◌, ◌-◌, ◌≤◌, ◌<◌, ◌≡◌, ◌≢◌, ◌⊎◌, refl, ap, subst, ◌||◌, Option, none, some, List,
  [], ◌∷◌, ◌++◌, arith, length, length-append, ltb, ◌==◌, Bool-cases, Option-cases, inl, inr,
  if◌then◌else◌,
}
use scale_out_distributed_le.Ledger.ChainView.Laws.{length-drop}
use scale_out_distributed_le.Ledger.Transaction.{Transaction, transaction}
use scale_out_distributed_le.Ledger.Block.{Block}
use scale_out_distributed_le.Ledger.MetaKnowledge.{MetaKnowledge}
use scale_out_distributed_le.Ledger.Proof.{updates_of, get_block_number}
use scale_out_distributed_le.Ledger.ProofConstructor.{
  ToSend, Sending, out_of_fuel, add_blocks_to_send, sources_of_blocks, blocks_for, process_source,
  process_sources, process_blocks, construct_proof,
}
use scale_out_distributed_le.Ledger.ProofConstructor.Growth.{
  Begins, IsPart, Grown, Grown-length, add_blocks_to_send-Added,
}
use scale_out_distributed_le.Ledger.ProofConstructor.Closed.{
  Sending-cases, unknown, first_unknown, Keeps, HasSources, blocks_for-shown, process_source-Goes,
  process_blocks-Keeps,
}

-- The sum over the numbers below a bound.
abbrev pub sum_to : ℕ → (ℕ → ℕ) → ℕ
sum_to zero f = 0
sum_to (suc n) f = f n + sum_to n f

sum_to-le : (n : ℕ) (f g : ℕ → ℕ) → ((i : ℕ) → f i ≤ g i) → sum_to n f ≤ sum_to n g
sum_to-le zero f g h = omega arith
sum_to-le (suc n) f g h = omega (arith, h n, sum_to-le n f g h)

sum_to-lt :
    (n : ℕ) (f g : ℕ → ℕ) (k : ℕ)
    → ((i : ℕ) → f i ≤ g i)
    → k < n
    → f k < g k
    → sum_to n f < sum_to n g
sum_to-lt zero f g k h b s = absurd (omega arith)
sum_to-lt (suc n) f g k h b s = elim (Bool-cases (k == n)) [
  | inl last ↦
      let same : k ≡ n = ground (arith, last) in
      let here : f n < g n = subst (λ i. f i < g i) same s in omega (arith, here, sum_to-le n f g h)
  | inr before ↦
      let rest = sum_to-lt n f g k h (ground (arith, before)) s in omega (arith, rest, h n)
]

List-cases {ℓ} :
    {A : Type ℓ} (xs : List A) → (xs ≡ []) ⊎ ((x : A) × (rest : List A) × (xs ≡ x ∷ rest))
List-cases [] = inl refl
List-cases (x ∷ xs) = inr (x, xs, refl)

Begins-le {ℓ} : {A : Type ℓ} (xs whole : List A) → Begins xs whole → length xs ≤ length whole
Begins-le xs whole (rest, e) = omega (arith, ap length e, length-append xs rest)

module _ (chains : ℕ → List Block) (next_committed : (id number : ℕ) → Option ℕ)
    (sender_id receiver_id : ℕ) (meta_knowledge : MetaKnowledge)
    (owner : meta_knowledge.owner ≡ receiver_id) (nodes : ℕ)
    (others : (id : ℕ) → nodes ≤ id → chains id ≡ []) where
  abbrev unknown_of : ℕ → List Block
  unknown_of = unknown chains next_committed sender_id receiver_id meta_knowledge

  -- The blocks that could still be added.
  abbrev room : ToSend → ℕ
  room ts = sum_to nodes (λ id. length (unknown_of id) - length (updates_of id ts))

  room-Grown : (Fine : Block → Type 0) (a b : ToSend) → Grown Fine a b → room b ≤ room a
  room-Grown Fine a b g = sum_to-le nodes _ _ (λ id. omega (arith, Grown-length Fine a b id g))

  -- Adding a block takes room.
  room-added :
      (ts next : ToSend) (id : ℕ) (added : List Block)
      → IsPart unknown_of next
      → ((i : ℕ) → updates_of i next ≡ updates_of i ts ++ (if id == i then added else []))
      → 0 < length added
      → room next < room ts
  room-added ts next id added part grows pos =
      let longer : length (updates_of id next) ≡ length (updates_of id ts) + length added =
        ground (arith, ap length (grows id), length-append (updates_of id ts) added) in
      let fits : length (updates_of id next) ≤ length (unknown_of id) = Begins-le _ _ (part id) in
      let one : id < nodes = elim (Bool-cases (ltb id nodes)) [
        | inl below ↦ ground (arith, below)
        | inr past ↦
            let nothing : length (chains id) ≡ 0 = ap length (others id (ground (arith, past))) in
            absurd (
              omega (
                arith,
                longer,
                fits,
                pos,
                nothing,
                length-drop
                    (first_unknown chains next_committed sender_id receiver_id meta_knowledge id)
                    (chains id),
              ))
      ] in
      sum_to-lt nodes _ _ id
        (λ i. ground (
          arith,
          ap length (grows i),
          length-append (updates_of i ts) (if id == i then added else []),
        ))
        one (omega (arith, longer, fits, pos))

  -- The recursive call does not run out of fuel.
  abbrev Ends : (process : ℕ → List Block → ToSend → Sending) → (left : ℕ) → Type 0
  Ends process left =
      (id : ℕ) (bs : List Block) (ts : ToSend)
      → Begins bs (unknown_of id)
      → IsPart unknown_of ts
      → room ts ≤ left
      → process id bs ts ≢ out_of_fuel

  module _ (process : ℕ → List Block → ToSend → Sending) (left : ℕ)
      (keeps : Keeps chains next_committed sender_id receiver_id meta_knowledge process)
      (ends : Ends process left) where
    process_source_ends :
        (s : Transaction) (ts : ToSend)
        → IsPart unknown_of ts
        → room ts ≤ left
        → process_source chains next_committed sender_id receiver_id meta_knowledge process s ts
          ≢ out_of_fuel
    unfolding process_source
    process_source_ends (transaction n none r a m ss b) ts part f e = ground arith
    process_source_ends (transaction n (some o) r a m ss b) ts part f e =
        elim (Bool-cases (o == sender_id || o == receiver_id)) [
          | inl skipped ↦ ground (arith, skipped)
          | inr other ↦
              elim (Option-cases (get_block_number chains (transaction n (some o) r a m ss b))) [
                | inl unknown_nr ↦ ground (arith, other, unknown_nr)
                | inr (k, numbered) ↦
                    elim (Option-cases
                      (blocks_for chains next_committed sender_id receiver_id meta_knowledge o k)) [
                        | inl refused ↦ ground (arith, other, numbered, refused)
                        | inr ([], nothing) ↦ ground (arith, other, numbered, nothing)
                        | inr (x ∷ xs, needed) ↦
                            let (begins, shown) =
                              blocks_for-shown chains next_committed sender_id receiver_id
                                meta_knowledge o k (x ∷ xs) (ground (arith, other, owner)) needed in
                            ends o (x ∷ xs) ts begins part f
                              (ground (arith, other, numbered, needed))
                      ]
              ]
        ]

    process_sources_ends :
        (ss : List Transaction) (ts : ToSend)
        → IsPart unknown_of ts
        → room ts ≤ left
        → process_sources chains next_committed sender_id receiver_id meta_knowledge process ss ts
          ≢ out_of_fuel
    unfolding process_sources
    process_sources_ends [] ts part f e = ground arith
    process_sources_ends (s ∷ ss) ts part f e =
        elim (Sending-cases (
          process_source chains next_committed sender_id receiver_id meta_knowledge process s ts)) [
            | inl (next, done) ↦
                let (goes, has) =
                  process_source-Goes chains next_committed sender_id receiver_id meta_knowledge
                    owner process s ts next keeps part done in
                process_sources_ends ss next goes.0
                  (omega (
                    arith,
                    f,
                    room-Grown
                        (HasSources chains next_committed sender_id receiver_id meta_knowledge next)
                        ts next goes.1,
                  ))
                  (ground (arith, done))
            | inr (inl refused) ↦ ground (arith, refused)
            | inr (inr ran_out) ↦ process_source_ends s ts part f ran_out
          ]

  process_blocks-Ends :
      (fuel left : ℕ)
      → left < fuel
      → Ends (process_blocks chains next_committed sender_id receiver_id meta_knowledge fuel) left
  unfolding process_blocks
  process_blocks-Ends zero left l id bs ts begins part f e = absurd (omega arith)
  process_blocks-Ends (suc fuel) left l id bs ts begins part f e =
      let (next, added) = add_blocks_to_send id bs ts in
      let (part', grows, long) = add_blocks_to_send-Added unknown_of id bs ts part begins in
      elim (List-cases added) [
        | inl nothing ↦ ground (arith, nothing)
        | inr (b, rest, some_new) ↦
            let less =
              room-added ts next id added part' grows (omega (arith, ap length some_new)) in
            process_sources_ends
              (process_blocks chains next_committed sender_id receiver_id meta_knowledge fuel)
              (room next)
              (process_blocks-Keeps chains next_committed sender_id receiver_id meta_knowledge owner
                fuel)
              (process_blocks-Ends fuel (room next) (omega (arith, less, l, f)))
              (sources_of_blocks added) next part' (omega arith) e
      ]

  -- Constructing a proof for another node ends: with a fuel above the number of all blocks of the
  -- nodes, it is never used up.
  pub construct_proof_ends :
      (fuel main_block_nr : ℕ)
      → sender_id ≢ receiver_id
      → sum_to nodes (λ id. length (chains id)) < fuel
      → construct_proof chains next_committed sender_id receiver_id meta_knowledge fuel
          main_block_nr
        ≢ out_of_fuel
  unfolding construct_proof
  construct_proof_ends fuel k other f e =
      elim (Option-cases
        (blocks_for chains next_committed sender_id receiver_id meta_knowledge sender_id k)) [
          | inl refused ↦ ground (arith, refused)
          | inr ([], nothing) ↦ ground (arith, nothing)
          | inr (x ∷ xs, needed) ↦
              let (begins, shown) =
                blocks_for-shown chains next_committed sender_id receiver_id meta_knowledge
                  sender_id k (x ∷ xs) (ground (arith, other, owner)) needed in
              let small =
                sum_to-le nodes (λ id. length (unknown_of id) - length (updates_of id []))
                  (λ id. length (chains id))
                  (λ id. omega (
                    arith,
                    length-drop
                        (first_unknown chains next_committed sender_id receiver_id meta_knowledge
                          id)
                        (chains id),
                  )) in
              process_blocks-Ends fuel (room []) (omega (arith, small, f)) sender_id (x ∷ xs) []
                begins (λ id. (unknown_of id, unfold updates_of in refl)) (omega arith)
                (ground (arith, needed))
        ]
