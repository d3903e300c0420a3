-- ===== src/Ledger/ProofConstructor/Closed.antt =====
-- The blocks that are sent have their sources with them.
use scale_out_distributed_le.Common.{
  ℕ, zero, suc, ◌+◌, ◌-◌, ◌≤◌, ◌<◌, ◌≡◌, ◌≢◌, ◌⊎◌, refl, sym, ap, ◌∙◌, subst, Bool, true, false,
  Option, none, some, List, [], ◌∷◌, arith, length, get_elem?, All, All-map, All-split, ltb, ◌==◌,
  Bool-cases, Option-cases, some_injective, inl, inr, if◌then◌else◌,
}
use scale_out_distributed_le.Ledger.ChainView.{
  drop, returns, Outcome, index_out_of_bounds, illegal_state, unsupported_operation,
}
use scale_out_distributed_le.Ledger.ChainView.Laws.{length-drop, returns_injective}
use scale_out_distributed_le.Ledger.Transaction.{Transaction, transaction}
use scale_out_distributed_le.Ledger.Block.{Block, transactions}
use scale_out_distributed_le.Ledger.MetaKnowledge.{
  MetaKnowledge, get_first_unknown_block_number, take, blocks_from, get_blocks_to_send,
}
use scale_out_distributed_le.Ledger.Proof.{updates_of, get_block_number}
use scale_out_distributed_le.Ledger.ProofConstructor.{
  ToSend, Sending, sent, failed, out_of_fuel, add_blocks_to_send, returned, sources_of_all,
  returned, sources_of_blocks, returned, blocks_for, process_source, process_sources,
  process_blocks, construct_proof,
}
use scale_out_distributed_le.Ledger.ProofConstructor.Growth.{
  Begins, IsPart, Grown, Grown-refl, Grown-trans, Grown-map, Grown-length, add_blocks_to_send-Added,
}

take-Begins {ℓ} :
    {A : Type ℓ} (n : ℕ) (xs : List A)
    → n ≤ length xs
    → Begins (take n xs) xs × (length (take n xs) ≡ n)
unfolding take
take-Begins zero xs h = ((xs, refl), refl)
take-Begins (suc n) [] h = absurd (omega arith)
take-Begins (suc n) (x ∷ xs) h =
    let ((rest, e), l) = take-Begins n xs (omega arith) in
    ((rest, ap (λ ys. x ∷ ys) e), omega (arith, l))

returned-some : (o : Outcome (List Block)) (bs : List Block) → returned o ≡ some bs → o ≡ returns bs
returned-some (returns blocks) bs e = ap returns (some_injective blocks bs e)
returned-some index_out_of_bounds bs e = ground arith
returned-some illegal_state bs e = ground arith
returned-some unsupported_operation bs e = ground arith

sent_injective : (x y : ToSend) → sent x ≡ sent y → x ≡ y
sent_injective x y e = ap (λ o. elim o [ sent z ↦ z | _ ↦ x ]) e

pub Sending-cases :
    (r : Sending) → ((ts : ToSend) × (r ≡ sent ts)) ⊎ ((r ≡ failed) ⊎ (r ≡ out_of_fuel))
Sending-cases (sent ts) = inl (ts, refl)
Sending-cases failed = inr (inl refl)
Sending-cases out_of_fuel = inr (inr refl)

module _ (chains : ℕ → List Block) (next_committed : (id number : ℕ) → Option ℕ)
    (sender_id receiver_id : ℕ) (meta_knowledge : MetaKnowledge) where
  -- The number of the first block of a node that the receiver does not know, and the blocks from it.
  abbrev pub first_unknown : ℕ → ℕ
  first_unknown id = get_first_unknown_block_number meta_knowledge (chains receiver_id) id

  abbrev pub unknown : ℕ → List Block
  unknown id = drop (first_unknown id) (chains id)

  -- The next committed block at or after a block is known to the receiver or among the blocks that
  -- are sent.
  abbrev pub IsShown : ToSend → (id block_number : ℕ) → Type 0
  IsShown ts id k =
      (next_nr : ℕ) × (next_committed id k ≡ some next_nr)
      × (next_nr < first_unknown id + length (updates_of id ts))

  -- Whether a source has to be sent, and is.
  abbrev pub HasSource : ToSend → Transaction → Type 0
  HasSource ts (transaction n none r a m ss b) = Unit
  HasSource ts (transaction n (some owner) r a m ss b) =
      (owner ≡ sender_id)
      ⊎ ((owner ≡ receiver_id)
          ⊎ ((k : ℕ) × (get_block_number chains (transaction n (some owner) r a m ss b) ≡ some k)
              × IsShown ts owner k))

  -- All sources of the transactions of a block.
  abbrev pub HasSources : ToSend → Block → Type 0
  HasSources ts block = All (HasSource ts) (sources_of_all (transactions block))

  blocks_from-shown :
      (id next_nr : ℕ) (bs : List Block)
      → id ≢ meta_knowledge.owner
      → get_blocks_to_send meta_knowledge (chains receiver_id) (chains id) id next_nr ≡ returns bs
      → Begins bs (unknown id) × (next_nr < first_unknown id + length bs)
  unfolding get_blocks_to_send blocks_from
  blocks_from-shown id next_nr bs other e =
      let chain = chains id in
      let from = first_unknown id in
      elim (Bool-cases (ltb next_nr from)) [
        | inl below ↦
            let same = returns_injective [] bs (ground (arith, other, below)) in
            subst (λ bs. Begins bs (unknown id) × (next_nr < from + length bs)) same
              ((unknown id, refl), ground (arith, below))
        | inr unknown_yet ↦ elim (Bool-cases (ltb (length chain) (next_nr + 1))) [
          | inl missing ↦ ground (arith, other, unknown_yet, missing)
          | inr there ↦
              let n = next_nr + 1 - from in
              let same =
                returns_injective (take n (unknown id)) bs
                  (ground (arith, other, unknown_yet, there)) in
              let (begins, long) =
                take-Begins n (unknown id)
                  (ground (arith, length-drop from chain, unknown_yet, there)) in
              subst (λ bs. Begins bs (unknown id) × (next_nr < from + length bs)) same
                (begins, ground (arith, long, unknown_yet))
        ]
      ]

  pub blocks_for-shown :
      (id k : ℕ) (bs : List Block)
      → id ≢ meta_knowledge.owner
      → blocks_for chains next_committed sender_id receiver_id meta_knowledge id k ≡ some bs
      → Begins bs (unknown id)
        × ((next_nr : ℕ) × (next_committed id k ≡ some next_nr)
            × (next_nr < first_unknown id + length bs))
  unfolding blocks_for
  blocks_for-shown id k bs other e = elim (Option-cases (get_elem? (chains id) k)) [
    | inl missing ↦ ground (arith, missing)
    | inr (block, there) ↦ elim (Option-cases (next_committed id k)) [
      | inl uncommitted ↦ ground (arith, there, uncommitted)
      | inr (next_nr, committed) ↦
          let sends =
            returned-some
              (get_blocks_to_send meta_knowledge (chains receiver_id) (chains id) id next_nr) bs
              (ground (arith, there, committed)) in
          let (begins, far) = blocks_from-shown id next_nr bs other sends in
          (begins, (next_nr, committed, far))
    ]
  ]

  IsShown-Grown :
      (Fine : Block → Type 0) (a b : ToSend) (id k : ℕ)
      → Grown Fine a b
      → IsShown a id k
      → IsShown b id k
  IsShown-Grown Fine a b id k g (next_nr, committed, far) =
      (next_nr, committed, omega (arith, far, Grown-length Fine a b id g))

  HasSource-Grown :
      (Fine : Block → Type 0) (a b : ToSend) (s : Transaction)
      → Grown Fine a b
      → HasSource a s
      → HasSource b s
  HasSource-Grown Fine a b (transaction n none r x m ss k) g h = tt
  HasSource-Grown Fine a b (transaction n (some o) r x m ss k) g (inl own) = inl own
  HasSource-Grown Fine a b (transaction n (some o) r x m ss k) g (inr (inl theirs)) =
      inr (inl theirs)
  HasSource-Grown Fine a b (transaction n (some o) r x m ss k) g (inr (inr (nr, e, shown))) =
      inr (inr (nr, e, IsShown-Grown Fine a b o nr g shown))

  HasSources-Grown :
      (Fine : Block → Type 0) (a b : ToSend)
      → Grown Fine a b
      → (block : Block) → HasSources a block
      → HasSources b block
  HasSources-Grown Fine a b g block =
      All-map (HasSource a) (HasSource b) (sources_of_all (transactions block))
        (λ s. HasSource-Grown Fine a b s g)

  -- The blocks to send stay parts, and those that are added have their sources.
  abbrev pub Goes : (before after : ToSend) → Type 0
  Goes before after = IsPart unknown after × Grown (HasSources after) before after

  Goes-trans : (a b c : ToSend) → Goes a b → Goes b c → Goes a c
  Goes-trans a b c (p, g) (q, h) = (
    q,
    Grown-trans (HasSources c) a b c
        (Grown-map (HasSources b) (HasSources c) a b (HasSources-Grown (HasSources c) b c h) g) h,
  )

  -- What the recursive call has to do.
  abbrev pub Keeps : (process : ℕ → List Block → ToSend → Sending) → Type 0
  Keeps process =
      (id : ℕ) (bs : List Block) (ts ts' : ToSend)
      → Begins bs (unknown id)
      → IsPart unknown ts
      → process id bs ts ≡ sent ts'
      → Goes ts ts' × (length bs ≤ length (updates_of id ts'))

  module _ (owner : meta_knowledge.owner ≡ receiver_id) where
    unchanged :
        (ts ts' : ToSend) (s : Transaction)
        → IsPart unknown ts
        → sent ts ≡ sent ts'
        → HasSource ts s
        → Goes ts ts' × HasSource ts' s
    unchanged ts ts' s part e h =
        subst (λ x. Goes ts x × HasSource x s) (sent_injective ts ts' e)
          ((part, Grown-refl (HasSources ts) ts), h)

    IsShown-sent :
        (ts : ToSend) (id k : ℕ) (bs : List Block)
        → ((next_nr : ℕ) × (next_committed id k ≡ some next_nr)
            × (next_nr < first_unknown id + length bs))
        → length bs ≤ length (updates_of id ts)
        → IsShown ts id k
    IsShown-sent ts id k bs (next_nr, committed, far) long =
        (next_nr, committed, omega (arith, far, long))

    pub process_source-Goes :
        (process : ℕ → List Block → ToSend → Sending) (s : Transaction) (ts ts' : ToSend)
        → Keeps process
        → IsPart unknown ts
        → process_source chains next_committed sender_id receiver_id meta_knowledge process s ts
          ≡ sent ts'
        → Goes ts ts' × HasSource ts' s
    unfolding process_source
    process_source-Goes process (transaction n none r a m ss b) ts ts' keeps part e =
        unchanged ts ts' (transaction n none r a m ss b) part e tt
    process_source-Goes process (transaction n (some o) r a m ss b) ts ts' keeps part e =
        let s = transaction n (some o) r a m ss b in
        elim (Bool-cases (o == sender_id)) [
          | inl own ↦ unchanged ts ts' s part (ground (arith, own)) (inl (ground (arith, own)))
          | inr not_own ↦ elim (Bool-cases (o == receiver_id)) [
            | inl theirs ↦
                unchanged ts ts' s part (ground (arith, theirs, not_own))
                  (inr (inl (ground (arith, theirs))))
            | inr other ↦ elim (Option-cases (get_block_number chains s)) [
              | inl unknown_nr ↦ ground (arith, not_own, other, unknown_nr)
              | inr (k, numbered) ↦
                  elim (Option-cases
                    (blocks_for chains next_committed sender_id receiver_id meta_knowledge o k)) [
                      | inl refused ↦ ground (arith, not_own, other, numbered, refused)
                      | inr ([], nothing) ↦
                          let (begins, shown) =
                            blocks_for-shown o k [] (ground (arith, other, owner)) nothing in
                          let stays : sent ts ≡ sent ts' =
                            ground (arith, not_own, other, numbered, nothing) in
                          unchanged ts ts' s part stays
                            (inr (inr (k, numbered, IsShown-sent ts o k [] shown (omega arith))))
                      | inr (x ∷ xs, needed) ↦
                          let (begins, shown) =
                            blocks_for-shown o k (x ∷ xs) (ground (arith, other, owner)) needed in
                          let (goes, far) =
                            keeps o (x ∷ xs) ts ts' begins part
                              (ground (arith, not_own, other, numbered, needed)) in
                          (goes, inr (inr (k, numbered, IsShown-sent ts' o k (x ∷ xs) shown far)))
                    ]
            ]
          ]
        ]

    process_sources-Goes :
        (process : ℕ → List Block → ToSend → Sending) (ss : List Transaction) (ts ts' : ToSend)
        → Keeps process
        → IsPart unknown ts
        → process_sources chains next_committed sender_id receiver_id meta_knowledge process ss ts
          ≡ sent ts'
        → Goes ts ts' × All (HasSource ts') ss
    unfolding process_sources
    process_sources-Goes process [] ts ts' keeps part e =
        (subst (Goes ts) (sent_injective ts ts' e) (part, Grown-refl (HasSources ts) ts), tt)
    process_sources-Goes process (s ∷ ss) ts ts' keeps part e =
        elim (Sending-cases (
          process_source chains next_committed sender_id receiver_id meta_knowledge process s ts)) [
            | inl (next, done) ↦
                let (first, has) = process_source-Goes process s ts next keeps part done in
                let (rest, have) =
                  process_sources-Goes process ss next ts' keeps first.0 (ground (arith, done)) in
                (
                  Goes-trans ts next ts' first rest,
                  (HasSource-Grown (HasSources ts') next ts' s rest.1 has, have),
                )
            | inr (inl refused) ↦ ground (arith, refused)
            | inr (inr ran_out) ↦ ground (arith, ran_out)
          ]

    empty-IsPart : IsPart unknown []
    unfolding updates_of
    empty-IsPart id = (unknown id, refl)

    have_sources :
        (ts : ToSend) (bs : List Block)
        → All (HasSource ts) (sources_of_blocks bs)
        → All (HasSources ts) bs
    have_sources ts [] h = tt
    have_sources ts (b ∷ bs) h =
        let (first, rest) =
          All-split (HasSource ts) (sources_of_all (transactions b)) (sources_of_blocks bs) h in
        (first, have_sources ts bs rest)

    All-if :
        (P : Block → Type 0) (test : Bool) (bs : List Block)
        → All P bs
        → All P (if test then bs else [])
    All-if P true bs h = h
    All-if P false bs h = tt

    pub process_blocks-Keeps :
        (fuel : ℕ)
        → Keeps (process_blocks chains next_committed sender_id receiver_id meta_knowledge fuel)
    unfolding process_blocks
    process_blocks-Keeps zero id bs ts ts' begins part e = ground arith
    process_blocks-Keeps (suc fuel) id bs ts ts' begins part e =
        let (next, added) = add_blocks_to_send id bs ts in
        let (part', grows, long) = add_blocks_to_send-Added unknown id bs ts part begins in
        let (goes, have) =
          process_sources-Goes
            (process_blocks chains next_committed sender_id receiver_id meta_knowledge fuel)
            (sources_of_blocks added) next ts' (process_blocks-Keeps fuel) part' e in
        let start : Grown (HasSources ts') ts next = λ i. (
          if id == i then added else [],
          grows i,
          All-if (HasSources ts') (id == i) added (have_sources ts' added have),
        ) in
        (
          (goes.0, Grown-trans (HasSources ts') ts next ts' start goes.1),
          omega (arith, long, Grown-length (HasSources ts') next ts' id goes.1),
        )

    -- Where a proof is constructed for a transaction to another node, the blocks that are sent of each
    -- node are the first of those that the receiver does not know; the committed block at or after the
    -- transaction is known to the receiver or sent; and for every transaction in a block that is sent,
    -- each source that is not of a genesis block, the sender or the receiver has the committed block
    -- at or after it known to the receiver or sent too.
    pub construct_proof-closed :
        (fuel main_block_nr : ℕ) (to_send : ToSend)
        → sender_id ≢ receiver_id
        → construct_proof chains next_committed sender_id receiver_id meta_knowledge fuel
            main_block_nr
          ≡ sent to_send
        → IsPart unknown to_send
          × IsShown to_send sender_id main_block_nr
          × ((id : ℕ) → All (HasSources to_send) (updates_of id to_send))
    unfolding construct_proof
    construct_proof-closed fuel k ts other e =
        elim (Option-cases
          (blocks_for chains next_committed sender_id receiver_id meta_knowledge sender_id k)) [
            | inl refused ↦ ground (arith, refused)
            | inr ([], nothing) ↦
                let (begins, shown) =
                  blocks_for-shown sender_id k [] (ground (arith, other, owner)) nothing in
                let same = sent_injective [] ts (ground (arith, nothing)) in
                subst
                  (λ ts.
                    IsPart unknown ts
                    × IsShown ts sender_id k
                    × ((id : ℕ) → All (HasSources ts) (updates_of id ts)))
                  same
                  (
                    empty-IsPart,
                    IsShown-sent [] sender_id k [] shown (omega arith),
                    λ id. unfold updates_of in tt,
                  )
            | inr (x ∷ xs, needed) ↦
                let (begins, shown) =
                  blocks_for-shown sender_id k (x ∷ xs) (ground (arith, other, owner)) needed in
                let (goes, far) =
                  process_blocks-Keeps fuel sender_id (x ∷ xs) [] ts begins empty-IsPart
                    (ground (arith, needed)) in
                (
                  goes.0,
                  IsShown-sent ts sender_id k (x ∷ xs) shown far,
                  λ id.
                      let (added, same, have) = goes.1 id in
                      subst (All (HasSources ts)) (sym (same ∙ unfold updates_of in refl)) have,
                )
          ]
