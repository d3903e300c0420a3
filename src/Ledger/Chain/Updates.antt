-- ===== src/Ledger/Chain/Updates.antt =====
-- What `update` adds to a chain, against the view of the same updates.
use scale_out_distributed_le.Common.{
  ℕ, ◌+◌, ◌-◌, ◌≤◌, ◌<◌, ◌≡◌, ◌≢◌, refl, sym, ap, ◌∙◌, subst, Bool, true, false, not, Option, none,
  some, List, [], ◌∷◌, ◌++◌, arith, length, append-nil, ◌==◌, Bool-cases, Option-cases, inl, inr,
  if◌then◌else◌,
}
use scale_out_distributed_le.Ledger.ChainView.{returns, drop, new_view, is_valid, check_integrity}
use scale_out_distributed_le.Ledger.ChainView.Laws.{
  returns_injective, pending, blocks, NumberedFrom, NumberedFrom-append, length-drop,
}
use scale_out_distributed_le.Ledger.ChainView.Overlap.{agrees}
use scale_out_distributed_le.Ledger.ChainView.Validity.{
  fits, check_against-fits, is_valid-against, is_valid-fits, is_valid-pending,
}
use scale_out_distributed_le.Ledger.ChainView.Honest.{NumberedFrom-drop}
use scale_out_distributed_le.Ledger.Chain.{
  Chain, get_last_block, mark, set_last_committed_block, apply_updates, next_after, update,
}

cons-ne-nil {ℓ} : {Block : Type ℓ} (b : Block) (bs : List Block) → b ∷ bs ≢ []
cons-ne-nil b bs e = ground arith

module _ {ℓ} {Block : Type ℓ} (number : Block → ℕ) where
  -- The updates whose numbers go on from a number.
  abbrev pub going_on : ℕ → List Block → List Block
  going_on n [] = []
  going_on n (b ∷ bs) =
      let skipped = going_on n bs in
      let taken = going_on (n + 1) bs in if not (number b == n) then skipped else b ∷ taken

  apply_updates-going_on :
      (is_in_cache : Block → Bool) (last next o : ℕ) (us : List Block) (f : ℕ → Option ℕ)
      → (apply_updates number is_in_cache last next o us f).0 ≡ going_on next us
  unfolding apply_updates
  apply_updates-going_on c last next o [] f = refl
  apply_updates-going_on c last next o (u ∷ us) f = ground (
    arith,
    apply_updates-going_on c last next o us f,
    apply_updates-going_on c last (next + 1) o us f,
    apply_updates-going_on c last (next + 1) (number u + 1) us (mark o (number u) f),
  )

  going_on-NumberedFrom : (n : ℕ) (us : List Block) → NumberedFrom number n (going_on n us)
  going_on-NumberedFrom n [] = tt
  going_on-NumberedFrom n (u ∷ us) =
      ground (arith, going_on-NumberedFrom n us, going_on-NumberedFrom (n + 1) us)

  going_on_all : (n : ℕ) (us : List Block) → NumberedFrom number n us → going_on n us ≡ us
  going_on_all n [] h = refl
  going_on_all n (u ∷ us) h = ground (arith, h.0, going_on_all (n + 1) us h.1)

  pub next_after-NumberedFrom :
      (k : ℕ) (b : Block) (bs : List Block)
      → NumberedFrom number k (b ∷ bs)
      → next_after number (get_last_block (b ∷ bs)) ≡ k + length (b ∷ bs)
  unfolding get_last_block
  next_after-NumberedFrom k b [] h = ground (arith, h.0)
  next_after-NumberedFrom k b (c ∷ bs) h = next_after-NumberedFrom (k + 1) c bs h.1 ∙ omega arith

  pub next_after-length :
      (bs : List Block)
      → NumberedFrom number 0 bs
      → next_after number (get_last_block bs) ≡ length bs
  unfolding get_last_block
  next_after-length [] h = refl
  next_after-length (b ∷ bs) h = next_after-NumberedFrom 0 b bs h ∙ omega arith

  get_last_block-none : (us : List Block) → get_last_block us ≡ none → us ≡ []
  unfolding get_last_block
  get_last_block-none [] e = refl
  get_last_block-none (u ∷ []) e = ground arith
  get_last_block-none (u ∷ v ∷ us) e = absurd (cons-ne-nil v us (get_last_block-none (v ∷ us) e))

  set_last_committed_block-blocks :
      (chain : Chain Block) (block : Block)
      → (set_last_committed_block number chain block).blocks ≡ chain.blocks
  unfolding set_last_committed_block
  set_last_committed_block-blocks chain block =
      ground (arith, Option-cases chain.last_committed_block)

  -- What `update` makes where the last update is `last`.
  abbrev pub extended :
      (is_in_cache : Block → Bool) → Chain Block → List Block → Block → Chain Block
  extended c chain updates last =
      let next = next_after number (get_last_block chain.blocks) in
      let (to_add, marked) =
        apply_updates number c (number last) next next updates chain.next_committed in
      record chain { blocks = chain.blocks ++ to_add; next_committed = marked }

  pub update-extended :
      (is_in_cache : Block → Bool) (chain chain' : Chain Block) (updates : List Block)
      (last : Block)
      → get_last_block updates ≡ some last
      → update number is_in_cache chain updates ≡ returns chain'
      → chain' ≡ set_last_committed_block number (extended is_in_cache chain updates last) last
  unfolding update
  update-extended c chain chain' updates last found e = elim (Bool-cases chain.is_own) [
    | inl own ↦ ground arith
    | inr other ↦
        let shape : returns (set_last_committed_block number (extended c chain updates last) last)
            ≡ returns chain' =
          ground (arith, other, found) in
        sym (returns_injective _ chain' shape)
  ]

  update-nothing :
      (is_in_cache : Block → Bool) (chain chain' : Chain Block) (updates : List Block)
      → get_last_block updates ≡ none
      → update number is_in_cache chain updates ≡ returns chain'
      → chain' ≡ chain
  unfolding update
  update-nothing c chain chain' updates nothing e = elim (Bool-cases chain.is_own) [
    | inl own ↦ ground arith
    | inr other ↦
        let shape : returns chain ≡ returns chain' = ground (arith, other, nothing) in
        sym (returns_injective chain chain' shape)
  ]

  update-blocks :
      (is_in_cache : Block → Bool) (chain chain' : Chain Block) (updates : List Block)
      → next_after number (get_last_block chain.blocks) ≡ length chain.blocks
      → update number is_in_cache chain updates ≡ returns chain'
      → chain'.blocks ≡ chain.blocks ++ going_on (length chain.blocks) updates
  update-blocks c chain chain' updates n e = elim (Option-cases (get_last_block updates)) [
    | inl nothing ↦
        ap (λ c. c.blocks) (update-nothing c chain chain' updates nothing e)
        ∙ sym (append-nil chain.blocks)
        ∙ ap (λ us. chain.blocks ++ going_on (length chain.blocks) us)
            (sym (get_last_block-none updates nothing))
    | inr (last, found) ↦
        let next = next_after number (get_last_block chain.blocks) in
        ap (λ c. c.blocks) (update-extended c chain chain' updates last found e)
        ∙ set_last_committed_block-blocks (extended c chain updates last) last
        ∙ ap (λ bs. chain.blocks ++ bs)
            (apply_updates-going_on c (number last) next next updates chain.next_committed
              ∙ ap (λ k. going_on k updates) n)
  ]

  pub update-returns :
      (is_in_cache : Block → Bool) (chain : Chain Block) (updates : List Block)
      → chain.is_own ≡ false
      → (chain' : Chain Block) × (update number is_in_cache chain updates ≡ returns chain')
  unfolding update
  update-returns c chain updates other = elim (Option-cases (get_last_block updates)) [
    | inl nothing ↦ (chain, ground (arith, other, nothing))
    | inr (last, found) ↦ (
      set_last_committed_block number (extended c chain updates last) last,
      ground (arith, other, found),
    )
  ]

  -- Whatever the updates are, `update` of the chain of another node returns a chain; where the chain
  -- was numbered from 0, exactly the updates that go on from its last block are added to it, and it
  -- stays numbered from 0.
  update-NumberedFrom :
      (is_in_cache : Block → Bool) (chain : Chain Block) (updates : List Block)
      → chain.is_own ≡ false
      → NumberedFrom number 0 chain.blocks
      → (chain' : Chain Block) × (update number is_in_cache chain updates ≡ returns chain')
        × (chain'.blocks ≡ chain.blocks ++ going_on (length chain.blocks) updates)
        × NumberedFrom number 0 chain'.blocks
  update-NumberedFrom c chain updates other h =
      let m = length chain.blocks in
      let (chain', e) = update-returns c chain updates other in
      let grown = update-blocks c chain chain' updates (next_after-length chain.blocks h) e in
      (
        chain',
        e,
        grown,
        subst (NumberedFrom number 0) (sym grown) (
            NumberedFrom-append number 0 chain.blocks (going_on m updates) h (
              subst (λ k. NumberedFrom number k (going_on m updates)) (omega arith)
                (going_on-NumberedFrom m updates))),
      )

  going_on-drop :
      (equals : Block → Block → Bool) (owns us : List Block) (j m : ℕ)
      → ((a b : Block) → equals a b ≡ true → number a ≡ number b)
      → NumberedFrom number j owns
      → j + length owns ≤ m
      → agrees number equals owns us ≡ true
      → going_on m us ≡ going_on m (drop (length owns) us)
  unfolding drop
  going_on-drop equals [] us j m d h b e = refl
  going_on-drop equals (o ∷ os) [] j m d h b e = refl
  going_on-drop equals (o ∷ os) (u ∷ us) j m d h b e =
      ground (arith, h.0, d o u, going_on-drop equals os us (j + 1) m d h.1)

  pending-updates :
      (equals : Block → Block → Bool) (chain : List Block) (u : Block) (us : List Block)
      (trim : Bool)
      → 0 < length chain
      → let (view, valid) = is_valid number equals chain (new_view chain (u ∷ us) trim) in
        valid ≡ true → pending view ≡ drop (length chain - number u) (u ∷ us)
  pending-updates equals chain u us trim pos valid =
      let first = new_view chain (u ∷ us) trim in
      let checked = is_valid-against number equals chain u us trim pos in
      let (decision, left) =
        check_against-fits number equals chain first (number u) pos (unfold new_view in λ _. refl)
          (unfold new_view in refl) in
      ap (λ r. pending r.0) checked
      ∙ (left (sym (ap (λ r. r.1) checked) ∙ valid)).0
      ∙ ap (drop (length chain - number u)) (unfold new_view drop in refl)

  -- The view of a chain that is not empty and numbered from 0, where it is valid, has the blocks
  -- that the chain gets by `update` with the same updates: what was checked is what is kept.
  pub update-blocks_of_view :
      (equals : Block → Block → Bool) (is_in_cache : Block → Bool) (chain chain' : Chain Block)
      (updates : List Block) (trim : Bool)
      → ((a b : Block) → equals a b ≡ true → number a ≡ number b)
      → 0 < length chain.blocks
      → NumberedFrom number 0 chain.blocks
      → let (view, valid) =
          is_valid number equals chain.blocks (new_view chain.blocks updates trim) in
        valid ≡ true
        → update number is_in_cache chain updates ≡ returns chain'
        → chain'.blocks ≡ blocks chain.blocks view
  update-blocks_of_view equals c chain chain' [] trim d pos h valid e =
      unfold is_valid check_integrity new_view drop in
      update-blocks c chain chain' [] (next_after-length chain.blocks h) e
  update-blocks_of_view equals c chain chain' (u ∷ us) trim d pos h valid e =
      let m = length chain.blocks in
      let (view, _) = is_valid number equals chain.blocks (new_view chain.blocks (u ∷ us) trim) in
      let passed : fits number equals chain.blocks (u ∷ us) (number u) ≡ true =
        sym (is_valid-fits number equals chain.blocks u us trim pos) ∙ valid in
      let owns = drop (number u) chain.blocks in
      let size = length-drop (number u) chain.blocks in
      let rest : going_on m (u ∷ us) ≡ going_on m (drop (length owns) (u ∷ us)) =
        going_on-drop equals owns (u ∷ us) (0 + number u) m d
          (NumberedFrom-drop number equals 0 (number u) chain.blocks h) (ground (arith, size))
          (ground arith) in
      update-blocks c chain chain' (u ∷ us) (next_after-length chain.blocks h) e
      ∙ ap (λ bs. chain.blocks ++ bs)
          (rest
            ∙ ap (λ k. going_on m (drop k (u ∷ us))) size
            ∙ ap (going_on m) (sym (pending-updates equals chain.blocks u us trim pos valid))
            ∙ going_on_all m (pending view)
                (is_valid-pending number equals chain.blocks (u ∷ us) trim pos valid).0)
