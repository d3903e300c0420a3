-- ===== src/Ledger/ChainView/Validity.antt =====
-- When a view is valid, and the blocks it then has.
use scale_out_distributed_le.Common.{
  ℕ, ◌+◌, ◌-◌, ◌≤◌, ◌<◌, ◌≡◌, refl, sym, ap, subst, ◌∙◌, Bool, true, false, ◌&&◌, Option, none,
  some, List, [], ◌∷◌, arith, length, length-append, get_elem?, inl, inr, Bool-cases, ltb, leb,
  ◌==◌,
}
use scale_out_distributed_le.Ledger.ChainView.{
  ChainView, drop, new_view, got, returns, no_gaps, check_no_gaps, check_against, check_integrity,
  is_valid, get_block, size,
}
use scale_out_distributed_le.Ledger.ChainView.Laws.{
  pending, blocks, IsTrimmed, NumberedFrom, no_gaps_iff, NumberedFrom-append, get_elem?-append,
  drop_zero, get_elem?-drop, length-drop, get_elem?-NumberedFrom,
}
use scale_out_distributed_le.Ledger.ChainView.Overlap.{
  agrees, check_overlap-agrees, check_overlap-pending, check_overlap-start_index,
}

module _ {ℓ} {Block : Type ℓ} (number : Block → ℕ) (equals : Block → Block → Bool) where
  -- The check against an own chain: no block is missing before the first update, the shared blocks
  -- agree, and the rest is numbered on from the chain.
  abbrev pub fits : (chain updates : List Block) → (first : ℕ) → Bool
  fits chain updates first =
      leb first (length chain)
      && agrees number equals (drop first chain) updates
      && no_gaps number (drop (length chain - first) updates) (length chain - 1)

  drop_all : (xs : List Block) → drop (length xs) xs ≡ []
  unfolding drop
  drop_all [] = refl
  drop_all (x ∷ xs) = drop_all xs

  pub check_against-fits :
      (chain : List Block) (view : ChainView Block) (first : ℕ)
      → 0 < length chain
      → IsTrimmed view
      → view.start_index ≡ 0
      → let (view', valid) = check_against number equals chain view first (length chain - 1) in
        (valid ≡ fits chain (pending view) first)
        × (valid ≡ true
            → (pending view' ≡ drop (length chain - first) (pending view))
              × (view'.chain_size ≡ view.chain_size))
  unfolding check_against check_no_gaps
  check_against-fits chain view first pos h z =
      let last = length chain - 1 in
      elim (Bool-cases (ltb 1 (first - last))) [
        | inl missing ↦ ground (arith, missing)
        | inr near ↦ elim (Bool-cases (leb first last)) [
          | inl shared ↦
              let owns = drop first chain in
              let start : length chain - (last + 1 - first) ≡ first = ground (arith, shared) in
              rw (near, shared, start)
                (ground (
                  arith,
                  shared,
                  pos,
                  check_overlap-agrees number equals owns view h,
                  check_overlap-pending number equals owns view h,
                  length-drop first chain,
                ))
          | inr next ↦
              let same : first ≡ length chain = ground (arith, near, next) in
              rw (near, next, same, z) (ground (arith, z, drop_all chain, drop_zero view.updates))
        ]
      ]

  pub is_valid-against :
      (chain : List Block) (u : Block) (us : List Block) (trim : Bool)
      → 0 < length chain
      → let view = new_view chain (u ∷ us) trim in
        is_valid number equals chain view
        ≡ check_against number equals chain view (number u) (length chain - 1)
  unfolding is_valid check_integrity new_view
  is_valid-against chain u us trim pos =
      let some_own : (length chain == 0) ≡ false = ground arith in rw some_own refl

  -- Where a chain has a block, a view with updates is valid exactly when no number is missing before
  -- the first update, every update that the chain has the place of is the block that stands there,
  -- and the other updates are numbered on from the chain's last block, without a gap.
  pub is_valid-fits :
      (chain : List Block) (u : Block) (us : List Block) (trim : Bool)
      → 0 < length chain
      → (is_valid number equals chain (new_view chain (u ∷ us) trim)).1
        ≡ fits chain (u ∷ us) (number u)
  unfolding new_view drop
  is_valid-fits chain u us trim pos =
      ap (λ r. r.1) (is_valid-against chain u us trim pos)
      ∙ (check_against-fits chain (new_view chain (u ∷ us) trim) (number u) pos (λ _. refl) refl).0

  -- A new view that is valid has updates that go on from its chain.
  pub is_valid-pending :
      (chain updates : List Block) (trim : Bool)
      → 0 < length chain
      → let (view, valid) = is_valid number equals chain (new_view chain updates trim) in
        valid ≡ true
        → NumberedFrom number (length chain) (pending view) × (view.chain_size ≡ length chain)
  is_valid-pending chain [] trim pos =
      unfold drop is_valid check_integrity new_view in λ e. (tt, refl)
  is_valid-pending chain (u ∷ us) trim pos =
      let view = new_view chain (u ∷ us) trim in
      let (decision, left) =
        check_against-fits chain view (number u) pos (unfold new_view in λ _. refl)
          (unfold new_view in refl) in
      let view' = (check_against number equals chain view (number u) (length chain - 1)).0 in
      let next : length chain - 1 + 1 ≡ length chain = omega arith in
      rw (is_valid-against chain u us trim pos) (λ e.
        let (rest, sized) = left e in
        let gapless : no_gaps number (pending view') (length chain - 1) ≡ true =
          ground (arith, decision, e, rest) in
        (
          subst (λ k. NumberedFrom number k (pending view')) next
              ((no_gaps_iff number (pending view') (length chain - 1)).0 gapless),
          sized ∙ unfold new_view in refl,
        ))

  -- The blocks of a valid new view, its chain's and then the pending ones, are numbered from 0.
  pub is_valid-IsNumbered :
      (chain updates : List Block) (trim : Bool)
      → 0 < length chain
      → NumberedFrom number 0 chain
      → let (view, valid) = is_valid number equals chain (new_view chain updates trim) in
        valid ≡ true → NumberedFrom number 0 (blocks chain view)
  is_valid-IsNumbered chain updates trim pos h e =
      let view = (is_valid number equals chain (new_view chain updates trim)).0 in
      NumberedFrom-append number 0 chain (pending view) h (
        subst (λ k. NumberedFrom number k (pending view)) (omega arith)
          (is_valid-pending chain updates trim pos e).0)

  got-some : (o : Option Block) (b : Block) → got o ≡ returns b → o ≡ some b
  got-some none b e = ground arith
  got-some (some x) b e = ground arith

  -- Where a chain has a block, `getBlock` of a valid new view reads the list of the view's blocks:
  -- the chain's and then the pending updates, and throws past their end.
  get_block-blocks :
      (chain updates : List Block) (trim : Bool) (n : ℕ)
      → 0 < length chain
      → let (view, valid) = is_valid number equals chain (new_view chain updates trim) in
        valid ≡ true
        → (get_block number equals chain (new_view chain updates trim) n).1
          ≡ got (get_elem? (blocks chain view) n)
  unfolding get_block
  get_block-blocks chain updates trim n pos e =
      let view = (is_valid number equals chain (new_view chain updates trim)).0 in
      ground (
        arith,
        e,
        (is_valid-pending chain updates trim pos e).1,
        get_elem?-append chain (pending view) n,
        get_elem?-drop view.start_index (n - length chain) view.updates,
      )

  -- A new view on a chain that is not empty and has its blocks in order gives under a number only a
  -- block with this number, whatever the updates are.
  get_block-number :
      (chain updates : List Block) (trim : Bool) (n : ℕ) (b : Block)
      → 0 < length chain
      → NumberedFrom number 0 chain
      → (get_block number equals chain (new_view chain updates trim) n).1 ≡ returns b
      → number b ≡ n
  unfolding get_block
  get_block-number chain updates trim n b pos h e =
      let (view, valid) = is_valid number equals chain (new_view chain updates trim) in
      elim (Bool-cases valid) [
        | inl good ↦
            get_elem?-NumberedFrom number 0 (blocks chain view) n b
              (is_valid-IsNumbered chain updates trim pos h good)
              (got-some (get_elem? (blocks chain view) n) b
                (sym (get_block-blocks chain updates trim n pos good) ∙ e))
            ∙ omega arith
        | inr bad ↦ elim (Bool-cases (ltb n (length chain))) [
          | inl below ↦
              get_elem?-NumberedFrom number 0 chain n b h
                (got-some (get_elem? chain n) b (ground (arith, below)))
              ∙ omega arith
          | inr past ↦ ground (arith, bad, past)
        ]
      ]

  check_against-start_index :
      (chain : List Block) (view : ChainView Block) (first last_own : ℕ)
      → IsTrimmed view
      → view.start_index ≤ length view.updates
      → let view' = (check_against number equals chain view first last_own).0 in
        view'.start_index ≤ length view'.updates
  unfolding check_against check_no_gaps
  check_against-start_index chain view first last_own h b = ground (
    arith,
    check_overlap-start_index number equals (drop (length chain - (last_own + 1 - first)) chain)
        view h b,
  )

  is_valid-start_index :
      (chain updates : List Block) (trim : Bool)
      → 0 < length chain
      → let view = (is_valid number equals chain (new_view chain updates trim)).0 in
        view.start_index ≤ length view.updates
  is_valid-start_index chain [] trim pos = unfold is_valid check_integrity new_view in omega arith
  is_valid-start_index chain (u ∷ us) trim pos = rw (is_valid-against chain u us trim pos) (
      check_against-start_index chain (new_view chain (u ∷ us) trim) (number u) (length chain - 1)
        (unfold new_view in λ _. refl) (unfold new_view in omega arith))

  -- Where a chain has a block, `size` of a valid new view is the number of the view's blocks.
  pub size-blocks :
      (chain updates : List Block) (trim : Bool)
      → 0 < length chain
      → let (view, valid) = is_valid number equals chain (new_view chain updates trim) in
        valid ≡ true
        → (size number equals chain (new_view chain updates trim)).1
          ≡ returns (length (blocks chain view))
  unfolding size
  size-blocks chain updates trim pos e =
      let view = (is_valid number equals chain (new_view chain updates trim)).0 in
      ground (
        arith,
        e,
        (is_valid-pending chain updates trim pos e).1,
        length-append chain (pending view),
        length-drop view.start_index view.updates,
        is_valid-start_index chain updates trim pos,
      )
