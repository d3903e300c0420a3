-- ===== src/Ledger/ChainView/Overlap.antt =====
-- The loop of `checkIntegrity` over the blocks that the chain and the updates share.
use scale_out_distributed_le.Common.{
  ℕ, zero, suc, ◌+◌, ◌≤◌, ◌<◌, ◌≡◌, refl, sym, ap, ◌∙◌, Bool, true, ◌&&◌, none, some, List, [], ◌∷◌,
  arith, length, get_elem?, inl, inr, Bool-cases, Option-cases,
}
use scale_out_distributed_le.Ledger.ChainView.{ChainView, drop, passed, check_overlap}
use scale_out_distributed_le.Ledger.ChainView.Laws.{pending, IsTrimmed, drop-suc, pending_head}

suc_eq : (n : ℕ) → n + 1 ≡ suc n
suc_eq n = omega arith

module _ {ℓ} {Block : Type ℓ} where
  drop-nil : (n : ℕ) → drop {Block = Block} n [] ≡ []
  unfolding drop
  drop-nil zero = refl
  drop-nil (suc n) = refl

  drop-drop : (n : ℕ) (xs : List Block) → drop n (drop 1 xs) ≡ drop (suc n) xs
  unfolding drop
  drop-drop n [] = drop-nil n
  drop-drop n (x ∷ xs) = refl

  head_none : (xs : List Block) → get_elem? xs 0 ≡ none → xs ≡ []
  head_none [] e = refl
  head_none (x ∷ xs) e = ground arith

  head_some :
      (xs : List Block) (x : Block)
      → get_elem? xs 0 ≡ some x
      → (rest : List Block) × (xs ≡ x ∷ rest)
  head_some [] x e = ground arith
  head_some (y ∷ ys) x e = (ys, ground arith)

  drop_one : (x : Block) (xs : List Block) → drop 1 (x ∷ xs) ≡ xs
  unfolding drop
  drop_one x xs = refl

  passed-chain_size : (view : ChainView Block) → (passed view).chain_size ≡ view.chain_size
  passed-chain_size view = ground arith

  pub pending-passed :
      (view : ChainView Block) → IsTrimmed view → pending (passed view) ≡ drop 1 (pending view)
  unfolding drop
  pending-passed view h = elim (Bool-cases view.trim) [
    | inl trims ↦ rw (trims, h trims) refl
    | inr keeps ↦ rw keeps (
        ap (λ n. drop n view.updates) (suc_eq view.start_index)
        ∙ drop-suc view.start_index view.updates)
  ]

  length-get_elem? : (xs : List Block) (i : ℕ) (x : Block) → get_elem? xs i ≡ some x → i < length xs
  length-get_elem? [] i x e = ground arith
  length-get_elem? (y ∷ ys) zero x e = omega arith
  length-get_elem? (y ∷ ys) (suc i) x e = omega (arith, length-get_elem? ys i x e)

  passed_bound :
      (view : ChainView Block) (updated : Block)
      → IsTrimmed view
      → get_elem? view.updates view.start_index ≡ some updated
      → (passed view).start_index ≤ length (passed view).updates
  passed_bound view updated h found =
      ground (arith, length-get_elem? view.updates view.start_index updated found)

  pub passed-IsTrimmed : (view : ChainView Block) → IsTrimmed view → IsTrimmed (passed view)
  passed-IsTrimmed view h = ground arith

module _ {ℓ} {Block : Type ℓ} (number : Block → ℕ) (equals : Block → Block → Bool) where
  -- Where an own block and an update stand at the same place, they are equal.
  abbrev pub agrees : (owns updates : List Block) → Bool
  agrees [] updates = true
  agrees (own ∷ owns) [] = true
  agrees (own ∷ owns) (updated ∷ updates) = equals own updated && agrees owns updates

  pub check_overlap-agrees :
      (owns : List Block) (view : ChainView Block)
      → IsTrimmed view
      → (check_overlap number equals owns view).1 ≡ agrees owns (pending view)
  unfolding check_overlap
  check_overlap-agrees [] view h = refl
  check_overlap-agrees (own ∷ owns) view h =
      elim (Option-cases (get_elem? view.updates view.start_index)) [
        | inl over ↦ ground (arith, over, head_none (pending view) (sym (pending_head view) ∙ over))
        | inr (updated, found) ↦
            let (rest, shape) =
              head_some (pending view) updated (sym (pending_head view) ∙ found) in
            ground (
              arith,
              found,
              shape,
              check_overlap-agrees owns (passed view) (passed-IsTrimmed view h),
              pending-passed view h,
              drop_one updated rest,
            )
      ]

  pub check_overlap-pending :
      (owns : List Block) (view : ChainView Block)
      → IsTrimmed view
      → (check_overlap number equals owns view).1 ≡ true
      → let view' = (check_overlap number equals owns view).0 in
        (pending view' ≡ drop (length owns) (pending view)) × (view'.chain_size ≡ view.chain_size)
  unfolding check_overlap
  check_overlap-pending [] view h e = (unfold drop in refl, refl)
  check_overlap-pending (own ∷ owns) view h e =
      elim (Option-cases (get_elem? view.updates view.start_index)) [
        | inl over ↦ ground (
          arith,
          over,
          head_none (pending view) (sym (pending_head view) ∙ over),
          drop-nil {Block = Block} (suc (length owns)),
        )
        | inr (updated, found) ↦ elim (Bool-cases (equals own updated)) [
          | inl same ↦ ground (
            arith,
            found,
            same,
            check_overlap-pending owns (passed view) (passed-IsTrimmed view h),
            pending-passed view h,
            drop-drop (length owns) (pending view),
            passed-chain_size view,
          )
          | inr other ↦ ground arith
        ]
      ]

  -- The start index stays within the updates.
  pub check_overlap-start_index :
      (owns : List Block) (view : ChainView Block)
      → IsTrimmed view
      → view.start_index ≤ length view.updates
      → let view' = (check_overlap number equals owns view).0 in
        view'.start_index ≤ length view'.updates
  unfolding check_overlap
  check_overlap-start_index [] view h b = b
  check_overlap-start_index (own ∷ owns) view h b =
      elim (Option-cases (get_elem? view.updates view.start_index)) [
        | inl over ↦ ground arith
        | inr (updated, found) ↦ elim (Bool-cases (equals own updated)) [
          | inl same ↦ ground (
            arith,
            found,
            same,
            check_overlap-start_index owns (passed view) (passed-IsTrimmed view h)
                (passed_bound view updated h found),
          )
          | inr other ↦ ground arith
        ]
      ]
