-- ===== src/Ledger/ChainView/Again.antt =====
-- A view that is checked again after `resetValidation`.
use scale_out_distributed_le.Common.{
  ℕ, zero, suc, ◌+◌, ◌-◌, ◌<◌, ◌≡◌, refl, sym, ap, subst, ◌∙◌, Bool, true, false, none, some, List,
  [], ◌∷◌, ◌++◌, arith, length, get_elem?, inl, inr, Bool-cases, Option-cases, ltb, leb, ◌==◌,
}
use scale_out_distributed_le.Ledger.ChainView.{
  ChainView, drop, new_view, check_no_gaps, check_overlap, check_against, passed, check_integrity,
  is_valid, reset_validation,
}
use scale_out_distributed_le.Ledger.ChainView.Laws.{
  pending, NumberedFrom, drop-append, pending_head,
}
use scale_out_distributed_le.Ledger.ChainView.Honest.{
  is_valid-honest, append-cancel, NumberedFrom-drop,
}
use scale_out_distributed_le.Ledger.ChainView.Validity.{is_valid-against, is_valid-pending}

drop_some {ℓ} :
    {Block : Type ℓ} (n : ℕ) (xs : List Block)
    → n < length xs
    → (y : Block) × (ys : List Block) × (drop n xs ≡ y ∷ ys)
unfolding drop
drop_some n [] h = absurd (omega arith)
drop_some zero (x ∷ xs) h = (x, xs, refl)
drop_some (suc n) (x ∷ xs) h = drop_some n xs (omega arith)

module _ {ℓ} {Block : Type ℓ} (number : Block → ℕ) (equals : Block → Block → Bool) where
  check_overlap-updates :
      (owns : List Block) (view : ChainView Block)
      → view.trim ≡ false
      → (check_overlap number equals owns view).0.updates ≡ view.updates
  unfolding check_overlap
  check_overlap-updates [] view h = refl
  check_overlap-updates (own ∷ owns) view h =
      elim (Option-cases (get_elem? view.updates view.start_index)) [
        | inl over ↦ ground arith
        | inr (updated, found) ↦ elim (Bool-cases (equals own updated)) [
          | inl same ↦ ground (arith, check_overlap-updates owns (passed view))
          | inr other ↦ ground arith
        ]
      ]

  check_against-updates :
      (chain : List Block) (view : ChainView Block) (first last_own : ℕ)
      → view.trim ≡ false
      → (check_against number equals chain view first last_own).0.updates ≡ view.updates
  unfolding check_against check_no_gaps
  check_against-updates chain view first last_own h =
      ground
        (arith, check_overlap-updates (drop (length chain - (last_own + 1 - first)) chain) view h)

  check_against-decides :
      (chain : List Block) (view : ChainView Block) (first last_own : ℕ)
      → (check_against number equals chain view first last_own).1 ≡ true
      → (check_against number equals chain view first last_own).0.valid ≡ some true
  unfolding check_against check_no_gaps
  check_against-decides chain view first last_own e = ground arith

  check_overlap-differs :
      (own x : Block) (owns : List Block) (view : ChainView Block)
      → get_elem? view.updates view.start_index ≡ some x
      → equals own x ≡ false
      → check_overlap number equals (own ∷ owns) view ≡ (record view { valid = some false }, false)
  unfolding check_overlap
  check_overlap-differs own x owns view e d = ground arith

  -- The blocks at the start of the overlap differ.
  check_against-differs :
      (chain : List Block) (view : ChainView Block) (first : ℕ) (own x : Block) (owns : List Block)
      → first < length chain
      → drop first chain ≡ own ∷ owns
      → get_elem? view.updates view.start_index ≡ some x
      → equals own x ≡ false
      → (check_against number equals chain view first (length chain - 1)).1 ≡ false
  unfolding check_against
  check_against-differs chain view first own x owns h o e d =
      let start : length chain - (length chain - 1 + 1 - first) ≡ first = omega arith in
      let near : ltb 1 (first - (length chain - 1)) ≡ false = ground arith in
      let shared : leb first (length chain - 1) ≡ true = ground arith in
      rw (near, shared, start, o, check_overlap-differs own x owns view e d) refl

  is_valid-again :
      (chain : List Block) (view : ChainView Block) (u : Block) (us : List Block)
      → 0 < length chain
      → view.valid ≡ some true
      → view.updates ≡ u ∷ us
      → is_valid number equals chain (reset_validation view)
        ≡ check_against number equals chain
            (record view { valid = none; chain_size = length chain })
            (number u)
            (length chain - 1)
  unfolding is_valid check_integrity reset_validation
  is_valid-again chain view u us pos v e =
      let some_own : (length chain == 0) ≡ false = ground arith in rw (v, e, some_own) refl

  -- A view that does not trim keeps its updates through its first check.
  is_valid-keeps :
      (chain : List Block) (u : Block) (us : List Block)
      → 0 < length chain
      → let (view, valid) = is_valid number equals chain (new_view chain (u ∷ us) false) in
        valid ≡ true → (view.updates ≡ u ∷ us) × (view.valid ≡ some true)
  is_valid-keeps chain u us pos =
      let first = new_view chain (u ∷ us) false in
      rw (is_valid-against number equals chain u us false pos) (λ valid. (
        check_against-updates chain first (number u) (length chain - 1) (unfold new_view in refl)
            ∙ unfold new_view in refl,
        check_against-decides chain first (number u) (length chain - 1) valid,
      ))

  -- The second check of such a view compares its first pending block with an own one.
  is_valid-differs :
      (chain : List Block) (own x : Block) (owns rest more : List Block)
      → number own < length chain
      → drop (number own) chain ≡ own ∷ owns
      → ((a b : Block) → equals a b ≡ true → number a ≡ number b)
      → let (view, valid) = is_valid number equals chain (new_view chain (own ∷ rest) false) in
        valid ≡ true
        → pending view ≡ x ∷ more
        → (is_valid number equals chain (reset_validation view)).1 ≡ false
  is_valid-differs chain own x owns rest more h o differ valid left =
      let pos : 0 < length chain = omega arith in
      let view = (is_valid number equals chain (new_view chain (own ∷ rest) false)).0 in
      let (kept, decided) = is_valid-keeps chain own rest pos valid in
      let x_number : number x ≡ length chain =
        (subst (NumberedFrom number (length chain)) left
          (is_valid-pending number equals chain (own ∷ rest) false pos valid).0).0 in
      let other : equals own x ≡ false = ground (arith, differ own x) in
      rw (is_valid-again chain view own rest pos decided kept) (
        check_against-differs chain (record view { valid = none; chain_size = length chain })
          (number own) own x owns h o (pending_head view ∙ ap (λ xs. get_elem? xs 0) left) other)

  -- Where a node has the first blocks of a numbered chain and is sent the chain from one of these on
  -- up to a block that it does not have, in a view that does not trim, the first check finds the
  -- view valid, and the one after `resetValidation` finds it invalid, though nothing has changed.
  pub revalidation_fails :
      (chain : List Block) (x : Block) (more : List Block) (k : ℕ)
      → k < length chain
      → NumberedFrom number 0 (chain ++ x ∷ more)
      → ((b : Block) → equals b b ≡ true)
      → ((a b : Block) → equals a b ≡ true → number a ≡ number b)
      → let (view, valid) =
          is_valid number equals chain (new_view chain (drop k (chain ++ x ∷ more)) false) in
        (valid ≡ true) × ((is_valid number equals chain (reset_validation view)).1 ≡ false)
  revalidation_fails chain x more k h numbered same differ =
      let sent = drop k (chain ++ x ∷ more) in
      let (valid, whole) =
        is_valid-honest number equals chain (x ∷ more) k false (omega arith) (omega arith) numbered
          same in
      let (own, owns, o) = drop_some k chain h in
      let parts = drop-append k chain (x ∷ more) (omega arith) ∙ ap (λ xs. xs ++ x ∷ more) o in
      let own_number : number own ≡ k =
        (subst (NumberedFrom number (0 + k)) parts
          (NumberedFrom-drop number equals 0 k (chain ++ x ∷ more) numbered)).0
        ∙ omega arith in
      (
        valid,
        subst
            (λ sent.
              (is_valid number equals chain
                (reset_validation (is_valid number equals chain (new_view chain sent false)).0)).1
              ≡ false)
            (sym parts)
            (is_valid-differs chain own x owns (owns ++ x ∷ more) more (rw own_number h)
              (rw own_number o) differ
              (subst (λ sent. (is_valid number equals chain (new_view chain sent false)).1 ≡ true)
                parts valid)
              (subst
                (λ sent.
                  pending (is_valid number equals chain (new_view chain sent false)).0 ≡ x ∷ more)
                parts (append-cancel chain _ (x ∷ more) whole))),
      )
