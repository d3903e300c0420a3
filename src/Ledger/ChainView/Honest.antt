-- ===== src/Ledger/ChainView/Honest.antt =====
-- A view with the blocks that an honest node sends, and the updates that a check misjudges.
use scale_out_distributed_le.Common.{
  ℕ, zero, suc, ◌+◌, ◌-◌, ◌≤◌, ◌<◌, ◌≡◌, ◌⊎◌, refl, sym, ap, subst, ◌∙◌, Bool, true, List, [], ◌∷◌,
  ◌++◌, arith, length, inl, inr,
}
use scale_out_distributed_le.Ledger.ChainView.{
  ChainView, drop, new_view, returns, check_no_gaps, check_integrity, is_valid, get_block,
}
use scale_out_distributed_le.Ledger.ChainView.Laws.{
  pending, blocks, NumberedFrom, no_gaps_iff, drop-append, length-drop,
}
use scale_out_distributed_le.Ledger.ChainView.Overlap.{agrees}
use scale_out_distributed_le.Ledger.ChainView.Validity.{fits, check_against-fits, is_valid-against}

module _ {ℓ} {Block : Type ℓ} where
  pub List-cases : (xs : List Block) → (xs ≡ []) ⊎ ((u : Block) × (us : List Block) × (xs ≡ u ∷ us))
  List-cases [] = inl refl
  List-cases (u ∷ us) = inr (u, us, refl)

  pub append-cancel : (xs ys zs : List Block) → xs ++ ys ≡ xs ++ zs → ys ≡ zs
  append-cancel [] ys zs e = e
  append-cancel (x ∷ xs) ys zs e = append-cancel xs ys zs (ground arith)

  nil_right : (xs ys : List Block) → xs ++ ys ≡ [] → ys ≡ []
  nil_right [] ys e = e
  nil_right (x ∷ xs) ys e = ground arith

  drop-prefix : (xs ys : List Block) (n : ℕ) → n ≡ length xs → drop n (xs ++ ys) ≡ ys
  unfolding drop
  drop-prefix [] ys zero e = refl
  drop-prefix [] ys (suc n) e = ground arith
  drop-prefix (x ∷ xs) ys zero e = ground arith
  drop-prefix (x ∷ xs) ys (suc n) e = drop-prefix xs ys n (omega arith)

module _ {ℓ} {Block : Type ℓ} (number : Block → ℕ) (equals : Block → Block → Bool) where
  pub NumberedFrom-drop :
      (k n : ℕ) (xs : List Block)
      → NumberedFrom number k xs
      → NumberedFrom number (k + n) (drop n xs)
  unfolding drop
  NumberedFrom-drop k zero xs h = subst (λ k. NumberedFrom number k xs) (omega arith) h
  NumberedFrom-drop k (suc n) [] h = tt
  NumberedFrom-drop k (suc n) (x ∷ xs) h =
      subst (λ k. NumberedFrom number k (drop n xs)) (omega arith)
        (NumberedFrom-drop (k + 1) n xs h.1)

  agrees-prefix :
      (xs ys : List Block)
      → ((b : Block) → equals b b ≡ true)
      → agrees number equals xs (xs ++ ys) ≡ true
  agrees-prefix [] ys same = refl
  agrees-prefix (x ∷ xs) ys same = ground (arith, same x, agrees-prefix xs ys same)

  rest-honest :
      (chain more : List Block) (k : ℕ)
      → k ≤ length chain
      → drop (length chain - k) (drop k chain ++ more) ≡ more
  rest-honest chain more k h =
      drop-prefix (drop k chain) more (length chain - k) (sym (length-drop k chain))

  fits-honest :
      (chain more : List Block) (view : ChainView Block) (k : ℕ)
      → 0 < length chain
      → k ≤ length chain
      → NumberedFrom number 0 (chain ++ more)
      → ((b : Block) → equals b b ≡ true)
      → pending view ≡ drop k chain ++ more
      → fits number equals chain (pending view) k ≡ true
  fits-honest chain more view k pos h numbered same e =
      let numbered_more : NumberedFrom number (length chain - 1 + 1) more =
        subst (λ k. NumberedFrom number k more) (omega arith)
          (subst (NumberedFrom number (0 + length chain))
            (drop-prefix chain more (length chain) refl)
            (NumberedFrom-drop 0 (length chain) (chain ++ more) numbered)) in
      rw e (
        ground (
          arith,
          agrees-prefix (drop k chain) more same,
          rest-honest chain more k h,
          (no_gaps_iff number more (length chain - 1)).1 numbered_more,
        ))

  -- Where a node has the first blocks of a numbered chain, at least one, and is sent the chain from
  -- one of these blocks or from the next one on, the view is valid and its blocks are the chain.
  pub is_valid-honest :
      (chain more : List Block) (k : ℕ) (trim : Bool)
      → 0 < length chain
      → k ≤ length chain
      → NumberedFrom number 0 (chain ++ more)
      → ((b : Block) → equals b b ≡ true)
      → let (view, valid) =
          is_valid number equals chain (new_view chain (drop k (chain ++ more)) trim) in
        (valid ≡ true) × (blocks chain view ≡ chain ++ more)
  is_valid-honest chain more k trim pos h numbered same =
      let parts = drop-append k chain more h in
      elim (List-cases (drop k (chain ++ more))) [
        | inl nothing ↦ rw nothing (
            unfold is_valid check_integrity new_view drop in
            (
              refl,
              ap (λ xs. chain ++ xs) (sym (nil_right (drop k chain) more (sym parts ∙ nothing))),
            ))
        | inr (u, us, some_sent) ↦
            let view = new_view chain (u ∷ us) trim in
            let first : number u ≡ k =
              (subst (NumberedFrom number (0 + k)) some_sent
                (NumberedFrom-drop 0 k (chain ++ more) numbered)).0
              ∙ omega arith in
            let shape : pending view ≡ drop k chain ++ more =
              unfold new_view drop in sym some_sent ∙ parts in
            let (decision, left) =
              check_against-fits number equals chain view k pos (unfold new_view in λ _. refl)
                (unfold new_view in refl) in
            let valid = decision ∙ fits-honest chain more view k pos h numbered same shape in
            rw (some_sent, is_valid-against number equals chain u us trim pos, first)
              (
                valid,
                ap (λ xs. chain ++ xs)
                    ((left valid).0
                      ∙ ap (drop (length chain - k)) shape
                      ∙ rest-honest chain more k h),
              )
      ]

  -- A view on an empty chain is valid whatever number its first update has, where the others follow
  -- it without a gap, and gives it as block 0.
  pub gap_accepted :
      (b : Block) (bs : List Block) (trim : Bool)
      → NumberedFrom number (number b + 1) bs
      → let view = new_view [] (b ∷ bs) trim in
        ((is_valid number equals [] view).1 ≡ true)
        × ((get_block number equals [] view 0).1 ≡ returns b)
  unfolding is_valid check_integrity check_no_gaps new_view get_block drop
  gap_accepted b bs trim h = rw ((no_gaps_iff number bs (number b)).1 h) (refl, refl)
