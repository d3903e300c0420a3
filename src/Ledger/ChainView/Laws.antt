-- ===== src/Ledger/ChainView/Laws.antt =====
-- The blocks of a view, as one list, against what its methods return.
use scale_out_distributed_le.Common.{
  ℕ, zero, suc, ◌+◌, ◌-◌, ◌≤◌, ◌≡◌, ◌↔◌, refl, ap, subst, true, some, List, [], ◌∷◌, ◌++◌, arith,
  ltb, length, get_elem?, if◌then◌else◌,
}
use scale_out_distributed_le.Ledger.ChainView.{ChainView, returns, drop, no_gaps}

pub returns_injective {ℓ} : {A : Type ℓ} (x y : A) → returns x ≡ returns y → x ≡ y
returns_injective x y e = ap (λ o. elim o [ returns z ↦ z | _ ↦ x ]) e

module _ {ℓ} {Block : Type ℓ} where
  -- The updates that the view adds to its chain, and all its blocks.
  abbrev pub pending : ChainView Block → List Block
  pending view = drop view.start_index view.updates

  abbrev pub blocks : List Block → ChainView Block → List Block
  blocks chain view = chain ++ pending view

  -- A view that trims keeps its start index at 0.
  abbrev pub IsTrimmed : ChainView Block → Type 0
  IsTrimmed view = view.trim ≡ true → view.start_index ≡ 0

  pub drop-suc : (n : ℕ) (xs : List Block) → drop (suc n) xs ≡ drop 1 (drop n xs)
  unfolding drop
  drop-suc zero xs = refl
  drop-suc (suc n) [] = refl
  drop-suc (suc n) (x ∷ xs) = drop-suc n xs

  pub drop_zero : (xs : List Block) → drop 0 xs ≡ xs
  unfolding drop
  drop_zero xs = refl

  pub drop-append :
      (n : ℕ) (xs ys : List Block) → n ≤ length xs → drop n (xs ++ ys) ≡ drop n xs ++ ys
  unfolding drop
  drop-append zero xs ys h = refl
  drop-append (suc n) [] ys h = absurd (omega arith)
  drop-append (suc n) (x ∷ xs) ys h = drop-append n xs ys (omega arith)

  pub length-drop : (n : ℕ) (xs : List Block) → length (drop n xs) ≡ length xs - n
  unfolding drop
  length-drop zero xs = omega arith
  length-drop (suc n) [] = omega arith
  length-drop (suc n) (x ∷ xs) = omega (arith, length-drop n xs)

  pub get_elem?-drop : (n i : ℕ) (xs : List Block) → get_elem? (drop n xs) i ≡ get_elem? xs (i + n)
  unfolding drop
  get_elem?-drop zero i xs = ground arith
  get_elem?-drop (suc n) i [] = refl
  get_elem?-drop (suc n) i (x ∷ xs) = ground (arith, get_elem?-drop n i xs)

  pub get_elem?-append :
      (xs ys : List Block) (i : ℕ)
      → get_elem? (xs ++ ys) i
        ≡ (if ltb i (length xs) then get_elem? xs i else get_elem? ys (i - length xs))
  get_elem?-append [] ys i = ground arith
  get_elem?-append (x ∷ xs) ys zero = ground arith
  get_elem?-append (x ∷ xs) ys (suc i) = ground (arith, get_elem?-append xs ys i)

  pub pending_head :
      (view : ChainView Block)
      → get_elem? view.updates view.start_index ≡ get_elem? (pending view) 0
  pending_head view = ground (arith, get_elem?-drop view.start_index 0 view.updates)

module _ {ℓ} {Block : Type ℓ} (number : Block → ℕ) where
  abbrev pub NumberedFrom : ℕ → List Block → Type 0
  NumberedFrom k [] = Unit
  NumberedFrom k (b ∷ bs) = (number b ≡ k) × NumberedFrom (k + 1) bs

  pub no_gaps_iff :
      (bs : List Block) (k : ℕ) → (no_gaps number bs k ≡ true) ↔ NumberedFrom (k + 1) bs
  unfolding no_gaps
  no_gaps_iff [] k = ground arith
  no_gaps_iff (b ∷ bs) k = ground (arith, no_gaps_iff bs (k + 1))

  pub NumberedFrom-append :
      (k : ℕ) (xs ys : List Block)
      → NumberedFrom k xs
      → NumberedFrom (k + length xs) ys
      → NumberedFrom k (xs ++ ys)
  NumberedFrom-append k [] ys hx hy = subst (λ n. NumberedFrom n ys) (omega arith) hy
  NumberedFrom-append k (x ∷ xs) ys hx hy = (
    hx.0,
    NumberedFrom-append (k + 1) xs ys hx.1 (subst (λ n. NumberedFrom n ys) (omega arith) hy),
  )

  pub get_elem?-NumberedFrom :
      (k : ℕ) (xs : List Block) (i : ℕ) (b : Block)
      → NumberedFrom k xs
      → get_elem? xs i ≡ some b
      → number b ≡ k + i
  get_elem?-NumberedFrom k [] i b h e = ground arith
  get_elem?-NumberedFrom k (x ∷ xs) zero b h e = ground arith
  get_elem?-NumberedFrom k (x ∷ xs) (suc i) b h e =
      ground (arith, get_elem?-NumberedFrom (k + 1) xs i b h.1)
