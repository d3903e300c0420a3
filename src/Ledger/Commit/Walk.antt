-- ===== src/Ledger/Commit/Walk.antt =====
-- The loop of `commit` that sets the next committed blocks.
use scale_out_distributed_le.Common.{
  ℕ, zero, suc, ◌≤◌, ◌<◌, ◌≡◌, ◌⊎◌, refl, sym, ◌∙◌, Option, none, some, arith, ◌==◌, Bool-cases,
  Option-cases, inl, inr,
}
use scale_out_distributed_le.Ledger.Commit.{set_next, walk_back}

-- A block has a next committed one.
abbrev pub HasNext : (ℕ → Option ℕ) → ℕ → Type 0
HasNext next n = (k : ℕ) × (next n ≡ some k)

-- Below a number, where a block has a next committed one, so have the earlier ones.
abbrev pub IsFilled : (bound : ℕ) → (ℕ → Option ℕ) → Type 0
IsFilled bound next = (n m : ℕ) → n ≤ m → m < bound → HasNext next m → HasNext next n

walk_back-none :
    (k n : ℕ) (next : ℕ → Option ℕ)
    → next n ≡ none
    → walk_back k (suc n) next ≡ walk_back k n (set_next n k next)
unfolding walk_back
walk_back-none k n next e = ground (arith, e)

walk_back-some :
    (k n j : ℕ) (next : ℕ → Option ℕ) → next n ≡ some j → walk_back k (suc n) next ≡ next
unfolding walk_back
walk_back-some k n j next e = ground (arith, e)

-- What is there stays.
pub walk_back-keeps :
    (k n : ℕ) (next : ℕ → Option ℕ) (i j : ℕ) → next i ≡ some j → walk_back k n next i ≡ some j
walk_back-keeps k zero next i j e = unfold walk_back in e
walk_back-keeps k (suc n) next i j e = elim (Option-cases (next n)) [
  | inl missing ↦
      rw (walk_back-none k n next missing)
        (walk_back-keeps k n (set_next n k next) i j (ground (arith, missing, e)))
  | inr (old, there) ↦ rw (walk_back-some k n old next there) e
]

-- What is new is the number of the block that is committed, at an earlier block.
pub walk_back-new :
    (k n : ℕ) (next : ℕ → Option ℕ) (i j : ℕ)
    → walk_back k n next i ≡ some j
    → (next i ≡ some j) ⊎ ((i < n) × (j ≡ k))
walk_back-new k zero next i j e = inl (unfold walk_back in e)
walk_back-new k (suc n) next i j e = elim (Option-cases (next n)) [
  | inl missing ↦
      elim (walk_back-new k n (set_next n k next) i j
        (sym (rw (walk_back-none k n next missing) refl) ∙ e)) [
          | inl before ↦ ground (arith, before)
          | inr (below, same) ↦ inr (omega (arith, below), same)
        ]
  | inr (old, there) ↦ inl (sym (rw (walk_back-some k n old next there) refl) ∙ e)
]

-- Every earlier block has a next committed one in the end.
pub walk_back-HasNext :
    (k n : ℕ) (next : ℕ → Option ℕ) (i : ℕ)
    → IsFilled n next
    → i < n
    → HasNext (walk_back k n next) i
walk_back-HasNext k zero next i filled h = absurd (omega arith)
walk_back-HasNext k (suc n) next i filled h = elim (Option-cases (next n)) [
  | inl missing ↦ rw (walk_back-none k n next missing) (elim (Bool-cases (i == n)) [
    | inl last ↦ (k, walk_back-keeps k n (set_next n k next) i k (ground (arith, last)))
    | inr earlier ↦
        walk_back-HasNext k n (set_next n k next) i
          (λ a b le lt has.
            let (j, e) = filled a b le (omega (arith, lt)) (has.0, ground (arith, has.1, lt)) in
            (j, ground (arith, e, lt, le)))
          (ground (arith, earlier))
  ])
  | inr (old, there) ↦
      rw (walk_back-some k n old next there) (filled i n (omega arith) (omega arith) (old, there))
]
