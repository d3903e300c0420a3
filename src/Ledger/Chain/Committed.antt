-- ===== src/Ledger/Chain/Committed.antt =====
-- The next committed blocks that `update` gives to the blocks it adds.
use scale_out_distributed_le.Common.{
  ℕ, ◌+◌, ◌≤◌, ◌<◌, ◌≡◌, refl, ap, ◌∙◌, Option-cases, Bool, true, false, ◌&&◌, ◌||◌, Option, none,
  some, List, [], ◌∷◌, arith, length, ltb, leb, ◌==◌, Bool-cases, inl, inr, if◌then◌else◌,
}
use scale_out_distributed_le.Ledger.ChainView.Laws.{NumberedFrom}
use scale_out_distributed_le.Ledger.ChainView.{returns}
use scale_out_distributed_le.Ledger.Chain.Updates.{
  extended, update-extended, next_after-length, next_after-NumberedFrom,
}
use scale_out_distributed_le.Ledger.Chain.{
  mark, apply_updates, update, set_last_committed_block, Chain, get_last_block, next_after,
}

module _ {ℓ} {Block : Type ℓ} (number : Block → ℕ) (is_in_cache : Block → Bool) where
  -- The block is the last update or known to the main chain.
  abbrev pub is_committed : (last_update_nr : ℕ) → Block → Bool
  is_committed last b = number b == last || is_in_cache b

  -- The number of the first committed block from the number `n` on.
  abbrev pub first_committed : (last_update_nr n : ℕ) → List Block → Option ℕ
  first_committed last n [] = none
  first_committed last n (b ∷ bs) =
      let rest = first_committed last n bs in
      if leb n (number b) && is_committed last b then some (number b) else rest

  apply_updates-below :
      (last next from : ℕ) (us : List Block) (f : ℕ → Option ℕ) (n : ℕ)
      → n < from
      → from ≤ next
      → (apply_updates number is_in_cache last next from us f).1 n ≡ f n
  unfolding apply_updates
  apply_updates-below last next from [] f n h k = refl
  apply_updates-below last next from (u ∷ us) f n h k = ground (
    arith,
    apply_updates-below last next from us f n h k,
    apply_updates-below last (next + 1) from us f n h,
    apply_updates-below last (next + 1) (number u + 1) us (mark from (number u) f) n,
  )

  apply_updates-committed :
      (last next from : ℕ) (u : Block) (us : List Block) (f : ℕ → Option ℕ)
      → number u ≡ next
      → is_committed last u ≡ true
      → (apply_updates number is_in_cache last next from (u ∷ us) f).1
        ≡ (apply_updates number is_in_cache last
            (next + 1)
            (number u + 1)
            us
            (mark from (number u) f)).1
  unfolding apply_updates
  apply_updates-committed last next from u us f h c = ground arith

  apply_updates-uncommitted :
      (last next from : ℕ) (u : Block) (us : List Block) (f : ℕ → Option ℕ)
      → number u ≡ next
      → is_committed last u ≡ false
      → (apply_updates number is_in_cache last next from (u ∷ us) f).1
        ≡ (apply_updates number is_in_cache last (next + 1) from us f).1
  unfolding apply_updates
  apply_updates-uncommitted last next from u us f h c = ground arith

  apply_updates-first_committed :
      (last next from : ℕ) (us : List Block) (f : ℕ → Option ℕ) (n : ℕ)
      → NumberedFrom number next us
      → from ≤ n
      → from ≤ next
      → n ≤ last
      → last + 1 ≡ next + length us
      → 0 < length us
      → (apply_updates number is_in_cache last next from us f).1 n ≡ first_committed last n us
  apply_updates-first_committed last next from [] f n h a k b e p = ground arith
  apply_updates-first_committed last next from (u ∷ us) f n h a k b e p =
      let marked = mark from (number u) f in
      elim (Bool-cases (is_committed last u)) [
        | inl committed ↦
            ap (λ g. g n) (apply_updates-committed last next from u us f h.0 committed)
            ∙ elim (Bool-cases (leb n (number u))) [
              | inl below ↦
                  apply_updates-below last (next + 1) (number u + 1) us marked n
                    (ground (arith, below)) (ground (arith, h.0))
                  ∙ ground (arith, below, committed)
              | inr above ↦
                  apply_updates-first_committed last (next + 1) (number u + 1) us marked n h.1
                    (ground (arith, above)) (ground (arith, h.0)) b (omega arith)
                    (ground (arith, above, h.0))
                  ∙ ground (arith, above)
            ]
        | inr uncommitted ↦
            ap (λ g. g n) (apply_updates-uncommitted last next from u us f h.0 uncommitted)
            ∙ apply_updates-first_committed last (next + 1) from us f n h.1 a (omega arith) b
                (omega arith) (ground (arith, uncommitted, h.0))
            ∙ ground (arith, uncommitted)
      ]

  set_last_committed_block-next_committed :
      (chain : Chain Block) (block : Block)
      → (set_last_committed_block number chain block).next_committed ≡ chain.next_committed
  unfolding set_last_committed_block
  set_last_committed_block-next_committed chain block =
      ground (arith, Option-cases chain.last_committed_block)

  -- Where a chain is numbered from 0 and the updates, at least one, are numbered on from it, and
  -- `update` returns, then each block that is added has as next committed block the first of the
  -- updates from its own number on that the main chain has in its cache, or else the last of them,
  -- and the blocks that the chain had keep theirs.
  pub update-first_committed :
      (chain chain' : Chain Block) (u : Block) (us : List Block) (n : ℕ)
      → NumberedFrom number 0 chain.blocks
      → NumberedFrom number (length chain.blocks) (u ∷ us)
      → n < length chain.blocks + length (u ∷ us)
      → update number is_in_cache chain (u ∷ us) ≡ returns chain'
      → chain'.next_committed n ≡ (
          if ltb n (length chain.blocks)
          then chain.next_committed n
          else first_committed (length chain.blocks + length us) n (u ∷ us))
  update-first_committed chain chain' u us n h k b e =
      let m = length chain.blocks in
      let next = next_after number (get_last_block chain.blocks) in
      let start : next ≡ m = next_after-length number chain.blocks h in
      let end = next_after-NumberedFrom number m u us k in
      elim (Option-cases (get_last_block (u ∷ us))) [
        | inl nothing ↦ ground (arith, end, nothing)
        | inr (last, found) ↦
            let whole : number last ≡ m + length us = ground (arith, end, found) in
            ap (λ c. c.next_committed n)
              (update-extended number is_in_cache chain chain' (u ∷ us) last found e)
            ∙ ap (λ f. f n)
                (set_last_committed_block-next_committed
                  (extended number is_in_cache chain (u ∷ us) last) last)
            ∙ ap
                (λ l.
                  (apply_updates number is_in_cache l next next (u ∷ us) chain.next_committed).1 n)
                whole
            ∙ ap
                (λ k.
                  (apply_updates number is_in_cache (m + length us) k k (u ∷ us)
                      chain.next_committed).1
                    n)
                start
            ∙ elim (Bool-cases (ltb n m)) [
              | inl old ↦
                  apply_updates-below (m + length us) m m (u ∷ us) chain.next_committed n
                    (ground (arith, old)) (omega arith)
                  ∙ ground (arith, old)
              | inr new ↦
                  apply_updates-first_committed (m + length us) m m (u ∷ us) chain.next_committed n
                    k (ground (arith, new)) (omega arith) (omega arith) (omega arith) (omega arith)
                  ∙ ground (arith, new)
            ]
      ]
