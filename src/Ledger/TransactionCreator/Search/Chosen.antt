-- ===== src/Ledger/TransactionCreator/Search/Chosen.antt =====
-- The tuple that `bestSources` chooses.
use mathlib.Core.List.{Permᴰ}
use scale_out_distributed_le.Common.{
  ℕ, ◌-◌, ◌≡◌, refl, true, false, Option, none, some, List, [], ◌∷◌, arith, All, length, leb,
  Bool-cases, Option-cases, inl, inr,
}
use scale_out_distributed_le.Ledger.Word.{lt_long, long_of_int}
use scale_out_distributed_le.Ledger.Transaction.{Transaction}
use scale_out_distributed_le.Ledger.TransactionTuple.Picked.{Different, IsIn, IsChosen}
use scale_out_distributed_le.Ledger.Proof.Required.{BitSet}
use scale_out_distributed_le.Ledger.TransactionCreator.Search.{
  Tuple, Search, max_value, cleanup, covers, group_candidates, first_round, best_sources,
}
use scale_out_distributed_le.Ledger.TransactionCreator.Search.Rounds.{
  All-in_order, cleanup-Chosen, first_round-Chosen, rounds-IsCover,
}
use scale_out_distributed_le.Ledger.TransactionCreator.Search.Groups.{group_candidates-Chosen}

All-later :
    (t : Transaction) (xs us : List Transaction)
    → All (λ x. IsIn x us) xs
    → All (λ x. IsIn x (t ∷ us)) xs
All-later t [] us h = tt
All-later t (x ∷ xs) us h = (inr h.0, All-later t xs us h.1)

All-self : (us : List Transaction) → All (λ t. IsIn t us) us
All-self [] = tt
All-self (u ∷ us) = (inl refl, All-later u us us (All-self us))

module _ (own amount : ℕ) (in_order : List Tuple → List Tuple)
    (required : Transaction → Option BitSet) (unspent : List Transaction)
    (different : Different unspent)
    (in_order-Permᴰ : (xs : List Tuple) → Permᴰ (in_order xs) xs) where
  abbrev Chosen : Tuple → Type 0
  Chosen = IsChosen own unspent

  -- Of unspent transactions of which no two are alike, in whatever order maps and sets are gone
  -- through, `bestSources` chooses if anything a tuple of these transactions, each once, with the
  -- amount that they are worth as an int, and this amount is at least the one to send.
  pub best_sources-IsChosen :
      (tuple : Tuple)
      → best_sources own amount in_order required unspent ≡ some (some tuple)
      → IsChosen own unspent tuple × (lt_long (long_of_int tuple.amount) amount ≡ false)
  unfolding best_sources
  best_sources-IsChosen tuple e =
      let nothing : Search = record { current_best = max_value; current_best_tuple = none } in
      let start : (t : Tuple)
          → nothing.current_best_tuple ≡ some t
          → Chosen t × (covers own amount in_order required t ≡ true) =
        λ t h. ground arith in
      elim (Option-cases (group_candidates own amount in_order required unspent [])) [
        | inl failed ↦ ground (arith, failed)
        | inr (groups, grouped) ↦
            let chosen =
              group_candidates-Chosen own amount in_order required unspent different unspent []
                groups (All-self unspent) different tt grouped in
            let (left, s) = first_round own amount in_order required (in_order groups) nothing in
            let (kept, good) =
              first_round-Chosen own amount in_order required unspent different in_order-Permᴰ
                (in_order groups) nothing
                (All-in_order own amount in_order required unspent different in_order-Permᴰ Chosen
                  groups chosen)
                start in
            let candidates = cleanup left max_value s in
            let clean =
              cleanup-Chosen own amount in_order required unspent different in_order-Permᴰ left
                max_value s kept in
            let covered : Chosen tuple × (covers own amount in_order required tuple ≡ true) =
              elim (Bool-cases (leb (length candidates) 1)) [
                | inl few ↦ good tuple (ground (arith, grouped, few))
                | inr many ↦
                    rounds-IsCover own amount in_order required unspent different in_order-Permᴰ
                      (length candidates - 1) candidates candidates s.current_best s (some tuple)
                      clean clean good (ground (arith, grouped, many)) tuple refl
              ] in
            (covered.0, ground (arith, covered.1))
      ]
