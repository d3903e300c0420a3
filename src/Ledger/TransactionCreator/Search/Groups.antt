-- ===== src/Ledger/TransactionCreator/Search/Groups.antt =====
-- The groups that `bestSources` starts from.
use scale_out_distributed_le.Common.{
  ℕ, ◌≡◌, refl, sym, subst, false, Option, some, List, [], ◌∷◌, arith, All, All-map, Bool-cases,
  Option-cases, some_injective, inl, inr,
}
use scale_out_distributed_le.Ledger.Transaction.{Transaction, Sources, nil, cons, contains, is_same}
use scale_out_distributed_le.Ledger.TransactionTuple.{insert, new_tuple}
use scale_out_distributed_le.Ledger.TransactionTuple.Amount.{contains-insert}
use scale_out_distributed_le.Ledger.TransactionTuple.Picked.{
  Different, IsIn, IsChosen, new_tuple-IsChosen, merge-IsChosen,
}
use scale_out_distributed_le.Ledger.Proof.Required.{BitSet, or_bits, bits_equal}
use scale_out_distributed_le.Ledger.TransactionCreator.Search.{
  Tuple, bits_of, merge_candidate, group_candidates,
}

module _ (own amount : ℕ) (in_order : List Tuple → List Tuple)
    (required : Transaction → Option BitSet) (unspent : List Transaction)
    (different : Different unspent) where
  abbrev Chosen : Tuple → Type 0
  Chosen = IsChosen own unspent

  -- A candidate is chosen, and has none of the transactions that are still to be grouped.
  abbrev IsGroup : List Transaction → Tuple → Type 0
  IsGroup ts tuple = Chosen tuple × All (λ u. contains tuple.transactions u ≡ false) ts

  fresh-insert :
      (t : Transaction) (ss : Sources) (ts : List Transaction)
      → All (λ u. is_same u t ≡ false) ts
      → All (λ u. contains ss u ≡ false) ts
      → All (λ u. contains (insert t ss) u ≡ false) ts
  fresh-insert t ss [] d h = tt
  fresh-insert t ss (u ∷ ts) d h =
      (ground (arith, contains-insert t u ss, d.0, h.0), fresh-insert t ss ts d.1 h.1)

  fresh_nil : (ts : List Transaction) → All (λ u. contains nil u ≡ false) ts
  unfolding contains
  fresh_nil [] = tt
  fresh_nil (u ∷ ts) = (refl, fresh_nil ts)

  later-IsGroup :
      (t : Transaction) (ts : List Transaction) (cs : List Tuple)
      → All (IsGroup (t ∷ ts)) cs
      → All (IsGroup ts) cs
  later-IsGroup t ts [] h = tt
  later-IsGroup t ts (c ∷ cs) h = ((h.0.0, h.0.1.1), later-IsGroup t ts cs h.1)

  merge_candidate-IsGroup :
      (t : Transaction) (ts : List Transaction) (tuple : Tuple) (cs : List Tuple)
      → IsIn t unspent
      → All (λ u. is_same u t ≡ false) ts
      → Chosen tuple
      → tuple.transactions ≡ cons t nil
      → All (IsGroup (t ∷ ts)) cs
      → All (IsGroup ts) (merge_candidate own amount in_order required tuple cs)
  unfolding merge_candidate
  merge_candidate-IsGroup t ts tuple [] i d c one h =
      let fresh = fresh-insert t nil ts d (fresh_nil ts) in
      (
        (c, subst (λ ss. All (λ u. contains ss u ≡ false) ts) (sym one) (unfold insert in fresh)),
        tt,
      )
  merge_candidate-IsGroup t ts tuple (old ∷ cs) i d c one h =
      elim (Bool-cases (bits_equal (bits_of old) (bits_of tuple))) [
        | inl together ↦
            let (chosen, shape) =
              merge-IsChosen own unspent old tuple t different i one h.0.1.0 h.0.0 c in
            let fresh = fresh-insert t old.transactions ts d h.0.1.1 in
            rw together (
              (
                (chosen, subst (λ ss. All (λ u. contains ss u ≡ false) ts) (sym shape) fresh),
                later-IsGroup t ts cs h.1,
              ))
        | inr apart ↦
            rw apart (((h.0.0, h.0.1.1), merge_candidate-IsGroup t ts tuple cs i d c one h.1))
      ]

  pub group_candidates-Chosen :
      (ts : List Transaction) (cs groups : List Tuple)
      → All (λ t. IsIn t unspent) ts
      → Different ts
      → All (IsGroup ts) cs
      → group_candidates own amount in_order required ts cs ≡ some groups
      → All Chosen groups
  unfolding group_candidates
  group_candidates-Chosen [] cs groups i d h e =
      All-map (IsGroup []) Chosen groups (λ c g. g.0)
        (subst (All (IsGroup [])) (some_injective cs groups e) h)
  group_candidates-Chosen (t ∷ ts) cs groups i d h e =
      elim (Option-cases (new_tuple own or_bits required t)) [
        | inl failed ↦ ground (arith, failed)
        | inr (tuple, made) ↦
            let (c, one) =
              new_tuple-IsChosen own unspent or_bits required t tuple different i.0 made in
            group_candidates-Chosen ts (merge_candidate own amount in_order required tuple cs)
              groups i.1 d.1 (merge_candidate-IsGroup t ts tuple cs i.0 d.0 c one h)
              (ground (arith, made))
      ]
