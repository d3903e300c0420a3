-- ===== src/Ledger/TransactionTuple/Picked.antt =====
-- Tuples of transactions of one list, the unspent ones, of which no two are alike for `compareTo`.
use scale_out_distributed_le.Common.{
  ℕ, ◌+◌, ◌%◌, ◌^◌, ◌≤◌, ◌≡◌, ◌⊎◌, refl, sym, ap, ◌∙◌, subst, Bool, true, false, Option, none, some,
  List, [], ◌∷◌, arith, All, sum_by, Bool-cases, Option-cases, some_injective, inl, inr,
  if◌then◌else◌,
}
use scale_out_distributed_le.Ledger.Transaction.{Transaction, Sources, nil, cons, contains, is_same}
use scale_out_distributed_le.Ledger.Transaction.Equality.{is_same_refl}
use scale_out_distributed_le.Ledger.Verification.Spending.{is_same_symm}
use scale_out_distributed_le.Ledger.LocalStore.Balance.{holding}
use scale_out_distributed_le.Ledger.LocalStore.Spending.{holdings_of}
use scale_out_distributed_le.Ledger.TransactionTuple.{
  or_null, TransactionTuple, insert, insert_all, amount_with, add_transaction_and_amount, add_each,
  combined, merge_non_overlapping_same_chains_tuple, add_transaction, new_tuple,
}
use scale_out_distributed_le.Ledger.TransactionTuple.Amount.{
  AllNew, IsCounted, holdings_of-insert, contains-insert, merge-IsCounted,
  add_transaction_and_amount-Adds,
}

-- No two of the transactions are alike.
abbrev pub Different : List Transaction → Type 0
Different [] = Unit
Different (t ∷ ts) = All (λ u. is_same u t ≡ false) ts × Different ts

abbrev pub IsIn : Transaction → List Transaction → Type 0
IsIn t [] = ⊥
IsIn t (u ∷ us) = (t ≡ u) ⊎ IsIn t us

abbrev pub AllOf : (P : Transaction → Type 0) → Sources → Type 0
AllOf P nil = Unit
AllOf P (cons t ts) = P t × AllOf P ts

pub AllOf-insert :
    (P : Transaction → Type 0) (t : Transaction) (ss : Sources)
    → P t
    → AllOf P ss
    → AllOf P (insert t ss)
unfolding insert
AllOf-insert P t nil p h = (p, tt)
AllOf-insert P t (cons s ss) p h = ground (arith, AllOf-insert P t ss p h.1)

pub All-IsIn :
    (P : Transaction → Type 0) (t : Transaction) (us : List Transaction)
    → All P us
    → IsIn t us
    → P t
All-IsIn P t [] h i = elim i [ ]
All-IsIn P t (u ∷ us) h (inl e) = subst P (sym e) h.0
All-IsIn P t (u ∷ us) h (inr i) = All-IsIn P t us h.1 i

module _ (own : ℕ) where
  -- What those of a list are worth that stand in a set.
  abbrev pub picked : Sources → List Transaction → ℕ
  picked ss = sum_by (λ u. if contains ss u then holding own u else 0)

  picked_nil : (us : List Transaction) → picked nil us ≡ 0
  unfolding contains
  picked_nil [] = refl
  picked_nil (u ∷ us) = ground (arith, picked_nil us)

  pub picked-le : (ss : Sources) (us : List Transaction) → picked ss us ≤ sum_by (holding own) us
  picked-le ss [] = omega arith
  picked-le ss (u ∷ us) = ground (arith, picked-le ss us)

  picked_apart :
      (t : Transaction) (ss : Sources) (us : List Transaction)
      → All (λ u. is_same u t ≡ false) us
      → picked (insert t ss) us ≡ picked ss us
  picked_apart t ss [] h = refl
  picked_apart t ss (u ∷ us) h =
      ground (arith, h.0, contains-insert t u ss, picked_apart t ss us h.1)

  picked-insert :
      (t : Transaction) (ss : Sources) (us : List Transaction)
      → Different us
      → IsIn t us
      → contains ss t ≡ false
      → picked (insert t ss) us ≡ picked ss us + holding own t
  picked-insert t ss [] d i new = elim i [ ]
  picked-insert t ss (u ∷ us) d (inl e) new =
      subst (λ x. picked (insert x ss) (u ∷ us) ≡ picked ss (u ∷ us) + holding own x) (sym e)
        (ground (
          arith,
          contains-insert u u ss,
          is_same_refl u,
          picked_apart u ss us d.0,
          ap (contains ss) e,
          new,
        ))
  picked-insert t ss (u ∷ us) d (inr i) new = ground (
    arith,
    contains-insert t u ss,
    picked-insert t ss us d.1 i new,
    All-IsIn (λ x. is_same x u ≡ false) t us d.0 i,
    is_same_symm u t,
  )

  module _ (unspent : List Transaction) where
    -- The set has transactions of the list, each once.
    abbrev pub IsPicked : Sources → Type 0
    IsPicked ss = AllOf (λ t. IsIn t unspent) ss × (holdings_of own ss ≡ picked ss unspent)

    IsPicked-nil : IsPicked nil
    IsPicked-nil = (tt, sym (picked_nil unspent))

    IsPicked-insert :
        (t : Transaction) (ss : Sources)
        → Different unspent
        → IsIn t unspent
        → contains ss t ≡ false
        → IsPicked ss
        → IsPicked (insert t ss)
    IsPicked-insert t ss d i new p = (
      AllOf-insert (λ t. IsIn t unspent) t ss i p.0,
      omega (arith, p.1, holdings_of-insert own t ss, picked-insert t ss unspent d i new),
    )

    module _ {ℓ} {BitSet : Type ℓ} where
      -- A tuple of transactions of the list, each once, with the amount that they are worth as an int.
      abbrev pub IsChosen : TransactionTuple BitSet → Type 0
      IsChosen tuple = IsCounted own tuple × IsPicked tuple.transactions

      add-transactions :
          (tuple tuple' : TransactionTuple BitSet) (t : Transaction) (added : Bool)
          → add_transaction_and_amount own tuple t ≡ some (tuple', added)
          → (((contains tuple.transactions t ≡ true) × (tuple'.transactions ≡ tuple.transactions))
              ⊎ ((contains tuple.transactions t ≡ false)
                  × (tuple'.transactions ≡ insert t tuple.transactions)))
      unfolding add_transaction_and_amount
      add-transactions tuple tuple' t added e = elim (Bool-cases (contains tuple.transactions t)) [
        | inl old ↦
            let same =
              some_injective {A = TransactionTuple BitSet × Bool} (tuple, false) (tuple', added)
                (ground (arith, old)) in
            inl (old, ap (λ p. p.0.transactions) (sym same))
        | inr new ↦
            let more : TransactionTuple BitSet = record tuple {
              transactions = insert t tuple.transactions;
              amount = amount_with own t tuple.amount;
            } in
            let same =
              some_injective {A = TransactionTuple BitSet × Bool} (more, true) (tuple', added)
                (ground (arith, new)) in
            inr (new, ap (λ p. p.0.transactions) (sym same))
      ]

      add-IsChosen :
          (tuple tuple' : TransactionTuple BitSet) (t : Transaction) (added : Bool)
          → Different unspent
          → IsIn t unspent
          → add_transaction_and_amount own tuple t ≡ some (tuple', added)
          → IsChosen tuple
          → IsChosen tuple'
      add-IsChosen tuple tuple' t added d i e (c, p) = (
        (add_transaction_and_amount-Adds own tuple tuple' t added e c).0,
        elim (add-transactions tuple tuple' t added e) [
          | inl (old, same) ↦ subst IsPicked (sym same) p
          | inr (new, more) ↦
              subst IsPicked (sym more) (IsPicked-insert t tuple.transactions d i new p)
        ],
      )

      add_each-IsChosen :
          (tuple tuple' : TransactionTuple BitSet) (ts : Sources)
          → Different unspent
          → AllOf (λ t. IsIn t unspent) ts
          → add_each own tuple ts ≡ some tuple'
          → IsChosen tuple
          → IsChosen tuple'
      unfolding add_each
      add_each-IsChosen tuple tuple' nil d i e h = subst IsChosen (some_injective tuple tuple' e) h
      add_each-IsChosen tuple tuple' (cons t ts) d i e h =
          elim (Option-cases (add_transaction_and_amount own tuple t)) [
            | inl refused ↦ ground (arith, refused)
            | inr ((next, added), done) ↦
                add_each-IsChosen next tuple' ts d i.1 (ground (arith, done))
                  (add-IsChosen tuple next t added d i.0 done h)
          ]

      pub combined-IsChosen :
          (tuple1 tuple2 tuple : TransactionTuple BitSet) (chains : BitSet)
          → Different unspent
          → IsChosen tuple1
          → IsChosen tuple2
          → combined own tuple1 tuple2 chains ≡ some tuple
          → IsChosen tuple
      unfolding combined
      combined-IsChosen tuple1 tuple2 tuple chains d h1 h2 e =
          let empty : TransactionTuple BitSet = record {
            amount = 0;
            transactions = nil;
            chains_required = some chains;
          } in
          elim (Option-cases (add_each own empty tuple1.transactions)) [
            | inl refused ↦ ground (arith, refused)
            | inr (next, done) ↦
                let first =
                  add_each-IsChosen empty next tuple1.transactions d h1.1.0 done
                    (refl, IsPicked-nil) in
                add_each-IsChosen next tuple tuple2.transactions d h2.1.0 (ground (arith, done))
                  first
          ]

      new_tuple-kept :
          (or : BitSet → BitSet → BitSet) (chains_of : Transaction → Option BitSet)
          (t : Transaction) (first tuple : TransactionTuple BitSet) (added : Bool)
          → add_transaction_and_amount own
              (record { amount = 0; transactions = nil; chains_required = none })
              t
            ≡ some (first, added)
          → new_tuple own or chains_of t ≡ some tuple
          → (tuple.amount ≡ first.amount) × (tuple.transactions ≡ first.transactions)
      unfolding new_tuple add_transaction
      new_tuple-kept or chains_of t first tuple added done e = elim (Bool-cases added) [
        | inl was_new ↦ elim (Option-cases (chains_of t)) [
          | inl failed ↦ ground (arith, done, was_new, failed)
          | inr (chains, found) ↦
              let made : TransactionTuple BitSet = record first {
                chains_required = some (or_null own or chains_of first.chains_required chains);
              } in
              let same = some_injective made tuple (ground (arith, done, was_new, found)) in
              (ap (λ x. x.amount) (sym same), ap (λ x. x.transactions) (sym same))
        ]
        | inr was_old ↦
            let same = some_injective first tuple (ground (arith, done, was_old)) in
            (ap (λ x. x.amount) (sym same), ap (λ x. x.transactions) (sym same))
      ]

      -- A new tuple has its transaction.
      pub new_tuple-IsChosen :
          (or : BitSet → BitSet → BitSet) (chains_of : Transaction → Option BitSet)
          (t : Transaction) (tuple : TransactionTuple BitSet)
          → Different unspent
          → IsIn t unspent
          → new_tuple own or chains_of t ≡ some tuple
          → IsChosen tuple × (tuple.transactions ≡ cons t nil)
      unfolding new_tuple add_transaction
      new_tuple-IsChosen or chains_of t tuple d i e =
          let empty : TransactionTuple BitSet = record {
            amount = 0;
            transactions = nil;
            chains_required = none;
          } in
          elim (Option-cases (add_transaction_and_amount own empty t)) [
            | inl refused ↦ ground (arith, refused)
            | inr ((first, added), done) ↦
                let (sum, ts) = new_tuple-kept or chains_of t first tuple added done e in
                let (c, p) = add-IsChosen empty first t added d i done (refl, IsPicked-nil) in
                (
                  (
                    sum ∙ c ∙ ap (λ ss. holdings_of own ss % 2 ^ 32) (sym ts),
                    subst IsPicked (sym ts) p,
                  ),
                  ts ∙ elim (add-transactions empty first t added done) [
                    | inl (old, same) ↦ unfold contains in ground arith
                    | inr (new, more) ↦ more ∙ unfold insert in refl
                  ],
                )
          ]

      pub merge-IsChosen :
          (old other : TransactionTuple BitSet) (t : Transaction)
          → Different unspent
          → IsIn t unspent
          → other.transactions ≡ cons t nil
          → contains old.transactions t ≡ false
          → IsChosen old
          → IsChosen other
          → IsChosen (merge_non_overlapping_same_chains_tuple own old other)
            × ((merge_non_overlapping_same_chains_tuple own old other).transactions
                ≡ insert t old.transactions)
      unfolding merge_non_overlapping_same_chains_tuple insert_all
      merge-IsChosen old other t d i one new h k =
          let shape : insert_all old.transactions other.transactions ≡ insert t old.transactions =
            ap (insert_all old.transactions) one ∙ rw new refl in
          (
            (
              merge-IsCounted own old other (subst (AllNew old.transactions) (sym one) (new, tt))
                  h.0 k.0,
              subst IsPicked (sym shape) (IsPicked-insert t old.transactions d i new h.1),
            ),
            shape,
          )
