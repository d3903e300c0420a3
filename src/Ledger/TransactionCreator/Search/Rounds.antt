-- ===== src/Ledger/TransactionCreator/Search/Rounds.antt =====
-- The rounds of `bestSources`: what is kept and found is chosen.
use mathlib.Core.List.{Permᴰ}
use scale_out_distributed_le.Common.{
  ℕ, zero, suc, ◌≡◌, sym, ap, subst, Bool, true, false, not, ◌&&◌, Option, some, List, [], ◌∷◌,
  arith, All, select, length, ltb, leb, ◌==◌, Bool-cases, Option-cases, some_injective, inl, inr,
}
use scale_out_distributed_le.Ledger.Word.{lt_long, long_of_int}
use scale_out_distributed_le.Ledger.Transaction.{Transaction, contains_all}
use scale_out_distributed_le.Ledger.TransactionTuple.{combined}
use scale_out_distributed_le.Ledger.TransactionTuple.Picked.{Different, IsChosen, combined-IsChosen}
use scale_out_distributed_le.Ledger.Proof.Required.{BitSet, or_bits, cardinality}
use scale_out_distributed_le.Ledger.TransactionCreator.Search.{
  Tuple, Search, bits_of, tuple_equals, add_tuple, cleanup, covers, first_round, try_pair, try_each,
  try_all, do_one_round, rounds,
}

All-Permᴰ {ℓ κ} : {A : Type ℓ} (P : A → Type κ) {xs ys : List A} → Permᴰ xs ys → All P ys → All P xs
All-Permᴰ P Permᴰ.nil h = tt
All-Permᴰ P (Permᴰ.cons e p) h = (subst P (sym e) h.0, All-Permᴰ P p h.1)
All-Permᴰ P (Permᴰ.swap e f) h = (subst P (sym e) h.1.0, (subst P (sym f) h.0, h.1.1))
All-Permᴰ P (Permᴰ.trans p q) h = All-Permᴰ P p (All-Permᴰ P q h)

All-select {ℓ κ} :
    {A : Type ℓ} (P : A → Type κ) (test : A → Bool) (xs : List A)
    → All P xs
    → All P (select test xs)
All-select P test [] h = tt
All-select P test (x ∷ xs) h = elim (Bool-cases (test x)) [
  | inl kept ↦ rw kept ((h.0, All-select P test xs h.1))
  | inr dropped ↦ rw dropped (All-select P test xs h.1)
]

module _ (own amount : ℕ) (in_order : List Tuple → List Tuple)
    (required : Transaction → Option BitSet) (unspent : List Transaction)
    (different : Different unspent)
    (in_order-Permᴰ : (xs : List Tuple) → Permᴰ (in_order xs) xs) where
  abbrev Chosen : Tuple → Type 0
  Chosen = IsChosen own unspent

  -- What was found so far is chosen and covers the amount.
  abbrev IsGood : Search → Type 0
  IsGood s =
      (tuple : Tuple)
      → s.current_best_tuple ≡ some tuple
      → Chosen tuple × (covers own amount in_order required tuple ≡ true)

  found-IsGood :
      (n : ℕ) (tuple : Tuple)
      → Chosen tuple
      → covers own amount in_order required tuple ≡ true
      → IsGood (record { current_best = n; current_best_tuple = some tuple })
  found-IsGood n tuple c e other same =
      subst (λ x. Chosen x × (covers own amount in_order required x ≡ true))
        (some_injective tuple other same) (c, e)

  pub All-in_order : (P : Tuple → Type 0) (xs : List Tuple) → All P xs → All P (in_order xs)
  All-in_order P xs h = All-Permᴰ P (in_order-Permᴰ xs) h

  pub cleanup-Chosen :
      (tuples : List Tuple) (n : ℕ) (s : Search)
      → All Chosen tuples
      → All Chosen (cleanup tuples n s)
  unfolding cleanup
  cleanup-Chosen tuples n s h = elim (Bool-cases (s.current_best == n)) [
    | inl same ↦ rw same h
    | inr better ↦ rw better (All-select Chosen _ tuples h)
  ]

  add_tuple-Chosen :
      (tuple : Tuple) (tuples : List Tuple)
      → Chosen tuple
      → All Chosen tuples
      → All Chosen (add_tuple tuple tuples)
  unfolding add_tuple
  add_tuple-Chosen tuple [] c h = (c, tt)
  add_tuple-Chosen tuple (other ∷ others) c h = elim (Bool-cases (tuple_equals tuple other)) [
    | inl same ↦ rw same h
    | inr new ↦ rw new ((h.0, add_tuple-Chosen tuple others c h.1))
  ]

  pub first_round-Chosen :
      (tuples : List Tuple) (s : Search)
      → All Chosen tuples
      → IsGood s
      → let (left, s') = first_round own amount in_order required tuples s in
        All Chosen left × IsGood s'
  unfolding first_round
  first_round-Chosen [] s h g = (tt, g)
  first_round-Chosen (tuple ∷ tuples) s h g =
      let chains = cardinality (bits_of tuple) in
      elim (Bool-cases (leb s.current_best chains)) [
        | inl worse ↦ rw worse (first_round-Chosen tuples s h.1 g)
        | inr better ↦ elim (Bool-cases (lt_long (long_of_int tuple.amount) amount)) [
          | inl poor ↦
              let (kept, good) = first_round-Chosen tuples s h.1 g in
              rw (better, poor) (((h.0, kept), good))
          | inr enough ↦
              rw (better, enough)
                (first_round-Chosen tuples _ h.1 (found-IsGood chains tuple h.0 (ap not enough)))
        ]
      ]

  -- The search and the next round hold only chosen tuples.
  abbrev AreGood : Search × List Tuple → Type 0
  AreGood state = IsGood state.0 × All Chosen state.1

  became : (a b : Search × List Tuple) → some a ≡ some b → AreGood a → AreGood b
  became a b e h = subst AreGood (some_injective a b e) h

  try_pair-AreGood :
      (skip : Bool) (t1 t2 : Tuple) (s : Search) (next : List Tuple) (state' : Search × List Tuple)
      → Chosen t1
      → Chosen t2
      → AreGood (s, next)
      → try_pair own amount in_order required skip t1 t2 (s, next) ≡ some state'
      → AreGood state'
  unfolding try_pair
  try_pair-AreGood skip t1 t2 s next state' c1 c2 g e =
      let r3 = or_bits (bits_of t1) (bits_of t2) in
      let chains = cardinality r3 in
      elim (Bool-cases (not skip && contains_all t2.transactions t1.transactions)) [
        | inl contained ↦ became (s, next) state' (ground (arith, contained)) g
        | inr new ↦ elim (Bool-cases (leb s.current_best chains)) [
          | inl worse ↦ became (s, next) state' (ground (arith, new, worse)) g
          | inr better ↦ elim (Option-cases (combined own t1 t2 r3)) [
            | inl failed ↦ ground (arith, new, better, failed)
            | inr (t3, made) ↦
                let c3 = combined-IsChosen own unspent t1 t2 t3 r3 different c1 c2 made in
                elim (Bool-cases (lt_long (long_of_int t3.amount) amount)) [
                  | inl poor ↦
                      became (s, add_tuple t3 next) state' (ground (arith, new, better, made, poor))
                        (g.0, add_tuple-Chosen t3 next c3 g.1)
                  | inr enough ↦
                      became (record { current_best = chains; current_best_tuple = some t3 }, next)
                        state' (ground (arith, new, better, made, enough))
                        (found-IsGood chains t3 c3 (ap not enough), g.1)
                ]
          ]
        ]
      ]

  try_each-AreGood :
      (skip : Bool) (t1 : Tuple) (ts : List Tuple) (state state' : Search × List Tuple)
      → Chosen t1
      → All Chosen ts
      → AreGood state
      → try_each own amount in_order required skip t1 ts state ≡ some state'
      → AreGood state'
  unfolding try_each
  try_each-AreGood skip t1 [] state state' c h g e = became state state' e g
  try_each-AreGood skip t1 (t2 ∷ ts) state state' c h g e =
      elim (Option-cases (try_pair own amount in_order required skip t1 t2 state)) [
        | inl failed ↦ ground (arith, failed)
        | inr (next, done) ↦
            try_each-AreGood skip t1 ts next state' c h.1
              (try_pair-AreGood skip t1 t2 state.0 state.1 next c h.0 g done) (ground (arith, done))
      ]

  try_all-AreGood :
      (skip : Bool) (base ts : List Tuple) (state state' : Search × List Tuple)
      → All Chosen base
      → All Chosen ts
      → AreGood state
      → try_all own amount in_order required skip base ts state ≡ some state'
      → AreGood state'
  unfolding try_all
  try_all-AreGood skip [] ts state state' c h g e = became state state' e g
  try_all-AreGood skip (t1 ∷ base) ts state state' c h g e =
      elim (Option-cases (try_each own amount in_order required skip t1 ts state)) [
        | inl failed ↦ ground (arith, failed)
        | inr (next, done) ↦
            try_all-AreGood skip base ts next state' c.1 h
              (try_each-AreGood skip t1 ts state next c.0 h g done) (ground (arith, done))
      ]

  do_one_round-AreGood :
      (base current : List Tuple) (s : Search) (state' : Search × List Tuple)
      → All Chosen base
      → All Chosen current
      → IsGood s
      → do_one_round own amount in_order required base current s ≡ some state'
      → AreGood state'
  unfolding do_one_round
  do_one_round-AreGood base current s state' b c g e =
      let ordered = All-in_order Chosen current c in
      elim (Bool-cases (ltb (length current) (length base))) [
        | inl fewer ↦
            try_all-AreGood true (in_order current) (in_order current) (s, []) state' ordered
              ordered (g, tt) (ground (arith, fewer))
        | inr enough ↦
            try_all-AreGood false base (in_order current) (s, []) state' b ordered (g, tt)
              (ground (arith, enough))
      ]

  -- What a search returns.
  abbrev IsCover : Option Tuple → Type 0
  IsCover result =
      (tuple : Tuple)
      → result ≡ some tuple
      → Chosen tuple × (covers own amount in_order required tuple ≡ true)

  pub rounds-IsCover :
      (count : ℕ) (candidates current : List Tuple) (previous : ℕ) (s : Search)
      (result : Option Tuple)
      → All Chosen candidates
      → All Chosen current
      → IsGood s
      → rounds own amount in_order required count candidates current previous s ≡ some result
      → IsCover result
  unfolding rounds
  rounds-IsCover zero candidates current previous s result b c g e =
      subst IsCover (some_injective s.current_best_tuple result e) g
  rounds-IsCover (suc count) candidates current previous s result b c g e =
      elim (Option-cases (do_one_round own amount in_order required candidates current s)) [
        | inl failed ↦ ground (arith, failed)
        | inr ((s', next), done) ↦
            let good = do_one_round-AreGood candidates current s (s', next) b c g done in
            elim (Bool-cases (leb (length next) 1)) [
              | inl last ↦
                  subst IsCover
                    (some_injective s'.current_best_tuple result (ground (arith, done, last)))
                    good.0
              | inr more ↦
                  rounds-IsCover count candidates (cleanup next previous s') s'.current_best s'
                    result b (cleanup-Chosen next previous s' good.1) good.0
                    (ground (arith, done, more))
            ]
      ]
