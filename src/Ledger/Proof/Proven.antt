-- ===== src/Ledger/Proof/Proven.antt =====
-- `Proof.verify`, against what it means that a proof shows a transaction.
use scale_out_distributed_le.Common.{
  ℕ, ◌≡◌, ◌≢◌, Option-cases, ◌⊎◌, ◌↔◌, refl, sym, ap, ◌∙◌, some_injective, subst, Bool, true, false,
  none, some, List, ◌∷◌, arith, Bool-cases, inl, inr,
}
use scale_out_distributed_le.Ledger.Transaction.{
  Transaction, Sources, transaction, nil, cons, sender,
}
use scale_out_distributed_le.Ledger.Block.{Block}
use scale_out_distributed_le.Ledger.Proof.{
  Proof, Marks, get_block_number, is_verified, verify_genesis_transaction,
  verify_chain_with_transaction, verify_transaction, verify_source_transactions, verify,
}
use scale_out_distributed_le.Ledger.Proof.Anchor.{Anchored, verify_chain_with_transaction_iff}

module _ (chains : ℕ → List Block) (marks : Marks) (same : Transaction → Transaction → Bool)
    (proof : Proof) where
  module _ (before : List Transaction) where
    unfoldable mutual
      -- The transaction was verified before, or it has a block number and is a transaction of a
      -- genesis block on the main chain, or stands in its sender's chain as it must and has sources
      -- for which the same holds.
      pub IsProven : Transaction → Type 0
      IsProven (transaction n none r a m ss b) =
          let t = transaction n none r a m ss b in
          (is_verified same t before ≡ true)
          ⊎ ((k : ℕ) × (get_block_number chains t ≡ some k)
              × (verify_genesis_transaction chains marks proof r k ≡ true))
      IsProven (transaction n (some s) r a m ss b) =
          let t = transaction n (some s) r a m ss b in
          (is_verified same t before ≡ true)
          ⊎ (((k : ℕ) × (get_block_number chains t ≡ some k) × Anchored chains marks proof s t k)
              × AllProven ss)

      pub AllProven : Sources → Type 0
      AllProven nil = Unit
      AllProven (cons t ts) = IsProven t × AllProven ts

    verified_before-IsProven : (t : Transaction) → is_verified same t before ≡ true → IsProven t
    unfolding IsProven
    verified_before-IsProven (transaction n none r a m ss b) e = inl e
    verified_before-IsProven (transaction n (some s) r a m ss b) e = inl e

    -- What is flagged is proven, and what was flagged before still is.
    abbrev pub IsSound : List Transaction → Type 0
    IsSound verified =
        ((t : Transaction) → is_verified same t verified ≡ true → IsProven t)
        × ((t : Transaction)
            → is_verified same t before ≡ true
            → is_verified same t verified ≡ true)

    module _ (same-eq : (t o : Transaction) → same t o ≡ true → t ≡ o) where
      flagged :
          (t : Transaction) (verified : List Transaction)
          → IsProven t
          → IsSound verified
          → IsSound (t ∷ verified)
      unfolding is_verified
      flagged t verified p h = (
        λ o e. elim (Bool-cases (same o t)) [
          | inl here ↦ subst IsProven (sym (same-eq o t here)) p
          | inr other ↦ h.0 o (ground (arith, other))
        ],
        λ o e. ground (arith, h.1 o e),
      )

      -- What a verification of the transaction gives.
      abbrev Settles : Transaction → List Transaction × Bool → Type 0
      Settles t r = IsSound r.0 × ((r.1 ≡ true) ↔ IsProven t)

      settled :
          (t : Transaction) (r r' : List Transaction × Bool) → r' ≡ r → Settles t r → Settles t r'
      settled t r r' e h = subst (Settles t) (sym e) h

      mutual
        unfolding verify_transaction verify_source_transactions IsProven

        verify_transaction-IsSound :
            (t : Transaction) (verified : List Transaction)
            → IsSound verified
            → let (verified', accepted) = verify_transaction chains marks same proof t verified in
              IsSound verified' × ((accepted ≡ true) ↔ IsProven t)
        verify_transaction-IsSound (transaction n none r a m ss b) verified h =
            let t = transaction n none r a m ss b in
            elim (Option-cases (get_block_number chains t)) [
              | inl no_number ↦
                  settled t (verified, is_verified same t verified) _ (ground (arith, no_number))
                    (h, (h.0 t, λ p. h.1 t (ground (arith, p, no_number))))
              | inr (k, numbered) ↦ elim (Bool-cases (is_verified same t verified)) [
                | inl old ↦
                    settled t (verified, true) _ (ground (arith, numbered, old))
                      (h, (λ _. h.0 t old, λ _. refl))
                | inr new ↦ elim (Bool-cases (verify_genesis_transaction chains marks proof r k)) [
                  | inl good ↦
                      let p : IsProven t = inr (k, numbered, good) in
                      settled t (t ∷ verified, true) _ (ground (arith, numbered, new, good))
                        (flagged t verified p h, (λ _. p, λ _. refl))
                  | inr bad ↦
                      settled t (verified, false) _ (ground (arith, numbered, new, bad))
                        (
                          h,
                          (
                            λ e. ground arith,
                            λ p. elim p [
                              | inl old ↦ sym new ∙ h.1 t old
                              | inr (k', numbered', good) ↦
                                  sym bad
                                  ∙ ap (verify_genesis_transaction chains marks proof r)
                                      (some_injective k k' (sym numbered ∙ numbered'))
                                  ∙ good
                            ],
                          ),
                        )
                ]
              ]
            ]
        verify_transaction-IsSound (transaction n (some s) r a m ss b) verified h =
            let t = transaction n (some s) r a m ss b in
            let (sound, rest) = verify_source_transactions-IsSound ss verified h in
            let sources = verify_source_transactions chains marks same proof ss verified in
            elim (Option-cases (get_block_number chains t)) [
              | inl no_number ↦
                  settled t (verified, is_verified same t verified) _ (ground (arith, no_number))
                    (h, (h.0 t, λ p. h.1 t (ground (arith, p, no_number))))
              | inr (k, numbered) ↦
                  let chain = verify_chain_with_transaction_iff chains marks proof s t k in
                  elim (Bool-cases (is_verified same t verified)) [
                    | inl old ↦
                        settled t (verified, true) _ (ground (arith, numbered, old))
                          (h, (λ _. h.0 t old, λ _. refl))
                    | inr new ↦
                        elim (Bool-cases (verify_chain_with_transaction chains marks proof s t k)) [
                          | inl good ↦ elim (Bool-cases sources.1) [
                            | inl all ↦
                                let p : IsProven t =
                                  inr ((k, numbered, chain.0 good), rest.0 all) in
                                settled t (t ∷ sources.0, true) _
                                  (ground (arith, numbered, new, good, all))
                                  (flagged t _ p sound, (λ _. p, λ _. refl))
                            | inr some_not ↦
                                settled t sources _ (ground (arith, numbered, new, good, some_not))
                                  (
                                    sound,
                                    (
                                      λ e. ground (arith, e, some_not),
                                      λ p. elim p [
                                        | inl old ↦ some_not ∙ sym new ∙ h.1 t old
                                        | inr (there, all) ↦ rest.1 all
                                      ],
                                    ),
                                  )
                          ]
                          | inr bad ↦
                              settled t (verified, false) _ (ground (arith, numbered, new, bad))
                                (
                                  h,
                                  (
                                    λ e. ground arith,
                                    λ p. elim p [
                                      | inl old ↦ sym new ∙ h.1 t old
                                      | inr ((k', numbered', anchored), all) ↦
                                          sym bad
                                          ∙ chain.1 (
                                              subst (Anchored chains marks proof s t)
                                                (some_injective k' k (sym numbered' ∙ numbered))
                                                anchored)
                                    ],
                                  ),
                                )
                        ]
                  ]
            ]

        verify_source_transactions-IsSound :
            (ts : Sources) (verified : List Transaction)
            → IsSound verified
            → let (verified', accepted) =
                verify_source_transactions chains marks same proof ts verified in
              IsSound verified' × ((accepted ≡ true) ↔ AllProven ts)
        verify_source_transactions-IsSound nil verified h = (h, (λ e. tt, λ p. refl))
        verify_source_transactions-IsSound (cons t ts) verified h =
            let (sound, first) = verify_transaction-IsSound t verified h in
            let (all_sound, rest) =
              verify_source_transactions-IsSound ts
                (verify_transaction chains marks same proof t verified).0 sound in
            elim (Bool-cases (verify_transaction chains marks same proof t verified).1) [
              | inl good ↦ rw good (all_sound, ground (arith, good, first, rest))
              | inr bad ↦ rw bad (sound, ground (arith, bad, first))
            ]

    verify-none :
        sender proof.main_transaction ≡ none
        → verify chains marks same proof before ≡ (before, false)
    unfolding verify
    verify-none e = rw (e, verify) refl

    verify-some :
        (s : ℕ)
        → sender proof.main_transaction ≡ some s
        → verify chains marks same proof before
          ≡ verify_transaction chains marks same proof proof.main_transaction before
    unfolding verify
    verify-some s e = rw (e, verify) refl

    -- Where the identity of objects keeps their contents, `verify` throws no exception exactly where
    -- the transaction of the proof has a sender and is proven; whatever the result is, it flags only
    -- transactions that are proven and drops no flag.
    pub verify_iff :
        ((t o : Transaction) → same t o ≡ true → t ≡ o)
        → let (verified, accepted) = verify chains marks same proof before in
          ((accepted ≡ true)
            ↔ ((sender proof.main_transaction ≢ none) × IsProven proof.main_transaction))
          × ((t : Transaction) → is_verified same t verified ≡ true → IsProven t)
          × ((t : Transaction)
              → is_verified same t before ≡ true
              → is_verified same t verified ≡ true)
    verify_iff same-eq =
        let t = proof.main_transaction in
        let start : IsSound before = (verified_before-IsProven, λ o e. e) in
        let (sound, accepts) = verify_transaction-IsSound same-eq t before start in
        elim (Option-cases (sender t)) [
          | inl genesis ↦ rw (verify-none genesis) (ground (arith, genesis), start.0, start.1)
          | inr (s, sent) ↦
              rw (verify-some s sent) (ground (arith, sent, accepts), sound.0, sound.1)
        ]
