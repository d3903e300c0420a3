-- ===== src/Ledger/Verification/Accepted.antt =====
-- Transactions that `validateTransaction` accepts.
use scale_out_distributed_le.Common.{
  ℕ, ◌≡◌, refl, Bool, true, none, some, List, [], ◌∷◌, arith, Option-cases, inl, inr, All,
}
use scale_out_distributed_le.Ledger.Transaction.{Transaction, Sources, nil, cons, transaction}
use scale_out_distributed_le.Ledger.Block.{Block}
use scale_out_distributed_le.Ledger.Verification.{
  Cache, cached, or_cached, is_nil, or_else_zero, passes, validate_genesis_transaction,
  validate_transaction, validate_sources,
}

-- No transaction is cached as invalid.
abbrev pub AllValid : Cache → Type 0
AllValid = All (λ e. e.1 ≡ true)

cached-AllValid :
    (t : Transaction) (cache : Cache) (v : Bool)
    → AllValid cache
    → cached t cache ≡ some v
    → v ≡ true
unfolding cached
cached-AllValid t [] v h e = ground arith
cached-AllValid t ((o, w) ∷ cache) v h e = ground (arith, h.0, cached-AllValid t cache v h.1)

or_cached-AllValid :
    (t : Transaction) (global cache : Cache) (v : Bool)
    → AllValid global
    → AllValid cache
    → or_cached (cached t global) (cached t cache) ≡ some v
    → v ≡ true
or_cached-AllValid t global cache v g h e = elim (Option-cases (cached t global)) [
  | inl unknown ↦ cached-AllValid t cache v h (ground arith)
  | inr (w, known) ↦ ground (arith, cached-AllValid t global w g known)
]

unfoldable mutual
  -- The checks of the transaction and of all its sources pass.
  pub AllPass : (views : ℕ → List Block) → Transaction → Type 0
  AllPass views (transaction n none r a m ss b) =
      (or_else_zero b ≡ 0) × (is_nil ss ≡ true) × (m ≡ 0)
  AllPass views (transaction n (some s) r a m ss b) =
      (passes views s (transaction n (some s) r a m ss b) ≡ true) × SourcesPass views ss

  pub SourcesPass : (views : ℕ → List Block) → Sources → Type 0
  SourcesPass views nil = Unit
  SourcesPass views (cons t ts) = AllPass views t × SourcesPass views ts

mutual
  unfolding validate_transaction validate_sources AllPass SourcesPass validate_genesis_transaction

  validate_transaction-some :
      (views : ℕ → List Block) (global : Cache) (t : Transaction) (cache : Cache)
      → AllValid global
      → AllValid cache
      → AllPass views t
      → (cache' : Cache) × (validate_transaction views global t cache ≡ some cache')
        × AllValid cache'
  validate_transaction-some views global (transaction n none r a m ss b) cache g h p =
      ((transaction n none r a m ss b, true) ∷ cache, ground (arith, p), (refl, h))
  validate_transaction-some views global (transaction n (some s) r a m ss b) cache g h p =
      let (cache₁, accepted, h₁) = validate_sources-some views global ss cache g h p.1 in
      ((transaction n (some s) r a m ss b, true) ∷ cache₁, rw (p.0, accepted) refl, (refl, h₁))

  validate_sources-some :
      (views : ℕ → List Block) (global : Cache) (ss : Sources) (cache : Cache)
      → AllValid global
      → AllValid cache
      → SourcesPass views ss
      → (cache' : Cache) × (validate_sources views global ss cache ≡ some cache') × AllValid cache'
  validate_sources-some views global nil cache g h p = (cache, refl, h)
  validate_sources-some views global (cons t ts) cache g h p =
      elim (Option-cases (or_cached (cached t global) (cached t cache))) [
        | inl new ↦
            let (cache₁, accepted, h₁) = validate_transaction-some views global t cache g h p.0 in
            let (cache₂, rest, h₂) = validate_sources-some views global ts cache₁ g h₁ p.1 in
            (cache₂, ground (arith, new, accepted, rest), h₂)
        | inr (v, old) ↦
            let good = or_cached-AllValid t global cache v g h old in
            let (cache₂, rest, h₂) = validate_sources-some views global ts cache g h p.1 in
            (cache₂, ground (arith, old, good, rest), h₂)
      ]

-- A transaction that passes the checks, and all its sources too, is accepted, where nothing was
-- cached as invalid; the cache that is left then has nothing invalid either.
pub validate_transaction-AllPass :
    (views : ℕ → List Block) (global : Cache) (t : Transaction)
    → AllValid global
    → AllPass views t
    → (cache : Cache) × (validate_transaction views global t [] ≡ some cache) × AllValid cache
validate_transaction-AllPass views global t g p = validate_transaction-some views global t [] g tt p
