-- ===== src/Ledger/Verification/Closed.antt =====
-- What `validateTransaction` leaves in its cache.
use scale_out_distributed_le.Common.{
  ℕ, ◌+◌, ◌%◌, ◌^◌, ◌≡◌, refl, sym, subst, Bool, true, Option, none, some, List, [], ◌∷◌, arith,
  Option-cases, inl, inr, All,
}
use scale_out_distributed_le.Ledger.Transaction.{
  Transaction, Sources, nil, cons, transaction, source,
}
use scale_out_distributed_le.Ledger.Transaction.Equality.{equals_refl}
use scale_out_distributed_le.Ledger.Block.{Block}
use scale_out_distributed_le.Ledger.Verification.{
  Cache, cached, or_cached, is_nil, or_else_zero, passes, validate_genesis_transaction,
  validate_transaction, validate_sources,
}
use scale_out_distributed_le.Ledger.Verification.Money.{Involved, total, check_money-total}
use scale_out_distributed_le.Ledger.Verification.Spending.{Unspent, check_double_spending_iff}

-- The rules for one transaction, without its sources: a transaction of the genesis block has no
-- sources, no remainder and the block number 0; the sources of another one are worth its amount and
-- remainder, up to multiples of 2 ^ 64, and its sender's chain does not spend them before it.
abbrev pub Follows : (chain_views : ℕ → List Block) → Transaction → Type 0
Follows views (transaction n none r a m ss b) = (or_else_zero b ≡ 0) × (is_nil ss ≡ true) × (m ≡ 0)
Follows views (transaction n (some s) r a m ss b) =
    Involved s ss
    × (total s ss % 2 ^ 64 ≡ (a + m) % 2 ^ 64)
    × Unspent (transaction n (some s) r a m ss b) (views s)

module _ (global : Cache) where
  -- Valid by the global cache or the other one.
  abbrev pub IsKnown : Cache → Transaction → Type 0
  IsKnown cache t = or_cached (cached t global) (cached t cache) ≡ some true

  abbrev pub AllKnown : Cache → Sources → Type 0
  AllKnown cache nil = Unit
  AllKnown cache (cons t ts) = IsKnown cache t × AllKnown cache ts

  Extends : Cache → Cache → Type 0
  Extends cache cache' =
      (t : Transaction) → cached t cache ≡ some true → cached t cache' ≡ some true

  IsKnown-Extends :
      (cache cache' : Cache) (t : Transaction)
      → Extends cache cache'
      → IsKnown cache t
      → IsKnown cache' t
  unfolding Extends
  IsKnown-Extends cache cache' t x h = elim (Option-cases (cached t global)) [
    | inl unknown ↦ ground (arith, x t)
    | inr (v, known) ↦ ground arith
  ]

  AllKnown-Extends :
      (cache cache' : Cache) (ss : Sources)
      → Extends cache cache'
      → AllKnown cache ss
      → AllKnown cache' ss
  AllKnown-Extends cache cache' nil x h = tt
  AllKnown-Extends cache cache' (cons t ts) x h =
      (IsKnown-Extends cache cache' t x h.0, AllKnown-Extends cache cache' ts x h.1)

  Extends-cons : (t : Transaction) (cache : Cache) → Extends cache ((t, true) ∷ cache)
  unfolding Extends cached
  Extends-cons t cache o h = ground arith

  Extends-trans :
      (cache cache' cache'' : Cache)
      → Extends cache cache'
      → Extends cache' cache''
      → Extends cache cache''
  unfolding Extends
  Extends-trans cache cache' cache'' x y t h = y t (x t h)

  module _ (views : ℕ → List Block) where
    -- An entry is valid, follows the rules, and its sources are known.
    abbrev pub Justified : Cache → Transaction × Bool → Type 0
    Justified cache (t, valid) = (valid ≡ true) × Follows views t × AllKnown cache (source t)

    All-Justified :
        (cache cache' entries : Cache)
        → Extends cache cache'
        → All (Justified cache) entries
        → All (Justified cache') entries
    All-Justified cache cache' [] x h = tt
    All-Justified cache cache' ((t, valid) ∷ entries) x h = (
      (h.0.0, h.0.1, AllKnown-Extends cache cache' (source t) x h.0.2),
      All-Justified cache cache' entries x h.1,
    )

    -- A transaction is entered.
    entered :
        (t : Transaction) (cache : Cache)
        → Follows views t
        → AllKnown cache (source t)
        → All (Justified cache) cache
        → All (Justified ((t, true) ∷ cache)) ((t, true) ∷ cache)
    entered t cache f k h =
        let x = Extends-cons t cache in
        (
          (refl, f, AllKnown-Extends cache ((t, true) ∷ cache) (source t) x k),
          All-Justified cache ((t, true) ∷ cache) cache x h,
        )

    cached_new : (t : Transaction) (cache : Cache) → cached t ((t, true) ∷ cache) ≡ some true
    unfolding cached
    cached_new t cache = ground (arith, equals_refl t)

    genesis_inv :
        (n r a m : ℕ) (ss : Sources) (b : Option ℕ) (cache cache' : Cache)
        → validate_genesis_transaction (transaction n none r a m ss b) cache ≡ some cache'
        → Follows views (transaction n none r a m ss b)
          × (cache' ≡ (transaction n none r a m ss b, true) ∷ cache)
    unfolding validate_genesis_transaction
    genesis_inv n r a m ss b cache cache' e = ground arith

    is_nil-AllKnown : (cache : Cache) (ss : Sources) → is_nil ss ≡ true → AllKnown cache ss
    is_nil-AllKnown cache nil e = tt
    is_nil-AllKnown cache (cons t ts) e = ground arith

    passes-Follows :
        (n s r a m : ℕ) (ss : Sources) (b : Option ℕ)
        → passes views s (transaction n (some s) r a m ss b) ≡ true
        → Follows views (transaction n (some s) r a m ss b)
    unfolding passes
    passes-Follows n s r a m ss b e =
        let t = transaction n (some s) r a m ss b in
        let (involved, adds) = check_money-total s t (ground arith) in
        (involved, adds, (check_double_spending_iff t (views s)).0 (ground arith))

    abbrev Grown : Cache → Cache → Type 0
    Grown cache cache' = All (Justified cache') cache' × Extends cache cache'

    Extends-refl : (cache : Cache) → Extends cache cache
    unfolding Extends
    Extends-refl cache t h = h

    entered-Grown :
        (t : Transaction) (cache₀ cache cache' : Cache)
        → Follows views t
        → AllKnown cache (source t)
        → Grown cache₀ cache
        → cache' ≡ (t, true) ∷ cache
        → Grown cache₀ cache' × (cached t cache' ≡ some true)
    entered-Grown t cache₀ cache cache' f k g e =
        let new = (t, true) ∷ cache in
        subst (λ c. Grown cache₀ c × (cached t c ≡ some true)) (sym e)
          (
            (entered t cache f k g.0, Extends-trans cache₀ cache new g.1 (Extends-cons t cache)),
            cached_new t cache,
          )

    mutual
      unfolding validate_transaction validate_sources

      validate_transaction-Grown :
          (t : Transaction) (cache cache' : Cache)
          → All (Justified cache) cache
          → validate_transaction views global t cache ≡ some cache'
          → Grown cache cache' × (cached t cache' ≡ some true)
      validate_transaction-Grown (transaction n none r a m ss b) cache cache' h e =
          let t = transaction n none r a m ss b in
          let (f, shape) = genesis_inv n r a m ss b cache cache' e in
          entered-Grown t cache cache cache' f (is_nil-AllKnown cache ss f.1)
            (h, Extends-refl cache) shape
      validate_transaction-Grown (transaction n (some s) r a m ss b) cache cache' h e =
          let t = transaction n (some s) r a m ss b in
          elim (Option-cases (validate_sources views global ss cache)) [
            | inl refused ↦ ground arith
            | inr (cache₁, accepted) ↦
                let (g, k) = validate_sources-Grown ss cache cache₁ h accepted in
                let passed : passes views s t ≡ true = ground arith in
                entered-Grown t cache cache₁ cache' (passes-Follows n s r a m ss b passed) k g
                  (ground arith)
          ]

      validate_sources-Grown :
          (ss : Sources) (cache cache' : Cache)
          → All (Justified cache) cache
          → validate_sources views global ss cache ≡ some cache'
          → Grown cache cache' × AllKnown cache' ss
      validate_sources-Grown nil cache cache' h e =
          let same : cache ≡ cache' = ground arith in
          subst (λ c. Grown cache c × AllKnown c nil) same ((h, Extends-refl cache), tt)
      validate_sources-Grown (cons t ts) cache cache' h e =
          elim (Option-cases (or_cached (cached t global) (cached t cache))) [
            | inl new ↦ elim (Option-cases (validate_transaction views global t cache)) [
              | inl refused ↦ ground arith
              | inr (cache₁, accepted) ↦
                  let (g₁, own) = validate_transaction-Grown t cache cache₁ h accepted in
                  let (g₂, k) = validate_sources-Grown ts cache₁ cache' g₁.0 (ground arith) in
                  let known : IsKnown cache' t =
                    IsKnown-Extends cache₁ cache' t g₂.1 (ground arith) in
                  ((g₂.0, Extends-trans cache cache₁ cache' g₁.1 g₂.1), (known, k))
            ]
            | inr (valid, old) ↦
                let good : valid ≡ true = ground arith in
                let (g, k) = validate_sources-Grown ts cache cache' h (ground arith) in
                (g, (IsKnown-Extends cache cache' t g.1 (ground arith), k))
          ]

-- Where a transaction is accepted with an empty cache, the cache that is left holds it, and all
-- transactions in it follow the rules and have sources that are in it or were accepted before: so
-- the rules hold along all sources, down to the genesis block or to what was accepted before.
pub validate_transaction-Justified :
    (views : ℕ → List Block) (global : Cache) (t : Transaction) (cache : Cache)
    → validate_transaction views global t [] ≡ some cache
    → All (Justified global views cache) cache × (cached t cache ≡ some true)
validate_transaction-Justified views global t cache e =
    let (g, own) = validate_transaction-Grown global views t [] cache tt e in (g.0, own)
