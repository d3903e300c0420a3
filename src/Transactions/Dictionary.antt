-- ===== src/Transactions/Dictionary.antt =====
-- The object of `TransactionList` as a dictionary: laws of `lookup` and `set_key`.
use scale_out_distributed_le.Common.{
  ℕ, ◌+◌, ◌≡◌, refl, true, false, Option, none, some, List, [], ◌∷◌, arith, if◌then◌else◌, sum_by,
}
use scale_out_distributed_le.Js.Decimal.{Text}
use scale_out_distributed_le.Js.Keys.{text_eq, text_eq_iff}
use scale_out_distributed_le.Transactions.{lookup, set_key}

pub text_eq_refl : (s : Text) → text_eq s s ≡ true
text_eq_refl s = (text_eq_iff s s).1 refl

pub text_eq_symm : (s t : Text) → text_eq s t ≡ text_eq t s
text_eq_symm s t = ground (arith, text_eq_iff s t, text_eq_iff t s)

-- Both tests agree with a third text.
pub text_eq_trans : (s t u : Text) → text_eq s t ≡ true → text_eq s u ≡ text_eq t u
text_eq_trans s t u h = rw ((text_eq_iff s t).0 h)

module _ {ℓ} {V : Type ℓ} where
  pub lookup-set_key :
      (key k : Text) (v : V) (d : List (Text × V))
      → lookup k (set_key key v d) ≡ (if text_eq key k then some v else lookup k d)
  unfolding lookup set_key
  lookup-set_key key k v [] = refl
  lookup-set_key key k v ((j, w) ∷ d) =
      ground
        (arith, text_eq_iff j key, text_eq_iff j k, text_eq_iff key k, lookup-set_key key k v d)

  -- No key of the dictionary stands before another of the same text.
  abbrev pub Fresh : Text → List (Text × V) → Type 0
  Fresh k [] = Unit
  Fresh k ((j, _) ∷ d) = (text_eq j k ≡ false) × Fresh k d

  abbrev pub Distinct : List (Text × V) → Type 0
  Distinct [] = Unit
  Distinct ((k, _) ∷ d) = Fresh k d × Distinct d

  Fresh-set_key :
      (key k : Text) (v : V) (d : List (Text × V))
      → text_eq key k ≡ false
      → Fresh k d
      → Fresh k (set_key key v d)
  unfolding set_key
  Fresh-set_key key k v [] h f = (h, tt)
  Fresh-set_key key k v ((j, w) ∷ d) h f = ground (arith, Fresh-set_key key k v d h f.1)

  pub Distinct-set_key :
      (key : Text) (v : V) (d : List (Text × V)) → Distinct d → Distinct (set_key key v d)
  unfolding set_key
  Distinct-set_key key v [] h = (tt, tt)
  Distinct-set_key key v ((j, w) ∷ d) h =
      ground (arith, Distinct-set_key key v d h.1, Fresh-set_key key j v d, text_eq_symm j key)

  pub lookup-Fresh : (k : Text) (d : List (Text × V)) → Fresh k d → lookup k d ≡ none
  unfolding lookup
  lookup-Fresh k [] h = refl
  lookup-Fresh k ((j, w) ∷ d) h = rw h.0 (lookup-Fresh k d h.1)

  abbrev pub measure_of : (V → ℕ) → Option V → ℕ
  measure_of f none = 0
  measure_of f (some v) = f v

  -- A sum over the entries changes by what the key held and what it holds.
  pub sum_by-set_key :
      (f : V → ℕ) (key : Text) (v : V) (d : List (Text × V))
      → sum_by (λ e. f e.1) (set_key key v d) + measure_of f (lookup key d)
        ≡ sum_by (λ e. f e.1) d + f v
  unfolding set_key lookup
  sum_by-set_key f key v [] = omega arith
  sum_by-set_key f key v ((j, w) ∷ d) = ground (arith, sum_by-set_key f key v d)
