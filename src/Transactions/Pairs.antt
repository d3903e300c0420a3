-- ===== src/Transactions/Pairs.antt =====
-- The keys of `TransactionList` and the pairs of nodes that they stand for.
use scale_out_distributed_le.Common.{
  ℕ, ◌≡◌, sym, ap, ◌∙◌, Bool, true, false, ◌&&◌, ◌||◌, [], ◌∷◌, arith, ◌==◌, if◌then◌else◌,
  Bool-cases, inl, inr,
}
use scale_out_distributed_le.Js.{Field, undefined, value, to_number, gt}
use scale_out_distributed_le.Js.Keys.{
  part, join, split, split-join, part-NoComma, part-injective, text_eq, text_eq_iff,
}
use scale_out_distributed_le.Transactions.{Transaction, edge_key}

-- The transfer is between the nodes with the ids `a` and `b`, in either direction.
abbrev pub between_ends : ℕ → ℕ → Field → Field → Bool
between_ends a b (value c) (value d) = (c == a && d == b) || (c == b && d == a)
between_ends a b _ _ = false

abbrev pub between : ℕ → ℕ → Transaction → Bool
between a b tx = between_ends a b tx.from tx.to

abbrev pub low : Field → Field → Field
low f g = if gt (to_number f) (to_number g) then g else f

abbrev pub high : Field → Field → Field
high f g = if gt (to_number f) (to_number g) then f else g

pub edge_key_lem : (f g : Field) → edge_key f g ≡ join (part (low f g)) (part (high f g))
unfolding edge_key
edge_key_lem f g = elim (Bool-cases (gt (to_number f) (to_number g))) [
  | inl swapped ↦ rw swapped
  | inr ordered ↦ rw ordered
]

pub split-edge_key : (f g : Field) → split (edge_key f g) ≡ part (low f g) ∷ part (high f g) ∷ []
split-edge_key f g =
    ap split (edge_key_lem f g)
    ∙ split-join (part (low f g)) (part (high f g)) (part-NoComma (low f g))
        (part-NoComma (high f g))

edge_key-injective :
    (f g h k : Field)
    → edge_key f g ≡ edge_key h k
    → (part (low f g) ≡ part (low h k)) × (part (high f g) ≡ part (high h k))
edge_key-injective f g h k e =
    let same : part (low f g) ∷ part (high f g) ∷ [] ≡ part (low h k) ∷ part (high h k) ∷ [] =
      sym (split-edge_key f g) ∙ ap split e ∙ split-edge_key h k in
    (cc, cc)

-- What the ends are, where the smaller and the larger are the two numbers.
between-low-high :
    (f g : Field) (a b : ℕ)
    → low f g ≡ low (value a) (value b)
    → high f g ≡ high (value a) (value b)
    → between_ends a b f g ≡ true
between-low-high (value c) (value d) a b p q = ground arith
between-low-high (value c) undefined a b p q = ground arith
between-low-high (value c) Field.null a b p q = ground arith
between-low-high undefined g a b p q = ground arith
between-low-high Field.null g a b p q = ground arith

edge_key_of_between :
    (f g : Field) (a b : ℕ)
    → between_ends a b f g ≡ true
    → edge_key f g ≡ edge_key (value a) (value b)
unfolding edge_key
edge_key_of_between (value c) (value d) a b h = ground arith
edge_key_of_between (value c) undefined a b h = cc
edge_key_of_between (value c) Field.null a b h = cc
edge_key_of_between undefined g a b h = cc
edge_key_of_between Field.null g a b h = cc

part-low :
    (f : Field) (a b : ℕ) → part f ≡ part (low (value a) (value b)) → f ≡ low (value a) (value b)
part-low f a b h = ground (arith, part-injective f a, part-injective f b)

part-high :
    (f : Field) (a b : ℕ) → part f ≡ part (high (value a) (value b)) → f ≡ high (value a) (value b)
part-high f a b h = ground (arith, part-injective f a, part-injective f b)

between_of_key :
    (f g : Field) (a b : ℕ)
    → edge_key f g ≡ edge_key (value a) (value b)
    → between_ends a b f g ≡ true
between_of_key f g a b e =
    let (p, q) = edge_key-injective f g (value a) (value b) e in
    between-low-high f g a b (part-low (low f g) a b p) (part-high (high f g) a b q)

-- The key of two ends is that of the nodes `a` and `b` exactly when the ends are these two nodes.
pub edge_key_between :
    (f g : Field) (a b : ℕ)
    → text_eq (edge_key f g) (edge_key (value a) (value b)) ≡ between_ends a b f g
edge_key_between f g a b = ground (
  arith,
  text_eq_iff (edge_key f g) (edge_key (value a) (value b)),
  edge_key_of_between f g a b,
  between_of_key f g a b,
)

pub edge_key_symm : (a b : ℕ) → edge_key (value a) (value b) ≡ edge_key (value b) (value a)
edge_key_symm a b =
    (text_eq_iff (edge_key (value a) (value b)) (edge_key (value b) (value a))).0
      (edge_key_between (value a) (value b) b a ∙ ground arith)
