-- ===== src/Ledger/ProofConstructor/Growth.antt =====
-- How the blocks to send grow: for every node they stay the first of those that the receiver does
-- not know.
use scale_out_distributed_le.Common.{
  ℕ, ◌≤◌, ◌≡◌, refl, sym, ap, ◌∙◌, subst, List, [], ◌∷◌, ◌++◌, arith, append-nil, append_assoc,
  length, length-append, All, All-append, All-map, leb, ◌==◌, Bool-cases, inl, inr, if◌then◌else◌,
}
use scale_out_distributed_le.Ledger.ChainView.{drop}
use scale_out_distributed_le.Ledger.Block.{Block}
use scale_out_distributed_le.Ledger.Proof.{updates_of}
use scale_out_distributed_le.Ledger.ProofConstructor.{ToSend, put_blocks, add_blocks_to_send}

pub updates_of-put_blocks :
    (id : ℕ) (bs : List Block) (ts : ToSend) (i : ℕ)
    → updates_of i (put_blocks id bs ts) ≡ (if id == i then bs else updates_of i ts)
unfolding put_blocks updates_of
updates_of-put_blocks id bs [] i = ground arith
updates_of-put_blocks id bs ((j, old) ∷ ts) i = ground (arith, updates_of-put_blocks id bs ts i)

-- One list begins with another.
abbrev pub Begins {ℓ} : {A : Type ℓ} → (xs whole : List A) → Type ℓ
Begins {A = A} xs whole = (rest : List A) × (whole ≡ xs ++ rest)

length-nil {ℓ} : {A : Type ℓ} (xs : List A) → length xs ≡ 0 → xs ≡ []
length-nil [] e = refl
length-nil (x ∷ xs) e = absurd (omega arith)

append_same {ℓ} :
    {A : Type ℓ} (xs p ys q : List A)
    → xs ++ p ≡ ys ++ q
    → length xs ≤ length ys
    → ys ≡ xs ++ drop (length xs) ys
unfolding drop
append_same [] p ys q e h = refl
append_same (x ∷ xs) p [] q e h = absurd (omega arith)
append_same (x ∷ xs) p (y ∷ ys) q e h = ground (arith, append_same xs p ys q)

pub Begins-drop {ℓ} :
    {A : Type ℓ} (xs ys whole : List A)
    → Begins xs whole
    → Begins ys whole
    → length xs ≤ length ys
    → ys ≡ xs ++ drop (length xs) ys
Begins-drop xs ys whole (p, e) (q, f) h = append_same xs p ys q (sym e ∙ f) h

-- What is to be sent of every node begins the blocks of the node that the receiver does not know.
abbrev pub IsPart : (unknown : ℕ → List Block) → ToSend → Type 0
IsPart unknown ts = (id : ℕ) → Begins (updates_of id ts) (unknown id)

-- Blocks are added at the end, and `Fine` holds of each of them.
abbrev pub Grown : (Fine : Block → Type 0) → (before after : ToSend) → Type 0
Grown Fine before after =
    (id : ℕ)
    → (added : List Block) × (updates_of id after ≡ updates_of id before ++ added) × All Fine added

pub Grown-refl : (Fine : Block → Type 0) (ts : ToSend) → Grown Fine ts ts
Grown-refl Fine ts id = ([], sym (append-nil (updates_of id ts)), tt)

pub Grown-trans :
    (Fine : Block → Type 0) (a b c : ToSend) → Grown Fine a b → Grown Fine b c → Grown Fine a c
Grown-trans Fine a b c g h id =
    let (first, e, p) = g id in
    let (second, f, q) = h id in
    (
      first ++ second,
      f ∙ ap (λ bs. bs ++ second) e ∙ append_assoc (updates_of id a) first second,
      All-append Fine first second p q,
    )

pub Grown-map :
    (P Q : Block → Type 0) (a b : ToSend) → ((x : Block) → P x → Q x) → Grown P a b → Grown Q a b
Grown-map P Q a b f g id = let (added, e, p) = g id in (added, e, All-map P Q added f p)

pub Grown-length :
    (Fine : Block → Type 0) (a b : ToSend) (id : ℕ)
    → Grown Fine a b
    → length (updates_of id a) ≤ length (updates_of id b)
Grown-length Fine a b id g =
    let (added, e, p) = g id in omega (arith, ap length e, length-append (updates_of id a) added)

-- The new entry of a node goes on from the old one.
abbrev Added : (unknown : ℕ → List Block) → ℕ → List Block → ToSend → ToSend × List Block → Type 0
Added unknown id to_add ts (ts', added) =
    IsPart unknown ts'
    × ((i : ℕ) → updates_of i ts' ≡ updates_of i ts ++ (if id == i then added else []))
    × (length to_add ≤ length (updates_of id ts'))

put_blocks-Added :
    (unknown : ℕ → List Block) (id : ℕ) (to_add whole added : List Block) (ts : ToSend)
    → IsPart unknown ts
    → Begins whole (unknown id)
    → whole ≡ updates_of id ts ++ added
    → length to_add ≤ length whole
    → Added unknown id to_add ts (put_blocks id whole ts, added)
put_blocks-Added unknown id to_add whole added ts part b e h = (
  λ i. elim (Bool-cases (id == i)) [
    | inl here ↦
        let same : id ≡ i = ground (arith, here) in
        let found : whole ≡ updates_of i (put_blocks id whole ts) =
          ground (arith, updates_of-put_blocks id whole ts i, here) in
        subst (λ xs. Begins xs (unknown i)) found (subst (λ j. Begins whole (unknown j)) same b)
    | inr other ↦
        let found : updates_of i ts ≡ updates_of i (put_blocks id whole ts) =
          ground (arith, updates_of-put_blocks id whole ts i, other) in
        subst (λ xs. Begins xs (unknown i)) found (part i)
  ],
  λ i. updates_of-put_blocks id whole ts i ∙ elim (Bool-cases (id == i)) [
    | inl here ↦
        let same : id ≡ i = ground (arith, here) in
        rw here (e ∙ ap (λ j. updates_of j ts ++ added) same)
    | inr other ↦ rw other (sym (append-nil (updates_of i ts)))
  ],
  ground (arith, updates_of-put_blocks id whole ts id),
)

-- Adding blocks that begin the unknown ones of a node: the node then has at least as many to send,
-- what is new is returned, and nothing else changes.
pub add_blocks_to_send-Added :
    (unknown : ℕ → List Block) (id : ℕ) (to_add : List Block) (ts : ToSend)
    → IsPart unknown ts
    → Begins to_add (unknown id)
    → let (ts', added) = add_blocks_to_send id to_add ts in
      IsPart unknown ts'
      × ((i : ℕ) → updates_of i ts' ≡ updates_of i ts ++ (if id == i then added else []))
      × (length to_add ≤ length (updates_of id ts'))
unfolding add_blocks_to_send
add_blocks_to_send-Added unknown id to_add ts part b =
    let current = updates_of id ts in
    elim (Bool-cases (length current == 0)) [
      | inl empty ↦
          let nothing : current ≡ [] = length-nil current (ground (arith, empty)) in
          rw empty (
            put_blocks-Added unknown id to_add to_add to_add ts part b
              (ap (λ xs. xs ++ to_add) (sym nothing)) (omega arith))
      | inr some_old ↦ elim (Bool-cases (leb (length to_add) (length current))) [
        | inl enough ↦
            rw (some_old, enough)
              (put_blocks-Added unknown id to_add current [] ts part (part id)
                (sym (append-nil current)) (ground (arith, enough)))
        | inr more ↦
            let goes_on =
              Begins-drop current to_add (unknown id) (part id) b (ground (arith, more)) in
            rw (some_old, more)
              (put_blocks-Added unknown id to_add (current ++ drop (length current) to_add)
                (drop (length current) to_add) ts part
                (subst (λ xs. Begins xs (unknown id)) goes_on b) refl
                (omega (arith, ap length goes_on)))
      ]
    ]
