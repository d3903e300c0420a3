-- ===== src/Ledger/Verification/Spending.antt =====
-- `checkDoubleSpending`, against the pairs of sources.
use scale_out_distributed_le.Common.{
  ◌≡◌, ◌⊎◌, ◌↔◌, refl, ◌∙◌, Bool, true, false, ◌||◌, none, some, List, [], ◌∷◌, arith, Bool-cases,
  Option-cases, inl, inr, All,
}
use scale_out_distributed_le.Ledger.Transaction.{
  Transaction, Sources, nil, cons, transaction, source, is_same, compare_to, contains, equals,
}
use scale_out_distributed_le.Ledger.Block.{Block, transactions}
use scale_out_distributed_le.Ledger.Verification.{
  none_in, intersect_empty, scan_block, check_double_spending,
}

-- No element of one set is the same as an element of the other.
abbrev pub Apart : Transaction → Sources → Type 0
Apart t nil = Unit
Apart t (cons s ss) = (is_same t s ≡ false) × Apart t ss

abbrev pub Disjoint : Sources → Sources → Type 0
Disjoint nil ss = Unit
Disjoint (cons t ts) ss = Apart t ss × Disjoint ts ss

pub is_same_symm : (s t : Transaction) → is_same s t ≡ is_same t s
unfolding compare_to
is_same_symm (transaction n none r a m ss b) (transaction n' none r' a' m' ss' b') = refl
is_same_symm (transaction n none r a m ss b) (transaction n' (some t) r' a' m' ss' b') = refl
is_same_symm (transaction n (some s) r a m ss b) (transaction n' none r' a' m' ss' b') = refl
is_same_symm (transaction n (some s) r a m ss b) (transaction n' (some t) r' a' m' ss' b') =
    ground arith

contains_iff : (ss : Sources) (t : Transaction) → (contains ss t ≡ false) ↔ Apart t ss
unfolding contains
contains_iff nil t = ground arith
contains_iff (cons s ss) t = ground (arith, contains_iff ss t)

none_in_iff : (ts ss : Sources) → (none_in ts ss ≡ true) ↔ Disjoint ts ss
unfolding none_in
none_in_iff nil ss = ground arith
none_in_iff (cons t ts) ss = ground (arith, none_in_iff ts ss, contains_iff ss t)

Disjoint-nil : (ss : Sources) → Disjoint ss nil
Disjoint-nil nil = tt
Disjoint-nil (cons s ss) = (tt, Disjoint-nil ss)

Disjoint-cons :
    (ss : Sources) (t : Transaction) (ts : Sources)
    → Apart t ss
    → Disjoint ss ts
    → Disjoint ss (cons t ts)
Disjoint-cons nil t ts a d = tt
Disjoint-cons (cons s ss) t ts a d = ((is_same_symm s t ∙ a.0, d.0), Disjoint-cons ss t ts a.1 d.1)

Disjoint-symm : (ts ss : Sources) → Disjoint ts ss → Disjoint ss ts
Disjoint-symm nil ss d = Disjoint-nil ss
Disjoint-symm (cons t ts) ss d = Disjoint-cons ss t ts d.0 (Disjoint-symm ts ss d.1)

-- Whichever of the two sets is larger, and so searched through, `intersectEmpty` tells whether they
-- have an element in common.
pub intersect_empty_iff : (ts ss : Sources) → (intersect_empty ts ss ≡ true) ↔ Disjoint ts ss
unfolding intersect_empty
intersect_empty_iff ts ss =
    ground (arith, none_in_iff ts ss, none_in_iff ss ts, Disjoint-symm ts ss, Disjoint-symm ss ts)

-- Every transaction of a block is the given one or shares no source with it.
abbrev pub NoConflict : Transaction → List Transaction → Type 0
NoConflict t = All (λ o. (equals t o ≡ true) ⊎ Disjoint (source t) (source o))

abbrev pub holds : Transaction → List Transaction → Bool
holds t [] = false
holds t (o ∷ os) = equals t o || holds t os

scan_block-some :
    (t : Transaction) (found : Bool) (os : List Transaction) (f : Bool)
    → scan_block t found os ≡ some f
    → NoConflict t os × (f ≡ (found || holds t os))
unfolding scan_block
scan_block-some t found [] f e = (tt, ground arith)
scan_block-some t found (o ∷ os) f e = elim (Bool-cases (equals t o)) [
  | inl same ↦
      let (rest, is_found) = scan_block-some t true os f (ground arith) in
      ((inl same, rest), ground arith)
  | inr other ↦
      let apart : intersect_empty (source t) (source o) ≡ true = ground arith in
      let (rest, is_found) = scan_block-some t found os f (ground arith) in
      ((inr ((intersect_empty_iff (source t) (source o)).0 apart), rest), ground arith)
]

scan_block_none :
    (t : Transaction) (found : Bool) (os : List Transaction)
    → NoConflict t os
    → scan_block t found os ≡ some (found || holds t os)
unfolding scan_block
scan_block_none t found [] h = ground arith
scan_block_none t found (o ∷ os) h = ground (
  arith,
  h.0,
  intersect_empty_iff (source t) (source o),
  scan_block_none t true os h.1,
  scan_block_none t found os h.1,
)

-- Up to the first block that holds the transaction, no other transaction shares a source with it.
abbrev pub Unspent : Transaction → List Block → Type 0
Unspent t [] = Unit
Unspent t (b ∷ bs) =
    NoConflict t (transactions b) × ((holds t (transactions b) ≡ true) ⊎ Unspent t bs)

-- `checkDoubleSpending` passes exactly when, in the blocks of the sender's chain up to the first
-- one that holds the transaction, every other transaction has none of its sources.
pub check_double_spending_iff :
    (t : Transaction) (chain_view : List Block)
    → (check_double_spending t chain_view ≡ true) ↔ Unspent t chain_view
unfolding check_double_spending
check_double_spending_iff t [] = (λ e. tt, λ h. refl)
check_double_spending_iff t (b ∷ bs) = (
  λ e. elim (Option-cases (scan_block t false (transactions b))) [
    | inl spent ↦ ground arith
    | inr (f, scanned) ↦
        let (apart, found) = scan_block-some t false (transactions b) f scanned in
        (
          apart,
          elim (Bool-cases f) [
            | inl here ↦ inl (ground arith)
            | inr not_here ↦ inr ((check_double_spending_iff t bs).0 (ground arith))
          ],
        )
  ],
  λ h. ground (
    arith,
    scan_block_none t false (transactions b) h.0,
    h.1,
    (check_double_spending_iff t bs).1,
  ),
)
