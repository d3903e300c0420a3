-- ===== src/Tests/Ledger.antt =====
-- The theorems on a chain and on a view of it, at inputs that meet their hypotheses.
use scale_out_distributed_le.Common.{
  ℕ, ◌≡◌, refl, Bool, none, some, true, false, ◌&&◌, List, [], ◌∷◌, ◌++◌, arith, ◌==◌, Bool-cases,
  inl, inr,
}
use scale_out_distributed_le.Ledger.MetaKnowledge.{new_meta_knowledge}
use scale_out_distributed_le.Ledger.Receipt.{apply_proof}
use scale_out_distributed_le.Ledger.Receipt.Applied.{updates_for, apply_proof-views}
use scale_out_distributed_le.Ledger.ChainView.{
  drop, new_view, check_integrity, no_gaps, is_valid, get_block, size, reset_validation, returns,
}
use scale_out_distributed_le.Ledger.ChainView.Laws.{blocks}
use scale_out_distributed_le.Ledger.Chain.{
  Chain, new_chain, update, apply_updates, get_last_block, set_last_committed_block, mark,
}
use scale_out_distributed_le.Ledger.Chain.Committed.{first_committed, update-first_committed}
use scale_out_distributed_le.Ledger.ChainView.Validity.{fits, is_valid-fits}
use scale_out_distributed_le.Ledger.ChainView.Honest.{gap_accepted}
use scale_out_distributed_le.Ledger.ChainView.Again.{revalidation_fails}

-- A block with a number and its contents.
abbrev Sample : Type 0
Sample = ℕ × ℕ

abbrev sample_number : Sample → ℕ
sample_number block = block.0

abbrev sample_equals : Sample → Sample → Bool
sample_equals a b = a.0 == b.0 && a.1 == b.1

abbrev own : List Sample
own = (0, 7) ∷ (1, 8) ∷ []

abbrev sent : List Sample
sent = (1, 8) ∷ (2, 9) ∷ []

unfoldable run_view : Unit {0}
unfolding is_valid check_integrity no_gaps get_block size new_view reset_validation drop
run_view = tt

same : (b : Sample) → sample_equals b b ≡ true
same b = ground arith

differ : (a b : Sample) → sample_equals a b ≡ true → sample_number a ≡ sample_number b
differ a b e = ground arith

valid : (is_valid sample_number sample_equals own (new_view own sent false)).1 ≡ true
unfolding run_view
valid = refl

second_found :
    (get_block sample_number sample_equals own (new_view own sent false) 2).1 ≡ returns (2, 9)
unfolding run_view
second_found = refl

is_valid-fits_example :
    (is_valid sample_number sample_equals own (new_view own sent true)).1
    ≡ fits sample_number sample_equals own sent 1
is_valid-fits_example =
    is_valid-fits sample_number sample_equals own (1, 8) ((2, 9) ∷ []) true (omega arith)

gap_accepted_example :
    ((is_valid sample_number sample_equals [] (new_view [] ((5, 1) ∷ (6, 2) ∷ []) true)).1 ≡ true)
    × ((get_block sample_number sample_equals [] (new_view [] ((5, 1) ∷ (6, 2) ∷ []) true) 0).1
        ≡ returns (5, 1))
gap_accepted_example = gap_accepted sample_number sample_equals (5, 1) ((6, 2) ∷ []) true (refl, tt)

revalidation_fails_example :
    let checked =
      is_valid sample_number sample_equals own (new_view own (drop 1 (own ++ (2, 9) ∷ [])) false) in
    (checked.1 ≡ true)
    × ((is_valid sample_number sample_equals own (reset_validation checked.0)).1 ≡ false)
revalidation_fails_example =
    revalidation_fails sample_number sample_equals own (2, 9) [] 1 (omega arith)
      (refl, (refl, (refl, tt))) same differ

-- The chain of another node.
abbrev known : Chain Sample
known = record (new_chain false) { blocks = own; last_committed_block = some (1, 8) }

-- Block 3 is the next that the main chain has.
abbrev news : List Sample
news = (2, 9) ∷ (3, 4) ∷ (4, 4) ∷ []

abbrev in_cache : Sample → Bool
in_cache block = block.0 == 3

unfoldable run_update : Unit {0}
unfolding run_view update apply_updates get_last_block set_last_committed_block
run_update = tt

-- `known` after `sent`, and after `news`.
abbrev extended_chain : Chain Sample
extended_chain = record known {
  blocks = own ++ (2, 9) ∷ [];
  last_committed_block = some (2, 9);
  next_committed = mark 2 2 (λ n. none);
}

abbrev committed_chain : Chain Sample
committed_chain = record known {
  blocks = own ++ news;
  last_committed_block = some (4, 4);
  next_committed = mark 4 4 (mark 2 3 (λ n. none));
}

after_sent : update sample_number in_cache known sent ≡ returns extended_chain
unfolding run_update
after_sent = refl

after_news : update sample_number in_cache known news ≡ returns committed_chain
unfolding run_update
after_news = refl

-- Node 3 sent blocks, and the other chains stay as they are.
abbrev entries : List (ℕ × List Sample)
entries = (3, sent) ∷ []

views_valid :
    (id : ℕ)
    → (is_valid sample_number sample_equals own
        (new_view own (updates_for sample_number id entries) false)).1
      ≡ true
unfolding run_view
views_valid id = elim (Bool-cases (3 == id)) [ inl same ↦ rw same refl | inr other ↦ rw other refl ]

apply_proof-views_example :
    let ((chains', m'), finished) =
      apply_proof sample_number in_cache entries (λ id. known, new_meta_knowledge 3) in
    (finished ≡ true)
    × ((id : ℕ)
        → (chains' id).blocks
          ≡ blocks own
              (is_valid sample_number sample_equals own
                (new_view own (updates_for sample_number id entries) false)).0)
apply_proof-views_example =
    apply_proof-views sample_number sample_equals in_cache (λ id. known) entries
      (new_meta_knowledge 3) differ (tt, tt) (λ id. refl) (λ id. (omega arith, (refl, (refl, tt))))
      views_valid

update-first_committed_example :
    committed_chain.next_committed 2 ≡ first_committed sample_number in_cache 4 2 news
update-first_committed_example =
    update-first_committed sample_number in_cache known committed_chain (2, 9)
      ((3, 4) ∷ (4, 4) ∷ []) 2 (refl, (refl, tt)) (refl, (refl, (refl, tt))) (omega arith)
      after_news
