-- ===== src/Ledger/Block/Equality.antt =====
-- `equals` of blocks, as the views of a chain use it.
use scale_out_distributed_le.Common.{◌≡◌, refl, true, List, [], ◌∷◌, arith}
use scale_out_distributed_le.Ledger.Transaction
use scale_out_distributed_le.Ledger.Transaction.{id_eq}
use scale_out_distributed_le.Ledger.Transaction.Equality
use scale_out_distributed_le.Ledger.Transaction.Equality.{id_eq_refl}
use scale_out_distributed_le.Ledger.Block.{Block, first, after, number, all_equal, equals}

all_equal_refl : (ts : List Transaction.Transaction) → all_equal ts ts ≡ true
unfolding all_equal
all_equal_refl [] = refl
all_equal_refl (t ∷ ts) = ground (arith, Equality.equals_refl t, all_equal_refl ts)

pub equals_refl : (b : Block) → equals b b ≡ true
unfolding equals
equals_refl (first n o ts) = ground (arith, id_eq_refl o, all_equal_refl ts)
equals_refl (after p n o ts) = ground (arith, id_eq_refl o, all_equal_refl ts, equals_refl p)

pub equals-number : (a b : Block) → equals a b ≡ true → number a ≡ number b
unfolding equals
equals-number (first n o ts) (first n' o' ts') e = ground arith
equals-number (first n o ts) (after p' n' o' ts') e = ground arith
equals-number (after p n o ts) (first n' o' ts') e = ground arith
equals-number (after p n o ts) (after p' n' o' ts') e = ground arith
