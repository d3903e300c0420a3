-- ===== src/Ledger/MetaKnowledge.antt =====
-- model/MetaKnowledge.java: the last block of every node's chain that another node, the owner, is
-- known to have. The map is a list of entries; `none` stands for the number -1. Chains of other
-- objects are arguments.
pub mod Sending
use scale_out_distributed_le.Common.{
  ℕ, zero, suc, ◌+◌, ◌-◌, Bool, true, false, Option, none, some, List, [], ◌∷◌, ltb, ◌==◌,
  if◌then◌else◌, length,
}
use scale_out_distributed_le.Ledger.ChainView.{drop, Outcome, returns, index_out_of_bounds}
use scale_out_distributed_le.Ledger.Block.{Block}

pub record MetaKnowledge : Type 0 where
  pub owner : ℕ
  pub known : List (ℕ × ℕ)

abbrev pub new_meta_knowledge : (owner : ℕ) → MetaKnowledge
new_meta_knowledge owner = record { owner = owner; known = [] }

-- `get` and `merge` with `Math.max` of the map
unfoldable pub known_of : ℕ → List (ℕ × ℕ) → Option ℕ
known_of id [] = none
known_of id ((i, n) ∷ known) = if i == id then some n else known_of id known

unfoldable pub merge_max : (id number : ℕ) → List (ℕ × ℕ) → List (ℕ × ℕ)
merge_max id number [] = (id, number) ∷ []
merge_max id number ((i, n) ∷ known) =
    if i == id
    then (i, if ltb n number then number else n) ∷ known
    else (i, n) ∷ merge_max id number known

-- `getLastBlockNumber` of a chain
abbrev pub last_block_number : List Block → Option ℕ
last_block_number blocks = if length blocks == 0 then none else some (length blocks - 1)

unfoldable pub get_last_known_block_number :
    MetaKnowledge → (owner_chain : List Block) → (id : ℕ) → Option ℕ
get_last_known_block_number m owner_chain id =
    if id == m.owner then last_block_number owner_chain else known_of id m.known

abbrev pub next_number : Option ℕ → ℕ
next_number none = 0
next_number (some n) = n + 1

unfoldable pub get_first_unknown_block_number :
    MetaKnowledge → (owner_chain : List Block) → (id : ℕ) → ℕ
unfolding get_last_known_block_number
get_first_unknown_block_number m owner_chain id =
    next_number (get_last_known_block_number m owner_chain id)

unfoldable pub update_last_known_block_number : MetaKnowledge → (id number : ℕ) → MetaKnowledge
update_last_known_block_number m id number = record m { known = merge_max id number m.known }

unfoldable pub take {ℓ} : {A : Type ℓ} → ℕ → List A → List A
take zero xs = []
take (suc n) [] = []
take (suc n) (x ∷ xs) = x ∷ take n xs

-- `subList(from, to)` of a chain's blocks, where `from` is not past `to`
abbrev pub sub_list : (from to : ℕ) → List Block → Outcome (List Block)
sub_list from to blocks =
    if ltb (length blocks) to
    then index_out_of_bounds
    else returns (take (to - from) (drop from blocks))

-- `getBlocksToSend` from the second `if` on.
unfoldable pub blocks_from :
    (first_unknown : ℕ) → (chain : List Block) → (end_block_nr : ℕ) → Outcome (List Block)
blocks_from first_unknown chain end_block_nr =
    if ltb end_block_nr first_unknown
    then returns []
    else sub_list first_unknown (end_block_nr + 1) chain

-- The blocks of the chain of the node `id`, up to a number, that the owner does not know.
unfoldable pub get_blocks_to_send :
    MetaKnowledge → (owner_chain chain : List Block) → (id end_block_nr : ℕ) → Outcome (List Block)
unfolding get_first_unknown_block_number blocks_from
get_blocks_to_send m owner_chain chain id end_block_nr =
    if id == m.owner
    then returns []
    else blocks_from (get_first_unknown_block_number m owner_chain id) chain end_block_nr
