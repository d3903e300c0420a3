-- ===== src/Nodes/Update.antt =====
-- `updateNode`, with the guard as the source writes it.
use scale_out_distributed_le.Common.{ℕ, ◌<◌, ◌≡◌, ◌↔◌, ◌⊎◌, none, Bool, false, arith, length}
use scale_out_distributed_le.Js.{Json, returns, type_error}
use scale_out_distributed_le.Nodes.{NodeList, update_node, get_node}

-- `updateNode` throws exactly at a hole, and answers false and leaves the list alone everywhere else:
-- for a registered node it does what it does for an id past the end.
pub update_node-eq-type_error_iff :
    (l : NodeList) (id : ℕ) (address port public_key : Json)
    → (update_node l id address port public_key ≡ type_error)
      ↔ ((id < length l.nodes) × (get_node l id ≡ none))
unfolding update_node get_node
update_node-eq-type_error_iff l id address port public_key = ground arith

-- So no call answers true, and none changes a list: `updateNode` returns false or throws.
pub update_node_refuses :
    (l l' : NodeList) (id : ℕ) (address port public_key : Json) (b : Bool)
    → update_node l id address port public_key ≡ returns (l', b)
    → (b ≡ false) × (l' ≡ l)
unfolding update_node
update_node_refuses l l' id address port public_key b e = ground arith

pub update_node-cases :
    (l : NodeList) (id : ℕ) (address port public_key : Json)
    → (update_node l id address port public_key ≡ type_error)
      ⊎ (update_node l id address port public_key ≡ returns (l, false))
unfolding update_node
update_node-cases l id address port public_key = ground arith
