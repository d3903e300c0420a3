-- ===== src/Nodes/Slots.antt =====
-- The array of slots under `slot` and `put`, and what the accessors read after a call.
use scale_out_distributed_le.Common.{
  ℕ, zero, suc, ◌≤◌, ◌<◌, ◌≡◌, refl, ◌⊎◌, ◌↔◌, inl, inr, Bool, true, false, Option, none, some,
  List, [], ◌∷◌, arith, ltb, ◌==◌, length, if◌then◌else◌, Option-cases, Bool-cases,
}
use scale_out_distributed_le.Js.{Json, returns, type_error}
use scale_out_distributed_le.Nodes.{
  Node, NodeList, new_node, index_limit, slot, put, register_node, set_node_status, get_node,
}

module _ {ℓ} {A : Type ℓ} where
  pub slot-put :
      (i j : ℕ) (v : A) (xs : List (Option A))
      → slot (put i v xs) j ≡ (if i == j then some v else slot xs j)
  unfolding slot put
  slot-put zero zero v [] = refl
  slot-put zero (suc j) v [] = ground arith
  slot-put zero zero v (x ∷ xs) = refl
  slot-put zero (suc j) v (x ∷ xs) = ground arith
  slot-put (suc i) zero v [] = ground arith
  slot-put (suc i) (suc j) v [] = ground (arith, slot-put i j v [])
  slot-put (suc i) zero v (x ∷ xs) = ground arith
  slot-put (suc i) (suc j) v (x ∷ xs) = ground (arith, slot-put i j v xs)

  pub slot_past : (xs : List (Option A)) (i : ℕ) → length xs ≤ i → slot xs i ≡ none
  unfolding slot
  slot_past [] i h = refl
  slot_past (x ∷ xs) zero h = absurd (omega arith)
  slot_past (x ∷ xs) (suc i) h = slot_past xs i (omega arith)

-- Reading a slot of the list is `getNode`.
pub get_node-slot : (l : NodeList) (i : ℕ) → get_node l i ≡ slot l.nodes i
unfolding get_node
get_node-slot l i = ground (arith, slot_past l.nodes i)

-- After a registration at an array index, `getNode` gives the new node under its id, and what it
-- gave before under every other id.
pub get_node-register_node :
    (now : ℕ) (l : NodeList) (i j : ℕ) (address port public_key : Json)
    → i < index_limit
    → get_node (register_node now l i address port public_key).0 j
      ≡ (if i == j then some (new_node now i address port public_key) else get_node l j)
unfolding register_node
get_node-register_node now l i j address port public_key h = ground (
  arith,
  get_node-slot l j,
  get_node-slot (register_node now l i address port public_key).0 j,
  slot-put i j (new_node now i address port public_key) l.nodes,
)

-- What `setNodeStatus` leaves behind where it changes a node.
abbrev pub marked : NodeList → ℕ → Json → Node → NodeList
marked l id running node = record l { nodes = put id (record node { running = running }) l.nodes }

pub get_node-marked :
    (l : NodeList) (id j : ℕ) (running : Json) (node : Node)
    → get_node (marked l id running node) j
      ≡ (if id == j then some (record node { running = running }) else get_node l j)
get_node-marked l id j running node = ground (
  arith,
  get_node-slot l j,
  get_node-slot (marked l id running node) j,
  slot-put id j (record node { running = running }) l.nodes,
)

pub set_node_status-some :
    (l : NodeList) (id : ℕ) (running : Json) (node : Node)
    → get_node l id ≡ some node
    → set_node_status l id running ≡ returns (marked l id running node, true)
unfolding set_node_status get_node
set_node_status-some l id running node e = ground arith

-- `setNodeStatus` throws exactly at a hole: an id below the length with no node.
pub set_node_status-eq-type_error_iff :
    (l : NodeList) (id : ℕ) (running : Json)
    → (set_node_status l id running ≡ type_error) ↔ ((id < length l.nodes) × (get_node l id ≡ none))
unfolding set_node_status get_node
set_node_status-eq-type_error_iff l id running = ground arith

-- It answers false exactly past the end, and then changes nothing.
pub set_node_status-eq-false_iff :
    (l : NodeList) (id : ℕ) (running : Json)
    → (set_node_status l id running ≡ returns (l, false)) ↔ (length l.nodes ≤ id)
unfolding set_node_status
set_node_status-eq-false_iff l id running = ground arith

-- A call that returns has left the list alone, or has marked the node in its slot.
pub set_node_status-cases :
    (l l' : NodeList) (id : ℕ) (running : Json) (b : Bool)
    → set_node_status l id running ≡ returns (l', b)
    → ((b ≡ false) × (l' ≡ l))
      ⊎ ((node : Node) × (b ≡ true) × (get_node l id ≡ some node) × (l' ≡ marked l id running node))
unfolding set_node_status get_node
set_node_status-cases l l' id running b e = elim (Option-cases (slot l.nodes id)) [
  | inl missing ↦ inl (ground arith)
  | inr (node, found) ↦ elim (Bool-cases (ltb id (length l.nodes))) [
    | inl below ↦ inr (node, ground arith, ground arith, ground arith)
    | inr past ↦ inl (ground arith)
  ]
]

-- Where `setNodeStatus` answers true there is a node with the id, which gets the status, and the
-- nodes under all other ids stay.
pub get_node-set_node_status :
    (l l' : NodeList) (id j : ℕ) (running : Json)
    → set_node_status l id running ≡ returns (l', true)
    → (node : Node) × (get_node l id ≡ some node)
      × (get_node l' j
          ≡ (if id == j then some (record node { running = running }) else get_node l j))
get_node-set_node_status l l' id j running e = elim (set_node_status-cases l l' id running true e) [
  | inl (no_change, _) ↦ cc
  | inr (node, _, found, same) ↦ (node, found, rw same (get_node-marked l id j running node))
]
