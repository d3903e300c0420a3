-- ===== src/Nodes/Graph.antt =====
-- `getGraphNodes`, and the indices at which the nodes stand.
use scale_out_distributed_le.Common.{
  ℕ, zero, suc, ◌+◌, ◌≤◌, ◌≡◌, refl, Bool, Option, none, some, List, [], ◌∷◌, arith, sym, ◌∙◌, inl,
  inr, length, count_by,
}
use scale_out_distributed_le.Js.{Json, returns}
use scale_out_distributed_le.Nodes.{
  Node, NodeList, GraphNode, new_node, slot, put, is_some, register_node, set_node_status, get_size,
  get_node, graph_nodes, get_graph_nodes,
}
use scale_out_distributed_le.Nodes.Slots.{get_node-slot, set_node_status-cases}
use scale_out_distributed_le.Nodes.Counts.{get_size-count}

-- The node in the slot number `i` after `k` has the id `k + i`.
abbrev pub NumberedFrom : ℕ → List (Option Node) → Type 0
NumberedFrom k [] = Unit
NumberedFrom k (none ∷ xs) = NumberedFrom (suc k) xs
NumberedFrom k (some node ∷ xs) = (node.id ≡ k) × NumberedFrom (suc k) xs

-- Every node stands at the index that is its id.
abbrev pub IsNumbered : NodeList → Type 0
IsNumbered l = NumberedFrom 0 l.nodes

put-Numbered :
    (k i j : ℕ) (v : Node) (xs : List (Option Node))
    → v.id ≡ j
    → j ≡ k + i
    → NumberedFrom k xs
    → NumberedFrom k (put i v xs)
unfolding put
put-Numbered k zero j v [] e p h = (omega arith, tt)
put-Numbered k zero j v (none ∷ xs) e p h = (omega arith, h)
put-Numbered k zero j v (some n ∷ xs) e p h = (omega arith, h.1)
put-Numbered k (suc i) j v [] e p h = put-Numbered (suc k) i j v [] e (omega arith) tt
put-Numbered k (suc i) j v (none ∷ xs) e p h = put-Numbered (suc k) i j v xs e (omega arith) h
put-Numbered k (suc i) j v (some n ∷ xs) e p h =
    (h.0, put-Numbered (suc k) i j v xs e (omega arith) h.1)

slot-Numbered :
    (k i : ℕ) (v : Node) (xs : List (Option Node))
    → NumberedFrom k xs
    → slot xs i ≡ some v
    → v.id ≡ k + i
unfolding slot
slot-Numbered k i v [] h e = absurd (ground arith)
slot-Numbered k zero v (none ∷ xs) h e = absurd (ground arith)
slot-Numbered k zero v (some n ∷ xs) h e = ground arith
slot-Numbered k (suc i) v (none ∷ xs) h e = omega (arith, slot-Numbered (suc k) i v xs h e)
slot-Numbered k (suc i) v (some n ∷ xs) h e = omega (arith, slot-Numbered (suc k) i v xs h.1 e)

-- `getNode` gives a node with the id that it is asked for.
pub get_node-id :
    (l : NodeList) (id : ℕ) (node : Node) → IsNumbered l → get_node l id ≡ some node → node.id ≡ id
get_node-id l id node h e =
    omega (arith, slot-Numbered 0 id node l.nodes h (sym (get_node-slot l id) ∙ e))

pub register_node-IsNumbered :
    (now : ℕ) (l : NodeList) (id : ℕ) (address port public_key : Json)
    → IsNumbered l
    → IsNumbered (register_node now l id address port public_key).0
unfolding register_node
register_node-IsNumbered now l id address port public_key h =
    ground (arith, put-Numbered 0 id id (new_node now id address port public_key) l.nodes)

pub set_node_status-IsNumbered :
    (l l' : NodeList) (id : ℕ) (running : Json) (b : Bool)
    → IsNumbered l
    → set_node_status l id running ≡ returns (l', b)
    → IsNumbered l'
set_node_status-IsNumbered l l' id running b h e =
    elim (set_node_status-cases l l' id running b e) [
      | inl (_, same) ↦ rw same h
      | inr (node, _, found, same) ↦ rw same (
          put-Numbered 0 id id (record node { running = running }) l.nodes
            (omega (arith, slot-Numbered 0 id node l.nodes h (sym (get_node-slot l id) ∙ found)))
            (omega arith) h)
    ]

-- Ids above a bound, in increasing order.
abbrev pub IncreasingFrom : ℕ → List GraphNode → Type 0
IncreasingFrom k [] = Unit
IncreasingFrom k (g ∷ gs) = (k ≤ g.id) × IncreasingFrom (suc g.id) gs

Increasing-mono : (k : ℕ) (gs : List GraphNode) → IncreasingFrom (suc k) gs → IncreasingFrom k gs
Increasing-mono k [] h = tt
Increasing-mono k (g ∷ gs) h = (omega arith, h.1)

graph_nodes-Increasing :
    (k : ℕ) (xs : List (Option Node)) → NumberedFrom k xs → IncreasingFrom k (graph_nodes xs)
unfolding graph_nodes
graph_nodes-Increasing k [] h = tt
graph_nodes-Increasing k (none ∷ xs) h = Increasing-mono k _ (graph_nodes-Increasing (suc k) xs h)
graph_nodes-Increasing k (some n ∷ xs) h =
    rw h.0 (omega arith, graph_nodes-Increasing (suc k) xs h.1)

length-graph_nodes : (xs : List (Option Node)) → length (graph_nodes xs) ≡ count_by is_some xs
unfolding graph_nodes
length-graph_nodes [] = refl
length-graph_nodes (none ∷ xs) = omega (arith, length-graph_nodes xs)
length-graph_nodes (some n ∷ xs) = omega (arith, length-graph_nodes xs)

-- The graph has one vertex for each registered node, in the order of their ids and so without a
-- repetition.
pub graph_nodes-IsGraph :
    (l : NodeList)
    → IsNumbered l
    → IncreasingFrom 0 (get_graph_nodes l) × (length (get_graph_nodes l) ≡ get_size l)
graph_nodes-IsGraph l h = (
  graph_nodes-Increasing 0 l.nodes h,
  omega (arith, length-graph_nodes l.nodes, get_size-count l),
)
