-- ===== src/Nodes.antt =====
-- tracker-server/model/Node.js and NodeList.js: the nodes that have registered. The array is a
-- list of slots, a hole being `none`. Ids are non-negative integers; the time is an argument.
pub mod Slots
pub mod Counts
pub mod Update
pub mod Graph
use scale_out_distributed_le.Common.{
  ℕ, zero, suc, ◌+◌, ◌-◌, ◌^◌, Bool, true, false, Option, none, some, List, [], ◌∷◌, ltb, length,
  if◌then◌else◌,
}
use scale_out_distributed_le.Js.{Json, bool, truthy, Result, returns, type_error, ◌>>=◌}
use scale_out_distributed_le.Js.Decimal.{Text, to_string}

pub record Node : Type 0 where
  pub id : ℕ
  pub address : Json
  pub port : Json
  pub public_key : Json
  pub last_seen : ℕ
  pub running : Json

pub record NodeList : Type 0 where
  pub nodes : List (Option Node)

-- `new Node(id, address, port, publicKey)` at the time `now`
abbrev pub new_node : (now id : ℕ) → (address port public_key : Json) → Node
new_node now id address port public_key = record {
  id = id;
  address = address;
  port = port;
  public_key = public_key;
  last_seen = now;
  running = bool false;
}

abbrev pub new_list : NodeList
new_list = record { nodes = [] }

-- The first number that is no array index: a write there sets a plain property of the array.
abbrev pub index_limit : ℕ
index_limit = 2 ^ 32 - 1

-- `nodes[i]`, undefined at a hole and past the end.
unfoldable pub slot {ℓ} : {A : Type ℓ} → List (Option A) → ℕ → Option A
slot [] i = none
slot (x ∷ xs) zero = x
slot (x ∷ xs) (suc i) = slot xs i

-- `nodes[i] = v` at an index: a write past the end leaves holes.
unfoldable pub put {ℓ} : {A : Type ℓ} → ℕ → A → List (Option A) → List (Option A)
put zero v [] = some v ∷ []
put zero v (x ∷ xs) = some v ∷ xs
put (suc i) v [] = none ∷ put i v []
put (suc i) v (x ∷ xs) = x ∷ put i v xs

-- `nodes[i].f = …`, which throws where the slot is undefined.
unfoldable pub assign : NodeList → ℕ → (Node → Node) → Result NodeList
assign l i f = elim (slot l.nodes i) [
  | none ↦ type_error
  | some node ↦ returns (record l { nodes = put i (f node) l.nodes })
]

abbrev pub is_some {ℓ} : {A : Type ℓ} → Option A → Bool
is_some none = false
is_some (some _) = true

-- `!!node && node.running`
abbrev pub is_running : Option Node → Bool
is_running none = false
is_running (some node) = truthy node.running

unfoldable pub update_node :
    NodeList → (id : ℕ) → (address port public_key : Json) → Result (NodeList × Bool)
unfolding assign
update_node l id address port public_key =
    if ltb id (length l.nodes)
    then if is_some (slot l.nodes id) then returns (l, false) else (do
      l₁ ← assign l id (λ node. record node { address = address })
      l₂ ← assign l₁ id (λ node. record node { port = port })
      l₃ ← assign l₂ id (λ node. record node { public_key = public_key })
      returns (l₃, true))
    else returns (l, false)

-- The time is that of the call. Past `index_limit` the array's elements stay as they are.
unfoldable pub register_node :
    (now : ℕ) → NodeList → (id : ℕ) → (address port public_key : Json) → NodeList × ℕ
register_node now l id address port public_key = (
  if ltb id index_limit
      then record l { nodes = put id (new_node now id address port public_key) l.nodes }
      else l,
  id,
)

unfoldable pub set_node_status : NodeList → (id : ℕ) → (running : Json) → Result (NodeList × Bool)
unfolding assign
set_node_status l id running =
    if ltb id (length l.nodes)
    then (do l' ← assign l id (λ node. record node { running = running }); returns (l', true))
    else returns (l, false)

-- The loops of `getRunning` and `getSize`, with their counter.
running_from : ℕ → List (Option Node) → ℕ
running_from count [] = count
running_from count (x ∷ xs) = running_from (if is_running x then count + 1 else count) xs

size_from : ℕ → List (Option Node) → ℕ
size_from count [] = count
size_from count (x ∷ xs) = size_from (if is_some x then count + 1 else count) xs

unfoldable pub get_running : NodeList → ℕ
unfolding running_from
get_running l = running_from 0 l.nodes

unfoldable pub get_size : NodeList → ℕ
unfolding size_from
get_size l = size_from 0 l.nodes

-- `none` is undefined at a hole and null past the end; the only caller tests `node == null`.
unfoldable pub get_node : NodeList → ℕ → Option Node
get_node l id = if ltb id (length l.nodes) then slot l.nodes id else none

abbrev pub get_nodes : NodeList → List (Option Node)
get_nodes l = l.nodes

pub record GraphNode : Type 0 where
  pub id : ℕ
  pub label : Text

-- `forEach` passes over the holes.
unfoldable pub graph_nodes : List (Option Node) → List GraphNode
graph_nodes [] = []
graph_nodes (none ∷ xs) = graph_nodes xs
graph_nodes (some node ∷ xs) = record { id = node.id; label = to_string node.id } ∷ graph_nodes xs

abbrev pub get_graph_nodes : NodeList → List GraphNode
get_graph_nodes l = graph_nodes l.nodes
