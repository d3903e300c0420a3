-- ===== src/Server/Numbered.antt =====
-- The ids of a running server's nodes, in its list, in the graph of the clients and in the answers
-- of `/node` and `/status`.
use scale_out_distributed_le.Common.{
  ℕ, suc, ◌+◌, ◌≡◌, refl, sym, ◌∙◌, Option, none, some, List, [], ◌∷◌, arith, length, inl, inr,
  Option-cases,
}
use scale_out_distributed_le.Js.{Json, value}
use scale_out_distributed_le.Nodes.{Node, slot, get_graph_nodes, get_size}
use scale_out_distributed_le.Nodes.Slots.{get_node-slot}
use scale_out_distributed_le.Nodes.Graph.{
  NumberedFrom, IsNumbered, IncreasingFrom, graph_nodes-IsGraph,
}
use scale_out_distributed_le.Routes.Requests.{node_fields, status_fields}
use scale_out_distributed_le.Routes.{
  post_register_node, post_set_node_status, get_node_by_id, post_reset, serve, init, json,
  success_node,
}
use scale_out_distributed_le.Routes.Replies.{serve-get_node}
use scale_out_distributed_le.Server.{Event, request, run}
use scale_out_distributed_le.Server.Registry.{
  Registry, empty, register, mark, registry_event, registry_run, get_node-run,
}

-- Every node of the registry has the id that it is entered under.
abbrev Ids : Registry → Type 0
Ids r = (j : ℕ) (node : Node) → r j ≡ some node → node.id ≡ j

register-Ids :
    (now : ℕ) (r : Registry) (fields : Option (ℕ × Json × Json × Json))
    → Ids r
    → Ids (register now r fields)
register-Ids now r none h j node e = h j node e
register-Ids now r (some (id, address, port, public_key)) h j node e = ground (arith, h j node)

mark-Ids : (r : Registry) (fields : Option (ℕ × Json)) → Ids r → Ids (mark r fields)
mark-Ids r none h j node e = h j node e
mark-Ids r (some (id, running)) h j node e = elim (Option-cases (r j)) [
  | inl absent ↦ absurd (ground arith)
  | inr (old, found) ↦ ground (arith, h j old found)
]

event-Ids : (r : Registry) (event : Event) → Ids r → Ids (registry_event r event)
event-Ids r (request now (post_register_node body)) h = register-Ids now r (node_fields body) h
event-Ids r (request now (post_set_node_status body)) h = mark-Ids r (status_fields body) h
event-Ids r (request now post_reset) h = λ j node e. absurd (ground arith)
event-Ids r (request now _) h = h
event-Ids r _ h = h

run-Ids : (r : Registry) (events : List Event) → Ids r → Ids (registry_run r events)
run-Ids r [] h = h
run-Ids r (event ∷ events) h = run-Ids (registry_event r event) events (event-Ids r event h)

Numbered_of_slots :
    (k : ℕ) (xs : List (Option Node))
    → ((i : ℕ) (node : Node) → slot xs i ≡ some node → node.id ≡ k + i)
    → NumberedFrom k xs
unfolding slot
Numbered_of_slots k [] h = tt
Numbered_of_slots k (none ∷ xs) h =
    Numbered_of_slots (suc k) xs (λ i node e. omega (arith, h (suc i) node e))
Numbered_of_slots k (some node ∷ xs) h = (
  omega (arith, h 0 node refl),
  Numbered_of_slots (suc k) xs (λ i node' e. omega (arith, h (suc i) node' e)),
)

-- Whatever happened to the server, every node stands at the index that is its id.
pub run-IsNumbered : (events : List Event) → IsNumbered (run init events).node_list
run-IsNumbered events = Numbered_of_slots 0 (run init events).node_list.nodes λ i node e. omega (
  arith,
  run-Ids empty events (λ j other none_there. absurd (ground arith)) i node
      (sym (get_node-run events i) ∙ get_node-slot (run init events).node_list i ∙ e),
)

-- Whatever happened to the server, the graph that the clients are sent has one vertex for each registered node, in the order of
-- their ids and so without a repetition, and `/status` counts its vertices as registered.
run-IsGraph :
    (events : List Event)
    → let l = (run init events).node_list in
      IncreasingFrom 0 (get_graph_nodes l) × (length (get_graph_nodes l) ≡ get_size l)
run-IsGraph events = graph_nodes-IsGraph (run init events).node_list (run-IsNumbered events)

-- What `/node` answers with success is the registered node under the id that was asked for.
serve-get_node-run :
    (now : ℕ) (events : List Event) (id : ℕ) (node : Node)
    → (serve now (run init events) (get_node_by_id (value id))).1 ≡ json (success_node node)
    → (registry_run empty events id ≡ some node) × (node.id ≡ id)
serve-get_node-run now events id node e =
    let (found, same) = serve-get_node now (run init events) id node (run-IsNumbered events) e in
    (sym (get_node-run events id) ∙ found, same)
