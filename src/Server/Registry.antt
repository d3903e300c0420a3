-- ===== src/Server/Registry.antt =====
-- The nodes of a running server against a registry that knows no array: a node for each id.
use scale_out_distributed_le.Common.{
  ℕ, ◌≡◌, refl, ap, Bool, true, false, Option, none, some, List, [], ◌∷◌, arith, inl, inr,
  Option-cases, Bool-cases, ◌==◌, ltb, ltb→lt, if◌then◌else◌,
}
use scale_out_distributed_le.Js.{Json, Field, Result, returns, type_error}
use scale_out_distributed_le.Nodes.{
  Node, NodeList, new_node, new_list, index_limit, slot, register_node, set_node_status, get_node,
}
use scale_out_distributed_le.Nodes.Slots.{
  get_node-register_node, set_node_status-some, get_node-marked,
}
use scale_out_distributed_le.Transactions.{Transaction}
use scale_out_distributed_le.Routes.Batch.{has_no_null}
use scale_out_distributed_le.Routes.Replies.{
  serve-register_transactions, serve-register_transactions_null,
}
use scale_out_distributed_le.Routes.Requests.{
  NodeBody, StatusBody, array, missing, no_value, not_array, Element, node_fields, status_fields,
}
use scale_out_distributed_le.Routes.{
  App, Request, get_root, post_update_node, post_register_node, post_register_transaction,
  post_register_transactions, post_set_node_status, get_node_by_id, get_demo, post_reset,
  get_status, get_updates, post_write_data, no_route, serve, init, update_sse_clients,
}
use scale_out_distributed_le.Routes.Refusals.{serve-update_node_refuses}
use scale_out_distributed_le.Server.{
  Event, on_data_tick, request, disconnect, data_tick, sse_tick, step, run,
}

abbrev pub Registry : Type 0
Registry = ℕ → Option Node

abbrev pub empty : Registry
empty j = none

-- A registration enters a new node under its id, over what was there. An id that is no array
-- index is answered with success and not kept.
abbrev pub register : (now : ℕ) → Registry → Option (ℕ × Json × Json × Json) → Registry
register now r none j = r j
register now r (some (id, address, port, public_key)) j =
    if ltb id index_limit
    then (if id == j then some (new_node now id address port public_key) else r j)
    else r j

abbrev mark_node : Json → Option Node → Option Node
mark_node running none = none
mark_node running (some node) = some (record node { running = running })

-- A status goes to the node with the id, if there is one.
abbrev pub mark : Registry → Option (ℕ × Json) → Registry
mark r none j = r j
mark r (some (id, running)) j = if id == j then mark_node running (r j) else r j

abbrev pub registry_request : (now : ℕ) → Registry → Request → Registry
registry_request now r (post_register_node body) = register now r (node_fields body)
registry_request now r (post_set_node_status body) = mark r (status_fields body)
registry_request now r post_reset = empty
registry_request now r _ = r

abbrev pub registry_event : Registry → Event → Registry
registry_event r (request now q) = registry_request now r q
registry_event r _ = r

abbrev pub registry_run : Registry → List Event → Registry
registry_run r [] = r
registry_run r (event ∷ events) = registry_run (registry_event r event) events

-- The list holds the nodes of the registry.
abbrev pub Holds : NodeList → Registry → Type 0
Holds l r = (j : ℕ) → get_node l j ≡ r j

Holds-new_list : Holds new_list empty
unfolding get_node slot
Holds-new_list j = ground arith

register-Holds :
    (now : ℕ) (l : NodeList) (r : Registry) (id : ℕ) (address port public_key : Json)
    → Holds l r
    → Holds
        (register_node now l id address port public_key).0
        (register now r (some (id, address, port, public_key)))
register-Holds now l r id address port public_key h j = elim (Bool-cases (ltb id index_limit)) [
  | inl index ↦
      rw (index, ← h j)
        (get_node-register_node now l id j address port public_key (ltb→lt id index_limit index))
  | inr plain ↦ unfold register_node in rw plain (h j)
]

-- What a call of `setNodeStatus` leaves, a call that throws included.
abbrev list_after : NodeList → Result (NodeList × Bool) → NodeList
list_after l (returns (l', b)) = l'
list_after l type_error = l

list_after-none :
    (l : NodeList) (id : ℕ) (running : Json)
    → get_node l id ≡ none
    → list_after l (set_node_status l id running) ≡ l
unfolding set_node_status get_node
list_after-none l id running e = ground arith

status-Holds :
    (l : NodeList) (r : Registry) (id : ℕ) (running : Json)
    → Holds l r
    → Holds (list_after l (set_node_status l id running)) (mark r (some (id, running)))
status-Holds l r id running h j = elim (Option-cases (get_node l id)) [
  | inl absent ↦ rw (list_after-none l id running absent) (ground (arith, h j, h id))
  | inr (node, found) ↦
      rw (set_node_status-some l id running node found, get_node-marked l id j running node)
        (ground (arith, h j, h id))
]

-- The lists of nodes that requests with a branch leave.
module _ (now : ℕ) (app : App) where
  register_transaction-nodes :
      (tx : Transaction)
      → (serve now app (post_register_transaction tx)).0.node_list ≡ app.node_list
  unfolding serve update_sse_clients
  register_transaction-nodes tx = ground arith

  batch-nodes :
      (es : List Element)
      → (serve now app (post_register_transactions (array es))).0.node_list ≡ app.node_list
  batch-nodes es = elim (Bool-cases (has_no_null es)) [
    | inl whole ↦ rw (serve-register_transactions now app es whole) refl
    | inr broken ↦ rw (serve-register_transactions_null now app es broken) refl
  ]

  get_node-nodes : (id : Field) → (serve now app (get_node_by_id id)).0.node_list ≡ app.node_list
  unfolding serve
  get_node-nodes id = ground arith

  register_node-Holds :
      (r : Registry) (fields : Option (ℕ × Json × Json × Json)) (body : NodeBody)
      → node_fields body ≡ fields
      → Holds app.node_list r
      → Holds (serve now app (post_register_node body)).0.node_list (register now r fields)
  unfolding serve update_sse_clients
  register_node-Holds r none body e h j = ground (arith, h j)
  register_node-Holds r (some (id, address, port, public_key)) body e h j =
      ground (arith, register-Holds now app.node_list r id address port public_key h j)

  set_node_status-Holds :
      (r : Registry) (fields : Option (ℕ × Json)) (body : StatusBody)
      → status_fields body ≡ fields
      → Holds app.node_list r
      → Holds (serve now app (post_set_node_status body)).0.node_list (mark r fields)
  unfolding serve
  set_node_status-Holds r none body e h j = ground (arith, h j)
  set_node_status-Holds r (some (id, running)) body e h j =
      ground (arith, status-Holds app.node_list r id running h j)

serve-Holds :
    (now : ℕ) (app : App) (q : Request) (r : Registry)
    → Holds app.node_list r
    → Holds (serve now app q).0.node_list (registry_request now r q)
unfolding serve update_sse_clients
serve-Holds now app get_root r h = h
serve-Holds now app (post_update_node body) r h =
    rw (ap (λ (a : App). a.node_list) (serve-update_node_refuses now app body).0) h
serve-Holds now app (post_register_node body) r h =
    register_node-Holds now app r (node_fields body) body refl h
serve-Holds now app (post_register_transaction tx) r h =
    rw (register_transaction-nodes now app tx) h
serve-Holds now app (post_register_transactions missing) r h = h
serve-Holds now app (post_register_transactions no_value) r h = h
serve-Holds now app (post_register_transactions not_array) r h = h
serve-Holds now app (post_register_transactions (array es)) r h = rw (batch-nodes now app es) h
serve-Holds now app (post_set_node_status body) r h =
    set_node_status-Holds now app r (status_fields body) body refl h
serve-Holds now app (get_node_by_id id) r h = rw (get_node-nodes now app id) h
serve-Holds now app get_demo r h = h
serve-Holds now app post_reset r h = Holds-new_list
serve-Holds now app get_status r h = h
serve-Holds now app get_updates r h = h
serve-Holds now app (post_write_data true) r h = h
serve-Holds now app (post_write_data false) r h = h
serve-Holds now app no_route r h = h

data_tick-nodes : (app : App) (i : ℕ) → (on_data_tick app i).node_list ≡ app.node_list
unfolding on_data_tick
data_tick-nodes app i = ground arith

step-Holds :
    (app : App) (event : Event) (r : Registry)
    → Holds app.node_list r
    → Holds (step app event).node_list (registry_event r event)
unfolding step
step-Holds app (request now q) r h = serve-Holds now app q r h
step-Holds app (disconnect conn) r h = h
step-Holds app (data_tick i) r h = rw (data_tick-nodes app i) h
step-Holds app sse_tick r h = unfold update_sse_clients in h

run-Holds :
    (app : App) (events : List Event) (r : Registry)
    → Holds app.node_list r
    → Holds (run app events).node_list (registry_run r events)
unfolding run
run-Holds app [] r h = h
run-Holds app (event ∷ events) r h =
    run-Holds (step app event) events (registry_event r event) (step-Holds app event r h)

-- Whatever happened to the server, `getNode` gives under each id what a plain registry of ids
-- holds: the last node that was registered under it since the last reset, with the status that
-- was set last; holes, the length of the array and `/update-node` play no part.
pub get_node-run :
    (events : List Event) (id : ℕ)
    → get_node (run init events).node_list id ≡ registry_run empty events id
get_node-run events id = run-Holds init events empty Holds-new_list id
