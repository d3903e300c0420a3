-- ===== src/Server/Refinement.antt =====
-- The transactions of a running server against the log of what it was sent since the last reset.
use scale_out_distributed_le.Common.{
  ℕ, ◌≡◌, refl, true, false, List, [], ◌∷◌, ◌++◌, arith, count_by, inl, inr, Bool-cases,
  if◌then◌else◌, ltb,
}
use scale_out_distributed_le.Js.{value, Field}
use scale_out_distributed_le.Transactions.{Transaction, add_transaction, add_all, get_edge_weight}
use scale_out_distributed_le.Transactions.Pairs.{between}
use scale_out_distributed_le.Transactions.Log.{
  Tracks, Tracks-new, Tracks-add_transaction, Tracks-add_all, get_edge_weight-Tracks,
}
use scale_out_distributed_le.Transactions.Averages.{Tracks-add_numbers}
use scale_out_distributed_le.Routes.Requests.{
  array, missing, no_value, not_array, Element, is_complete,
}
use scale_out_distributed_le.Routes.Batch.{before_null, has_no_null}
use scale_out_distributed_le.Routes.Replies.{
  serve-register_transactions, serve-register_transactions_null,
}
use scale_out_distributed_le.Routes.{
  App, Request, get_root, post_update_node, post_register_node, post_register_transaction,
  post_register_transactions, post_set_node_status, get_node_by_id, get_demo, post_reset,
  get_status, get_updates, post_write_data, no_route, serve, init, update_sse_clients,
}
use scale_out_distributed_le.Routes.Requests.{NodeBody, StatusBody}
use scale_out_distributed_le.Server.{
  Event, on_data_tick, request, disconnect, data_tick, sse_tick, step, run,
}

-- The log is all that a client need know: what was registered since the last reset. A complete
-- transaction is logged, an incomplete one is refused, and a batch is logged up to its first null.
abbrev pub log_request : List Transaction → Request → List Transaction
log_request log (post_register_transaction tx) = if is_complete tx then log ++ tx ∷ [] else log
log_request log (post_register_transactions (array es)) = log ++ before_null es
log_request log post_reset = []
log_request log _ = log

abbrev pub log_event : List Transaction → Event → List Transaction
log_event log (request now r) = log_request log r
log_event log _ = log

abbrev pub log_run : List Transaction → List Event → List Transaction
log_run log [] = log
log_run log (event ∷ events) = log_run (log_event log event) events

-- The lists of transactions that requests with a branch leave.
module _ (now : ℕ) (app : App) where
  update_node-transactions :
      (body : NodeBody)
      → (serve now app (post_update_node body)).0.transaction_list ≡ app.transaction_list
  unfolding serve
  update_node-transactions body = ground arith

  register_node-transactions :
      (body : NodeBody)
      → (serve now app (post_register_node body)).0.transaction_list ≡ app.transaction_list
  unfolding serve update_sse_clients
  register_node-transactions body = ground arith

  set_node_status-transactions :
      (body : StatusBody)
      → (serve now app (post_set_node_status body)).0.transaction_list ≡ app.transaction_list
  unfolding serve
  set_node_status-transactions body = ground arith

  get_node-transactions :
      (id : Field) → (serve now app (get_node_by_id id)).0.transaction_list ≡ app.transaction_list
  unfolding serve
  get_node-transactions id = ground arith

  pub batch-transactions :
      (es : List Element)
      → (serve now app (post_register_transactions (array es))).0.transaction_list
        ≡ add_all app.transaction_list (before_null es)
  batch-transactions es = elim (Bool-cases (has_no_null es)) [
    | inl whole ↦ rw (serve-register_transactions now app es whole) refl
    | inr broken ↦ rw (serve-register_transactions_null now app es broken) refl
  ]

  register_transaction-transactions :
      (tx : Transaction)
      → (serve now app (post_register_transaction tx)).0.transaction_list
        ≡ (if is_complete tx then add_transaction app.transaction_list tx else app.transaction_list)
  unfolding serve update_sse_clients
  register_transaction-transactions tx = ground arith

serve-Tracks :
    (now : ℕ) (app : App) (r : Request) (log : List Transaction)
    → Tracks log app.transaction_list
    → Tracks (log_request log r) (serve now app r).0.transaction_list
unfolding serve update_sse_clients
serve-Tracks now app get_root log t = t
serve-Tracks now app (post_update_node body) log t = rw (update_node-transactions now app body) t
serve-Tracks now app (post_register_node body) log t =
    rw (register_node-transactions now app body) t
serve-Tracks now app (post_register_transaction tx) log t = elim (Bool-cases (is_complete tx)) [
  | inl complete ↦
      rw (register_transaction-transactions now app tx, complete)
        (Tracks-add_transaction log app.transaction_list tx t)
  | inr incomplete ↦ rw (register_transaction-transactions now app tx, incomplete) t
]
serve-Tracks now app (post_register_transactions missing) log t = t
serve-Tracks now app (post_register_transactions no_value) log t = t
serve-Tracks now app (post_register_transactions not_array) log t = t
serve-Tracks now app (post_register_transactions (array es)) log t =
    rw (batch-transactions now app es) (Tracks-add_all log app.transaction_list (before_null es) t)
serve-Tracks now app (post_set_node_status body) log t =
    rw (set_node_status-transactions now app body) t
serve-Tracks now app (get_node_by_id id) log t = rw (get_node-transactions now app id) t
serve-Tracks now app get_demo log t = t
serve-Tracks now app post_reset log t = Tracks-new
serve-Tracks now app get_status log t = t
serve-Tracks now app get_updates log t = t
serve-Tracks now app (post_write_data true) log t = t
serve-Tracks now app (post_write_data false) log t = t
serve-Tracks now app no_route log t = t

data_tick-Tracks :
    (app : App) (i : ℕ) (log : List Transaction)
    → Tracks log app.transaction_list
    → Tracks log (on_data_tick app i).transaction_list
unfolding on_data_tick
data_tick-Tracks app i log t = elim (Bool-cases (ltb i app.data_timers)) [
  | inl set ↦ rw set (Tracks-add_numbers log app.transaction_list t)
  | inr unset ↦ rw unset t
]

pub step-Tracks :
    (app : App) (event : Event) (log : List Transaction)
    → Tracks log app.transaction_list
    → Tracks (log_event log event) (step app event).transaction_list
unfolding step
step-Tracks app (request now r) log t = serve-Tracks now app r log t
step-Tracks app (disconnect conn) log t = t
step-Tracks app (data_tick i) log t = data_tick-Tracks app i log t
step-Tracks app sse_tick log t = unfold update_sse_clients in t

pub run-Tracks :
    (app : App) (events : List Event) (log : List Transaction)
    → Tracks log app.transaction_list
    → Tracks (log_run log events) (run app events).transaction_list
unfolding run
run-Tracks app [] log t = t
run-Tracks app (event ∷ events) log t =
    run-Tracks (step app event) events (log_event log event) (step-Tracks app event log t)

-- Whatever happened to the server, its list of transactions is what the log of the complete
-- transactions and the batches since the last reset, each batch up to its first null, makes of an
-- empty list: the counts, the sums, and under every key the transactions of the log with that key,
-- oldest first.
pub run-init-Tracks :
    (events : List Event) → Tracks (log_run [] events) (run init events).transaction_list
run-init-Tracks events = run-Tracks init events [] Tracks-new

-- Whatever happened to the server, the weight of an edge is the number of the transactions between
-- its two nodes, in either direction, that were registered since the last reset, singly or in a batch
-- before its first null.
pub get_edge_weight-run :
    (events : List Event) (a b : ℕ)
    → get_edge_weight (run init events).transaction_list (value a) (value b)
      ≡ count_by (between a b) (log_run [] events)
get_edge_weight-run events a b =
    get_edge_weight-Tracks (log_run [] events) (run init events).transaction_list a b
      (run-init-Tracks events)
