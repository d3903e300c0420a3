-- ===== src/Server/Effects.antt =====
-- What each event does to the clients that listen to the server.
use scale_out_distributed_le.Common.{
  ℕ, ◌+◌, ◌≡◌, refl, true, false, Option, none, some, List, [], ◌∷◌, ◌++◌, map, arith, inl, inr,
  Bool-cases,
}
use scale_out_distributed_le.Js.{Json}
use scale_out_distributed_le.Transactions.{Transaction}
use scale_out_distributed_le.Sse.{Update, event_stream, message, add, closed}
use scale_out_distributed_le.Routes.Requests.{
  NodeBody, node_fields, is_complete, missing, no_value, array, not_array, Element,
}
use scale_out_distributed_le.Routes.{
  App, Request, get_root, post_update_node, post_register_node, post_register_transaction,
  post_register_transactions, post_set_node_status, get_node_by_id, get_demo, post_reset,
  get_status, get_updates, post_write_data, no_route, serve, update_of,
}
use scale_out_distributed_le.Routes.Batch.{has_no_null}
use scale_out_distributed_le.Routes.Refusals.{serve-update_node_refuses}
use scale_out_distributed_le.Routes.Replies.{
  update_sse_clients-told, serve-register_node, serve-register_transaction,
  serve-register_transactions, serve-register_transactions_null,
}
use scale_out_distributed_le.Server.{
  Event, on_data_tick, request, disconnect, data_tick, sse_tick, step,
}

-- What one event does to the clients: nothing, one message to each, a new one, or one less.
pub data Effect (app app' : App) : Type 0 where
  quiet :
      app'.sse_clients ≡ app.sse_clients
      → app'.next_connection ≡ app.next_connection
      → app'.output ≡ app.output
      → Effect app app'
  told :
      (u : Update)
      → app'.sse_clients ≡ app.sse_clients
      → app'.next_connection ≡ app.next_connection
      → app'.output ≡ app.output ++ map (λ c. (c, message u)) app.sse_clients.connections
      → Effect app app'
  opened :
      app'.sse_clients ≡ add app.sse_clients app.next_connection
      → app'.next_connection ≡ app.next_connection + 1
      → app'.output ≡ app.output ++ (app.next_connection, event_stream) ∷ []
      → Effect app app'
  left :
      (conn : ℕ)
      → app'.sse_clients ≡ closed app.sse_clients conn
      → app'.next_connection ≡ app.next_connection
      → app'.output ≡ app.output
      → Effect app app'

register_node-Effect :
    (now : ℕ) (app : App) (body : NodeBody) (fields : Option (ℕ × Json × Json × Json))
    → node_fields body ≡ fields
    → Effect app (serve now app (post_register_node body)).0
register_node-Effect now app body none e =
    unfold serve in quiet (ground arith) (ground arith) (ground arith)
register_node-Effect now app body (some (id, address, port, public_key)) e =
    rw (serve-register_node now app body id address port public_key e) (told _ refl refl refl)

register_transaction-Effect :
    (now : ℕ) (app : App) (tx : Transaction)
    → Effect app (serve now app (post_register_transaction tx)).0
register_transaction-Effect now app tx = elim (Bool-cases (is_complete tx)) [
  | inl complete ↦ rw (serve-register_transaction now app tx complete) (told _ refl refl refl)
  | inr incomplete ↦ unfold serve in quiet (ground arith) (ground arith) (ground arith)
]

register_transactions-Effect :
    (now : ℕ) (app : App) (es : List Element)
    → Effect app (serve now app (post_register_transactions (array es))).0
register_transactions-Effect now app es = elim (Bool-cases (has_no_null es)) [
  | inl whole ↦ rw (serve-register_transactions now app es whole) (told _ refl refl refl)
  | inr broken ↦ rw (serve-register_transactions_null now app es broken) (quiet refl refl refl)
]

serve-Effect : (now : ℕ) (app : App) (q : Request) → Effect app (serve now app q).0
unfolding serve
serve-Effect now app get_root = quiet refl refl refl
serve-Effect now app (post_update_node body) =
    rw (serve-update_node_refuses now app body).0 (quiet refl refl refl)
serve-Effect now app (post_register_node body) =
    register_node-Effect now app body (node_fields body) refl
serve-Effect now app (post_register_transaction tx) = register_transaction-Effect now app tx
serve-Effect now app (post_register_transactions missing) = quiet refl refl refl
serve-Effect now app (post_register_transactions no_value) = quiet refl refl refl
serve-Effect now app (post_register_transactions not_array) = quiet refl refl refl
serve-Effect now app (post_register_transactions (array es)) =
    register_transactions-Effect now app es
serve-Effect now app (post_set_node_status body) =
    quiet (ground arith) (ground arith) (ground arith)
serve-Effect now app (get_node_by_id id) = quiet (ground arith) (ground arith) (ground arith)
serve-Effect now app get_demo = quiet refl refl refl
serve-Effect now app post_reset = quiet refl refl refl
serve-Effect now app get_status = quiet refl refl refl
serve-Effect now app get_updates = opened refl refl refl
serve-Effect now app (post_write_data true) = quiet refl refl refl
serve-Effect now app (post_write_data false) = quiet refl refl refl
serve-Effect now app no_route = quiet refl refl refl

pub step-Effect : (app : App) (event : Event) → Effect app (step app event)
unfolding step
step-Effect app (request now q) = serve-Effect now app q
step-Effect app (disconnect conn) = left conn refl refl refl
step-Effect app (data_tick i) =
    unfold on_data_tick in quiet (ground arith) (ground arith) (ground arith)
step-Effect app sse_tick = rw (update_sse_clients-told app) (told (update_of app) refl refl refl)
