-- ===== src/Routes/Replies.antt =====
-- Requests that are answered: what they answer, what they change and what they send to clients.
use scale_out_distributed_le.Common.{ℕ, ◌≡◌, ap, true, false, none, some, List, ◌++◌, map, arith}
use scale_out_distributed_le.Js.{Json, value, is_present, present_number}
use scale_out_distributed_le.Nodes.{Node, register_node, get_node}
use scale_out_distributed_le.Nodes.Graph.{IsNumbered, get_node-id}
use scale_out_distributed_le.Transactions.{Transaction, add_all, add_transaction}
use scale_out_distributed_le.Sse.{message}
use scale_out_distributed_le.Sse.Laws.{broadcast-map}
use scale_out_distributed_le.Routes.Requests.{NodeBody, Element, array, node_fields, is_complete}
use scale_out_distributed_le.Routes.Batch.{before_null, has_no_null, add_elements-add_all}
use scale_out_distributed_le.Routes.{
  App, post_register_node, post_register_transaction, post_register_transactions, get_node_by_id,
  handle_register_transactions, error_response, serve, success, success_id, success_node, json,
  update_of, update_sse_clients,
}

-- The state with another list of nodes or of transactions, and every listening client told: one
-- message each, in order, that holds the graph and the numbers of the new state.
abbrev pub told : App → App
told app = record app {
  output = app.output ++ map (λ c. (c, message (update_of app))) app.sse_clients.connections;
}

pub update_sse_clients-told : (app : App) → update_sse_clients app ≡ told app
unfolding update_sse_clients
update_sse_clients-told app =
    ap (λ out. record app { output = out })
      (broadcast-map app.sse_clients (update_of app) app.output)

-- A transaction with all its properties is added, every client is told, and the answer is success.
pub serve-register_transaction :
    (now : ℕ) (app : App) (tx : Transaction)
    → is_complete tx ≡ true
    → serve now app (post_register_transaction tx) ≡ (
      told (record app { transaction_list = add_transaction app.transaction_list tx }),
      json success,
    )
unfolding serve
serve-register_transaction now app tx h = rw (h, update_sse_clients-told)

-- A batch without a null is added whole, whatever its transactions lack, and every client is told
-- once.
pub serve-register_transactions :
    (now : ℕ) (app : App) (es : List Element)
    → has_no_null es ≡ true
    → serve now app (post_register_transactions (array es)) ≡ (
      told (record app { transaction_list = add_all app.transaction_list (before_null es) }),
      json success,
    )
unfolding serve handle_register_transactions
serve-register_transactions now app es whole =
    let l = add_all app.transaction_list (before_null es) in
    ground (
      arith,
      whole,
      add_elements-add_all app.transaction_list es,
      update_sse_clients-told (record app { transaction_list = l }),
    )

-- A batch with a null is added up to it, no client is told, and the answer is an error with status
-- 500.
pub serve-register_transactions_null :
    (now : ℕ) (app : App) (es : List Element)
    → has_no_null es ≡ false
    → serve now app (post_register_transactions (array es)) ≡ (
      record app { transaction_list = add_all app.transaction_list (before_null es) },
      some (error_response none),
    )
unfolding serve handle_register_transactions
serve-register_transactions_null now app es broken =
    ground (arith, broken, add_elements-add_all app.transaction_list es)

-- A node with all its properties is registered, every client is told, and the answer is its id.
pub serve-register_node :
    (now : ℕ) (app : App) (body : NodeBody) (id : ℕ) (address port public_key : Json)
    → node_fields body ≡ some (id, address, port, public_key)
    → serve now app (post_register_node body) ≡ (
      told (record app {
        node_list = (register_node now app.node_list id address port public_key).0;
      }),
      json (success_id id),
    )
unfolding serve register_node
serve-register_node now app body id address port public_key h =
    let l = (register_node now app.node_list id address port public_key).0 in
    ground (arith, h, update_sse_clients-told (record app { node_list = l }))

-- What `/node` answers is the node with the id that was asked for.
pub serve-get_node :
    (now : ℕ) (app : App) (id : ℕ) (node : Node)
    → IsNumbered app.node_list
    → (serve now app (get_node_by_id (value id))).1 ≡ json (success_node node)
    → (get_node app.node_list id ≡ some node) × (node.id ≡ id)
unfolding serve present_number is_present
serve-get_node now app id node h e =
    let found : get_node app.node_list id ≡ some node = ground arith in
    (found, get_node-id app.node_list id node h found)
