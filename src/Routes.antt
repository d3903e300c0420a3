-- ===== src/Routes.antt =====
-- tracker-server/routes/index.js: the handlers of the requests, over the lists of the application
-- (tracker-server/app.js) and the clients that listen. A handler answers with the new state and
-- the response, or throws in some state.
pub mod Requests
pub mod State
pub mod Batch
pub mod Refusals
pub mod Replies
use scale_out_distributed_le.Common.{
  ℕ, zero, suc, ◌+◌, ◌*◌, String, Bool, true, false, ◌||◌, Option, none, some, List, [], ◌∷◌, ◌++◌,
  ◌==◌, if◌then◌else◌,
}
use scale_out_distributed_le.Js.{
  Json, Field, Result, returns, type_error, ◌>>=◌, is_present, present_number,
}
use scale_out_distributed_le.Nodes.{
  Node, NodeList, new_list, update_node, register_node, set_node_status, get_running, get_size,
  get_node, get_nodes, get_graph_nodes,
}
use scale_out_distributed_le.Transactions.{
  Transaction, TransactionList, Numbers, new_transactions, add_transaction, add_all,
  get_graph_edges, get_numbers, get_numbers_array,
}
use scale_out_distributed_le.Sse
use scale_out_distributed_le.Sse.{Topic, Output, Update, new_topic, setup, broadcast}
pub use State.*
use Requests.{
  NodeBody, StatusBody, BatchBody, missing, no_value, array, not_array, Element, read_element,
  node_fields, status_fields, is_complete,
}

-- The message of the state, and its broadcast.
abbrev pub update_of : App → Update
update_of app = record {
  nodes = get_graph_nodes app.node_list;
  edges = get_graph_edges app.transaction_list;
  numbers = get_numbers app.transaction_list;
}

unfoldable pub update_sse_clients : App → App
update_sse_clients app = record app {
  output = broadcast app.sse_clients (update_of app) app.output;
}

-- `setInterval` of the data timer.
unfoldable pub init_data_heartbeat : App → App
init_data_heartbeat app = record app { data_timers = app.data_timers + 1 }

abbrev specify_node : String
specify_node = "Specify id, address, port and publicKey"

unfoldable pub handle_update_node : App → NodeBody → Outcome
handle_update_node app body = elim (node_fields body) [
  | none ↦ answers (app, forbidden specify_node)
  | some (id, address, port, public_key) ↦
      elim (update_node app.node_list id address port public_key) [
        | type_error ↦ throws app
        | returns (l, updated) ↦ answers (
          record app { node_list = l },
          if updated then json success else forbidden "invalid node",
        )
      ]
]

unfoldable pub handle_register_node : (now : ℕ) → App → NodeBody → Outcome
handle_register_node now app body = elim (node_fields body) [
  | none ↦ answers (app, forbidden specify_node)
  | some (id, address, port, public_key) ↦
      let (l, id') = register_node now app.node_list id address port public_key in
      answers (update_sse_clients (record app { node_list = l }), json (success_id id'))
]

unfoldable pub handle_register_transaction : App → Transaction → Outcome
handle_register_transaction app tx =
    if is_complete tx
    then answers (
      update_sse_clients
          (record app { transaction_list = add_transaction app.transaction_list tx }),
      json success,
    )
    else answers (
      app,
      forbidden "Specify from, to, amount, remainder, remainder, numberOfChains and numberOfBlocks",
    )

-- The loop of the batch, and whether it came to its end: it stops where an element is null, and what
-- was added stays. The properties are not checked.
unfoldable pub add_elements : TransactionList → List Element → TransactionList × Bool
add_elements l [] = (l, true)
add_elements l (e ∷ es) = elim (read_element e) [
  | none ↦ (l, false)
  | some tx ↦ add_elements (add_transaction l tx) es
]

-- `forEach` of what is no array is a TypeError.
unfoldable pub handle_register_transactions : App → BatchBody → Outcome
unfolding add_elements
handle_register_transactions app missing = answers (app, forbidden "Specify array of transactions")
handle_register_transactions app no_value = answers (app, forbidden "Specify array of transactions")
handle_register_transactions app not_array = throws app
handle_register_transactions app (array es) =
    let (l, finished) = add_elements app.transaction_list es in
    let app' = record app { transaction_list = l } in
    if finished then answers (update_sse_clients app', json success) else throws app'

-- The result of `setNodeStatus` is not looked at.
unfoldable pub handle_set_node_status : App → StatusBody → Outcome
handle_set_node_status app body = elim (status_fields body) [
  | none ↦ answers (app, forbidden "Specify node ID and running status")
  | some (id, running) ↦ elim (set_node_status app.node_list id running) [
    | type_error ↦ throws app
    | returns (l, _) ↦ answers (record app { node_list = l }, json (success_id id))
  ]
]

abbrev node_reply : Option Node → Option Response
node_reply none = forbidden "invalid id or uninitialized node"
node_reply (some node) = json (success_node node)

unfoldable pub handle_get_node : App → Field → Outcome
handle_get_node app id = elim (present_number id) [
  | none ↦ answers (app, forbidden "Specify id")
  | some n ↦ answers (app, node_reply (get_node app.node_list n))
]

unfoldable pub handle_reset : App → Outcome
unfolding init_data_heartbeat
handle_reset app = answers (
  init_data_heartbeat (record app { node_list = new_list; transaction_list = new_transactions }),
  json success,
)

unfoldable pub handle_updates : App → Outcome
handle_updates app =
    let conn = app.next_connection in
    answers (
      record app {
        next_connection = conn + 1;
        output = setup conn app.output;
        sse_clients = Sse.add app.sse_clients conn;
      },
      json stream,
    )

-- `csv_written` says whether the library wrote its file; the request waits for it.
unfoldable pub handle_write_data : App → (csv_written : Bool) → Outcome
handle_write_data app csv_written =
    let points = get_numbers_array app.transaction_list in
    let json_files =
      app.files ++ node_list_json app.node_list ∷ transaction_list_json app.transaction_list ∷ [] in
    answers (
      if csv_written
      then (record app { files = json_files ++ data_csv points ∷ [] }, json (numbers points))
      else (record app { files = json_files }, none))

-- The error handler of tracker-server/app.js: `err.status || 500`, and the error as JSON.
abbrev pub error_status : Option ℕ → ℕ
error_status none = 500
error_status (some status) = if status == 0 then 500 else status

abbrev pub error_response : Option ℕ → Response
error_response status = record { status = error_status status; body = error status }

unfoldable pub handle_root : App → Outcome
handle_root app = answers (app, json (nodes (get_nodes app.node_list)))

unfoldable pub handle_demo : App → Outcome
handle_demo app = answers (app, json demo_page)

unfoldable pub handle_status : App → Outcome
handle_status app =
    answers (app, json (counts (get_size app.node_list) (get_running app.node_list)))

-- No route fits: the error with status 404 goes to the error handler.
unfoldable pub handle_not_found : App → Outcome
handle_not_found app = answers (app, some (error_response (some 404)))

unfoldable pub handle : (now : ℕ) → App → Request → Outcome
unfolding handle_root handle_update_node handle_register_node handle_register_transaction
    handle_register_transactions handle_set_node_status handle_get_node handle_demo handle_reset
    handle_status handle_updates handle_write_data handle_not_found
handle now app get_root = handle_root app
handle now app (post_update_node body) = handle_update_node app body
handle now app (post_register_node body) = handle_register_node now app body
handle now app (post_register_transaction tx) = handle_register_transaction app tx
handle now app (post_register_transactions batch) = handle_register_transactions app batch
handle now app (post_set_node_status body) = handle_set_node_status app body
handle now app (get_node_by_id id) = handle_get_node app id
handle now app get_demo = handle_demo app
handle now app post_reset = handle_reset app
handle now app get_status = handle_status app
handle now app get_updates = handle_updates app
handle now app (post_write_data csv_written) = handle_write_data app csv_written
handle now app no_route = handle_not_found app

-- A request as express serves it: a TypeError goes to the error handler, and the state stays as it
-- was when it was thrown.
abbrev after : Outcome → App × Option Response
after (answers r) = r
after (throws app) = (app, some (error_response none))

unfoldable pub serve : (now : ℕ) → App → Request → App × Option Response
unfolding handle
serve now app request = after (handle now app request)
