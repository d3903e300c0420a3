-- ===== src/Tests/Program.antt =====
-- Sample requests and events, and what a run of the server gives on them.
use scale_out_distributed_le.Common.{ℕ, ◌≡◌, refl, true, false, none, some, List, [], ◌∷◌}
use scale_out_distributed_le.Js.{Json, Items, Field, value, is_present, present, present_number}
use scale_out_distributed_le.Js.Decimal.{codes, to_string}
use scale_out_distributed_le.Js.Keys.{join, split, text_eq}
use scale_out_distributed_le.Nodes.{
  Node, NodeList, new_node, slot, put, assign, update_node, register_node, set_node_status,
  get_running, get_size, get_node, graph_nodes,
}
use scale_out_distributed_le.Transactions.{
  Transaction, lookup, set_key, edge_key, add_transaction, add_all, get_edge_weight_with_key,
  get_edge_weight, get_graph_edges, get_numbers, add_numbers_to_array, ratio,
}
use scale_out_distributed_le.Sse.{add, closed, broadcast}
use scale_out_distributed_le.Routes.Requests.{
  NodeBody, StatusBody, object, array, node_fields, status_fields, is_complete,
}
use scale_out_distributed_le.Routes.{
  post_update_node, post_register_node, post_register_transaction, post_register_transactions,
  post_set_node_status, get_updates, post_reset, get_status, counts, json, forbidden,
  error_response, init, update_sse_clients, init_data_heartbeat, add_elements, handle, serve,
}
use scale_out_distributed_le.Server.{Event, request, on_data_tick, step, run, heartbeat_period}
use scale_out_distributed_le.Port.{
  port, no_port, named_pipe, normalize_port, configured_port, trim_start, leading_digits, is_space,
}
use scale_out_distributed_le.Demo.{hundredths, filter_option}

unfoldable pub program : Unit {0}
unfolding is_present present present_number to_string join split text_eq slot put assign update_node
    register_node set_node_status get_running get_size get_node graph_nodes lookup set_key edge_key
    add_transaction add_all add_elements get_edge_weight_with_key get_edge_weight get_graph_edges
    get_numbers add_numbers_to_array add closed broadcast node_fields status_fields is_complete
    update_sse_clients init_data_heartbeat handle serve on_data_tick step run
program = tt

abbrev pub transfer : (from to : ℕ) → Transaction
transfer from to = record {
  from = value from;
  to = value to;
  amount = some (Json.num 5);
  remainder = some (Json.num 0);
  number_of_chains = value 2;
  number_of_blocks = value 7;
}

-- What a batch may hold: the number of chains is missing.
abbrev pub uncounted : Transaction
uncounted = record (transfer 1 2) { number_of_chains = Field.undefined }

abbrev pub node_body : ℕ → NodeBody
node_body id = record {
  id = value id;
  address = some (Json.str "10.0.0.1");
  port = some (Json.num 40);
  public_key = some (Json.arr Items.nil);
}

abbrev pub node_at : ℕ → Node
node_at id = new_node 9 id (Json.str "10.0.0.1") (Json.num 40) (Json.arr Items.nil)

abbrev pub running_body : ℕ → StatusBody
running_body id = record { id = value id; running = some (Json.bool true) }

-- A reset, a client, two nodes, three transactions.
abbrev pub trace : List Event
trace =
    request 1 post_reset
    ∷ request 2 get_updates
    ∷ request 9 (post_register_node (node_body 2))
    ∷ request 9 (post_register_node (node_body 0))
    ∷ request 10 (post_set_node_status (running_body 2))
    ∷ request 11 (post_register_transaction (transfer 2 0))
    ∷ request 12
        (post_register_transactions (array (object (transfer 0 2) ∷ object (transfer 10 2) ∷ [])))
    ∷ []

abbrev pub two_nodes : NodeList
two_nodes = record { nodes = some (node_at 0) ∷ none ∷ some (node_at 2) ∷ [] }

-- Node 0 and node 2 are registered, 2 runs, and 1 is a hole.
status_test : (serve 20 (run init trace) get_status).1 ≡ json (counts 2 1)
unfolding program
status_test = refl

weight_test : get_edge_weight (run init trace).transaction_list (value 0) (value 2) ≡ 2
unfolding program
weight_test = refl

edges_test :
    get_graph_edges (run init trace).transaction_list
    ≡ record { from = some (codes "0"); to = some (codes "2"); value = 2 }
      ∷ record { from = some (codes "2"); to = some (codes "10"); value = 1 }
      ∷ []
unfolding program
edges_test = refl

hole_test :
    (serve 20 (run init trace) (post_update_node (node_body 1))).1 ≡ some (error_response none)
unfolding program
hole_test = refl

registered_test :
    (serve 20 (run init trace) (post_update_node (node_body 2))).1 ≡ forbidden "invalid node"
unfolding program
registered_test = refl

numbers_test : get_numbers (run init trace).transaction_list ≡ record {
  number_of_transactions = 3;
  average_number_of_blocks = ratio 21 3;
  average_number_of_chains = ratio 6 3;
}
unfolding program
numbers_test = refl

port_tests :
    (normalize_port (codes " 8080x") ≡ port 8080)
    × (normalize_port (codes "-1") ≡ no_port)
    × (normalize_port (codes "/tmp/sock") ≡ named_pipe (codes "/tmp/sock"))
    × (configured_port none ≡ port 3000)
unfolding normalize_port trim_start leading_digits is_space configured_port
port_tests = (refl, refl, refl, refl)

hundredths_test : hundredths (ratio 2 3) ≡ 67
unfolding hundredths
hundredths_test = refl

filter_tests :
    (filter_option "x" ("physics" ∷ []) ≡ true) × (filter_option "x" ("layout" ∷ []) ≡ false)
unfolding filter_option
filter_tests = (refl, refl)

heartbeat_test : heartbeat_period (some 10) ≡ 10000
unfolding heartbeat_period
heartbeat_test = refl
