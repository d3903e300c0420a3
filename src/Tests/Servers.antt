-- ===== src/Tests/Servers.antt =====
-- The theorems on the requests and on the running server, at inputs that meet their hypotheses.
use scale_out_distributed_le.Common.{
  ◌<◌, ◌≡◌, ◌≢◌, ◌⊎◌, refl, some, inl, inr, List, [], ◌∷◌, ◌++◌, arith, count_by, replicate,
}
use scale_out_distributed_le.Js.{value}
use scale_out_distributed_le.Nodes.{get_node}
use scale_out_distributed_le.Transactions.{add_all, get_edge_weight, get_numbers, not_a_number}
use scale_out_distributed_le.Transactions.Pairs.{between}
use scale_out_distributed_le.Transactions.Log.{Tracks}
use scale_out_distributed_le.Routes.Requests.{Element, null, object, plain, array}
use scale_out_distributed_le.Routes.{
  Request, init, serve, update_of, json, success_node, post_update_node, post_register_transaction,
  post_register_transactions, get_node_by_id,
}
use scale_out_distributed_le.Routes.Refusals.{status_of, serve-left_by, serve-update_node_refuses}
use scale_out_distributed_le.Server.{Event, request, disconnect, data_tick, step, run}
use scale_out_distributed_le.Server.Refinement.{log_run, run-init-Tracks, get_edge_weight-run}
use scale_out_distributed_le.Server.Registry.{registry_run, empty, get_node-run}
use scale_out_distributed_le.Server.Clients.{IsSound, run-init-IsSound}
use scale_out_distributed_le.Server.Disconnect.{is_to, disconnect-silent}
use scale_out_distributed_le.Server.Timers.{period_stores}
use scale_out_distributed_le.Server.Poison.{batch_poisons}
use scale_out_distributed_le.Demo.{on_message}
use scale_out_distributed_le.Tests.Program.{program, transfer, uncounted, node_body, node_at, trace}

run-init-Tracks_example :
    Tracks (transfer 2 0 ∷ transfer 0 2 ∷ transfer 10 2 ∷ []) (run init trace).transaction_list
unfolding program
run-init-Tracks_example = run-init-Tracks trace

get_edge_weight-run_example :
    get_edge_weight (run init trace).transaction_list (value 0) (value 2)
    ≡ count_by (between 0 2) (log_run [] trace)
get_edge_weight-run_example = get_edge_weight-run trace 0 2

get_node-run_example : get_node (run init trace).node_list 2 ≡ registry_run empty trace 2
get_node-run_example = get_node-run trace 2

node_found :
    (serve 30 (run init trace) (get_node_by_id (value 0))).1 ≡ json (success_node (node_at 0))
unfolding program
node_found = refl

-- A batch that stops at a null, after one transaction.
abbrev broken : Request
broken = post_register_transactions (array (object (transfer 1 2) ∷ null ∷ object uncounted ∷ []))

broken_batch : status_of (serve 0 (run init trace) broken) ≡ some 500
unfolding program
broken_batch = refl

serve-left_by_example : (serve 0 (run init trace) broken).0 ≡ record (run init trace) {
  transaction_list = add_all (run init trace).transaction_list (transfer 1 2 ∷ []);
}
serve-left_by_example = serve-left_by 0 (run init trace) broken 500 broken_batch (omega arith)

serve-update_node_refuses_example :
    ((serve 0 (run init trace) (post_update_node (node_body 2))).0 ≡ run init trace)
    × ((status_of (serve 0 (run init trace) (post_update_node (node_body 2))) ≡ some 403)
        ⊎ (status_of (serve 0 (run init trace) (post_update_node (node_body 2))) ≡ some 500))
serve-update_node_refuses_example = serve-update_node_refuses 0 (run init trace) (node_body 2)

run-init-IsSound_example : IsSound (run init trace)
run-init-IsSound_example = run-init-IsSound trace

connected : 0 < (run init trace).next_connection
unfolding program
connected = omega arith

disconnect-silent_example :
    count_by (is_to 0) (run (step (run init trace) (disconnect 0)) trace).output
    ≡ count_by (is_to 0) (run init trace).output
disconnect-silent_example = disconnect-silent trace trace 0 connected

abbrev twice : List Event
twice = trace ++ trace

twice-ne-nil : log_run [] twice ≢ []
unfolding program
twice-ne-nil e = cc

period_stores_example :
    (run (run init twice) (data_tick 1 ∷ data_tick 0 ∷ [])).transaction_list.numbers_array
    ≡ (run init twice).transaction_list.numbers_array
      ++ replicate 2 (get_numbers (run init twice).transaction_list)
unfolding program
period_stores_example = period_stores twice twice-ne-nil

abbrev some_uncounted : List Element
some_uncounted = object (transfer 0 1) ∷ object uncounted ∷ plain ∷ []

batch_poisons_example :
    let batch = post_register_transactions (array some_uncounted) in
    let app =
      run
        (step (run init trace) (request 5 batch))
        (request 6 (post_register_transaction (transfer 1 2)) ∷ []) in
    (status_of (serve 5 (run init trace) batch) ≡ some 200)
    × ((get_numbers app.transaction_list).average_number_of_chains ≡ not_a_number)
    × ((on_message (update_of app)).chains ≡ 0)
batch_poisons_example =
    batch_poisons trace (request 6 (post_register_transaction (transfer 1 2)) ∷ []) 5 some_uncounted
      refl (inr (inl refl)) refl
