-- ===== src/Tests/Models.antt =====
-- The theorems on nodes, transactions, clients and ports, at inputs that meet their hypotheses.
use mathlib.Core.List.{Memᴰ}
use scale_out_distributed_le.Common.{◌≡◌, refl, true, List, [], ◌∷◌, arith, All, sum_by}
use scale_out_distributed_le.Js.{Json, returns}
use scale_out_distributed_le.Nodes.{set_node_status}
use scale_out_distributed_le.Nodes.Slots.{marked}
use scale_out_distributed_le.Transactions.{
  Transaction, Edge, new_transactions, add_all, get_graph_edges,
}
use scale_out_distributed_le.Transactions.Edges.{
  HasEnds, IsEdge, edge_between, get_graph_edges-IsEdge, edge_between-Mem, sum-get_graph_edges,
}
use scale_out_distributed_le.Transactions.Averages.{HasCounts}
use scale_out_distributed_le.Sse.{Topic}
use scale_out_distributed_le.Tests.Program.{program, transfer, uncounted, node_at, two_nodes}

abbrev log : List Transaction
log = transfer 2 0 ∷ transfer 0 2 ∷ transfer 10 2 ∷ []

log-HasEnds : All HasEnds log
log-HasEnds = ((2, 0, refl, refl), ((0, 2, refl, refl), ((10, 2, refl, refl), tt)))

log-HasCounts : All HasCounts log
log-HasCounts = ((2, 7, refl, refl), ((2, 7, refl, refl), ((2, 7, refl, refl), tt)))

get_graph_edges-IsEdge_example : All (IsEdge log) (get_graph_edges (add_all new_transactions log))
get_graph_edges-IsEdge_example = get_graph_edges-IsEdge log log-HasEnds

edge_between-Mem_example :
    Memᴰ (edge_between log 0 2) (get_graph_edges (add_all new_transactions log))
edge_between-Mem_example = edge_between-Mem log 0 2 (omega arith) (omega arith)

sum-get_graph_edges_example :
    sum_by (λ (e : Edge). e.value) (get_graph_edges (add_all new_transactions (uncounted ∷ log)))
    ≡ 4
sum-get_graph_edges_example = sum-get_graph_edges (uncounted ∷ log)

set_two :
    set_node_status two_nodes 2 (Json.bool true)
    ≡ returns (marked two_nodes 2 (Json.bool true) (node_at 2), true)
unfolding program
set_two = refl

abbrev three_clients : Topic
three_clients = record { connections = 4 ∷ 5 ∷ 6 ∷ [] }
