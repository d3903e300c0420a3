-- ===== src/Routes/Refusals.antt =====
-- Requests that are refused or fail: what they leave of the state, and when they happen.
use scale_out_distributed_le.Common.{
  ℕ, ◌≤◌, ◌<◌, ◌≡◌, ◌≢◌, ◌↔◌, ◌⊎◌, refl, true, false, Option, none, some, arith, length, inl, inr,
  Option-cases, Bool-cases, List,
}
use scale_out_distributed_le.Js.{Json, Arg, value, is_present}
use scale_out_distributed_le.Nodes.{get_node}
use scale_out_distributed_le.Nodes.Update.{update_node-cases}
use scale_out_distributed_le.Nodes.Slots.{
  set_node_status-eq-false_iff, set_node_status-eq-type_error_iff,
}
use scale_out_distributed_le.Routes.Requests.{
  NodeBody, Element, missing, no_value, array, not_array, node_fields, status_fields,
}
use scale_out_distributed_le.Transactions.{add_all}
use scale_out_distributed_le.Routes.Batch.{before_null, has_no_null, add_elements-add_all}
use scale_out_distributed_le.Routes.{
  handle_register_transactions, App, Request, Response, get_root, post_update_node,
  post_register_node, post_register_transaction, post_register_transactions, post_set_node_status,
  get_node_by_id, get_demo, post_reset, get_status, get_updates, post_write_data, no_route, serve,
  error_response, success_id, json,
}

-- `isPresent` takes every value but undefined and null.
pub is_present_iff : (arg : Arg) → (is_present arg ≡ true) ↔ ((arg ≢ none) × (arg ≢ some Json.null))
unfolding is_present
is_present_iff none = ground arith
is_present_iff (some Json.null) = ground arith
is_present_iff (some (Json.bool b)) = ground arith
is_present_iff (some (Json.num n)) = ground arith
is_present_iff (some (Json.negsuc n)) = ground arith
is_present_iff (some (Json.str s)) = ground arith
is_present_iff (some (Json.arr x)) = ground arith
is_present_iff (some (Json.obj x)) = ground arith

-- The status of an answer; a request that waits has none.
abbrev pub status_of : App × Option Response → Option ℕ
status_of (app, none) = none
status_of (app, some r) = some r.status

-- Whatever its body, `/update-node` never succeeds: it answers 403 or fails with 500, and the
-- state stays as it was, also for the id of a registered node.
pub serve-update_node_refuses :
    (now : ℕ) (app : App) (body : NodeBody)
    → ((serve now app (post_update_node body)).0 ≡ app)
      × ((status_of (serve now app (post_update_node body)) ≡ some 403)
          ⊎ (status_of (serve now app (post_update_node body)) ≡ some 500))
unfolding serve
serve-update_node_refuses now app body = elim (Option-cases (node_fields body)) [
  | inl missing_one ↦ ground arith
  | inr ((id, address, port, public_key), given) ↦
      ground (arith, update_node-cases app.node_list id address port public_key)
]

-- What a request that does not succeed leaves: the state as it was, or, for a batch with an array, the
-- state with the transactions before the first null.
abbrev pub left_by : App → Request → App
left_by app (post_register_transactions (array es)) = record app {
  transaction_list = add_all app.transaction_list (before_null es);
}
left_by app _ = app

serve-batch :
    (now : ℕ) (app : App) (es : List Element) (status : ℕ)
    → status_of (serve now app (post_register_transactions (array es))) ≡ some status
    → status ≢ 200
    → (serve now app (post_register_transactions (array es))).0
      ≡ left_by app (post_register_transactions (array es))
unfolding serve handle_register_transactions
serve-batch now app es status e h =
    let loop = add_elements-add_all app.transaction_list es in
    elim (Bool-cases (has_no_null es)) [
      | inl whole ↦ absurd (ground (arith, whole, loop, e, h))
      | inr broken ↦ ground (arith, broken, loop)
    ]

-- A request whose answer has another status than 200 leaves the whole state as it was, clients and
-- output included, but for a batch with an array: what stands before its first null is added, and
-- nothing else changes.
pub serve-left_by :
    (now : ℕ) (app : App) (request : Request) (status : ℕ)
    → status_of (serve now app request) ≡ some status
    → status ≢ 200
    → (serve now app request).0 ≡ left_by app request
unfolding serve
serve-left_by now app get_root status e h = refl
serve-left_by now app (post_update_node body) status e h =
    (serve-update_node_refuses now app body).0
serve-left_by now app (post_register_node body) status e h = ground arith
serve-left_by now app (post_register_transaction tx) status e h = ground arith
serve-left_by now app (post_register_transactions missing) status e h = refl
serve-left_by now app (post_register_transactions no_value) status e h = refl
serve-left_by now app (post_register_transactions not_array) status e h = refl
serve-left_by now app (post_register_transactions (array es)) status e h =
    serve-batch now app es status e h
serve-left_by now app (post_set_node_status body) status e h = ground arith
serve-left_by now app (get_node_by_id id) status e h = ground arith
serve-left_by now app get_demo status e h = refl
serve-left_by now app post_reset status e h = absurd (ground arith)
serve-left_by now app get_status status e h = refl
serve-left_by now app get_updates status e h = absurd (ground arith)
serve-left_by now app (post_write_data true) status e h = absurd (ground arith)
serve-left_by now app (post_write_data false) status e h = absurd (ground arith)
serve-left_by now app no_route status e h = refl

-- `/set-node-status` with an id past the end of the list and a status that is not null answers
-- success, though nothing changes.
serve-set_node_status_past :
    (now : ℕ) (app : App) (id : ℕ) (running : Json)
    → length app.node_list.nodes ≤ id
    → running ≢ Json.null
    → serve now app (post_set_node_status (record { id = value id; running = some running }))
      ≡ (app, json (success_id id))
unfolding serve status_fields
serve-set_node_status_past now app id running past given = ground (
  arith,
  (set_node_status-eq-false_iff app.node_list id running).1 past,
  is_present_iff (some running),
  is_present_iff (some (Json.num id)),
)

-- `/set-node-status` with an id below the length at which no node stands, and a status that is not
-- null, fails with 500 and changes nothing.
serve-set_node_status_hole :
    (now : ℕ) (app : App) (id : ℕ) (running : Json)
    → id < length app.node_list.nodes
    → get_node app.node_list id ≡ none
    → running ≢ Json.null
    → serve now app (post_set_node_status (record { id = value id; running = some running }))
      ≡ (app, some (error_response none))
unfolding serve status_fields
serve-set_node_status_hole now app id running below hole given = ground (
  arith,
  (set_node_status-eq-type_error_iff app.node_list id running).1 (below, hole),
  is_present_iff (some running),
  is_present_iff (some (Json.num id)),
)
