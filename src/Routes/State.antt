-- ===== src/Routes/State.antt =====
-- The state of the application, the requests and the responses of tracker-server/routes/index.js
-- and tracker-server/app.js.
use scale_out_distributed_le.Common.{ℕ, String, Bool, Option, some, List, []}
use scale_out_distributed_le.Js.{Field}
use scale_out_distributed_le.Nodes.{Node, NodeList, new_list}
use scale_out_distributed_le.Transactions.{Transaction, TransactionList, Numbers, new_transactions}
use scale_out_distributed_le.Sse.{Topic, Output, new_topic}
use scale_out_distributed_le.Routes.Requests.{NodeBody, StatusBody, BatchBody}

-- The files of `/write-data`, with the values whose JSON or records they hold.
pub data File : Type 0 where
  node_list_json : NodeList → File
  transaction_list_json : TransactionList → File
  data_csv : List Numbers → File

-- `data_timers` is the number of intervals that `initDataHeartbeat` has set; `next_connection` is
-- the identity of the next connection that the middleware makes.
pub record App : Type 0 where
  pub node_list : NodeList
  pub transaction_list : TransactionList
  pub sse_clients : Topic
  pub output : Output
  pub next_connection : ℕ
  pub data_timers : ℕ
  pub files : List File

-- The state when the modules have been loaded: no data timer is set.
abbrev pub init : App
init = record {
  node_list = new_list;
  transaction_list = new_transactions;
  sse_clients = new_topic;
  output = [];
  next_connection = 0;
  data_timers = 0;
  files = [];
}

pub data Body : Type 0 where
  nodes : List (Option Node) → Body
  success : Body
  success_id : ℕ → Body
  success_node : Node → Body
  failure : String → Body
  counts : (registered running : ℕ) → Body
  demo_page : Body
  stream : Body
  numbers : List Numbers → Body
  error : (status : Option ℕ) → Body

pub record Response : Type 0 where
  pub status : ℕ
  pub body : Body

abbrev pub json : Body → Option Response
json body = some (record { status = 200; body = body })

abbrev pub forbidden : String → Option Response
forbidden err = some (record { status = 403; body = failure err })

-- What a handler does: it answers, with `none` for a request that is left without an answer, or throws
-- a TypeError in some state. What it changed before it throws stays changed.
pub data Outcome : Type 0 where
  answers : App × Option Response → Outcome
  throws : App → Outcome

pub data Request : Type 0 where
  get_root : Request
  post_update_node : NodeBody → Request
  post_register_node : NodeBody → Request
  post_register_transaction : Transaction → Request
  post_register_transactions : BatchBody → Request
  post_set_node_status : StatusBody → Request
  get_node_by_id : Field → Request
  get_demo : Request
  post_reset : Request
  get_status : Request
  get_updates : Request
  post_write_data : (csv_written : Bool) → Request
  no_route : Request
