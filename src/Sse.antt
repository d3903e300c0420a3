-- ===== src/Sse.antt =====
-- tracker-server/helpers/sse.js: the clients that listen for updates. A connection is a number,
-- the identity of the object; what is written to its response is a list of chunks. The text of a
-- message, "data: " with the JSON of the update and two line ends, is kept as the update.
pub mod Laws
use scale_out_distributed_le.Common.{
  ℕ, zero, suc, ◌+◌, Option, none, some, List, [], ◌∷◌, ◌++◌, map, ◌==◌, if◌then◌else◌,
}
use scale_out_distributed_le.Nodes.{GraphNode}
use scale_out_distributed_le.Transactions.{Edge, Numbers}

pub record Update : Type 0 where
  pub nodes : List GraphNode
  pub edges : List Edge
  pub numbers : Numbers

-- `event_stream` is the head that `setup` writes, `message` is what `send` writes.
pub data Chunk : Type 0 where
  event_stream : Chunk
  message : Update → Chunk

-- What was written, and to which connection, oldest first.
abbrev pub Output : Type 0
Output = List (ℕ × Chunk)

abbrev pub setup : ℕ → Output → Output
setup conn out = out ++ (conn, event_stream) ∷ []

abbrev pub send : Update → Output → ℕ → Output
send update out conn = out ++ (conn, message update) ∷ []

pub record Topic : Type 0 where
  pub connections : List ℕ

abbrev pub new_topic : Topic
new_topic = record { connections = [] }

unfoldable pub add : Topic → ℕ → Topic
add topic conn = record topic { connections = topic.connections ++ conn ∷ [] }

-- `connections.indexOf(conn)`, where `none` is -1.
index_from : ℕ → ℕ → List ℕ → Option ℕ
index_from i conn [] = none
index_from i conn (c ∷ cs) = if c == conn then some i else index_from (i + 1) conn cs

-- `connections.splice(i, 1)`
splice : ℕ → List ℕ → List ℕ
splice i [] = []
splice zero (c ∷ cs) = cs
splice (suc i) (c ∷ cs) = c ∷ splice i cs

-- The handler of the event "close" of a connection.
unfoldable pub closed : Topic → ℕ → Topic
unfolding index_from splice
closed topic conn = elim (index_from 0 conn topic.connections) [
  | none ↦ topic
  | some i ↦ record topic { connections = splice i topic.connections }
]

-- `connections.forEach(conn => conn.send(update))`
send_each : Update → Output → List ℕ → Output
send_each update out [] = out
send_each update out (c ∷ cs) = send_each update (send update out c) cs

unfoldable pub broadcast : Topic → Update → Output → Output
unfolding send_each
broadcast topic update out = send_each update out topic.connections
