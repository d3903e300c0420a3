-- ===== src/Demo.antt =====
-- The page of tracker-server/public/javascripts/demo.js: what it shows of a message. A number with
-- two decimals is kept in hundredths.
pub mod Rounding
use scale_out_distributed_le.Common.{
  ℕ, ◌+◌, ◌*◌, ◌/◌, String, Bool, true, false, ◌||◌, List, [], ◌∷◌, if◌then◌else◌,
}
use text.Mathlib.Text.{◌==◌ as str_eq}
use scale_out_distributed_le.Nodes.{GraphNode}
use scale_out_distributed_le.Transactions.{Edge, Ratio, not_a_number, ratio}
use scale_out_distributed_le.Sse.{Update}

-- `Math.round(average * 100)`, which rounds a half up. NaN travels as null, which counts as 0.
unfoldable pub hundredths : Ratio → ℕ
hundredths not_a_number = 0
hundredths (ratio a n) = (200 * a + n) / (2 * n)

pub record View : Type 0 where
  pub graph_nodes : List GraphNode
  pub graph_edges : List Edge
  pub transactions : ℕ
  pub chains : ℕ
  pub blocks : ℕ

-- The callback `onmessage`, with the data of the message.
unfoldable pub on_message : Update → View
unfolding hundredths
on_message message = record {
  graph_nodes = message.nodes;
  graph_edges = message.edges;
  transactions = message.numbers.number_of_transactions;
  chains = hundredths message.numbers.average_number_of_chains;
  blocks = hundredths message.numbers.average_number_of_blocks;
}

-- `path.indexOf(name) !== -1`
unfoldable pub has : String → List String → Bool
has name [] = false
has name (x ∷ xs) = str_eq x name || has name xs

-- The filter of the options that the page lets a user configure.
unfoldable pub filter_option : (option : String) (path : List String) → Bool
unfolding has
filter_option option path =
    if has "physics" path
    then true
    else if has "smooth" path || str_eq option "smooth"
    then true
    else if has "color" path || str_eq option "color"
    then true
    else if has "nodes" path
    then true
    else false
