-- ===== src/Transactions.antt =====
-- tracker-server/model/Transaction.js and TransactionList.js: the registered transactions, under
-- one key for the two nodes of each. The keys hold a comma, so none is an inherited property, and
-- `Object.keys` lists them in the order of insertion. A quotient is kept as the pair of the
-- numbers that are divided; its rounding to a double is not modelled.
pub mod Dictionary
pub mod Pairs
pub mod Log
pub mod Edges
pub mod Averages
use scale_out_distributed_le.Common.{
  ℕ, ◌+◌, Bool, true, false, not, ◌||◌, Option, none, some, List, [], ◌∷◌, ◌++◌, map, length,
  get_elem?, ◌==◌, if◌then◌else◌,
}
use scale_out_distributed_le.Js.{Arg, Field, Number, nan, number, to_number, add, gt}
use scale_out_distributed_le.Js.Decimal.{Text}
use scale_out_distributed_le.Js.Keys.{part, join, split, text_eq}

-- The constructor stores its arguments as they are, missing ones too.
pub record Transaction : Type 0 where
  pub from : Field
  pub to : Field
  pub amount : Arg
  pub remainder : Arg
  pub number_of_chains : Field
  pub number_of_blocks : Field

pub data Ratio : Type 0 where
  not_a_number : Ratio
  ratio : (numerator denominator : ℕ) → Ratio

-- `a / n`
abbrev pub div : Number → ℕ → Ratio
div nan n = not_a_number
div (number a) n = ratio a n

-- `r !== 0`
abbrev pub is_nonzero : Ratio → Bool
is_nonzero not_a_number = true
is_nonzero (ratio a n) = not (a == 0)

pub record Numbers : Type 0 where
  pub number_of_transactions : ℕ
  pub average_number_of_blocks : Ratio
  pub average_number_of_chains : Ratio

pub record TransactionList : Type 0 where
  pub transactions : List (Text × List Transaction)
  pub number_of_transactions : ℕ
  pub number_of_chains : Number
  pub number_of_blocks : Number
  pub numbers_array : List Numbers

abbrev pub new_transactions : TransactionList
new_transactions = record {
  transactions = [];
  number_of_transactions = 0;
  number_of_chains = number 0;
  number_of_blocks = number 0;
  numbers_array = [];
}

module _ {ℓ} {V : Type ℓ} where
  -- `object[key]` and `object[key] = v`; a new key comes after the others.
  unfoldable pub lookup : Text → List (Text × V) → Option V
  lookup key [] = none
  lookup key ((k, v) ∷ d) = if text_eq k key then some v else lookup key d

  unfoldable pub set_key : Text → V → List (Text × V) → List (Text × V)
  set_key key v [] = (key, v) ∷ []
  set_key key v ((k, w) ∷ d) = if text_eq k key then (k, v) ∷ d else (k, w) ∷ set_key key v d

-- The key of two nodes: the one with the smaller id comes first.
unfoldable pub edge_key : Field → Field → Text
unfolding join
edge_key from to =
    if gt (to_number from) (to_number to)
    then join (part to) (part from)
    else join (part from) (part to)

-- The stored list of a key, and the entry after one more transaction.
abbrev stored_with : Option (List Transaction) → Transaction → List Transaction
stored_with none tx = tx ∷ []
stored_with (some txs) tx = txs ++ tx ∷ []

unfoldable pub add_transaction : TransactionList → Transaction → TransactionList
unfolding edge_key lookup set_key
add_transaction l tx =
    let key = edge_key tx.from tx.to in
    record l {
      number_of_transactions = l.number_of_transactions + 1;
      number_of_chains = add l.number_of_chains (to_number tx.number_of_chains);
      number_of_blocks = add l.number_of_blocks (to_number tx.number_of_blocks);
      transactions = set_key key (stored_with (lookup key l.transactions) tx) l.transactions;
    }

-- `addTransaction` of each transaction in order.
unfoldable pub add_all : TransactionList → List Transaction → TransactionList
add_all l [] = l
add_all l (tx ∷ txs) = add_all (add_transaction l tx) txs

abbrev weight_of : Option (List Transaction) → ℕ
weight_of none = 0
weight_of (some txs) = length txs

unfoldable pub get_edge_weight_with_key : TransactionList → Text → ℕ
unfolding lookup
get_edge_weight_with_key l key = weight_of (lookup key l.transactions)

unfoldable pub get_edge_weight : TransactionList → (node1 node2 : Field) → ℕ
unfolding get_edge_weight_with_key edge_key
get_edge_weight l node1 node2 = get_edge_weight_with_key l (edge_key node1 node2)

-- An end is `none` where the split key has no such element.
pub record Edge : Type 0 where
  pub from : Option Text
  pub to : Option Text
  pub value : ℕ

abbrev pub keys : List (Text × List Transaction) → List Text
keys = map (λ e. e.0)

abbrev pub edge_of : TransactionList → Text → Edge
edge_of l key =
    let key_array = split key in
    record {
      from = get_elem? key_array 0;
      to = get_elem? key_array 1;
      value = get_edge_weight_with_key l key;
    }

unfoldable pub get_graph_edges : TransactionList → List Edge
unfolding get_edge_weight_with_key
get_graph_edges l = map (edge_of l) (keys l.transactions)

unfoldable pub get_numbers : TransactionList → Numbers
get_numbers l = record {
  number_of_transactions = l.number_of_transactions;
  average_number_of_blocks =
      if not (l.number_of_transactions == 0)
      then div l.number_of_blocks l.number_of_transactions
      else ratio 0 1;
  average_number_of_chains =
      if not (l.number_of_transactions == 0)
      then div l.number_of_chains l.number_of_transactions
      else ratio 0 1;
}

unfoldable pub add_numbers_to_array : TransactionList → TransactionList
unfolding get_numbers
add_numbers_to_array l =
    let numbers = get_numbers l in
    if not (numbers.number_of_transactions == 0)
      || is_nonzero numbers.average_number_of_blocks
      || is_nonzero numbers.average_number_of_chains
    then record l { numbers_array = l.numbers_array ++ numbers ∷ [] }
    else l

abbrev pub get_numbers_array : TransactionList → List Numbers
get_numbers_array l = l.numbers_array
