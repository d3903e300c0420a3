-- ===== src/Transactions/Edges.antt =====
-- The edges of `getGraphEdges`, against the log of the transactions that were added.
use scale_out_distributed_le.Common.{
  ℕ, ◌+◌, ◌≤◌, ◌<◌, ◌≡◌, refl, sym, ap, subst, ◌∙◌, Bool, true, false, some, List, [], ◌∷◌, arith,
  length, length-select, select, count_by, sum_by, map, All, Bool-cases, ltb, inl, inr,
}
use mathlib.Core.List.{Memᴰ}
use native.Mathlib.Decide.{dec_le}
use scale_out_distributed_le.Js.{value}
use scale_out_distributed_le.Js.Decimal.{Text, to_string}
use scale_out_distributed_le.Js.Keys.{text_eq, text_eq_iff}
use scale_out_distributed_le.Transactions.{
  Transaction, TransactionList, Edge, new_transactions, lookup, edge_key, add_all, keys, edge_of,
  get_edge_weight_with_key, get_graph_edges,
}
use scale_out_distributed_le.Transactions.Dictionary.{Distinct, Fresh, text_eq_refl, text_eq_symm}
use scale_out_distributed_le.Transactions.Pairs.{between, split-edge_key, edge_key_symm}
use scale_out_distributed_le.Transactions.Log.{
  Tracks, Tracks-add_all_new, has_key, stored, weight-edge_key, count-edge_key,
}

-- Entries of a part of a dictionary are found in the whole.
abbrev Found : TransactionList → List (Text × List Transaction) → Type 0
Found l = All (λ e. lookup e.0 l.transactions ≡ some e.1)

Found-skip :
    (k : Text) (v : List Transaction) (d e : List (Text × List Transaction))
    → Fresh k e
    → All (λ x. lookup x.0 d ≡ some x.1) e
    → All (λ x. lookup x.0 ((k, v) ∷ d) ≡ some x.1) e
unfolding lookup
Found-skip k v d [] f h = tt
Found-skip k v d ((j, w) ∷ e) f h = (rw (text_eq_symm k j, f.0) h.0, Found-skip k v d e f.1 h.1)

Distinct-Found :
    (d : List (Text × List Transaction)) → Distinct d → All (λ x. lookup x.0 d ≡ some x.1) d
unfolding lookup
Distinct-Found [] h = tt
Distinct-Found ((k, v) ∷ d) h = (rw (text_eq_refl k), Found-skip k v d d h.0 (Distinct-Found d h.1))

sum-weights :
    (l : TransactionList) (d : List (Text × List Transaction))
    → Found l d
    → sum_by (λ (e : Edge). e.value) (map (edge_of l) (keys d)) ≡ sum_by (λ e. length e.1) d
unfolding get_edge_weight_with_key
sum-weights l [] h = refl
sum-weights l ((k, v) ∷ d) h = rw h.0 (ap (λ n. length v + n) (sum-weights l d h.1))

sum-edges-Tracks :
    (log : List Transaction) (l : TransactionList)
    → Tracks log l
    → sum_by (λ (e : Edge). e.value) (get_graph_edges l) ≡ length log
unfolding get_graph_edges
sum-edges-Tracks log l t =
    sum-weights l l.transactions (Distinct-Found l.transactions t.distinct) ∙ t.held

-- The weights of all edges add up to the number of transactions: none is lost or counted twice.
pub sum-get_graph_edges :
    (log : List Transaction)
    → sum_by (λ (e : Edge). e.value) (get_graph_edges (add_all new_transactions log)) ≡ length log
sum-get_graph_edges log =
    sum-edges-Tracks log (add_all new_transactions log) (Tracks-add_all_new log)

-- Both ends of the transaction are given.
abbrev pub HasEnds : Transaction → Type 0
HasEnds tx = (a : ℕ) × (b : ℕ) × (tx.from ≡ value a) × (tx.to ≡ value b)

-- The edge of the nodes `a` and `b` in the graph of a log.
abbrev pub edge_between : List Transaction → (a b : ℕ) → Edge
edge_between log a b = record {
  from = some (to_string a);
  to = some (to_string b);
  value = count_by (between a b) log;
}

-- The edge joins two nodes, the smaller id first, and its value counts what was sent between them.
abbrev pub IsEdge : List Transaction → Edge → Type 0
IsEdge log e =
    (a : ℕ) × (b : ℕ) × (a ≤ b) × (e ≡ edge_between log a b) × (0 < count_by (between a b) log)

select-head :
    (p : Transaction → Bool) (log rest : List Transaction) (tx : Transaction)
    → All HasEnds log
    → select p log ≡ tx ∷ rest
    → (p tx ≡ true) × HasEnds tx
select-head p [] rest tx h e = absurd (ground arith)
select-head p (x ∷ log) rest tx h e = elim (Bool-cases (p x)) [
  | inl here ↦ let same : x ≡ tx = ground arith in rw (← same) (here, h.0)
  | inr there ↦ select-head p log rest tx h.1 (ground arith)
]

edge_of-key :
    (log : List Transaction) (l : TransactionList) (a b : ℕ)
    → Tracks log l
    → a ≤ b
    → edge_of l (edge_key (value a) (value b)) ≡ edge_between log a b
edge_of-key log l a b t h =
    let ordered : ltb b a ≡ false = ground arith in
    rw (split-edge_key (value a) (value b), ordered, weight-edge_key log l a b t)

module _ (log : List Transaction) (l : TransactionList) (t : Tracks log l) where
  -- A key that holds a transaction is that of two nodes between which there is one.
  key-IsEdge :
      (key : Text) (a b : ℕ) (tx : Transaction) (rest : List Transaction)
      → key ≡ edge_key (value a) (value b)
      → select (has_key key) log ≡ tx ∷ rest
      → a ≤ b
      → IsEdge log (edge_of l key)
  key-IsEdge key a b tx rest own e h = rw own (
    a,
    b,
    h,
    edge_of-key log l a b t h,
    omega (
      arith,
      count-edge_key log a b,
      length-select (has_key (edge_key (value a) (value b))) log,
      ap length (rw own at e),
    ),
  )

  holds-IsEdge :
      (key : Text) (a b : ℕ) (tx : Transaction) (rest : List Transaction)
      → key ≡ edge_key (value a) (value b)
      → select (has_key key) log ≡ tx ∷ rest
      → IsEdge log (edge_of l key)
  holds-IsEdge key a b tx rest own e = elim (dec_le a b) [
    | yes h ↦ key-IsEdge key a b tx rest own e h
    | no h ↦ key-IsEdge key b a tx rest (own ∙ edge_key_symm a b) e (omega arith)
  ]

  stored-IsEdge :
      (key : Text) (txs under : List Transaction)
      → All HasEnds log
      → lookup key l.transactions ≡ some txs
      → select (has_key key) log ≡ under
      → IsEdge log (edge_of l key)
  stored-IsEdge key txs [] h found e = absurd (ground (arith, t.entries key))
  stored-IsEdge key txs (tx ∷ rest) h found e =
      let (hit, (a, b, p, q)) = select-head (has_key key) log rest tx h e in
      holds-IsEdge key a b tx rest (sym ((text_eq_iff (edge_key tx.from tx.to) key).0 hit) ∙ cc) e

  entries-IsEdge :
      (d : List (Text × List Transaction))
      → All HasEnds log
      → Found l d
      → All (IsEdge log) (map (edge_of l) (keys d))
  entries-IsEdge [] h f = tt
  entries-IsEdge ((key, txs) ∷ d) h f =
      (stored-IsEdge key txs (select (has_key key) log) h f.0 refl, entries-IsEdge d h f.1)

-- Where every transaction has both its ends, every edge of the graph joins two nodes between which
-- something was sent, the smaller id first, and its value is the number of these transactions.
pub get_graph_edges-IsEdge :
    (log : List Transaction)
    → All HasEnds log
    → All (IsEdge log) (get_graph_edges (add_all new_transactions log))
unfolding get_graph_edges
get_graph_edges-IsEdge log h =
    let t = Tracks-add_all_new log in
    let l = add_all new_transactions log in
    entries-IsEdge log l t l.transactions h (Distinct-Found l.transactions t.distinct)

Mem-edge_of :
    (l : TransactionList) (key : Text) (v : List Transaction) (d : List (Text × List Transaction))
    → lookup key d ≡ some v
    → Memᴰ (edge_of l key) (map (edge_of l) (keys d))
unfolding lookup
Mem-edge_of l key v [] e = absurd (ground arith)
Mem-edge_of l key v ((k, w) ∷ d) e = elim (Bool-cases (text_eq k key)) [
  | inl same ↦ Memᴰ.head (ap (edge_of l) (sym ((text_eq_iff k key).0 same)))
  | inr other ↦ Memᴰ.tail (Mem-edge_of l key v d (ground arith))
]

stored-some :
    (txs : List Transaction) → 0 < length txs → (v : List Transaction) × (stored txs ≡ some v)
stored-some [] h = absurd (omega arith)
stored-some (tx ∷ txs) h = (tx ∷ txs, refl)

-- Every two nodes between which a transaction was added have their edge in the graph, whatever
-- the other transactions are.
pub edge_between-Mem :
    (log : List Transaction) (a b : ℕ)
    → a ≤ b
    → 0 < count_by (between a b) log
    → Memᴰ (edge_between log a b) (get_graph_edges (add_all new_transactions log))
unfolding get_graph_edges
edge_between-Mem log a b h pos =
    let l = add_all new_transactions log in
    let t = Tracks-add_all_new log in
    let key = edge_key (value a) (value b) in
    let some_stored =
      stored-some (select (has_key key) log)
        (omega (arith, count-edge_key log a b, length-select (has_key key) log)) in
    subst (λ e. Memᴰ e (map (edge_of l) (keys l.transactions))) (edge_of-key log l a b t h)
      (Mem-edge_of l key some_stored.0 l.transactions (t.entries key ∙ some_stored.1))
