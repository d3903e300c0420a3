-- ===== src/Transactions/Log.antt =====
-- The list against the log of all transactions that were added: what every field holds.
use scale_out_distributed_le.Common.{
  ℕ, ◌+◌, ◌≡◌, refl, sym, ap, ◌∙◌, fun_ext, Bool, Option, none, some, List, [], ◌∷◌, ◌++◌, arith,
  Bool-cases, inl, inr, length, select, count_by, sum_by, length-select, length-append,
  select-append, append_assoc, append-nil,
}
use scale_out_distributed_le.Js.{Field, Number, number, to_number, add, value}
use scale_out_distributed_le.Js.Decimal.{Text}
use scale_out_distributed_le.Js.Keys.{text_eq, text_eq_iff}
use scale_out_distributed_le.Transactions.{
  Transaction, TransactionList, new_transactions, lookup, edge_key, stored_with, add_transaction,
  add_all, weight_of, get_edge_weight_with_key, get_edge_weight,
}
use scale_out_distributed_le.Transactions.Dictionary.{
  lookup-set_key, measure_of, Distinct, Distinct-set_key, sum_by-set_key,
}
use scale_out_distributed_le.Transactions.Pairs.{between, edge_key_between, edge_key_symm}

-- The transactions of a log that are stored under a key.
abbrev pub has_key : Text → Transaction → Bool
has_key key tx = text_eq (edge_key tx.from tx.to) key

-- A property that holds no entry reads as undefined, one with entries as their list.
abbrev pub stored : List Transaction → Option (List Transaction)
stored [] = none
stored (tx ∷ txs) = some (tx ∷ txs)

-- The sum of a field over a log, with the conversions of the source.
abbrev pub total : (Transaction → Field) → List Transaction → Number
total f [] = number 0
total f (tx ∷ txs) = add (to_number (f tx)) (total f txs)

abbrev pub chains_of : Transaction → Field
chains_of tx = tx.number_of_chains

abbrev pub blocks_of : Transaction → Field
blocks_of tx = tx.number_of_blocks

-- The list is what adding the transactions of the log, oldest first, makes of it.
pub record Tracks (log : List Transaction) (l : TransactionList) : Type 0 where
  pub counted : l.number_of_transactions ≡ length log
  pub chains : l.number_of_chains ≡ total chains_of log
  pub blocks : l.number_of_blocks ≡ total blocks_of log
  pub entries : (key : Text) → lookup key l.transactions ≡ stored (select (has_key key) log)
  pub distinct : Distinct l.transactions
  pub held : sum_by (λ e. length e.1) l.transactions ≡ length log

pub Tracks-new : Tracks [] new_transactions
unfolding lookup
Tracks-new = record {
  counted = refl;
  chains = refl;
  blocks = refl;
  entries = λ key. refl;
  distinct = tt;
  held = refl;
}

add_assoc_number : (a b c : Number) → add (add a b) c ≡ add a (add b c)
add_assoc_number a b c = ground arith

total-append :
    (f : Transaction → Field) (log : List Transaction) (tx : Transaction)
    → total f (log ++ tx ∷ []) ≡ add (total f log) (to_number (f tx))
total-append f [] tx = ground arith
total-append f (x ∷ log) tx = ground (
  arith,
  total-append f log tx,
  add_assoc_number (to_number (f x)) (total f log) (to_number (f tx)),
)

stored_with-stored :
    (txs : List Transaction) (tx : Transaction)
    → stored (txs ++ tx ∷ []) ≡ some (stored_with (stored txs) tx)
stored_with-stored [] tx = refl
stored_with-stored (x ∷ txs) tx = refl

length-stored_with :
    (o : Option (List Transaction)) (tx : Transaction)
    → length (stored_with o tx) ≡ measure_of length o + 1
length-stored_with none tx = refl
length-stored_with (some txs) tx = length-append txs (tx ∷ [])

entry-add_transaction :
    (log : List Transaction) (l : TransactionList) (tx : Transaction)
    → Tracks log l
    → (key : Text)
    → lookup key (add_transaction l tx).transactions
      ≡ stored (select (has_key key) (log ++ tx ∷ []))
unfolding add_transaction
entry-add_transaction log l tx t key =
    let own = edge_key tx.from tx.to in
    rw (lookup-set_key own key _ l.transactions, select-append (has_key key) log (tx ∷ []))
      (elim (Bool-cases (text_eq own key)) [
        | inl same ↦
            rw (same, ← (text_eq_iff own key).0 same, t.entries own)
              (sym (stored_with-stored (select (has_key own) log) tx))
        | inr other ↦ rw (other, append-nil (select (has_key key) log)) (t.entries key)
      ])

-- Adding a transaction keeps up with the log.
pub Tracks-add_transaction :
    (log : List Transaction) (l : TransactionList) (tx : Transaction)
    → Tracks log l
    → Tracks (log ++ tx ∷ []) (add_transaction l tx)
unfolding add_transaction
Tracks-add_transaction log l tx t = record {
  counted = omega (arith, t.counted, length-append log (tx ∷ []));
  chains = rw (t.chains, total-append chains_of log tx);
  blocks = rw (t.blocks, total-append blocks_of log tx);
  entries = entry-add_transaction log l tx t;
  distinct = Distinct-set_key _ _ l.transactions t.distinct;
  held =
      let own = edge_key tx.from tx.to in
      omega (
        arith,
        t.held,
        length-append log (tx ∷ []),
        sum_by-set_key length own (stored_with (lookup own l.transactions) tx) l.transactions,
        length-stored_with (lookup own l.transactions) tx,
      );
}

-- So does a whole batch.
pub Tracks-add_all :
    (log : List Transaction) (l : TransactionList) (txs : List Transaction)
    → Tracks log l
    → Tracks (log ++ txs) (add_all l txs)
unfolding add_all
Tracks-add_all log l [] t = rw (append-nil log) t
Tracks-add_all log l (tx ∷ txs) t =
    rw (← append_assoc log (tx ∷ []) txs) (
      Tracks-add_all (log ++ tx ∷ []) (add_transaction l tx) txs
        (Tracks-add_transaction log l tx t))

pub Tracks-add_all_new : (log : List Transaction) → Tracks log (add_all new_transactions log)
Tracks-add_all_new log = Tracks-add_all [] new_transactions log Tracks-new

weight_of-stored : (txs : List Transaction) → weight_of (stored txs) ≡ length txs
weight_of-stored [] = refl
weight_of-stored (x ∷ txs) = refl

-- The weight of a key is the number of transactions that are stored under it.
pub get_edge_weight_with_key-Tracks :
    (log : List Transaction) (l : TransactionList) (key : Text)
    → Tracks log l
    → get_edge_weight_with_key l key ≡ count_by (has_key key) log
unfolding get_edge_weight_with_key
get_edge_weight_with_key-Tracks log l key t =
    rw (t.entries key, weight_of-stored) (length-select (has_key key) log)

-- The transactions under the key of two nodes are those between the nodes.
pub count-edge_key :
    (log : List Transaction) (a b : ℕ)
    → count_by (has_key (edge_key (value a) (value b))) log ≡ count_by (between a b) log
count-edge_key log a b = ap (λ p. count_by p log) (fun_ext λ tx. edge_key_between tx.from tx.to a b)

pub weight-edge_key :
    (log : List Transaction) (l : TransactionList) (a b : ℕ)
    → Tracks log l
    → get_edge_weight_with_key l (edge_key (value a) (value b)) ≡ count_by (between a b) log
weight-edge_key log l a b t =
    get_edge_weight_with_key-Tracks log l (edge_key (value a) (value b)) t ∙ count-edge_key log a b

pub get_edge_weight-Tracks :
    (log : List Transaction) (l : TransactionList) (a b : ℕ)
    → Tracks log l
    → get_edge_weight l (value a) (value b) ≡ count_by (between a b) log
unfolding get_edge_weight
get_edge_weight-Tracks log l a b t = weight-edge_key log l a b t

-- Whatever the transactions, the weight of an edge is the number of those that were added between
-- its two nodes, in either direction; a transaction with no id for an end counts for no edge.
pub get_edge_weight-add_all :
    (log : List Transaction) (a b : ℕ)
    → get_edge_weight (add_all new_transactions log) (value a) (value b)
      ≡ count_by (between a b) log
get_edge_weight-add_all log a b = get_edge_weight-Tracks log _ a b (Tracks-add_all_new log)

-- The weight of an edge does not depend on the order in which the two nodes are given, nor on what the list
-- holds.
pub get_edge_weight_symm :
    (l : TransactionList) (a b : ℕ)
    → get_edge_weight l (value a) (value b) ≡ get_edge_weight l (value b) (value a)
unfolding get_edge_weight
get_edge_weight_symm l a b = ap (get_edge_weight_with_key l) (edge_key_symm a b)
