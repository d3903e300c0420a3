-- ===== src/Transactions/Averages.antt =====
-- `getNumbers` and the points of `addNumbersToArray`, against the log of transactions.
use scale_out_distributed_le.Common.{
  ℕ, ◌<◌, ◌≡◌, refl, List, [], ◌∷◌, ◌++◌, append-nil, arith, length, sum_by, All,
}
use scale_out_distributed_le.Js.{Field, nan, number, undefined, value}
use scale_out_distributed_le.Transactions.{
  Transaction, TransactionList, Numbers, ratio, not_a_number, new_transactions, add_transaction,
  add_all, get_numbers, add_numbers_to_array,
}
use scale_out_distributed_le.Transactions.Log.{
  Tracks, Tracks-add_all_new, total, chains_of, blocks_of,
}

-- Both counts of the transaction are given.
abbrev pub HasCounts : Transaction → Type 0
HasCounts tx = (c : ℕ) × (b : ℕ) × (tx.number_of_chains ≡ value c) × (tx.number_of_blocks ≡ value b)

abbrev pub count_of : Field → ℕ
count_of (value n) = n
count_of _ = 0

total-sum :
    (f : Transaction → Field) (log : List Transaction)
    → All (λ tx. (n : ℕ) × (f tx ≡ value n)) log
    → total f log ≡ number (sum_by (λ tx. count_of (f tx)) log)
total-sum f [] h = refl
total-sum f (tx ∷ log) ((n, e), h) = rw (e, total-sum f log h)

All-chains :
    (log : List Transaction)
    → All HasCounts log
    → All (λ tx. (n : ℕ) × (chains_of tx ≡ value n)) log
All-chains [] h = tt
All-chains (tx ∷ log) ((c, b, p, q), h) = ((c, p), All-chains log h)

All-blocks :
    (log : List Transaction)
    → All HasCounts log
    → All (λ tx. (n : ℕ) × (blocks_of tx ≡ value n)) log
All-blocks [] h = tt
All-blocks (tx ∷ log) ((c, b, p, q), h) = ((b, q), All-blocks log h)

module _ (tx : Transaction) (log : List Transaction) where
  abbrev pub averages : Numbers
  averages = record {
    number_of_transactions = length (tx ∷ log);
    average_number_of_blocks =
        ratio (sum_by (λ t. count_of t.number_of_blocks) (tx ∷ log)) (length (tx ∷ log));
    average_number_of_chains =
        ratio (sum_by (λ t. count_of t.number_of_chains) (tx ∷ log)) (length (tx ∷ log));
  }

  pub get_numbers-Tracks :
      (l : TransactionList)
      → All HasCounts (tx ∷ log)
      → Tracks (tx ∷ log) l
      → get_numbers l ≡ averages
  unfolding get_numbers
  get_numbers-Tracks l h t = ground (
    arith,
    t.counted,
    t.chains,
    t.blocks,
    total-sum chains_of (tx ∷ log) (All-chains (tx ∷ log) h),
    total-sum blocks_of (tx ∷ log) (All-blocks (tx ∷ log) h),
  )

  -- Where every transaction has its counts and there is one, `getNumbers` gives the number of the
  -- transactions, and the sums of their blocks and of their chains over that number.
  get_numbers-add_all :
      All HasCounts (tx ∷ log) → get_numbers (add_all new_transactions (tx ∷ log)) ≡ averages
  get_numbers-add_all h = get_numbers-Tracks _ h (Tracks-add_all_new (tx ∷ log))

nan-add_all :
    (l : TransactionList) (txs : List Transaction)
    → l.number_of_chains ≡ nan
    → 0 < l.number_of_transactions
    → ((add_all l txs).number_of_chains ≡ nan) × (0 < (add_all l txs).number_of_transactions)
unfolding add_all add_transaction
nan-add_all l [] e h = (e, h)
nan-add_all l (tx ∷ txs) e h = nan-add_all (add_transaction l tx) txs (ground arith) (omega arith)

-- A single transaction with no number of chains, as the batch route lets through, makes the
-- average NaN for good: no later transaction repairs it.
pub average_poisoned :
    (l : TransactionList) (tx : Transaction) (later : List Transaction)
    → tx.number_of_chains ≡ undefined
    → (get_numbers (add_all (add_transaction l tx) later)).average_number_of_chains ≡ not_a_number
unfolding get_numbers add_transaction
average_poisoned l tx later e =
    ground (arith, nan-add_all (add_transaction l tx) later (ground arith) (omega arith))

-- What a tick of the data timer adds: no point before the first transaction, and afterwards the
-- numbers of the list.
abbrev pub points : List Transaction → TransactionList → List Numbers
points [] l = []
points (tx ∷ log) l = get_numbers l ∷ []

-- For a list that holds a log, `addNumbersToArray` stores one point, what `getNumbers` gives, when
-- the log has a transaction, and leaves the array as it is when it has none.
pub numbers_array-add_numbers :
    (log : List Transaction) (l : TransactionList)
    → Tracks log l
    → (add_numbers_to_array l).numbers_array ≡ l.numbers_array ++ points log l
unfolding add_numbers_to_array
numbers_array-add_numbers [] l t = ground (arith, t.counted, append-nil l.numbers_array)
numbers_array-add_numbers (tx ∷ log) l t = ground (arith, t.counted)

with_points : TransactionList → List Numbers → TransactionList
with_points l numbers = record l { numbers_array = numbers }

Tracks-with_points :
    (log : List Transaction) (l : TransactionList) (numbers : List Numbers)
    → Tracks log l
    → Tracks log (with_points l numbers)
unfolding with_points
Tracks-with_points log l numbers t = record {
  counted = t.counted;
  chains = t.chains;
  blocks = t.blocks;
  entries = t.entries;
  distinct = t.distinct;
  held = t.held;
}

add_numbers-with_points :
    (l : TransactionList)
    → (numbers : List Numbers) × (add_numbers_to_array l ≡ with_points l numbers)
unfolding with_points add_numbers_to_array
add_numbers-with_points l = ((add_numbers_to_array l).numbers_array, ground arith)

-- Nothing else of the list changes.
pub Tracks-add_numbers :
    (log : List Transaction) (l : TransactionList)
    → Tracks log l
    → Tracks log (add_numbers_to_array l)
Tracks-add_numbers log l t =
    let (numbers, e) = add_numbers-with_points l in rw e (Tracks-with_points log l numbers t)
