-- ===== src/Tests/Money.antt =====
-- The theorems on blocks, transactions and money, at inputs that meet their hypotheses.
use scale_out_distributed_le.Common.{
  ℕ, ◌+◌, ◌-◌, ◌^◌, ◌<◌, ◌≡◌, ◌↔◌, refl, true, false, none, some, List, [], ◌∷◌, ◌++◌, arith, All,
  ◌==◌, if◌then◌else◌,
}
use scale_out_distributed_le.Ledger.ChainView.{returns, new_view, is_valid, drop}
use scale_out_distributed_le.Ledger.ChainView.Laws.{blocks}
use scale_out_distributed_le.Ledger.Word.{add_long, sub_long, lt_long}
use scale_out_distributed_le.Ledger.Transaction.{
  Transaction, transaction, nil, cons, compare_to, contains, contains_all, size, equals, source,
}
use scale_out_distributed_le.Ledger.Block
use scale_out_distributed_le.Ledger.Block.{Block, first, after}
use scale_out_distributed_le.Ledger.MetaKnowledge.{
  MetaKnowledge, known_of, get_last_known_block_number, get_first_unknown_block_number,
  get_blocks_to_send, take,
}
use scale_out_distributed_le.Ledger.MetaKnowledge.Sending.{sent-is_valid}
use scale_out_distributed_le.Ledger.Verification.{
  Cache, worth, money_from, check_money, none_in, intersect_empty, scan_block,
  check_double_spending, cached, validate_genesis_transaction, passes, validate_transaction,
}
use scale_out_distributed_le.Ledger.Verification.Money.{
  Involved, total, check_money_iff, check_money_mints,
}
use scale_out_distributed_le.Ledger.Verification.Spending.{Unspent, check_double_spending_iff}
use scale_out_distributed_le.Ledger.Verification.Closed.{Justified, validate_transaction-Justified}
use scale_out_distributed_le.Ledger.Verification.Accepted.{
  AllValid, AllPass, SourcesPass, validate_transaction-AllPass,
}
use scale_out_distributed_le.Ledger.LocalStore.{
  LocalStore, has, without, add_unspent_transaction, remove_unspent_transaction,
  remove_unspent_transactions, get_new_transaction_id,
}
use scale_out_distributed_le.Ledger.LocalStore.Balance.{
  IsBalanced, adds, removes, numbers, run, run-IsBalanced,
}
use scale_out_distributed_le.Ledger.LocalStore.Spending.{self_spend_refused}
use scale_out_distributed_le.Ledger.Bytes.{bytes_to_hex_string, hex_string_to_bytes}
use scale_out_distributed_le.Ledger.Bytes.RoundTrip.{hex_string_to_bytes-hex}

unfoldable money : Unit {0}
unfolding add_long sub_long lt_long compare_to contains contains_all size equals worth money_from
    check_money none_in intersect_empty scan_block check_double_spending cached
    validate_genesis_transaction passes validate_transaction has without add_unspent_transaction
    remove_unspent_transaction remove_unspent_transactions get_new_transaction_id run known_of
    get_last_known_block_number get_first_unknown_block_number take drop AllPass SourcesPass
money = tt

-- Node 0 gets 100 in the genesis block and sends 30 to node 1, which sends 10 on to node 2.
abbrev genesis : Transaction
genesis = transaction 0 none 0 100 0 nil (some 0)

abbrev payment : Transaction
payment = transaction 1 (some 0) 1 30 70 (cons genesis nil) (some 1)

abbrev passed_on : Transaction
passed_on = transaction 1 (some 1) 2 10 20 (cons payment nil) (some 1)

abbrev block_of : (node : ℕ) → List Transaction → Block
block_of node ts = after (first 0 (some node) (genesis ∷ [])) 1 (some node) ts

abbrev views : ℕ → List Block
views node =
    if node == 0
    then first 0 (some 0) (genesis ∷ []) ∷ block_of 0 (payment ∷ []) ∷ []
    else first 0 (some 1) (genesis ∷ []) ∷ block_of 1 (passed_on ∷ []) ∷ []

abbrev seen : Cache
seen = (passed_on, true) ∷ (payment, true) ∷ (genesis, true) ∷ []

accepted : validate_transaction views [] passed_on [] ≡ some seen
unfolding money
accepted = refl

validate_transaction-Justified_example :
    All (Justified [] views seen) seen × (cached passed_on seen ≡ some true)
validate_transaction-Justified_example =
    validate_transaction-Justified views [] passed_on seen accepted

all_pass : AllPass views passed_on
unfolding money
all_pass = (refl, ((refl, ((refl, refl, refl), tt)), tt))

validate_transaction-AllPass_example :
    (cache : Cache) × (validate_transaction views [] passed_on [] ≡ some cache) × AllValid cache
validate_transaction-AllPass_example = validate_transaction-AllPass views [] passed_on tt all_pass

payment_worth : total 1 (source passed_on) < 2 ^ 63
unfolding money
payment_worth = omega arith

check_money_iff_example :
    (check_money 1 passed_on ≡ true)
    ↔ (Involved 1 (cons payment nil) × (total 1 (cons payment nil) ≡ 30))
check_money_iff_example = check_money_iff 1 passed_on (omega arith) payment_worth

genesis-worth : worth 0 genesis ≡ some 100
unfolding money
genesis-worth = refl

check_money_mints_example :
    check_money 0 (transaction 1 (some 0) 1 (2 ^ 64 - 5) (100 + 5) (cons genesis nil) none) ≡ true
check_money_mints_example =
    check_money_mints 0 1 1 5 100 genesis none genesis-worth (omega arith) (omega arith)
      (omega arith)

check_double_spending_iff_example :
    (check_double_spending payment (views 0) ≡ true) ↔ Unspent payment (views 0)
check_double_spending_iff_example = check_double_spending_iff payment (views 0)

abbrev empty_store : LocalStore
empty_store = record { own_node = 0; unspent = []; available_money = 0; transaction_id = 1 }

run-IsBalanced_example :
    IsBalanced
      (run empty_store (adds genesis ∷ removes (genesis ∷ []) ∷ numbers ∷ adds payment ∷ []))
run-IsBalanced_example =
    run-IsBalanced empty_store (adds genesis ∷ removes (genesis ∷ []) ∷ numbers ∷ adds payment ∷ [])
      (tt, (((omega arith, omega arith), tt), (tt, (tt, tt)))) refl

self_spend_refused_example :
    check_money 0 (
      transaction 2
        (some 0)
        1
        100
        0
        (cons (transaction 1 (some 0) 0 30 70 (cons genesis nil) (some 1)) nil)
        none)
    ≡ false
self_spend_refused_example =
    self_spend_refused 0 1 2 1 30 70 100 0 (cons genesis nil) (some 1) none (omega arith)
      (omega arith) refl

-- Node 1 is known to have the first block of node 0.
abbrev known_first : MetaKnowledge
known_first = record { owner = 1; known = (0, 0) ∷ [] }

abbrev next_block : Block
next_block = block_of 0 (payment ∷ [])

abbrev start : List Block
start = first 0 (some 0) (genesis ∷ []) ∷ []

known_enough : get_first_unknown_block_number known_first [] 0 < 2
unfolding money
known_enough = omega arith

sent-is_valid_example :
    (sent : List Block) × (get_blocks_to_send known_first [] ((start ++ next_block ∷ []) ++ []) 0 1
      ≡ returns sent)
    × (let (view, valid) = is_valid Block.number Block.equals start (new_view start sent false) in
        (valid ≡ true) × (blocks start view ≡ start ++ next_block ∷ []))
sent-is_valid_example =
    sent-is_valid known_first [] start (next_block ∷ []) [] 0 false (omega arith)
      (omega (arith, known_enough)) (omega arith) (refl, (refl, tt))

hex_string_to_bytes-hex_example :
    hex_string_to_bytes (bytes_to_hex_string (0xca ∷ 0x07 ∷ [])) ≡ some (0xca ∷ 0x07 ∷ [])
hex_string_to_bytes-hex_example =
    hex_string_to_bytes-hex (0xca ∷ 0x07 ∷ []) (omega arith, (omega arith, tt))
