-- ===== src/Server/Timers.antt =====
-- The intervals of `initDataHeartbeat`, and the points that they store.
use scale_out_distributed_le.Common.{
  ℕ, zero, suc, ◌+◌, ◌≤◌, ◌<◌, ◌≡◌, ◌≢◌, refl, sym, ap, Bool-cases, inl, inr, ◌∙◌, true, false,
  List, [], ◌∷◌, ◌++◌, append-nil, append_assoc, arith, length, replicate, lt→ltb,
}
use scale_out_distributed_le.Transactions.{
  Transaction, TransactionList, get_numbers, add_numbers_to_array, add_all, add_transaction,
}
use scale_out_distributed_le.Routes.Requests.{missing, no_value, array, not_array}
use scale_out_distributed_le.Routes.Batch.{before_null, has_no_null}
use scale_out_distributed_le.Routes.Replies.{
  serve-register_transactions, serve-register_transactions_null,
}
use scale_out_distributed_le.Routes.{
  App, Request, post_register_transaction, post_register_transactions, post_reset, post_write_data,
  serve, init, update_sse_clients,
}
use scale_out_distributed_le.Server.Refinement.{log_run, run-init-Tracks, batch-transactions}
use scale_out_distributed_le.Server.{
  Event, on_data_tick, request, disconnect, data_tick, sse_tick, step, run,
}

-- How many of the events are resets.
abbrev pub resets_of : Request → ℕ
resets_of post_reset = 1
resets_of _ = 0

abbrev pub resets : List Event → ℕ
resets [] = 0
resets (request now q ∷ events) = resets_of q + resets events
resets (_ ∷ events) = resets events

serve-timers :
    (now : ℕ) (app : App) (q : Request)
    → (serve now app q).0.data_timers ≡ app.data_timers + resets_of q
unfolding serve update_sse_clients
serve-timers now app (post_register_transactions missing) = omega arith
serve-timers now app (post_register_transactions no_value) = omega arith
serve-timers now app (post_register_transactions not_array) = omega arith
serve-timers now app (post_register_transactions (array es)) = elim (Bool-cases (has_no_null es)) [
  | inl whole ↦ rw (serve-register_transactions now app es whole) (omega arith)
  | inr broken ↦ rw (serve-register_transactions_null now app es broken) (omega arith)
]
serve-timers now app (post_write_data true) = omega arith
serve-timers now app (post_write_data false) = omega arith
serve-timers now app _ = ground arith

run-timers :
    (app : App) (events : List Event)
    → (run app events).data_timers ≡ app.data_timers + resets events
unfolding run step on_data_tick update_sse_clients
run-timers app [] = omega arith
run-timers app (request now q ∷ events) =
    omega (arith, run-timers (serve now app q).0 events, serve-timers now app q)
run-timers app (disconnect conn ∷ events) = run-timers (step app (disconnect conn)) events
run-timers app (data_tick i ∷ events) = run-timers (step app (data_tick i)) events ∙ ground arith
run-timers app (sse_tick ∷ events) = run-timers (step app sse_tick) events

-- The number of intervals that are set is the number of resets: none before the first one, and one
-- more with each.
pub data_timers-run : (events : List Event) → (run init events).data_timers ≡ resets events
data_timers-run events = omega (arith, run-timers init events)

-- One period: every interval that is set comes once, the first `n` of them here.
abbrev pub period : ℕ → List Event
period zero = []
period (suc n) = data_tick n ∷ period n

tick-add_numbers :
    (app : App) (i : ℕ)
    → i < app.data_timers
    → (on_data_tick app i).transaction_list ≡ add_numbers_to_array app.transaction_list
unfolding on_data_tick
tick-add_numbers app i h = rw (lt→ltb i app.data_timers h)

-- With a transaction in the list, a point is stored, and the numbers stay.
add_numbers_once :
    (l : TransactionList)
    → 0 < l.number_of_transactions
    → ((add_numbers_to_array l).numbers_array ≡ l.numbers_array ++ get_numbers l ∷ [])
      × (get_numbers (add_numbers_to_array l) ≡ get_numbers l)
      × (0 < (add_numbers_to_array l).number_of_transactions)
unfolding add_numbers_to_array get_numbers
add_numbers_once l h = ground arith

run-period :
    (n : ℕ) (app : App)
    → n ≤ app.data_timers
    → 0 < app.transaction_list.number_of_transactions
    → (run app (period n)).transaction_list.numbers_array
      ≡ app.transaction_list.numbers_array ++ replicate n (get_numbers app.transaction_list)
unfolding run step get_numbers
run-period zero app h pos = sym (append-nil app.transaction_list.numbers_array)
run-period (suc n) app h pos =
    let l = app.transaction_list in
    let ticked = tick-add_numbers app n (omega arith) in
    let (stored, same, pos') = add_numbers_once l pos in
    run-period n (on_data_tick app n) (unfold on_data_tick in ground arith) (rw ticked pos')
    ∙ rw (ticked, stored, same) (append_assoc l.numbers_array (get_numbers l ∷ []) _)

length_pos : (log : List Transaction) → log ≢ [] → 0 < length log
length_pos [] h = absurd (h refl)
length_pos (tx ∷ log) h = omega arith

-- After `n` resets every period stores the same point `n` times, once a transaction is registered.
pub period_stores :
    (events : List Event)
    → log_run [] events ≢ []
    → let app = run init events in
      (run app (period (resets events))).transaction_list.numbers_array
      ≡ app.transaction_list.numbers_array
        ++ replicate (resets events) (get_numbers app.transaction_list)
period_stores events h =
    let app = run init events in
    run-period (resets events) app (omega (arith, data_timers-run events))
      (omega (arith, (run-init-Tracks events).counted, length_pos (log_run [] events) h))

numbers-add_all :
    (l : TransactionList) (txs : List Transaction) → (add_all l txs).numbers_array ≡ l.numbers_array
unfolding add_all add_transaction
numbers-add_all l [] = refl
numbers-add_all l (tx ∷ txs) = numbers-add_all (add_transaction l tx) txs

serve-no_points :
    (now : ℕ) (app : App) (q : Request)
    → app.transaction_list.numbers_array ≡ []
    → (serve now app q).0.transaction_list.numbers_array ≡ []
unfolding serve update_sse_clients
serve-no_points now app (post_register_transaction tx) h = unfold add_transaction in ground arith
serve-no_points now app (post_register_transactions missing) h = h
serve-no_points now app (post_register_transactions no_value) h = h
serve-no_points now app (post_register_transactions not_array) h = h
serve-no_points now app (post_register_transactions (array es)) h =
    ap (λ l. l.numbers_array) (batch-transactions now app es)
    ∙ numbers-add_all app.transaction_list (before_null es)
    ∙ h
serve-no_points now app (post_write_data true) h = h
serve-no_points now app (post_write_data false) h = h
serve-no_points now app _ h = ground arith

run-no_points :
    (app : App) (events : List Event)
    → app.transaction_list.numbers_array ≡ []
    → app.data_timers ≡ 0
    → resets events ≡ 0
    → (run app events).transaction_list.numbers_array ≡ []
unfolding run step on_data_tick update_sse_clients
run-no_points app [] h z r = h
run-no_points app (request now q ∷ events) h z r =
    run-no_points (serve now app q).0 events (serve-no_points now app q h)
      (omega (arith, serve-timers now app q)) (omega arith)
run-no_points app (disconnect conn ∷ events) h z r =
    run-no_points (step app (disconnect conn)) events h z r
run-no_points app (data_tick i ∷ events) h z r =
    run-no_points (step app (data_tick i)) events (ground arith) (ground arith) r
run-no_points app (sse_tick ∷ events) h z r = run-no_points (step app sse_tick) events h z r

-- A server that was never reset stores no point, however long it runs.
no_points :
    (events : List Event)
    → resets events ≡ 0
    → (run init events).transaction_list.numbers_array ≡ []
no_points events r = run-no_points init events refl refl r
