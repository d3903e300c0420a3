-- ===== src/Server/Poison.antt =====
-- The transactions of the batch route, which are stored without a check of their fields.
use scale_out_distributed_le.Common.{
  ℕ, ◌<◌, ◌≡◌, refl, ap, true, some, ◌⊎◌, List, [], ◌∷◌, ◌++◌, arith, length, length-append, inl,
  inr, Bool-cases,
}
use scale_out_distributed_le.Js.{Number, nan, number, undefined, to_number, add}
use scale_out_distributed_le.Transactions.{Transaction, TransactionList, get_numbers, not_a_number}
use scale_out_distributed_le.Transactions.Log.{Tracks, total, chains_of}
use scale_out_distributed_le.Routes.Requests.{
  Element, array, missing, no_value, not_array, is_complete,
}
use scale_out_distributed_le.Routes.Batch.{before_null, has_no_null}
use scale_out_distributed_le.Routes.Refusals.{status_of}
use scale_out_distributed_le.Routes.Replies.{serve-register_transactions}
use scale_out_distributed_le.Routes.{
  serve, Request, post_register_transaction, post_register_transactions, post_reset, init,
  update_of,
}
use scale_out_distributed_le.Server.{Event, request, step, run}
use scale_out_distributed_le.Server.Refinement.{
  log_request, log_run, run-Tracks, step-Tracks, run-init-Tracks,
}
use scale_out_distributed_le.Server.Timers.{resets, resets_of}
use scale_out_distributed_le.Demo.{on_message}

-- The sum of the chains of a log that is not empty is NaN.
abbrev IsSpoilt : List Transaction → Type 0
IsSpoilt log = (0 < length log) × (total chains_of log ≡ nan)

Number-cases : (a : Number) → (a ≡ nan) ⊎ ((n : ℕ) × (a ≡ number n))
Number-cases nan = inl refl
Number-cases (number n) = inr (n, refl)

add_nan : (a : Number) → add a nan ≡ nan
add_nan nan = refl
add_nan (number n) = refl

nan-append :
    (log txs : List Transaction) → total chains_of log ≡ nan → total chains_of (log ++ txs) ≡ nan
nan-append [] txs e = cc
nan-append (x ∷ log) txs e = elim (Number-cases (total chains_of log)) [
  | inl spoilt ↦ rw (nan-append log txs spoilt) (add_nan (to_number x.number_of_chains))
  | inr (n, sound) ↦ ground (arith, sound)
]

Spoilt-append : (log txs : List Transaction) → IsSpoilt log → IsSpoilt (log ++ txs)
Spoilt-append log txs s = (omega (arith, length-append log txs), nan-append log txs s.1)

-- Some transaction lacks its number of chains.
abbrev pub HasUncounted : List Transaction → Type 0
HasUncounted [] = ⊥
HasUncounted (tx ∷ txs) = (tx.number_of_chains ≡ undefined) ⊎ HasUncounted txs

uncounted-nan : (txs : List Transaction) → HasUncounted txs → IsSpoilt txs
uncounted-nan [] h = elim h [ ]
uncounted-nan (tx ∷ txs) (inl e) = elim (Number-cases (total chains_of txs)) [
  | inl spoilt ↦ (omega arith, ground (arith, e, spoilt))
  | inr (n, sound) ↦ (omega arith, ground (arith, e, sound))
]
uncounted-nan (tx ∷ txs) (inr h) =
    (omega arith, rw (uncounted-nan txs h).1 (add_nan (to_number tx.number_of_chains)))

Spoilt-later : (log txs : List Transaction) → HasUncounted txs → IsSpoilt (log ++ txs)
Spoilt-later [] txs h = uncounted-nan txs h
Spoilt-later (x ∷ log) txs h =
    (omega arith, rw (Spoilt-later log txs h).1 (add_nan (to_number x.number_of_chains)))

Spoilt-request :
    (log : List Transaction) (q : Request)
    → resets_of q ≡ 0
    → IsSpoilt log
    → IsSpoilt (log_request log q)
Spoilt-request log (post_register_transaction tx) z s = elim (Bool-cases (is_complete tx)) [
  | inl complete ↦ rw complete (Spoilt-append log (tx ∷ []) s)
  | inr incomplete ↦ rw incomplete s
]
Spoilt-request log (post_register_transactions (array es)) z s =
    Spoilt-append log (before_null es) s
Spoilt-request log (post_register_transactions missing) z s = s
Spoilt-request log (post_register_transactions no_value) z s = s
Spoilt-request log (post_register_transactions not_array) z s = s
Spoilt-request log post_reset z s = absurd (omega arith)
Spoilt-request log _ z s = s

Spoilt-run :
    (log : List Transaction) (events : List Event)
    → resets events ≡ 0
    → IsSpoilt log
    → IsSpoilt (log_run log events)
Spoilt-run log [] z s = s
Spoilt-run log (request now q ∷ events) z s =
    Spoilt-run (log_request log q) events (omega arith) (Spoilt-request log q (omega arith) s)
Spoilt-run log (event ∷ events) z s = Spoilt-run log events z s

spoilt-numbers :
    (log : List Transaction) (l : TransactionList)
    → Tracks log l
    → IsSpoilt log
    → (get_numbers l).average_number_of_chains ≡ not_a_number
unfolding get_numbers
spoilt-numbers log l t s = ground (arith, t.counted, t.chains)

-- A batch without a null, in which some transaction lacks its number of chains, is answered with
-- success, and from then on the average number of chains is NaN until the next reset, whatever else
-- happens, and the page shows it as 0.
pub batch_poisons :
    (before later : List Event) (now : ℕ) (es : List Element)
    → has_no_null es ≡ true
    → HasUncounted (before_null es)
    → resets later ≡ 0
    → let batch = post_register_transactions (array es) in
      let app = run (step (run init before) (request now batch)) later in
      (status_of (serve now (run init before) batch) ≡ some 200)
      × ((get_numbers app.transaction_list).average_number_of_chains ≡ not_a_number)
      × ((on_message (update_of app)).chains ≡ 0)
unfolding on_message
batch_poisons before later now es whole lacks z =
    let batch = request now (post_register_transactions (array es)) in
    let log = log_run [] before in
    let app = step (run init before) batch in
    let t = step-Tracks (run init before) batch log (run-init-Tracks before) in
    let nan_average =
      spoilt-numbers (log_run (log ++ before_null es) later) (run app later).transaction_list
        (run-Tracks app later (log ++ before_null es) t)
        (Spoilt-run (log ++ before_null es) later z (Spoilt-later log (before_null es) lacks)) in
    (
      ap status_of (serve-register_transactions now (run init before) es whole),
      nan_average,
      rw nan_average,
    )
