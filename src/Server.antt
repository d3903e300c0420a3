-- ===== src/Server.antt =====
-- The tracker server in time: requests (tracker-server/routes/index.js, app.js), clients that go
-- away (helpers/sse.js), and the timers of routes/index.js, as a sequence of events.
pub mod Refinement
pub mod Registry
pub mod Numbered
pub mod Effects
pub mod Clients
pub mod Disconnect
pub mod Timers
pub mod Poison
use scale_out_distributed_le.Common.{
  ℕ, zero, suc, ◌*◌, Option, none, some, List, [], ◌∷◌, ltb, if◌then◌else◌,
}
use scale_out_distributed_le.Transactions.{add_numbers_to_array}
use scale_out_distributed_le.Sse
use scale_out_distributed_le.Routes.{App, Request, Response, serve, update_sse_clients}

-- `data_tick i` is the time of the interval number `i` of `initDataHeartbeat`, `sse_tick` that of
-- the interval of `initHeartbeat`.
pub data Event : Type 0 where
  request : (now : ℕ) → Request → Event
  disconnect : (conn : ℕ) → Event
  data_tick : (i : ℕ) → Event
  sse_tick : Event

-- The callback of the data timer, which runs for the intervals that are set.
unfoldable pub on_data_tick : App → ℕ → App
on_data_tick app i =
    if ltb i app.data_timers
    then record app { transaction_list = add_numbers_to_array app.transaction_list }
    else app

-- `interval ? interval * 1000 : 3000`, the milliseconds between two ticks of the SSE timer.
unfoldable pub heartbeat_period : (interval : Option ℕ) → ℕ
heartbeat_period none = 3000
heartbeat_period (some zero) = 3000
heartbeat_period (some (suc n)) = suc n * 1000

-- The message that the timer builds is an argument that `updateSseClients` does not have.
unfoldable pub step : App → Event → App
unfolding on_data_tick
step app (request now r) = (serve now app r).0
step app (disconnect conn) = record app { sse_clients = Sse.closed app.sse_clients conn }
step app (data_tick i) = on_data_tick app i
step app sse_tick = update_sse_clients app

unfoldable pub run : App → List Event → App
unfolding step
run app [] = app
run app (event ∷ events) = run (step app event) events
