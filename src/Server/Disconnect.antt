-- ===== src/Server/Disconnect.antt =====
-- Clients that have gone away, and what is written to them afterwards.
use scale_out_distributed_le.Common.{
  ℕ, ◌<◌, ◌≡◌, ◌≢◌, refl, ◌∙◌, Bool, List, [], ◌∷◌, map, arith, inl, inr, ◌==◌, All, All-append,
  count_by, count_by-append, Bool-cases,
}
use scale_out_distributed_le.Sse.{Chunk, Update, event_stream, message, add}
use scale_out_distributed_le.Sse.Laws.{others, closed-others}
use scale_out_distributed_le.Routes.{App, init}
use scale_out_distributed_le.Server.{Event, disconnect, step, run}
use scale_out_distributed_le.Server.Effects.{Effect, quiet, told, opened, left, step-Effect}
use scale_out_distributed_le.Server.Clients.{IsSound, All-others, Effect-IsSound, run-init-IsSound}

-- The chunks that were written to a connection.
abbrev pub is_to : ℕ → ℕ × Chunk → Bool
is_to conn (c, chunk) = c == conn

-- A connection that was made and does not listen any more.
abbrev pub IsGone : ℕ → App → Type 0
IsGone conn app = (conn < app.next_connection) × All (λ c. c ≢ conn) app.sse_clients.connections

not_sent :
    (conn : ℕ) (u : Update) (cs : List ℕ)
    → All (λ c. c ≢ conn) cs
    → count_by (is_to conn) (map (λ c. (c, message u)) cs) ≡ 0
not_sent conn u [] a = refl
not_sent conn u (c ∷ cs) a = ground (arith, not_sent conn u cs a.1)

Effect-IsGone :
    (conn : ℕ) (app app' : App)
    → Effect app app'
    → IsSound app
    → IsGone conn app
    → IsGone conn app' × (count_by (is_to conn) app'.output ≡ count_by (is_to conn) app.output)
unfolding add
Effect-IsGone conn app app' (quiet cs next out) s g = (rw (next, cs) g, rw out)
Effect-IsGone conn app app' (told u cs next out) s g = (
  rw (next, cs) g,
  rw out (
      omega (
        arith,
        count_by-append (is_to conn) app.output
            (map (λ c. (c, message u)) app.sse_clients.connections),
        not_sent conn u app.sse_clients.connections g.1,
      )),
)
Effect-IsGone conn app app' (opened cs next out) s g = (
  rw (next, cs)
      (omega arith, All-append (λ c. c ≢ conn) app.sse_clients.connections _ g.1 (omega arith, tt)),
  rw out (
      ground (
        arith,
        count_by-append (is_to conn) app.output ((app.next_connection, event_stream) ∷ []),
        g.0,
      )),
)
Effect-IsGone conn app app' (left other cs next out) s g = (
  rw (next, cs, closed-others app.sse_clients other s.distinct)
      (g.0, All-others (λ c. c ≢ conn) other app.sse_clients.connections g.1),
  rw out,
)

run-IsGone :
    (conn : ℕ) (app : App) (events : List Event)
    → IsSound app
    → IsGone conn app
    → count_by (is_to conn) (run app events).output ≡ count_by (is_to conn) app.output
unfolding run
run-IsGone conn app [] s g = refl
run-IsGone conn app (event ∷ events) s g =
    let e = step-Effect app event in
    let (g', same) = Effect-IsGone conn app (step app event) e s g in
    run-IsGone conn (step app event) events (Effect-IsSound app (step app event) e s) g' ∙ same

others-absent : (conn : ℕ) (cs : List ℕ) → All (λ c. c ≢ conn) (others conn cs)
others-absent conn [] = tt
others-absent conn (c ∷ cs) = elim (Bool-cases (c == conn)) [
  | inl same ↦ rw same (others-absent conn cs)
  | inr other ↦ rw other (ground arith, others-absent conn cs)
]

disconnect-IsGone :
    (conn : ℕ) (app : App)
    → IsSound app
    → conn < app.next_connection
    → IsGone conn (step app (disconnect conn))
unfolding step
disconnect-IsGone conn app s h = (
  h,
  rw (closed-others app.sse_clients conn s.distinct)
      (others-absent conn app.sse_clients.connections),
)

-- Once a connection that was made has gone away, nothing is written to it any more, whatever
-- happens to the server before and after.
pub disconnect-silent :
    (before after : List Event) (conn : ℕ)
    → conn < (run init before).next_connection
    → count_by (is_to conn) (run (step (run init before) (disconnect conn)) after).output
      ≡ count_by (is_to conn) (run init before).output
disconnect-silent before after conn h =
    let app = run init before in
    let s = run-init-IsSound before in
    run-IsGone conn (step app (disconnect conn)) after
      (Effect-IsSound app (step app (disconnect conn)) (step-Effect app (disconnect conn)) s)
      (disconnect-IsGone conn app s h)
    ∙ unfold step in refl
