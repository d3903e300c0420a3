-- ===== src/Server/Clients.antt =====
-- The clients that listen to a running server, and what is written to them.
use scale_out_distributed_le.Common.{
  ℕ, ◌+◌, ◌≤◌, ◌<◌, ◌≡◌, ◌≢◌, refl, Bool, false, List, [], ◌∷◌, ◌++◌, map, arith, inl, inr, ◌==◌,
  ltb, if◌then◌else◌, All, All-append, count_by, count_by-append, Bool-cases,
}
use scale_out_distributed_le.Sse.{Chunk, Update, event_stream, message, add}
use scale_out_distributed_le.Sse.Laws.{Distinct, others, closed-others}
use scale_out_distributed_le.Routes.{App, init}
use scale_out_distributed_le.Server.{Event, step, run}
use scale_out_distributed_le.Server.Effects.{Effect, quiet, told, opened, left, step-Effect}

-- How many chunks of a kind a connection was sent.
abbrev pub is_head : ℕ → ℕ × Chunk → Bool
is_head conn (c, event_stream) = c == conn
is_head conn (c, message u) = false

-- Every connection that was made and no other has its stream opened once; those that listen are
-- distinct and among those that were made.
pub record IsSound (app : App) : Type 0 where
  pub distinct : Distinct app.sse_clients.connections
  pub made : All (λ c. c < app.next_connection) app.sse_clients.connections
  pub heads :
      (conn : ℕ)
      → count_by (is_head conn) app.output ≡ (if ltb conn app.next_connection then 1 else 0)

pub init-IsSound : IsSound init
init-IsSound = record { distinct = tt; made = tt; heads = λ conn. ground arith }

Distinct-snoc : (cs : List ℕ) (n : ℕ) → All (λ c. c < n) cs → Distinct cs → Distinct (cs ++ n ∷ [])
Distinct-snoc [] n h d = (tt, tt)
Distinct-snoc (c ∷ cs) n h d =
    (All-append (λ e. e ≢ c) cs (n ∷ []) d.0 (omega arith, tt), Distinct-snoc cs n h.1 d.1)

All-grow : (cs : List ℕ) (m n : ℕ) → m ≤ n → All (λ c. c < m) cs → All (λ c. c < n) cs
All-grow [] m n h a = tt
All-grow (c ∷ cs) m n h a = (omega arith, All-grow cs m n h a.1)

module _ (P : ℕ → Type 0) (conn : ℕ) where
  pub All-others : (cs : List ℕ) → All P cs → All P (others conn cs)
  All-others [] a = tt
  All-others (c ∷ cs) a = elim (Bool-cases (c == conn)) [
    | inl same ↦ rw same (All-others cs a.1)
    | inr other ↦ rw other (a.0, All-others cs a.1)
  ]

Distinct-others : (conn : ℕ) (cs : List ℕ) → Distinct cs → Distinct (others conn cs)
Distinct-others conn [] d = tt
Distinct-others conn (c ∷ cs) d = elim (Bool-cases (c == conn)) [
  | inl same ↦ rw same (Distinct-others conn cs d.1)
  | inr other ↦ rw other (All-others (λ e. e ≢ c) conn cs d.0, Distinct-others conn cs d.1)
]

no_heads :
    (conn : ℕ) (u : Update) (cs : List ℕ)
    → count_by (is_head conn) (map (λ c. (c, message u)) cs) ≡ 0
no_heads conn u [] = refl
no_heads conn u (c ∷ cs) = omega (arith, no_heads conn u cs)

-- An event keeps the clients sound.
pub Effect-IsSound : (app app' : App) → Effect app app' → IsSound app → IsSound app'
unfolding add
Effect-IsSound app app' (quiet cs next out) s = record {
  distinct = rw cs s.distinct;
  made = rw (cs, next) s.made;
  heads = λ conn. rw (out, next) (s.heads conn);
}
Effect-IsSound app app' (told u cs next out) s = record {
  distinct = rw cs s.distinct;
  made = rw (cs, next) s.made;
  heads = λ conn.
      rw (out, next)
        (omega (
          arith,
          count_by-append (is_head conn) app.output
              (map (λ c. (c, message u)) app.sse_clients.connections),
          no_heads conn u app.sse_clients.connections,
          s.heads conn,
        ));
}
Effect-IsSound app app' (opened cs next out) s = record {
  distinct =
      rw cs (Distinct-snoc app.sse_clients.connections app.next_connection s.made s.distinct);
  made =
      rw (cs, next)
        (All-append (λ c. c < app.next_connection + 1) app.sse_clients.connections _
          (All-grow app.sse_clients.connections _ _ (omega arith) s.made) (omega arith, tt));
  heads = λ conn.
      rw (out, next)
        (ground (
          arith,
          count_by-append (is_head conn) app.output ((app.next_connection, event_stream) ∷ []),
          s.heads conn,
        ));
}
Effect-IsSound app app' (left conn cs next out) s = record {
  distinct =
      rw (cs, closed-others app.sse_clients conn s.distinct)
        (Distinct-others conn app.sse_clients.connections s.distinct);
  made =
      rw (cs, closed-others app.sse_clients conn s.distinct, next)
        (All-others (λ c. c < app.next_connection) conn app.sse_clients.connections s.made);
  heads = λ c. rw (out, next) (s.heads c);
}

run-IsSound : (app : App) (events : List Event) → IsSound app → IsSound (run app events)
unfolding run
run-IsSound app [] s = s
run-IsSound app (event ∷ events) s =
    run-IsSound (step app event) events
      (Effect-IsSound app (step app event) (step-Effect app event) s)

-- Whatever happened to the server, every connection that was made had its stream opened exactly
-- once and no other had; the clients that listen are distinct and among those connections.
pub run-init-IsSound : (events : List Event) → IsSound (run init events)
run-init-IsSound events = run-IsSound init events init-IsSound
