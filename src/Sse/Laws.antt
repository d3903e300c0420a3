-- ===== src/Sse/Laws.antt =====
-- What the topic does with its connections.
use scale_out_distributed_le.Common.{
  ℕ, suc, ◌+◌, ◌≡◌, ◌≢◌, ◌⊎◌, refl, sym, ◌∙◌, not, none, some, List, [], ◌∷◌, ◌++◌, map, append-nil,
  append_assoc, arith, ◌==◌, if◌then◌else◌, All, select, Bool-cases, ap, inl, inr,
}
use scale_out_distributed_le.Sse.{
  Topic, Update, Output, message, index_from, splice, closed, send, send_each, broadcast,
}

-- The rest of a list without the first entry that is a connection.
without : ℕ → List ℕ → List ℕ
without conn [] = []
without conn (c ∷ cs) = if c == conn then cs else c ∷ without conn cs

index_from-splice :
    (k conn : ℕ) (cs : List ℕ)
    → ((index_from k conn cs ≡ none) × (without conn cs ≡ cs))
      ⊎ ((i : ℕ) × (index_from k conn cs ≡ some (k + i)) × (splice i cs ≡ without conn cs))
unfolding index_from splice without
index_from-splice k conn [] = inl (refl, refl)
index_from-splice k conn (c ∷ cs) = elim (Bool-cases (c == conn)) [
  | inl here ↦ inr (0, rw here (ap some (omega arith)), rw here)
  | inr there ↦ elim (index_from-splice (k + 1) conn cs) [
    | inl (missing, same) ↦ inl (rw there missing, rw (there, same))
    | inr (i, found, cut) ↦
        inr (suc i, rw (there, found) (ap some (omega arith)), rw there (ap (◌∷◌ c) cut))
  ]
]

closed-without : (t : Topic) (conn : ℕ) → (closed t conn).connections ≡ without conn t.connections
unfolding closed
closed-without t conn = elim (index_from-splice 0 conn t.connections) [
  | inl (missing, same) ↦ rw (missing, closed) (sym same)
  | inr (i, found, cut) ↦ ground (arith, found, cut)
]

-- No connection stands twice.
abbrev pub Distinct : List ℕ → Type 0
Distinct [] = Unit
Distinct (c ∷ cs) = All (λ d. d ≢ c) cs × Distinct cs

abbrev pub others : ℕ → List ℕ → List ℕ
others conn = select (λ c. not (c == conn))

select-absent : (conn : ℕ) (cs : List ℕ) → All (λ d. d ≢ conn) cs → others conn cs ≡ cs
select-absent conn [] h = refl
select-absent conn (c ∷ cs) h = ground (arith, select-absent conn cs h.1)

without-others : (conn : ℕ) (cs : List ℕ) → Distinct cs → without conn cs ≡ others conn cs
unfolding without
without-others conn [] h = refl
without-others conn (c ∷ cs) h = ground (arith, without-others conn cs h.1, select-absent conn cs)

-- Where no connection stands twice, a client that goes away is the only one removed, and the
-- others keep their order.
pub closed-others :
    (t : Topic) (conn : ℕ)
    → Distinct t.connections
    → (closed t conn).connections ≡ others conn t.connections
closed-others t conn h = closed-without t conn ∙ without-others conn t.connections h

send_each-map :
    (update : Update) (out : Output) (cs : List ℕ)
    → send_each update out cs ≡ out ++ map (λ c. (c, message update)) cs
unfolding send_each
send_each-map update out [] = sym (append-nil out)
send_each-map update out (c ∷ cs) =
    send_each-map update (send update out c) cs ∙ append_assoc out _ _

-- A broadcast writes the update once to each connection of the topic, in order, and nothing else.
pub broadcast-map :
    (t : Topic) (update : Update) (out : Output)
    → broadcast t update out ≡ out ++ map (λ c. (c, message update)) t.connections
unfolding broadcast
broadcast-map t update out = send_each-map update out t.connections
