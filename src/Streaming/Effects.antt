-- ===== src/Streaming/Effects.antt =====
-- What the fallback loop of streaming.py leaves in the counters, the log and the circuit breaker.
use local_gateway.Prelude.{
  ltb, if◌then◌else◌, Bool-cases, nat_eq, int_eq, Text, text_eq, concat_map, ℕ, zero, suc, ◌≡◌,
  refl, sym, ap, ◌∙◌, inl, inr, Bool, true, false, none, List, [], ◌∷◌, ◌++◌, map, arith,
}
use mathlib.Core.List.{append-nil}
use local_gateway.Stats.{start_request}
use local_gateway.Stats.InFlight.{
  in_flight, in_flight-start_request, in_flight-end_request, in_flight-record_success,
  in_flight-record_failure,
}
use local_gateway.CircuitBreaker.{Breaker}
use local_gateway.CircuitBreaker.Trace.{Outcome, after, run}
use local_gateway.Router.Types.{Selected}
use local_gateway.Provider.{Exchange}
use local_gateway.Streaming.{
  Gateway, Request, Row, Attempt, provider_of, model_of, result, row_of, is_genuine,
  record_circuit_failure, exchange_with, note_served, note_failed, try_backends,
}
use local_gateway.Streaming.Fallback.{
  is_final, attempts, upto, settle, settle_all, settle-served, settle-failed, result-names,
  try_backends-verdict,
}

-- The attempts that the loop makes.
unfoldable pub tried : Request → (ℕ → Selected → Exchange) → ℕ → List Selected → List Attempt
tried q send n sels = upto (is_final q) (attempts send n sels)

state-try_backends :
    (q : Request) (send : ℕ → Selected → Exchange) (n : ℕ) (sels : List Selected)
    (errors : List Text) (g : Gateway)
    → (try_backends q send n sels errors g).0 ≡ settle_all q (tried q send n sels) g
unfolding tried
state-try_backends q send n sels errors g =
    ap (λ r. r.0) (try_backends-verdict q send n sels errors g)

rows-settle :
    (q : Request) (a : Attempt) (g : Gateway) → (settle q a g).rows ≡ g.rows ++ row_of q a ∷ []
unfolding settle note_served note_failed exchange_with
rows-settle q a g = elim (Bool-cases (result q a).success) [
  | inl good ↦ rw good refl
  | inr bad ↦ rw bad refl
]

append_rows : (xs : List Row) (x : Row) (ys : List Row) → (xs ++ x ∷ []) ++ ys ≡ xs ++ x ∷ ys
append_rows [] x ys = refl
append_rows (y ∷ xs) x ys = ap (λ l. y ∷ l) (append_rows xs x ys)

rows-settle_all :
    (q : Request) (made : List Attempt) (g : Gateway)
    → (settle_all q made g).rows ≡ g.rows ++ map (row_of q) made
unfolding settle_all
rows-settle_all q [] g = sym (append-nil g.rows)
rows-settle_all q (a ∷ made) g =
    rows-settle_all q made (settle q a g)
    ∙ ap (λ l. l ++ map (row_of q) made) (rows-settle q a g)
    ∙ append_rows g.rows (row_of q a) (map (row_of q) made)

in_flight-exchange_with :
    (key : Text) (a : Attempt) (g : Gateway)
    → in_flight key (exchange_with a g).stats ≡ in_flight key g.stats
unfolding exchange_with
in_flight-exchange_with key a g =
    let started = start_request (provider_of a) (model_of a) g.stats in
    ground (
      arith,
      in_flight-start_request key (provider_of a) (model_of a) g.stats,
      in_flight-end_request key (provider_of a) (model_of a) started,
    )

in_flight-settle :
    (key : Text) (q : Request) (a : Attempt) (g : Gateway)
    → in_flight key (settle q a g).stats ≡ in_flight key g.stats
unfolding note_served note_failed
in_flight-settle key q a g = elim (Bool-cases (result q a).success) [
  | inl good ↦
      ap (λ h. in_flight key h.stats) (settle-served q a g good)
      ∙ in_flight-record_success key _ _ _ _ _ _
      ∙ in_flight-exchange_with key a g
  | inr bad ↦
      ap (λ h. in_flight key h.stats) (settle-failed q a g bad)
      ∙ in_flight-record_failure key _ _ _ _ _
      ∙ in_flight-exchange_with key a g
]

in_flight-settle_all :
    (key : Text) (q : Request) (made : List Attempt) (g : Gateway)
    → in_flight key (settle_all q made g).stats ≡ in_flight key g.stats
unfolding settle_all
in_flight-settle_all key q [] g = refl
in_flight-settle_all key q (a ∷ made) g =
    in_flight-settle_all key q made (settle q a g) ∙ in_flight-settle key q a g

-- Whether an attempt with this success and status says something of its backend: every success does, a
-- failure without a status, which is a timeout or a broken connection, and one from 500 on.
unfoldable pub counts : Bool → ℕ → Bool
counts true status = true
counts false zero = true
counts false (suc n) = ltb 499 (suc n)

is_genuine-counts : (status : ℕ) → is_genuine status ≡ counts false status
unfolding is_genuine counts
is_genuine-counts zero = refl
is_genuine-counts (suc n) = ground arith

-- The outcomes that an attempt gives to the circuit breaker.
unfoldable pub outcomes_of : Request → Attempt → List Outcome
outcomes_of q a =
    let r = result q a in
    let o : Outcome = record {
      provider_id = provider_of a;
      model = model_of a;
      success = r.success;
      error = if r.success then none else r.error;
      now = a.exchange.now;
      wall = a.exchange.wall;
    } in
    if counts r.success r.status_code then o ∷ [] else []

run-append : (os ps : List Outcome) (b : Breaker) → run (os ++ ps) b ≡ run ps (run os b)
unfolding run
run-append [] ps b = refl
run-append (o ∷ os) ps b = run-append os ps (after o b)

breaker-settle :
    (q : Request) (a : Attempt) (g : Gateway)
    → (settle q a g).breaker ≡ run (outcomes_of q a) g.breaker
unfolding settle note_served note_failed exchange_with outcomes_of run after record_circuit_failure
    counts
breaker-settle q a g =
    let names = result-names q a in
    elim (Bool-cases (result q a).success) [
      | inl good ↦ rw (good, names.0, names.1) refl
      | inr bad ↦ elim (Bool-cases (counts false (result q a).status_code)) [
        | inl down ↦ rw (bad, is_genuine-counts (result q a).status_code, down) refl
        | inr fine ↦ rw (bad, is_genuine-counts (result q a).status_code, fine) refl
      ]
    ]

breaker-settle_all :
    (q : Request) (made : List Attempt) (g : Gateway)
    → (settle_all q made g).breaker ≡ run (concat_map (outcomes_of q) made) g.breaker
unfolding settle_all concat_map run
breaker-settle_all q [] g = refl
breaker-settle_all q (a ∷ made) g =
    breaker-settle_all q made (settle q a g)
    ∙ ap (run (concat_map (outcomes_of q) made)) (breaker-settle q a g)
    ∙ sym (run-append (outcomes_of q a) (concat_map (outcomes_of q) made) g.breaker)

-- Whatever the backends answer, the loop leaves as many requests in flight to each backend as there were.
pub try_backends-in_flight :
    (key : Text) (q : Request) (send : ℕ → Selected → Exchange) (n : ℕ) (sels : List Selected)
    (errors : List Text) (g : Gateway)
    → in_flight key (try_backends q send n sels errors g).0.stats ≡ in_flight key g.stats
try_backends-in_flight key q send n sels errors g =
    ap (λ h. in_flight key h.stats) (state-try_backends q send n sels errors g)
    ∙ in_flight-settle_all key q (tried q send n sels) g

-- The loop logs one row for each attempt it makes, failed or served, in their order.
pub try_backends-rows :
    (q : Request) (send : ℕ → Selected → Exchange) (n : ℕ) (sels : List Selected)
    (errors : List Text) (g : Gateway)
    → (try_backends q send n sels errors g).0.rows ≡ g.rows ++ map (row_of q) (tried q send n sels)
try_backends-rows q send n sels errors g =
    ap (λ h. h.rows) (state-try_backends q send n sels errors g)
    ∙ rows-settle_all q (tried q send n sels) g

-- The circuit breaker sees exactly the successes, timeouts, broken connections and 5xx of the attempts
-- made, in their order: a 429 or another 4xx changes no circuit.
pub try_backends-run :
    (q : Request) (send : ℕ → Selected → Exchange) (n : ℕ) (sels : List Selected)
    (errors : List Text) (g : Gateway)
    → (try_backends q send n sels errors g).0.breaker
      ≡ run (concat_map (outcomes_of q) (tried q send n sels)) g.breaker
try_backends-run q send n sels errors g =
    ap (λ h. h.breaker) (state-try_backends q send n sels errors g)
    ∙ breaker-settle_all q (tried q send n sels) g
