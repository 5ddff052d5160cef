-- ===== src/CircuitBreaker/Bounds.antt =====
-- An open circuit of circuitbreaker.py is tried again after at most `max_backoff`.
use local_gateway.Prelude.{
  leb, if◌then◌else◌, nat_eq, int_eq, Text, text_eq, select, ℕ, zero, suc, ◌+◌, ◌-◌, ◌*◌, ◌^◌, ◌≤◌,
  ◌<◌, min, ◌≡◌, ap, Bool, true, false, Option, List, [], ◌∷◌, arith,
}
use native.Mathlib.Nat.{pow-suc}
use local_gateway.Backend.{backend_key}
use local_gateway.CircuitBreaker.{
  Circuit, Breaker, Settings, max_backoff, step, is_open, backoff_of, should_trip, trip,
  note_failure, close_circuit,
}
use local_gateway.CircuitBreaker.Trace.{
  Outcome, run, run_circuit, circuit_after, circuit_at, is_for, circuit_at-run, is_open-circuit_at,
}

-- All outcomes are recorded at or before a time.
abbrev pub RecordedBy : ℕ → List Outcome → Type 0
RecordedBy now [] = Unit
RecordedBy now (o ∷ os) = (o.now ≤ now) × RecordedBy now os

circuit_after-open_until :
    (s : Settings) (o : Outcome) (c : Circuit) (now : ℕ)
    → o.now ≤ now
    → c.open_until ≤ now + max_backoff
    → (circuit_after s o c).open_until ≤ now + max_backoff
unfolding circuit_after step close_circuit note_failure should_trip trip backoff_of
circuit_after-open_until s o c now h k = ground arith

RecordedBy-select :
    (p : Outcome → Bool) (now : ℕ) (os : List Outcome)
    → RecordedBy now os
    → RecordedBy now (select p os)
unfolding select
RecordedBy-select p now [] h = h
RecordedBy-select p now (o ∷ os) h = ground (arith, RecordedBy-select p now os h.1)

run_circuit-open_until :
    (s : Settings) (os : List Outcome) (c : Circuit) (now : ℕ)
    → RecordedBy now os
    → c.open_until ≤ now + max_backoff
    → (run_circuit s os c).open_until ≤ now + max_backoff
unfolding run_circuit
run_circuit-open_until s [] c now h k = k
run_circuit-open_until s (o ∷ os) c now h k =
    run_circuit-open_until s os (circuit_after s o c) now h.1
      (circuit_after-open_until s o c now h.0 k)

-- Whatever was recorded up to a time, half an hour later no backend is excluded any more, if none
-- was excluded for longer to begin with.
pub reopens_within_cap :
    (b : Breaker) (os : List Outcome) (p m : Text) (now t : ℕ)
    → RecordedBy now os
    → (circuit_at (backend_key p m) b).open_until ≤ now + max_backoff
    → now + max_backoff ≤ t
    → is_open p m t (run os b) ≡ false
reopens_within_cap b os p m now t h start late =
    let key = backend_key p m in
    let bound =
      run_circuit-open_until b.settings (select (is_for key) os) (circuit_at key b) now
        (RecordedBy-select (is_for key) now os h) start in
    rw (is_open-circuit_at p m t (run os b), circuit_at-run key os b) (ground arith)

double_backoff : (base : ℕ) (n : ℕ) → 0 < n → base * 2 ^ n ≡ 2 * (base * 2 ^ (n - 1))
double_backoff base zero h = elim h [ ]
double_backoff base (suc n) h = rw pow-suc (ground arith)

-- On a circuit with at least one trip: a failure trips it again exactly if the backoff is over,
-- and then for twice the backoff of one trip less, up to the cap; a failure before that leaves its
-- end alone; a success closes it.
pub half_open_trial :
    (s : Settings) (error : Option Text) (now wall : ℕ) (c : Circuit)
    → s.enabled ≡ true
    → s.threshold ≤ c.consecutive_failures
    → 0 < c.trips
    → ((step s false error now wall c).1 ≡ leb c.open_until now)
      × ((step s false error now wall c).0.open_until ≡ (
          if leb c.open_until now
          then now + min (2 * (s.backoff * 2 ^ (c.trips - 1))) max_backoff
          else c.open_until))
      × ((step s true error now wall c).0.open_until ≡ 0)
unfolding step close_circuit note_failure should_trip trip backoff_of
half_open_trial s error now wall c on many tripped =
    let e : c.trips + 1 - 1 ≡ c.trips = omega arith in
    ground (arith, double_backoff s.backoff c.trips tripped, e, ap (λ (k : ℕ). 2 ^ k) e)
