-- ===== src/CircuitBreaker/Opening.antt =====
-- When circuitbreaker.py opens a circuit, and how a half-open trial ends.
use local_gateway.Prelude.{
  ltb, if◌then◌else◌, nat_eq, int_eq, Text, text_eq, length, select, ℕ, ◌+◌, ◌<◌, min, ◌≡◌, refl,
  ap, ◌∙◌, true, false, List, [], ◌∷◌, ◌++◌, arith,
}
use local_gateway.Backend.{backend_key}
use local_gateway.CircuitBreaker.{
  Circuit, Breaker, Settings, max_backoff, step, is_open, backoff_of, should_trip, trip,
  note_failure, close_circuit,
}
use local_gateway.CircuitBreaker.Trace.{
  Outcome, run, run_circuit, circuit_after, circuit_at, is_for, circuit_at-run, settings-run,
  is_open-circuit_at,
}

abbrev pub AllFail : List Outcome → Type 0
AllFail [] = Unit
AllFail (o ∷ os) = (o.success ≡ false) × AllFail os

run_circuit-append :
    (s : Settings) (os ps : List Outcome) (c : Circuit)
    → run_circuit s (os ++ ps) c ≡ run_circuit s ps (run_circuit s os c)
unfolding run_circuit
run_circuit-append s [] ps c = refl
run_circuit-append s (o ∷ os) ps c = run_circuit-append s os ps (circuit_after s o c)

circuit_after-failure :
    (s : Settings) (o : Outcome) (c : Circuit)
    → o.success ≡ false
    → circuit_after s o c ≡ (
        let failed = note_failure o.error c in
        if should_trip s o.now failed then trip s o.now o.wall failed else failed)
unfolding circuit_after
circuit_after-failure s o c h = rw h (unfold step in ground arith)

run_circuit-cons :
    (s : Settings) (o : Outcome) (os : List Outcome) (c : Circuit)
    → run_circuit s (o ∷ os) c ≡ run_circuit s os (circuit_after s o c)
unfolding run_circuit
run_circuit-cons s o os c = refl

circuit_after-below :
    (s : Settings) (o : Outcome) (c : Circuit)
    → o.success ≡ false
    → c.consecutive_failures + 1 < s.threshold
    → circuit_after s o c ≡ note_failure o.error c
unfolding note_failure should_trip
circuit_after-below s o c h few = rw (circuit_after-failure s o c h) (ground arith)

-- Failures that do not reach the threshold are counted and nothing else happens.
failures_below :
    (s : Settings) (fs : List Outcome) (c : Circuit)
    → AllFail fs
    → c.consecutive_failures + length fs < s.threshold
    → ((run_circuit s fs c).consecutive_failures ≡ c.consecutive_failures + length fs)
      × ((run_circuit s fs c).open_until ≡ c.open_until)
      × ((run_circuit s fs c).trips ≡ c.trips)
unfolding run_circuit note_failure
failures_below s [] c h lt = (omega arith, refl, refl)
failures_below s (o ∷ fs) c h lt =
    rw (run_circuit-cons, circuit_after-below s o c h.0 (omega arith))
      (ground (arith, failures_below s fs (note_failure o.error c) h.1))

after_success :
    (s : Settings) (o : Outcome) (c : Circuit)
    → o.success ≡ true
    → circuit_after s o c ≡ close_circuit c
unfolding circuit_after step
after_success s o c h = rw h

-- The circuit after a success and then some outcomes.
since_success :
    (s : Settings) (pre : List Outcome) (o : Outcome) (os : List Outcome) (c : Circuit)
    → o.success ≡ true
    → run_circuit s (pre ++ o ∷ os) c ≡ run_circuit s os (close_circuit (run_circuit s pre c))
since_success s pre o os c good =
    run_circuit-append s pre (o ∷ os) c
    ∙ run_circuit-cons s o os (run_circuit s pre c)
    ∙ ap (run_circuit s os) (after_success s o (run_circuit s pre c) good)

-- The failure that reaches the threshold of a circuit with no trips opens it.
opening :
    (s : Settings) (fs : List Outcome) (last : Outcome) (c : Circuit)
    → AllFail fs
    → last.success ≡ false
    → length fs + 1 ≡ s.threshold
    → s.enabled ≡ true
    → (run_circuit s (fs ++ last ∷ []) (close_circuit c)).open_until
      ≡ last.now + min s.backoff max_backoff
unfolding note_failure should_trip trip backoff_of close_circuit
opening s fs last c bad failed enough on =
    let d = run_circuit s fs (close_circuit c) in
    let (counted, closed, trips) = failures_below s fs (close_circuit c) bad (omega arith) in
    rw (run_circuit-append s fs (last ∷ []) (close_circuit c), run_circuit-cons s last [] d)
      (unfold run_circuit in rw (circuit_after-failure s last d failed) (ground arith))

module _ (b : Breaker) (os pre : List Outcome) (o : Outcome) (p m : Text) (t : ℕ) where
  -- After a success and then fewer failures than the threshold, whatever other backends do in
  -- between, the backend's circuit is closed at every time.
  pub closed_below_threshold :
      (fs : List Outcome)
      → select (is_for (backend_key p m)) os ≡ pre ++ o ∷ fs
      → o.success ≡ true
      → AllFail fs
      → length fs < b.settings.threshold
      → is_open p m t (run os b) ≡ false
  unfolding close_circuit
  closed_below_threshold fs own good bad few =
      let key = backend_key p m in
      let c = run_circuit b.settings pre (circuit_at key b) in
      ground (
        arith,
        is_open-circuit_at p m t (run os b),
        circuit_at-run key os b,
        own,
        since_success b.settings pre o fs (circuit_at key b) good,
        failures_below b.settings fs (close_circuit c) bad (omega arith),
      )

  -- With the breaker enabled, the failure that makes the number of failures since the last success
  -- reach the threshold opens the circuit, for the base backoff (capped) and no longer.
  pub opens_at_threshold :
      (fs : List Outcome) (last : Outcome)
      → select (is_for (backend_key p m)) os ≡ pre ++ o ∷ (fs ++ last ∷ [])
      → o.success ≡ true
      → AllFail fs
      → last.success ≡ false
      → length fs + 1 ≡ b.settings.threshold
      → b.settings.enabled ≡ true
      → is_open p m t (run os b) ≡ ltb t (last.now + min b.settings.backoff max_backoff)
  opens_at_threshold fs last own good bad failed enough on =
      let key = backend_key p m in
      let c = run_circuit b.settings pre (circuit_at key b) in
      ground (
        arith,
        is_open-circuit_at p m t (run os b),
        settings-run os b,
        circuit_at-run key os b,
        own,
        since_success b.settings pre o (fs ++ last ∷ []) (circuit_at key b) good,
        opening b.settings fs last c bad failed enough on,
      )
