-- ===== src/Tests/Circuits.antt =====
-- Inputs for circuitbreaker.py.
use local_gateway.Prelude.{
  ltb, pos, nat_eq, int_eq, Text, text_eqb, text_eq, select, ℕ, ◌+◌, min, ◌≡◌, refl, Bool, true,
  false, none, List, [], ◌∷◌, arith,
}
use local_gateway.Backend.{backend_key}
use local_gateway.Dict.{get, get_default, set}
use local_gateway.CircuitBreaker.{
  Breaker, Circuit, initial, configure, max_backoff, new_circuit, is_open, record_outcome,
}
use local_gateway.CircuitBreaker.Trace.{
  Outcome, run, after, run_circuit, circuit_at, is_for, circuit_at-run,
}
use local_gateway.CircuitBreaker.Opening.{opens_at_threshold}
use local_gateway.CircuitBreaker.Bounds.{reopens_within_cap}
use local_gateway.Tests.Samples.{acme, beta, gpt}

abbrev outcome : Text → Bool → ℕ → Outcome
outcome p ok t = record {
  provider_id = p;
  model = gpt;
  success = ok;
  error = none;
  now = t;
  wall = t;
}

abbrev breaker : Breaker
breaker = record {
  circuits = [];
  settings = record { enabled = true; threshold = 2; backoff = 1000 };
}

abbrev two_failures : List Outcome
two_failures =
    outcome acme true 1 ∷ outcome acme false 2 ∷ outcome beta false 3 ∷ outcome acme false 4 ∷ []

configured : (configure true (pos 0) (pos 1) initial).settings.threshold ≡ 3
unfolding configure
configured = refl

opened : is_open acme gpt 5 (run two_failures breaker) ≡ true
unfolding is_open run after record_outcome backend_key get get_default set text_eqb
opened = refl

circuit_at-run_example :
    circuit_at (backend_key acme gpt) (run two_failures breaker)
    ≡ run_circuit breaker.settings
        (select (is_for (backend_key acme gpt)) two_failures)
        (circuit_at (backend_key acme gpt) breaker)
circuit_at-run_example = circuit_at-run (backend_key acme gpt) two_failures breaker

opens_at_threshold_example :
    is_open acme gpt 5 (run two_failures breaker) ≡ ltb 5 (4 + min 1000 max_backoff)
unfolding select is_for backend_key text_eqb
opens_at_threshold_example =
    opens_at_threshold breaker two_failures [] (outcome acme true 1) acme gpt 5
      (outcome acme false 2 ∷ []) (outcome acme false 4) refl refl (refl, tt) refl refl refl

abbrev tripped : Circuit
tripped = record new_circuit { consecutive_failures = 2; trips = 1; open_until = 1004 }

reopens_within_cap_example : is_open acme gpt 1800004 (run two_failures breaker) ≡ false
unfolding circuit_at get_default get backend_key
reopens_within_cap_example =
    reopens_within_cap breaker two_failures acme gpt 4 1800004 (omega arith) (omega arith)
      (omega arith)
