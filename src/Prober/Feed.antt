-- ===== src/Prober/Feed.antt =====
-- What the probes of prober.py are noted as.
use local_gateway.Prelude.{
  nat_eq, int_eq, Text, text_eq, ℕ, suc, Bool, true, false, Option, none, some, List, [], ◌∷◌,
}
use local_gateway.CircuitBreaker.Trace.{Outcome}
use local_gateway.Prober.{Target, Probed, ProbeResult, no_answer, answered}

-- The targets, each with what its probe gave.
unfoldable pub probes_of : (ℕ → Target → Probed) → ℕ → List Target → List (Target × Probed)
probes_of probe n [] = []
probes_of probe n (t ∷ targets) = (t, probe n t) ∷ probes_of probe (suc n) targets

unfoldable pub verdict_of : ProbeResult → Bool × Option Text
verdict_of (no_answer status error latency_ms) = (false, some error)
verdict_of (answered r) = (true, none)

unfoldable pub outcome_of : Target → Probed → Outcome
outcome_of t x = record {
  provider_id = t.provider_id;
  model = t.backend_model;
  success = (verdict_of x.result).0;
  error = (verdict_of x.result).1;
  now = x.now;
  wall = x.wall;
}
