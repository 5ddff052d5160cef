-- ===== src/Prober.antt =====
-- localgateway/prober.py: which backends a turn of the prober's loop probes, the repetition of
-- implausible probes, and what is noted of each. Intervals and times are milliseconds; the exchange with
-- a provider, the shuffle and the answers of ratelimit are arguments.
pub mod Intervals
pub mod Feed
use local_gateway.Prelude.{
  ltb, leb, eqb, if◌then◌else◌, nat_eq, int_eq, Text, text_eq, take, ℕ, zero, suc, ◌+◌, ◌*◌, Bool,
  true, false, ◌&&◌, Option, none, some, List, [], ◌∷◌, ◌++◌, arith,
}
use local_gateway.Dict.{Dict, get_default, set}
use local_gateway.Config.{
  GatewayConfig, ModelConfig, BackendConfig, ProviderConfig, PricingEntry, pricing_for,
  provider_by_id,
}
use local_gateway.Stats.{Registry, record_success, record_failure}
use local_gateway.CircuitBreaker.{Breaker, record_outcome}

abbrev pub max_reprobe : ℕ
max_reprobe = 3

abbrev pub implausible_tps : ℕ
implausible_tps = 2000

-- What an answered probe measured; a rate may be the backend's historical one.
pub record Reading : Type 0 where
  pub latency_ms : ℕ
  pub ttft_ms : Option ℕ
  pub tps : Option ℕ
  pub input_tokens : Option ℕ
  pub output_tokens : Option ℕ
  pub from_history : Bool

-- A failed probe has the status of the provider's answer, if there was one, an error and a latency.
pub data ProbeResult : Type 0 where
  no_answer : Option ℕ → Text → ℕ → ProbeResult
  answered : Reading → ProbeResult

unfoldable pub is_plausible : Option ℕ → Bool
is_plausible none = true
is_plausible (some tps) = ltb tps implausible_tps

-- The loop ends with a result that is not to be repeated.
unfoldable pub is_settled : ProbeResult → Bool
is_settled (no_answer status error latency_ms) = true
is_settled (answered r) = is_plausible r.tps

unfoldable pub or_history : Option ℕ → ProbeResult → ProbeResult
or_history p50 (no_answer status error latency_ms) = no_answer status error latency_ms
or_history none (answered r) = answered r
or_history (some tps) (answered r) = answered (record r { tps = some tps; from_history = true })

-- The turns that are left; `probe` gives the result of an attempt by its number.
unfoldable pub reprobe : (ℕ → ProbeResult) → Option ℕ → ℕ → ℕ → ProbeResult → ProbeResult
reprobe probe p50 zero n last = or_history p50 last
reprobe probe p50 (suc left) n last =
    let r = probe n in if is_settled r then r else reprobe probe p50 left (suc n) r

unfoldable pub probe_with_reprobe : (ℕ → ProbeResult) → Option ℕ → ProbeResult
probe_with_reprobe probe p50 = reprobe probe p50 max_reprobe 0 (probe 0)

-- (prov, b.model, m.id)
pub record Target : Type 0 where
  pub provider_id : Text
  pub backend_model : Text
  pub model_id : Text

unfoldable pub or_interval : ℕ → ℕ → ℕ
or_interval default n = if eqb n 0 then default else n

unfoldable pub interval_of : ℕ → ModelConfig → ℕ
interval_of server_interval m = elim m.probe_interval_s [ none ↦ server_interval | some i ↦ i ]

-- `now - last < model_interval` does not hold.
unfoldable pub is_due : ℕ → ℕ → ℕ → Bool
is_due interval now last = leb (last + interval) now

unfoldable pub is_up : Option ProviderConfig → Bool
is_up none = false
is_up (some p) = p.enabled

module _ (config : GatewayConfig) (is_available : Text → Text → Bool) where
  unfoldable pub targets_of : Text → List BackendConfig → List Target
  targets_of model_id [] = []
  targets_of model_id (b ∷ bs) =
      let rest = targets_of model_id bs in
      if b.enabled && (is_up (provider_by_id config b.provider) && is_available b.provider b.model)
      then record { provider_id = b.provider; backend_model = b.model; model_id = model_id } ∷ rest
      else rest

  -- The models that are due, their backends, and the new times.
  unfoldable pub collect : ℕ → ℕ → List ModelConfig → Dict Text ℕ → List Target × Dict Text ℕ
  collect server_interval now [] last = ([], last)
  collect server_interval now (m ∷ ms) last =
      let due = m.enabled && is_due (interval_of server_interval m) now (get_default m.id 0 last) in
      let (found, after) =
        collect server_interval now ms (if due then set m.id now last else last) in
      ((if due then targets_of m.id m.backends else []) ++ found, after)

  -- One turn of the loop, up to the probes.
  unfoldable pub tick : ℕ → ℕ → Dict Text ℕ → List Target × Dict Text ℕ
  tick interval now last =
      if config.server.probe_enabled
      then collect (or_interval interval config.server.probe_interval_s) now config.models last
      else ([], last)

-- The result of a probe, with both clocks when it is there.
pub record Probed : Type 0 where
  pub result : ProbeResult
  pub now : ℕ
  pub wall : ℕ

-- The row that is logged, with `is_probe`.
pub record ProbeRow : Type 0 where
  pub target : Target
  pub success : Bool
  pub error : Option Text
  pub input_tokens : Option ℕ
  pub output_tokens : Option ℕ
  pub cost : Option ℕ
  pub latency_ms : ℕ
  pub ttft_ms : Option ℕ
  pub tps : Option ℕ

pub record Notes : Type 0 where
  pub stats : Registry
  pub breaker : Breaker
  pub rows : List ProbeRow

unfoldable pub count_of : Option ℕ → ℕ
count_of none = 0
count_of (some n) = n

-- `n or None`
unfoldable pub nonzero : ℕ → Option ℕ
nonzero n = if eqb n 0 then none else some n

unfoldable pub probe_cost : PricingEntry → Reading → Option ℕ
probe_cost pricing r =
    let out = count_of r.output_tokens in
    if eqb out 0
    then none
    else some (count_of r.input_tokens * pricing.input + out * pricing.output)

unfoldable pub probe_row : GatewayConfig → Target → ProbeResult → ProbeRow
probe_row config t (no_answer status error latency_ms) = record {
  target = t;
  success = false;
  error = some error;
  input_tokens = none;
  output_tokens = none;
  cost = none;
  latency_ms = latency_ms;
  ttft_ms = none;
  tps = none;
}
probe_row config t (answered r) = record {
  target = t;
  success = true;
  error = none;
  input_tokens = nonzero (count_of r.input_tokens);
  output_tokens = nonzero (count_of r.output_tokens);
  cost = probe_cost (pricing_for config t.provider_id t.backend_model) r;
  latency_ms = r.latency_ms;
  ttft_ms = r.ttft_ms;
  tps = r.tps;
}

unfoldable pub count_probe : Target → ProbeResult → ℕ → Registry → Registry
count_probe t (no_answer status error latency_ms) wall =
    record_failure t.provider_id t.backend_model (some error) wall
count_probe t (answered r) wall =
    record_success t.provider_id t.backend_model (some r.latency_ms) r.ttft_ms wall

unfoldable pub feed_breaker : Target → ProbeResult → ℕ → ℕ → Breaker → Breaker
feed_breaker t (no_answer status error latency_ms) now wall b =
    (record_outcome t.provider_id t.backend_model false (some error) now wall b).0
feed_breaker t (answered r) now wall b =
    (record_outcome t.provider_id t.backend_model true none now wall b).0

unfoldable pub note_probe : GatewayConfig → Target → Probed → Notes → Notes
note_probe config t x notes = record {
  stats = count_probe t x.result x.wall notes.stats;
  breaker = feed_breaker t x.result x.now x.wall notes.breaker;
  rows = notes.rows ++ probe_row config t x.result ∷ [];
}

abbrev pub probe_count : ℕ
probe_count = 10

-- The probes of one turn: the first ten of the shuffled targets; `probe` is told the position.
unfoldable pub probe_all : GatewayConfig → (ℕ → Target → Probed) → ℕ → List Target → Notes → Notes
probe_all config probe n [] notes = notes
probe_all config probe n (t ∷ targets) notes =
    probe_all config probe (suc n) targets (note_probe config t (probe n t) notes)

unfoldable pub probe_batch :
    GatewayConfig
    → (List Target → List Target)
    → (ℕ → Target → Probed)
    → List Target
    → Notes
    → Notes
probe_batch config shuffle probe targets notes =
    probe_all config probe 0 (take probe_count (shuffle targets)) notes
