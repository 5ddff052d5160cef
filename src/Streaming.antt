-- ===== src/Streaming.antt =====
-- localgateway/streaming.py: the fallback loop of `handle_request`, the costs and the feed of the
-- circuit breaker. A price is for one token, as whole units of money.
pub mod Fallback
pub mod Effects
pub mod Cost
pub mod Stream
pub mod Resolve
pub mod Handle
use local_gateway.Prelude.{
  leb, eqb, if◌then◌else◌, nat_eq, int_eq, Text, text_eq, ℕ, suc, ◌+◌, ◌-◌, ◌*◌, Bool, true, false,
  not, ◌||◌, Option, none, some, List, [], ◌∷◌, ◌++◌, arith,
}
use local_gateway.Config.{GatewayConfig, PricingEntry, pricing_for}
use local_gateway.Stats.{
  Registry, Warm, start_request, end_request, record_success, record_failure, record_cache_activity,
}
use local_gateway.CircuitBreaker.{Breaker, record_outcome}
use local_gateway.RateLimit.{RateLimit}
use local_gateway.Router.Types.{Selected, Reason}
use local_gateway.Provider.{
  Usage, Reply, answered, timed_out, raised, Exchange, ProviderResult, result_of, cool_down,
}

-- One row of `log_request`; tokens per second are kept as tokens and milliseconds.
pub record Row : Type 0 where
  pub logical_model : Text
  pub provider : Text
  pub backend_model : Text
  pub success : Bool
  pub error : Option Text
  pub usage : Usage
  pub cost : Option ℕ
  pub latency_ms : ℕ
  pub ttft_ms : Option ℕ
  pub tps : Option (ℕ × ℕ)
  pub stream : Bool

-- The state of the gateway that a request changes: `rows` are the calls of `log_request` and `stored`
-- those of `respcache.store` with the body, in order.
pub record Gateway : Type 0 where
  pub stats : Registry
  pub warm : Warm
  pub breaker : Breaker
  pub limits : RateLimit
  pub rows : List Row
  pub stored : List (Text × Text)

abbrev pub or_zero : Option ℕ → ℕ
or_zero none = 0
or_zero (some n) = n

unfoldable pub price_or : ℕ → Option ℕ → ℕ
price_or d none = d
price_or d (some price) = price

unfoldable pub cost_of : PricingEntry → ℕ → ℕ → ℕ → ℕ → ℕ
unfolding price_or
cost_of pricing input output cached written =
    (input - cached - written) * pricing.input
    + cached * price_or pricing.input pricing.cache_read
    + written * price_or pricing.input pricing.cache_write
    + output * pricing.output

unfoldable pub compute_cost : GatewayConfig → Text → Text → Usage → Option ℕ
compute_cost config p m u = elim u.input_tokens [
  | none ↦ none
  | some input ↦ elim u.output_tokens [
    | none ↦ none
    | some output ↦ some (
        cost_of (pricing_for config p m) input output (or_zero u.cached_tokens)
          (or_zero u.cache_write_tokens))
  ]
]

-- The tokens, and the time of their generation.
unfoldable pub compute_tps : Option ℕ → ℕ → ℕ → Option (ℕ × ℕ)
compute_tps output latency ttft =
    if eqb (or_zero output) 0 || eqb latency 0
    then none
    else some (or_zero output, if leb latency ttft then latency else latency - ttft)

-- Without a price for cached input all input is logged as cached.
unfoldable pub logged_usage : PricingEntry → Usage → Usage
logged_usage pricing u = elim pricing.cache_read [
  | some price ↦ u
  | none ↦ if eqb (or_zero u.input_tokens) 0 then u else record u {
    cached_tokens = some (or_zero u.cached_tokens + or_zero u.input_tokens);
    input_tokens = some 0;
  }
]

-- `_record_circuit_failure`: only timeouts, connection errors and 5xx count.
unfoldable pub is_genuine : ℕ → Bool
is_genuine status = eqb status 0 || leb 500 status

unfoldable pub record_circuit_failure : Text → Text → ℕ → Option Text → ℕ → ℕ → Breaker → Breaker
unfolding is_genuine
record_circuit_failure p m status error now wall b =
    if is_genuine status then (record_outcome p m false error now wall b).0 else b

-- What a request carries, and what it uses of json and of other files: `normalize` is
-- `normalize_response_body` for a provider, `shift` is `_shift_usage_to_cached`.
pub record Request : Type 0 where
  pub config : GatewayConfig
  pub logical_model : Text
  pub cache_key : Text
  pub cache_fp : Option Text
  pub str : ℕ → Text
  pub extract : Text → Usage
  pub normalize : Text → Text → Text
  pub shift : Text → Text

-- What the client gets: a body with the serving backend, the error of a backend with its status, or
-- the errors of all.
pub data Response : Type 0 where
  served : Text → Text → Text → Reason → Response
  refused : Option Text → ℕ → Response
  all_failed : List Text → Response

unfoldable pub status_of : Response → ℕ
status_of (served body p m reason) = 200
status_of (refused error status) = if eqb status 0 then 502 else status
status_of (all_failed errors) = 502

-- One backend that is tried, and the exchange with it.
pub record Attempt : Type 0 where
  pub selected : Selected
  pub exchange : Exchange

unfoldable pub provider_of : Attempt → Text
provider_of a = a.selected.provider.id

unfoldable pub model_of : Attempt → Text
model_of a = a.selected.backend.model

unfoldable pub result : Request → Attempt → ProviderResult
unfolding provider_of model_of
result q a =
    result_of q.str q.extract (provider_of a) (model_of a) a.exchange.latency_ms a.exchange.reply

unfoldable pub pricing_of : Request → Attempt → PricingEntry
pricing_of q a = pricing_for q.config (provider_of a) (model_of a)

unfoldable pub body_of : Request → Attempt → Text
body_of q a =
    let body = q.normalize (provider_of a) (result q a).body in
    elim (pricing_of q a).cache_read [ none ↦ q.shift body | some price ↦ body ]

unfoldable pub row_of : Request → Attempt → Row
row_of q a =
    let r = result q a in
    record {
      logical_model = q.logical_model;
      provider = r.provider_id;
      backend_model = r.backend_model;
      success = r.success;
      error = r.error;
      usage = if r.success then logged_usage (pricing_of q a) r.usage else r.usage;
      cost =
          if r.success then compute_cost q.config r.provider_id r.backend_model r.usage else none;
      latency_ms = r.latency_ms;
      ttft_ms = none;
      stream = false;
      tps = if r.success then compute_tps r.usage.output_tokens r.latency_ms 0 else none;
    }

unfoldable pub store : Option Text → Text → List (Text × Text) → List (Text × Text)
store none body stored = stored
store (some fp) body stored = stored ++ (fp, body) ∷ []

-- `call_provider` between `start_request` and `end_request`.
unfoldable pub exchange_with : Attempt → Gateway → Gateway
exchange_with a g = record g {
  stats =
      end_request (provider_of a) (model_of a) (start_request (provider_of a) (model_of a) g.stats);
  limits = cool_down (provider_of a) (model_of a) a.exchange.now a.exchange.reply g.limits;
}

unfoldable pub note_served : Request → Attempt → Gateway → Gateway
note_served q a g =
    let r = result q a in
    record g {
      stats =
          record_success r.provider_id r.backend_model (some r.latency_ms) none a.exchange.wall
            g.stats;
      breaker =
          (record_outcome r.provider_id r.backend_model true none a.exchange.now a.exchange.wall
            g.breaker).0;
      warm =
          record_cache_activity r.provider_id r.backend_model q.cache_key r.usage.cached_tokens
            r.usage.cache_write_tokens r.usage.input_tokens a.selected.backend.cache_supported
            a.exchange.wall g.warm;
      rows = g.rows ++ row_of q a ∷ [];
      stored = store q.cache_fp (body_of q a) g.stored;
    }

unfoldable pub note_failed : Request → Attempt → Gateway → Gateway
unfolding record_circuit_failure
note_failed q a g =
    let r = result q a in
    record g {
      stats = record_failure (provider_of a) (model_of a) r.error a.exchange.wall g.stats;
      breaker =
          record_circuit_failure (provider_of a) (model_of a) r.status_code r.error a.exchange.now
            a.exchange.wall g.breaker;
      rows = g.rows ++ row_of q a ∷ [];
    }

-- f"[{provider}:{model}] {error}"
unfoldable pub error_line : Request → Attempt → Text
error_line q a =
    (b'[' ∷ provider_of a)
    ++ (b':' ∷ model_of a)
    ++ b']' ∷ b' ' ∷ elim (result q a).error [ none ↦ [] | some e ↦ e ]

-- The loop over the selected backends; `send n` is the exchange of the n-th attempt.
unfoldable pub try_backends :
    Request
    → (ℕ → Selected → Exchange)
    → ℕ
    → List Selected
    → List Text
    → Gateway
    → Gateway × Response
try_backends q send n [] errors g = (g, all_failed errors)
try_backends q send n (s ∷ rest) errors g =
    let a : Attempt = record { selected = s; exchange = send n s } in
    let r = result q a in
    let called = exchange_with a g in
    let failed = note_failed q a called in
    let later = try_backends q send (suc n) rest (errors ++ error_line q a ∷ []) failed in
    if r.success
    then (note_served q a called, served (body_of q a) r.provider_id r.backend_model s.reason)
    else if not r.retryable
    then (failed, refused r.error r.status_code)
    else later
