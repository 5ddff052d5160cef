-- ===== src/Tests/Fallbacks.antt =====
-- Inputs for the fallback loop and the costs of streaming.py.
use local_gateway.Prelude.{
  nat_eq, int_eq, text_eq, concat_map, ℕ, zero, suc, ◌≡◌, refl, none, some, List, [], ◌∷◌,
}
use local_gateway.Config.{GatewayConfig}
use local_gateway.Backend.{backend_key}
use local_gateway.Provider.{Usage, Exchange, answered, timed_out}
use local_gateway.CircuitBreaker.Trace.{run}
use local_gateway.CircuitBreaker.{initial as no_circuits}
use local_gateway.RateLimit.{initial as no_limits}
use local_gateway.Router.Types.{Selected, untagged}
use local_gateway.Streaming.{
  Gateway, Request, Response, row_of, try_backends, price_or, or_zero, compute_cost, status_of,
}
use local_gateway.Streaming.Fallback.{
  is_final, attempts, upto, settle_all, verdict, try_backends-verdict,
}
use local_gateway.Streaming.Effects.{tried, outcomes_of, try_backends-run}
use local_gateway.Tests.Samples.{acme, beta, gpt, config, provider, backend}

abbrev used : Usage
used = record {
  input_tokens = some 100;
  output_tokens = some 20;
  reasoning_tokens = none;
  cached_tokens = some 60;
  cache_write_tokens = none;
}

abbrev pub chat : Request
chat = record {
  config = config;
  logical_model = gpt;
  cache_key = [];
  cache_fp = none;
  str = λ n. gpt;
  extract = λ body. used;
  normalize = λ p body. body;
  shift = λ body. body;
}

abbrev chosen : List Selected
chosen =
    untagged (record { provider = provider acme; backend = backend acme 1 })
    ∷ untagged (record { provider = provider beta; backend = backend beta 2 })
    ∷ []

-- The first backend times out, the second answers.
pub send : ℕ → Selected → Exchange
send zero s = record { reply = timed_out; latency_ms = 900; now = 10; wall = 5010 }
send (suc n) s = record { reply = answered 200 none gpt; latency_ms = 30; now = 40; wall = 5040 }

abbrev pub idle : Gateway
idle = record {
  stats = [];
  warm = [];
  breaker = no_circuits;
  limits = no_limits;
  rows = [];
  stored = [];
}

try_backends-verdict_example : try_backends chat send 0 chosen [] idle ≡ (
  settle_all chat (upto (is_final chat) (attempts send 0 chosen)) idle,
  verdict chat [] (attempts send 0 chosen),
)
try_backends-verdict_example = try_backends-verdict chat send 0 chosen [] idle

served_second : status_of (try_backends chat send 0 chosen [] idle).1 ≡ 200
unfolding try_backends status_of send local_gateway.Streaming.result
    local_gateway.Provider.result_of local_gateway.Provider.failure
served_second = refl

try_backends-run_example :
    (try_backends chat send 0 chosen [] idle).0.breaker
    ≡ run (concat_map (outcomes_of chat) (tried chat send 0 chosen)) idle.breaker
try_backends-run_example = try_backends-run chat send 0 chosen [] idle

abbrev priced : GatewayConfig
priced = record config {
  pricing =
      (
        backend_key acme gpt,
        record { input = 5; output = 8; cache_read = some 1; cache_write = none },
      )
      ∷ [];
}
