-- ===== src/Tests/Relays.antt =====
-- Inputs for the streaming loop of streaming.py.
use local_gateway.Prelude.{
  nat_eq, int_eq, text_eq, ℕ, zero, suc, ◌≡◌, refl, true, false, none, some, List, [], ◌∷◌,
}
use local_gateway.Provider.{streamed, stream_timed_out, finished}
use local_gateway.CircuitBreaker.{initial as no_circuits}
use local_gateway.RateLimit.{initial as no_limits}
use local_gateway.Router.Types.{Selected, untagged}
use local_gateway.Streaming.{Request}
use local_gateway.Streaming.Stream.{StreamExchange, Relay, Progress, stream_backends}
use local_gateway.Streaming.Stream.Shape.{is_answer, is_answer-stream_backends}
use local_gateway.Tests.Samples.{acme, beta, gpt, config, provider, backend}

abbrev relay : Relay
relay = record {
  observe = λ chunks. record {
    trailing = [];
    usage = record {
      input_tokens = some 9;
      output_tokens = some 2;
      reasoning_tokens = none;
      cached_tokens = none;
      cache_write_tokens = none;
    };
    ttft_ms = some 5;
    saw_done = false;
  };
  transform = λ p fed c. c;
  flush = λ p fed. [];
  shift_chunk = λ out. out;
  exhausted = λ errors. gpt;
}

abbrev chat : Request
chat = record {
  config = config;
  logical_model = gpt;
  cache_key = [];
  cache_fp = some acme;
  str = λ n. gpt;
  extract = λ body. (relay.observe []).usage;
  normalize = λ p body. body;
  shift = λ body. body;
}

abbrev chosen : List Selected
chosen =
    untagged (record { provider = provider acme; backend = backend acme 1 })
    ∷ untagged (record { provider = provider beta; backend = backend beta 2 })
    ∷ []

-- The first backend times out before a chunk, the second sends two chunks.
send : ℕ → Selected → StreamExchange
send zero s = record {
  reply = streamed [] stream_timed_out;
  first_ms = 0;
  latency_ms = 900;
  now = 10;
  wall = 5010;
}
send (suc n) s = record {
  reply = streamed (acme ∷ [] ∷ beta ∷ []) finished;
  first_ms = 5;
  latency_ms = 30;
  now = 40;
  wall = 5040;
}

abbrev begun : Progress
begun = record {
  gateway = record {
    stats = [];
    warm = [];
    breaker = no_circuits;
    limits = no_limits;
    rows = [];
    stored = [];
  };
  items = [];
  committed = false;
  fed = [];
  collected = [];
}

is_answer-stream_backends_example :
    is_answer (stream_backends chat relay send 0 chosen [] begun).items ≡ true
is_answer-stream_backends_example = is_answer-stream_backends chat relay send chosen begun refl refl
