-- ===== src/Provider.antt =====
-- localgateway/provider.py: `call_provider` and `call_provider_stream`, one request to an upstream
-- provider. What the provider
-- answers, and what json and `str` make of it, are arguments.
use local_gateway.Prelude.{
  eqb, if◌then◌else◌, ℤ, nat_eq, int_eq, Text, text_eq, take, is_empty, ℕ, Bool, true, false, ◌||◌,
  Option, none, some, List, [], ◌∷◌, ◌++◌, map,
}
use local_gateway.RateLimit.{RateLimit, set_cooldown}

-- `StreamUsage`
pub record Usage : Type 0 where
  pub input_tokens : Option ℕ
  pub output_tokens : Option ℕ
  pub reasoning_tokens : Option ℕ
  pub cached_tokens : Option ℕ
  pub cache_write_tokens : Option ℕ

abbrev pub no_usage : Usage
no_usage = record {
  input_tokens = none;
  output_tokens = none;
  reasoning_tokens = none;
  cached_tokens = none;
  cache_write_tokens = none;
}

-- The outcome of the post: a response with its status, its parsed `Retry-After` and its body, a
-- timeout, or another exception with its text.
pub data Reply : Type 0 where
  answered : ℕ → Option ℤ → Text → Reply
  timed_out : Reply
  raised : Text → Reply

-- A reply with its latency, and the times of both clocks when it is there.
pub record Exchange : Type 0 where
  pub reply : Reply
  pub latency_ms : ℕ
  pub now : ℕ
  pub wall : ℕ

pub record ProviderResult : Type 0 where
  pub success : Bool
  pub status_code : ℕ
  pub body : Text
  pub error : Option Text
  pub provider_id : Text
  pub backend_model : Text
  pub usage : Usage
  pub latency_ms : ℕ
  pub retryable : Bool

-- RETRYABLE_STATUS
unfoldable pub is_retryable : ℕ → Bool
is_retryable status =
    eqb status 429 || (eqb status 500 || (eqb status 502 || (eqb status 503 || eqb status 504)))

unfoldable pub failure : Text → Text → ℕ → ℕ → Text → Bool → ProviderResult
failure p m latency status error retryable = record {
  success = false;
  status_code = status;
  body = [];
  error = some error;
  provider_id = p;
  backend_model = m;
  usage = no_usage;
  latency_ms = latency;
  retryable = retryable;
}

abbrev http : Text
http = b'H' ∷ b'T' ∷ b'T' ∷ b'P' ∷ b' ' ∷ []

abbrev timeout : Text
timeout = b't' ∷ b'i' ∷ b'm' ∷ b'e' ∷ b'o' ∷ b'u' ∷ b't' ∷ []

-- `str` prints a status, `extract` reads the usage of a body.
module _ (str : ℕ → Text) (extract : Text → Usage) where
  unfoldable pub result_of : Text → Text → ℕ → Reply → ProviderResult
  result_of p m latency (answered status retry_after body) =
      if eqb status 200
      then record {
        success = true;
        status_code = 200;
        body = body;
        error = none;
        provider_id = p;
        backend_model = m;
        usage = extract body;
        latency_ms = latency;
        retryable = false;
      }
      else failure p m latency status (if is_empty body then http ++ str status else take 500 body)
          (is_retryable status)
  result_of p m latency timed_out = failure p m latency 0 timeout true
  result_of p m latency (raised text) = failure p m latency 0 (take 500 text) true

-- A 429 holds the backend.
unfoldable pub cool_down : Text → Text → ℕ → Reply → RateLimit → RateLimit
cool_down p m now (answered status retry_after body) r =
    if eqb status 429 then set_cooldown p m retry_after now r else r
cool_down p m now timed_out r = r
cool_down p m now (raised text) r = r

-- How the bytes of a stream end: the provider is done, no chunk comes within the idle timeout, httpx
-- times out, or another exception is raised.
pub data Ending : Type 0 where
  finished : Ending
  idle_timeout : Text → Ending
  stream_timed_out : Ending
  stream_raised : Text → Ending

-- A refusal with its status, its parsed `Retry-After` and its text; or chunks of bytes. An exception
-- before the response is an ending without chunks.
pub data StreamReply : Type 0 where
  rejected : ℕ → Option ℤ → Text → StreamReply
  streamed : List Text → Ending → StreamReply

pub data StreamEvent : Type 0 where
  chunk : Text → StreamEvent
  done : Usage → Option ℕ → Bool → StreamEvent
  failed : Text → ℕ → Bool → Bool → StreamEvent

-- What the StreamAccumulator has of the chunks at the end: the rendered trailing events, the usage,
-- estimated where the stream has none, the time to the first token, and whether its end mark came.
pub record Accumulated : Type 0 where
  pub trailing : List Text
  pub usage : Usage
  pub ttft_ms : Option ℕ
  pub saw_done : Bool

unfoldable pub end_events : Bool → Accumulated → Ending → List StreamEvent
end_events first acc finished =
    map chunk acc.trailing ++ done acc.usage acc.ttft_ms acc.saw_done ∷ []
end_events first acc (idle_timeout text) = failed text 0 true first ∷ []
end_events first acc stream_timed_out = failed timeout 0 true first ∷ []
end_events first acc (stream_raised text) = failed (take 500 text) 0 true first ∷ []

-- The loop over the chunks; `first` is whether one has come.
unfoldable pub pull : Bool → Accumulated → Ending → List Text → List StreamEvent
pull first acc ending [] = end_events first acc ending
pull first acc ending (c ∷ cs) =
    if is_empty c then pull first acc ending cs else chunk c ∷ pull true acc ending cs

unfoldable pub call_provider_stream : (List Text → Accumulated) → StreamReply → List StreamEvent
call_provider_stream observe (rejected status retry_after text) =
    failed (take 500 text) status (is_retryable status) false ∷ []
call_provider_stream observe (streamed chunks ending) = pull false (observe chunks) ending chunks

unfoldable pub cool_down_stream : Text → Text → ℕ → StreamReply → RateLimit → RateLimit
cool_down_stream p m now (rejected status retry_after text) r =
    if eqb status 429 then set_cooldown p m retry_after now r else r
cool_down_stream p m now (streamed chunks ending) r = r
