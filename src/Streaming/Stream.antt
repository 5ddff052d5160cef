-- ===== src/Streaming/Stream.antt =====
-- localgateway/streaming.py: the loop of `handle_request_stream` over the selected backends.
pub mod Shape
use local_gateway.Prelude.{
  eqb, if◌then◌else◌, nat_eq, int_eq, Text, text_eq, is_empty, ℕ, suc, Bool, true, false, not,
  Option, none, some, List, [], ◌∷◌, ◌++◌, arith,
}
use local_gateway.Config.{PricingEntry, pricing_for}
use local_gateway.Stats.{
  start_request, end_request, record_success, record_failure, record_cache_activity,
}
use local_gateway.CircuitBreaker.{record_outcome}
use local_gateway.Router.Types.{Selected, Reason}
use local_gateway.Provider.{
  Usage, StreamReply, StreamEvent, chunk, done, failed, Accumulated, call_provider_stream,
  cool_down_stream,
}
use local_gateway.Streaming.{
  Gateway, Request, Row, compute_cost, compute_tps, logged_usage, record_circuit_failure, or_zero,
  store,
}

-- The exchange of one attempt, the time to its first chunk, its latency, and both clocks at its end.
pub record StreamExchange : Type 0 where
  pub reply : StreamReply
  pub first_ms : ℕ
  pub latency_ms : ℕ
  pub now : ℕ
  pub wall : ℕ

pub record StreamAttempt : Type 0 where
  pub selected : Selected
  pub exchange : StreamExchange

-- The code of an error event.
pub data ErrorCode : Type 0 where
  stream_interrupted all_backends_failed : ErrorCode
  http_status : ℕ → ErrorCode

-- The last bytes of a stream.
abbrev pub done_bytes : Text
done_bytes =
    b'd' ∷ b'a' ∷ b't' ∷ b'a' ∷ b':' ∷ b' ' ∷ b'[' ∷ b'D' ∷ b'O' ∷ b'N' ∷ b'E' ∷ b']' ∷ 10 ∷ 10 ∷ []

-- What the generator yields: the headers with the serving backend, bytes, an error event, the end mark, or
-- an error with its status instead of a stream. The bytes that are sent are marked with the provider and
-- the model of the attempt that sends them.
pub data Item : Type 0 where
  headers : Text → Text → Reason → Item
  bytes : Text → Text → Text → Item
  error_event : Text → ErrorCode → Item
  done_mark : Item
  terminal : Text → ℕ → Item

-- What the loop uses of json and of the transform parser: the bytes for a chunk after others, those left
-- at the end, the shifted usage of a chunk, and the message for the errors of all; `observe` is the
-- accumulator's.
pub record Relay : Type 0 where
  pub observe : List Text → Accumulated
  pub transform : Text → List Text → Text → Text
  pub flush : Text → List Text → Text
  pub shift_chunk : Text → Text
  pub exhausted : List Text → Text

-- The state of the generator: `fed` are the chunks of the attempt, `collected` the bytes for the cache.
pub record Progress : Type 0 where
  pub gateway : Gateway
  pub items : List Item
  pub committed : Bool
  pub fed : List Text
  pub collected : List Text

pub data Outcome : Type 0 where
  stopped : Outcome
  next_backend : List Text → Outcome

unfoldable pub provider_of : StreamAttempt → Text
provider_of a = a.selected.provider.id

unfoldable pub model_of : StreamAttempt → Text
model_of a = a.selected.backend.model

unfoldable pub emit : Item → Progress → Progress
emit i p = record p { items = p.items ++ i ∷ [] }

unfoldable pub opened : StreamAttempt → Progress → Progress
opened a p = record (emit (headers (provider_of a) (model_of a) a.selected.reason) p) {
  committed = true;
}

-- `if not committed: committed = True; yield {"headers": ...}`
unfoldable pub commit : StreamAttempt → Progress → Progress
commit a p = if p.committed then p else opened a p

-- Bytes that are sent, and collected where the response is cached.
unfoldable pub send_bytes : Request → StreamAttempt → Text → Progress → Progress
send_bytes q a out p =
    if is_empty out then p else record (emit (bytes (provider_of a) (model_of a) out) p) {
      collected = elim q.cache_fp [ none ↦ p.collected | some fp ↦ p.collected ++ out ∷ [] ];
    }

unfoldable pub relayed : Request → Relay → StreamAttempt → List Text → Text → Text
relayed q r a fed c =
    let out = r.transform (provider_of a) fed c in
    if is_empty out
    then out
    else elim (pricing_for q.config (provider_of a) (model_of a)).cache_read [
      | none ↦ r.shift_chunk out
      | some price ↦ out
    ]

unfoldable pub on_chunk : Request → Relay → StreamAttempt → Text → Progress → Progress
unfolding relayed
on_chunk q r a c p =
    let begun = commit a p in
    record (send_bytes q a (relayed q r a p.fed c) begun) { fed = p.fed ++ c ∷ [] }

unfoldable pub done_row : Request → StreamAttempt → Usage → Option ℕ → Row
done_row q a u ttft = record {
  logical_model = q.logical_model;
  provider = provider_of a;
  backend_model = model_of a;
  success = true;
  error = none;
  usage = logged_usage (pricing_for q.config (provider_of a) (model_of a)) u;
  cost = compute_cost q.config (provider_of a) (model_of a) u;
  latency_ms = a.exchange.latency_ms;
  ttft_ms = ttft;
  tps = compute_tps u.output_tokens a.exchange.latency_ms (or_zero ttft);
  stream = true;
}

unfoldable pub no_tokens : Usage
no_tokens = record {
  input_tokens = none;
  output_tokens = none;
  reasoning_tokens = none;
  cached_tokens = none;
  cache_write_tokens = none;
}

unfoldable pub failed_row : Request → StreamAttempt → Text → Option ℕ → Row
failed_row q a error ttft = record {
  logical_model = q.logical_model;
  provider = provider_of a;
  backend_model = model_of a;
  success = false;
  error = some error;
  usage = no_tokens;
  cost = none;
  latency_ms = a.exchange.latency_ms;
  ttft_ms = ttft;
  tps = none;
  stream = true;
}

unfoldable pub note_done : Request → StreamAttempt → Usage → Option ℕ → Gateway → Gateway
note_done q a u ttft g = record g {
  stats =
      record_success (provider_of a) (model_of a) (some a.exchange.latency_ms) ttft a.exchange.wall
        g.stats;
  breaker =
      (record_outcome (provider_of a) (model_of a) true none a.exchange.now a.exchange.wall
        g.breaker).0;
  warm =
      record_cache_activity (provider_of a) (model_of a) q.cache_key u.cached_tokens
        u.cache_write_tokens u.input_tokens a.selected.backend.cache_supported a.exchange.wall
        g.warm;
  rows = g.rows ++ done_row q a u ttft ∷ [];
}

unfoldable pub note_failed : Request → StreamAttempt → Text → ℕ → Option ℕ → Gateway → Gateway
note_failed q a error status ttft g = record g {
  stats = record_failure (provider_of a) (model_of a) (some error) a.exchange.wall g.stats;
  breaker =
      record_circuit_failure (provider_of a) (model_of a) status (some error) a.exchange.now
        a.exchange.wall g.breaker;
  rows = g.rows ++ failed_row q a error ttft ∷ [];
}

unfoldable pub joined : List Text → Text
joined [] = []
joined (t ∷ ts) = t ++ joined ts

-- `if use_cache and cache_fp and collected_chunks: respcache.store(...)`
unfoldable pub keep : Request → Progress → Progress
keep q p = if is_empty p.collected then p else record p {
  gateway = record p.gateway { stored = store q.cache_fp (joined p.collected) p.gateway.stored };
}

unfoldable pub on_done :
    Request → Relay → StreamAttempt → Usage → Option ℕ → Bool → Progress → Progress
on_done q r a u ttft sent_done p =
    let begun = commit a p in
    let noted = record begun { gateway = note_done q a u ttft begun.gateway } in
    let ended = send_bytes q a (r.flush (provider_of a) p.fed) noted in
    keep q (if sent_done then ended else send_bytes q a done_bytes ended)

-- The time to the first chunk, if one has come.
unfoldable pub ttft_of : StreamAttempt → Progress → Option ℕ
ttft_of a p = if is_empty p.fed then none else some a.exchange.first_ms

unfoldable pub error_text : StreamAttempt → Text → Text
error_text a error = (b'[' ∷ provider_of a) ++ (b':' ∷ model_of a) ++ b']' ∷ b' ' ∷ error

unfoldable pub on_failed :
    Request → Relay → StreamAttempt → Text → ℕ → Bool → Bool → Progress → Progress × Outcome
on_failed q r a error status retryable mid_stream p =
    if mid_stream
    then (
      emit done_mark (
          emit (error_event error stream_interrupted)
            (record p { gateway = note_failed q a error status (ttft_of a p) p.gateway })),
      stopped,
    )
    else let noted = record p { gateway = note_failed q a error status none p.gateway } in
      if retryable
      then (noted, next_backend (error_text a error ∷ []))
      else if not p.committed
      then (emit (terminal error (if eqb status 0 then 502 else status)) noted, stopped)
      else (emit done_mark (emit (error_event error (http_status status)) noted), stopped)

-- The events of one attempt.
unfoldable pub run_events :
    Request → Relay → StreamAttempt → List StreamEvent → Progress → Progress × Outcome
run_events q r a [] p = (p, next_backend [])
run_events q r a (chunk c ∷ events) p = run_events q r a events (on_chunk q r a c p)
run_events q r a (done u ttft sent_done ∷ events) p = (on_done q r a u ttft sent_done p, stopped)
run_events q r a (failed error status retryable mid_stream ∷ events) p =
    on_failed q r a error status retryable mid_stream p

-- One backend, between `start_request` and `end_request`.
unfoldable pub begin : StreamAttempt → Progress → Progress
begin a p = record p {
  gateway = record p.gateway {
    stats = start_request (provider_of a) (model_of a) p.gateway.stats;
    limits =
        cool_down_stream (provider_of a) (model_of a) a.exchange.now a.exchange.reply
          p.gateway.limits;
  };
  fed = [];
}

unfoldable pub end : StreamAttempt → Progress → Progress
end a p = record p {
  gateway = record p.gateway { stats = end_request (provider_of a) (model_of a) p.gateway.stats };
}

unfoldable pub attempt : Request → Relay → StreamAttempt → Progress → Progress × Outcome
attempt q r a p =
    let ran = run_events q r a (call_provider_stream r.observe a.exchange.reply) (begin a p) in
    (end a ran.0, ran.1)

-- After all backends.
unfoldable pub give_up : Relay → List Text → Progress → Progress
give_up r errors p =
    if not p.committed
    then emit (terminal (r.exhausted errors) 502) p
    else emit done_mark (emit (error_event (r.exhausted errors) all_backends_failed) p)

-- Whether the loop goes on, with the errors so far.
unfoldable pub go_on : Outcome → Progress → (List Text → Progress) → Progress
go_on stopped p later = p
go_on (next_backend more) p later = later more

unfoldable pub stream_backends :
    Request
    → Relay
    → (ℕ → Selected → StreamExchange)
    → ℕ
    → List Selected
    → List Text
    → Progress
    → Progress
stream_backends q r send n [] errors p = give_up r errors p
stream_backends q r send n (s ∷ rest) errors p =
    let a : StreamAttempt = record { selected = s; exchange = send n s } in
    let ran = attempt q r a p in
    go_on ran.1 ran.0 (λ more. stream_backends q r send (suc n) rest (errors ++ more) ran.0)
