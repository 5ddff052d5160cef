-- ===== src/Embeddings.antt =====
-- localgateway/endpoints/embeddings.py, with the allowlist of localgateway/endpoints/chat.py. `send n`
-- is the n-th exchange; of the JSON of an answer `counts` gives `total_tokens` and `prompt_tokens` of
-- its usage, which are not negative.
pub mod Verdict
pub mod Asked
use local_gateway.Prelude.{
  eqb, if◌then◌else◌, ℤ, pos, ◌==◌, nat_eq, int_eq, Text, text_eq, contains, is_empty, ℕ, suc, ◌*◌,
  Bool, true, false, not, ◌&&◌, Option, none, some, List, [], ◌∷◌, ◌++◌, arith,
}
use local_gateway.Dict.{Dict}
use local_gateway.Config.{
  GatewayConfig, ModelConfig, ApiKeyConfig, PricingEntry, model_by_id, pricing_for,
}
use local_gateway.Stats.{record_success}
use local_gateway.CircuitBreaker.{record_outcome}
use local_gateway.Provider.{Usage, Exchange, ProviderResult, no_usage}
use local_gateway.Router.Types.{World, Prefs, Selected, Reason}
use local_gateway.Router.Selection.{select_backends}
use local_gateway.Streaming.{
  Gateway, Request, Row, Response, served, refused, all_failed, Attempt, provider_of, model_of,
  result, exchange_with, error_line, note_failed,
}

-- A value of the usage: missing, null or 0; another number; anything else.
pub data Count : Type 0 where
  nothing other : Count
  number : ℕ → Count

-- usage.get("total_tokens") or usage.get("prompt_tokens")
unfoldable pub or_count : Count → Count → Count
or_count nothing c = c
or_count c d = c

unfoldable pub as_number : Count → Option ℕ
as_number (number n) = some n
as_number _ = none

unfoldable pub extract_embedding_tokens : (Text → Option (Count × Count)) → Text → Option ℕ
extract_embedding_tokens counts body = elim (counts body) [
  | none ↦ none
  | some c ↦ as_number (or_count c.0 c.1)
]

-- Python's `or` on an optional count.
unfoldable pub or_tokens : Option ℕ → Option ℕ → Option ℕ
or_tokens none o = o
or_tokens (some n) o = if eqb n 0 then o else some n

unfoldable pub logical_name : Text → Option ModelConfig → Text
logical_name requested none = requested
logical_name requested (some m) = m.id

-- `_check_model_allowlist`: whether the request is refused.
unfoldable pub excludes : Option ApiKeyConfig → GatewayConfig → Text → Bool
excludes none config requested = false
excludes (some key) config requested =
    let logical = logical_name requested (model_by_id config requested) in
    not (is_empty key.model_allowlist)
    && (not (contains logical key.model_allowlist) && not (contains requested key.model_allowlist))

-- What the loop uses of a request beside what it shares with that of streaming.py.
pub record Job : Type 0 where
  pub request : Request
  pub counts : Text → Option (Count × Count)
  pub input_tokens : Option ℕ

unfoldable pub total_tokens : Job → Attempt → Option ℕ
total_tokens j a =
    let r = result j.request a in
    or_tokens (or_tokens (extract_embedding_tokens j.counts r.body) r.usage.input_tokens)
      j.input_tokens

unfoldable pub cost_of : Job → Attempt → Option ℕ
cost_of j a = elim (total_tokens j a) [
  | none ↦ none
  | some n ↦ some (n * (pricing_for j.request.config (provider_of a) (model_of a)).input)
]

unfoldable pub served_row : Job → Attempt → Row
served_row j a =
    let r = result j.request a in
    record {
      logical_model = j.request.logical_model;
      provider = r.provider_id;
      backend_model = r.backend_model;
      success = true;
      error = none;
      usage = record no_usage { input_tokens = total_tokens j a; output_tokens = some 0 };
      cost = cost_of j a;
      latency_ms = r.latency_ms;
      ttft_ms = none;
      tps = none;
      stream = false;
    }

unfoldable pub failed_row : Job → Attempt → Row
failed_row j a =
    let r = result j.request a in
    record {
      logical_model = j.request.logical_model;
      provider = r.provider_id;
      backend_model = r.backend_model;
      success = false;
      error = r.error;
      usage = no_usage;
      cost = none;
      latency_ms = r.latency_ms;
      ttft_ms = none;
      tps = none;
      stream = false;
    }

unfoldable pub note_embedded : Job → Attempt → Gateway → Gateway
note_embedded j a g =
    let r = result j.request a in
    record g {
      stats =
          record_success r.provider_id r.backend_model (some r.latency_ms) none a.exchange.wall
            g.stats;
      breaker =
          (record_outcome r.provider_id r.backend_model true none a.exchange.now a.exchange.wall
            g.breaker).0;
      rows = g.rows ++ served_row j a ∷ [];
    }

-- The failure counts for the circuit as in streaming.py.
unfoldable pub note_refused : Job → Attempt → Gateway → Gateway
note_refused j a g = record (note_failed j.request a g) { rows = g.rows ++ failed_row j a ∷ [] }

unfoldable pub embed :
    Job → (ℕ → Selected → Exchange) → ℕ → List Selected → List Text → Gateway → Gateway × Response
embed j send n [] errors g = (g, all_failed errors)
embed j send n (s ∷ rest) errors g =
    let a : Attempt = record { selected = s; exchange = send n s } in
    let r = result j.request a in
    let called = exchange_with a g in
    let failed = note_refused j a called in
    let later = embed j send (suc n) rest (errors ++ error_line j.request a ∷ []) failed in
    if r.success
    then (note_embedded j a called, served r.body r.provider_id r.backend_model s.reason)
    else if not r.retryable
    then (failed, refused r.error r.status_code)
    else later

abbrev pub embeddings : Text
embeddings = b'e' ∷ b'm' ∷ b'b' ∷ b'e' ∷ b'd' ∷ b'd' ∷ b'i' ∷ b'n' ∷ b'g' ∷ b's' ∷ []

pub data Answer : Type 0 where
  -- 403, 404 and 400
  not_allowed model_not_found wrong_endpoint : Answer
  answered : Response → Answer

abbrev pub signed : Option ℕ → Option ℤ
signed none = none
signed (some n) = some (pos n)

-- Once the model is looked up; the last part of the result is the router's rotation.
unfoldable pub answer_found :
    World
    → (ModelConfig → Job)
    → (ℕ → Selected → Exchange)
    → GatewayConfig
    → Prefs
    → Dict Text ℕ
    → Gateway
    → Option ModelConfig
    → Gateway × Answer × Dict Text ℕ
answer_found w job send config prefs rr g none = (g, model_not_found, rr)
answer_found w job send config prefs rr g (some m) =
    let j = job m in
    let (backends, rr') =
      select_backends w config m.id none (signed j.input_tokens) prefs none rr in
    let (g', response) = embed j send 0 backends [] g in
    if not m.enabled
    then (g, model_not_found, rr)
    else if not (m.endpoint == embeddings)
    then (g, wrong_endpoint, rr)
    else if is_empty backends
    then (g, model_not_found, rr')
    else (g', answered response, rr')

-- `create_embeddings`; `job` is what the loop uses for a model.
unfoldable pub create_embeddings :
    World
    → (ModelConfig → Job)
    → (ℕ → Selected → Exchange)
    → GatewayConfig
    → Option ApiKeyConfig
    → Text
    → Prefs
    → Dict Text ℕ
    → Gateway
    → Gateway × Answer × Dict Text ℕ
create_embeddings w job send config key requested prefs rr g =
    if excludes key config requested
    then (g, not_allowed, rr)
    else answer_found w job send config prefs rr g (model_by_id config requested)
