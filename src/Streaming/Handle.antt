-- ===== src/Streaming/Handle.antt =====
-- localgateway/streaming.py: `handle_request`, from the response cache over the routing to the loop.
pub mod Cached
use local_gateway.Prelude.{
  ℤ, pos, nat_eq, int_eq, Text, text_eq, ℕ, ◌*◌, true, false, Option, none, some, List, [], ◌∷◌,
  ◌++◌, arith,
}
use local_gateway.Dict.{Dict}
use local_gateway.Provider.{Usage, Exchange}
use local_gateway.RespCache.{Cache, Hit}
use local_gateway.Router.Types.{World, Prefs, Selected}
use local_gateway.Streaming.{Gateway, Request, Response, Row, try_backends}
use local_gateway.Streaming.Resolve.{RouteError, Route, resolve_backends}

-- What is read from the body and the clock: the limits, the key for cache affinity, and `time.time()`
-- at the lookup and when a response is stored.
pub record Asked : Type 0 where
  pub max_tokens : Option ℤ
  pub input_tokens : Option ℕ
  pub prefs : Prefs
  pub affinity_key : Option Text
  pub wall : ℕ
  pub stored_at : ℕ

-- The state of the worker.
pub record Worker : Type 0 where
  pub gateway : Gateway
  pub cache : Cache
  pub rotation : Dict Text ℕ

pub data Answer : Type 0 where
  cached : Text → Answer
  unrouted : RouteError → ℕ → Answer
  answered : Response → Answer

unfoldable pub ttl_of : Request → ℕ
ttl_of q = q.config.server.response_cache_ttl_sec * 1000

-- `if cache_fp: hit = respcache.lookup(...)`
unfoldable pub look_in : Option Text → ℕ → ℕ → Cache → Cache × Hit
look_in none ttl now c = (c, none)
look_in (some fp) ttl now c = local_gateway.RespCache.lookup fp ttl now c

abbrev cache_name : Text
cache_name = b'c' ∷ b'a' ∷ b'c' ∷ b'h' ∷ b'e' ∷ []

unfoldable pub hit_row : Request → Asked → Row
hit_row q asked = record {
  logical_model = q.logical_model;
  provider = cache_name;
  backend_model = cache_name;
  success = true;
  error = none;
  usage = record {
    input_tokens = asked.input_tokens;
    output_tokens = none;
    reasoning_tokens = none;
    cached_tokens = none;
    cache_write_tokens = none;
  };
  cost = some 0;
  latency_ms = 0;
  ttft_ms = none;
  tps = none;
  stream = false;
}

unfoldable pub log_hit : Request → Asked → Gateway → Gateway
log_hit q asked g = record g { rows = g.rows ++ hit_row q asked ∷ [] }

-- The responses that the loop hands to the cache.
unfoldable pub store_all : Request → Asked → List (Text × Text) → Cache → Cache
store_all q asked [] c = c
store_all q asked ((fp, body) ∷ rest) c = store_all q asked rest (
    local_gateway.RespCache.store fp body false (ttl_of q)
      q.config.server.response_cache_max_entries asked.stored_at c)

unfoldable pub answer_route :
    Request → Asked → (ℕ → Selected → Exchange) → Route → Worker → Worker × Answer
answer_route q asked send (local_gateway.Streaming.Resolve.refused e status) s =
    (s, unrouted e status)
answer_route q asked send (local_gateway.Streaming.Resolve.routed backends) s =
    let (g, response) = try_backends q send 0 backends [] (record s.gateway { stored = [] }) in
    (
      record s { gateway = record g { stored = [] }; cache = store_all q asked g.stored s.cache },
      answered response,
    )

unfoldable pub as_int : Option ℕ → Option ℤ
as_int none = none
as_int (some n) = some (pos n)

unfoldable pub answer_hit :
    World → Request → Asked → (ℕ → Selected → Exchange) → Hit → Worker → Worker × Answer
answer_hit w q asked send (some (body, stream, hits)) s =
    (record s { gateway = log_hit q asked s.gateway }, cached body)
answer_hit w q asked send none s =
    let (route, rotation) =
      resolve_backends w q.config q.logical_model asked.max_tokens (as_int asked.input_tokens)
        asked.prefs asked.affinity_key s.rotation in
    answer_route q asked send route (record s { rotation = rotation })

unfoldable pub handle_request :
    World → Request → Asked → (ℕ → Selected → Exchange) → Worker → Worker × Answer
handle_request w q asked send s =
    let (c, hit) = look_in q.cache_fp (ttl_of q) asked.wall s.cache in
    answer_hit w q asked send hit (record s { cache = c })
