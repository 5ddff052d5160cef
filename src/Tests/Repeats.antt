-- ===== src/Tests/Repeats.antt =====
-- A request that streaming.py serves twice.
use local_gateway.Streaming.Handle.Cached.{cached-handle_request}
use local_gateway.Prelude.{
  ltb, leb, eqb, if◌then◌else◌, ltb→lt, lt→ltb, leb→le, eqb_iff, Bool-cases, Option-cases, ℤ, pos,
  negsuc, pos_part, neg_part, sub_ℕ, ◌+ℤ◌, ◌≤ℤ◌, ltb_ℤ, leb_ℤ, eqb_ℤ, at_least, eqb_ℤ_iff, +ℤ_parts,
  Eq, ◌==◌, ==_iff, ==_refl, ==_ne, nat_eq, int_eq, Text, text_eqb, text_eqb_iff, text_eq, contains,
  length, take, drop, is_empty, select, any, length-append, take-append-drop, insert_sorted,
  sort_by, rotate, concat_map, ℕ, zero, suc, ◌+◌, ◌-◌, ◌*◌, ◌/◌, ◌%◌, ◌^◌, ◌≤◌, ◌<◌, min, max, ◌≡◌,
  refl, sym, ap, ◌∙◌, fun_ext, ◌≢◌, ◌↔◌, ◌⊎◌, inl, inr, Bool, true, false, not, ◌&&◌, ◌||◌, Option,
  none, some, List, [], ◌∷◌, ◌++◌, map, arith,
}
use local_gateway.Provider.{Usage, Exchange, answered}
use local_gateway.CircuitBreaker.{initial as no_circuits}
use local_gateway.RateLimit.{initial as no_limits}
use local_gateway.Router.Types.{Selected, no_prefs, Reason, tier}
use local_gateway.Streaming.{Request, served}
use local_gateway.Streaming.Handle.{Asked, Worker, Answer, handle_request, log_hit}
use local_gateway.Tests.Samples.{acme, beta, gpt, config, world}

abbrev used : Usage
used = record {
  input_tokens = some 100;
  output_tokens = some 20;
  reasoning_tokens = none;
  cached_tokens = none;
  cache_write_tokens = none;
}

abbrev chat : Request
chat = record {
  config = config;
  logical_model = gpt;
  cache_key = [];
  cache_fp = some acme;
  str = λ n. gpt;
  extract = λ body. used;
  normalize = λ p body. body;
  shift = λ body. body;
}

abbrev asked : ℕ → Asked
asked t = record {
  max_tokens = none;
  input_tokens = some 100;
  prefs = no_prefs;
  affinity_key = none;
  wall = t;
  stored_at = t + 40;
}

abbrev send : ℕ → Selected → Exchange
send n s = record {
  reply = local_gateway.Provider.answered 200 none beta;
  latency_ms = 30;
  now = 40;
  wall = 5040;
}

abbrev fresh : Worker
fresh = record {
  gateway = record {
    stats = [];
    warm = [];
    breaker = no_circuits;
    limits = no_limits;
    rows = [];
    stored = [];
  };
  cache = record { mem = []; rows = []; pending = [] };
  rotation = [];
}

abbrev tier_one : Reason
tier_one = record { band = tier (pos 1); suffix = [] }

once :
    (handle_request (world []) chat (asked 5000) send fresh).1
    ≡ local_gateway.Streaming.Handle.answered (served beta acme gpt tier_one)
unfolding handle_request local_gateway.Streaming.Handle.answer_hit
    local_gateway.Streaming.Handle.look_in local_gateway.RespCache.lookup
    local_gateway.RespCache.lookup_in local_gateway.Dict.get local_gateway.RespCache.lookup_rows
    local_gateway.Streaming.Handle.answer_route local_gateway.Streaming.Resolve.resolve_backends
    local_gateway.Config.model_by_id text_eqb local_gateway.Streaming.Resolve.resolve_for
    local_gateway.Streaming.Resolve.answer_with local_gateway.Router.Selection.select_backends
    local_gateway.Router.Selection.select_for local_gateway.Router.Candidates.collect_tiers
    local_gateway.Router.Candidates.admit local_gateway.Prelude.Keys.contains
    local_gateway.Router.Selection.needs_of local_gateway.Config.provider_by_id
    local_gateway.Router.Candidates.output_too_small
    local_gateway.Router.Candidates.context_too_small local_gateway.Streaming.Handle.as_int ◌+ℤ◌
    local_gateway.Router.Candidates.outside_slot local_gateway.Router.Candidates.active_slot_of
    local_gateway.TimeRouting.get_active_slot local_gateway.TimeRouting.slot_matches
    local_gateway.TimeRouting.filter_backends_for_slot local_gateway.Router.Candidates.push
    local_gateway.Dict.set local_gateway.Router.Selection.emit
    local_gateway.Router.Candidates.collect_preferred concat_map
    local_gateway.Router.Selection.call_of local_gateway.Router.Selection.emit_tiers
    local_gateway.Router.Types.tag_reason local_gateway.Router.Sorting.sort_list
    local_gateway.Router.Selection.available select local_gateway.Router.Selection.tier_order
    local_gateway.Router.Candidates.sorted_keys sort_by insert_sorted
    local_gateway.Router.Selection.available_by_tier local_gateway.Router.Selection.balance
    local_gateway.Router.Selection.group_of local_gateway.Dict.get_default any
    local_gateway.Router.Rotation.plain_rotation rotate local_gateway.Router.Rotation.next_rotation
    local_gateway.Streaming.try_backends local_gateway.Streaming.result
    local_gateway.Provider.result_of local_gateway.Streaming.body_of
    local_gateway.Router.Types.sort_suffix local_gateway.Streaming.pricing_of
    local_gateway.Config.pricing_for
once = refl

-- What the worker is after the first request.
abbrev warm : Worker
warm = (handle_request (world []) chat (asked 5000) send fresh).0

cached-handle_request_example :
    ((handle_request (world []) chat (asked 9000) send warm).1
      ≡ local_gateway.Streaming.Handle.cached beta)
    × ((handle_request (world []) chat (asked 9000) send warm).0.gateway
        ≡ log_hit chat (asked 9000) warm.gateway)
cached-handle_request_example =
    cached-handle_request (world []) (world []) chat chat (asked 5000) (asked 9000) send send acme
      beta acme gpt tier_one fresh refl refl
      (unfold local_gateway.Streaming.Handle.ttl_of in omega arith)
      (unfold local_gateway.Streaming.Handle.ttl_of in omega arith)
      (unfold local_gateway.Streaming.Handle.ttl_of in omega arith) once
