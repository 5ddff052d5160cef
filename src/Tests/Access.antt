-- ===== src/Tests/Access.antt =====
-- Inputs for the middlewares, the supervisor, the embeddings and the reasoning fields.
use local_gateway.Prelude.{
  pos, ◌==◌, nat_eq, int_eq, Text, text_eqb, text_eq, contains, is_empty, any, ℕ, ◌≤◌, ◌≡◌, refl,
  ◌⊎◌, Bool, true, false, not, ◌&&◌, ◌||◌, Option, none, some, List, [], ◌∷◌, arith,
}
use local_gateway.Prelude.Count.{count}
use local_gateway.Config.{GatewayConfig, ApiKeyConfig, ModelConfig, model_by_id}
use local_gateway.Auth.{bearer_token, is_admin_path, v1_prefix}
use local_gateway.Quota.{Quota, Spend, check_rpm, get_spend, over, no_spend}
use local_gateway.Quota.{initial as no_hits}
use local_gateway.Quota.Rate.{within}
use local_gateway.Router.Types.{no_prefs}
use local_gateway.Worker.{Request, auth_middleware, passed}
use local_gateway.Worker.Access.{auth_middleware-passed}
use local_gateway.Worker.Rate.{serve, serve-bounded}
use local_gateway.Supervisor.{initial, status}
use local_gateway.Supervisor.Single.{Step, do_start, dies, run, status-run}
use local_gateway.Supervisor.Gate.{gate, proxied, worker_host, post}
use local_gateway.Supervisor.Gate.{Request as Incoming}
use local_gateway.Supervisor.Access.{is_invalid, is_unauthorized, is_invalid-gate}
use local_gateway.Embeddings.{Job, create_embeddings, embeddings, excludes, number, nothing}
use local_gateway.Embeddings.Verdict.{settle_all}
use local_gateway.Embeddings.Asked.{tried, create_embeddings-asked}
use local_gateway.Reasoning.{Choice, Delta, text, blocks, bare, thinking, reasoning, normalize_obj}
use local_gateway.Reasoning.Idempotent.{normalize_obj-normalize_obj}
use local_gateway.Tests.Fallbacks.{chat, idle, send}
use local_gateway.Tests.Samples.{acme, beta, gpt, config, server, model, world}

abbrev limited : ApiKeyConfig
limited = record {
  id = beta;
  key = gpt;
  enabled = true;
  rpm = some (pos 1);
  daily_budget_usd = some 100;
  monthly_budget_usd = none;
  model_allowlist = [];
}

abbrev guarded : GatewayConfig
guarded = record config { server = record server { api_keys = limited ∷ [] } }

strip : Text → Text
strip t = t

loopback : Text → Option Bool
loopback host = some (host == worker_host)

spend : Text → Spend
spend k = no_spend

abbrev call : Request
call = record { path = v1_prefix; authorization = gpt; host = none }

auth_middleware-passed_example :
    (key : ApiKeyConfig) × (some limited ≡ some key)
    × (key.key ≡ bearer_token strip gpt)
    × (key.enabled ≡ true)
    × (is_empty key.key ≡ false)
    × ((check_rpm key 5 no_hits).1 ≡ none)
    × (is_empty key.id ≡ false
        → (over key.daily_budget_usd (get_spend spend key.id 5 no_hits).1.day_cost
            || over key.monthly_budget_usd (get_spend spend key.id 5 no_hits).1.month_cost)
          ≡ false)
unfolding strip spend loopback text_eqb contains any bearer_token is_admin_path auth_middleware
    check_rpm get_spend over local_gateway.Auth.asks_key local_gateway.Auth.text_of
    local_gateway.Auth.starts_with local_gateway.Auth.is_page_path local_gateway.Auth.is_api_path
    local_gateway.Worker.ask_key local_gateway.Auth.resolve_api_key local_gateway.Auth.resolve_token
    local_gateway.Auth.or_key local_gateway.Auth.match_key local_gateway.Worker.ask_rpm
    local_gateway.Alerts.post local_gateway.Auth.check_api_key local_gateway.Auth.drop_bearer
    local_gateway.Auth.full_access local_gateway.Auth.is_loopback_host local_gateway.Auth.is_some
    local_gateway.Auth.match_legacy local_gateway.Dict.get local_gateway.Dict.get_default
    local_gateway.Dict.set local_gateway.Quota.budget local_gateway.Quota.cached_spend
    local_gateway.Quota.check_budget local_gateway.Quota.expire local_gateway.Quota.limited_request
    local_gateway.Quota.rpm_limit local_gateway.Worker.ask_budget
auth_middleware-passed_example =
    auth_middleware-passed strip loopback spend none guarded call 5 no_hits (some limited) refl refl
      refl refl

-- Two calls with the key within a minute: the second is over the limit.
abbrev calls : List (ℕ × Request)
calls = (10, call) ∷ (20, call) ∷ []

serve-bounded_example :
    count (within 0) (serve strip loopback spend none guarded beta calls no_hits []).1 ≤ 1
unfolding local_gateway.Auth.asks_key local_gateway.Auth.text_of
    local_gateway.Worker.Limits.is_limited text_eqb local_gateway.Worker.Limits.is_limit
    local_gateway.Quota.rpm_limit local_gateway.Worker.Rate.InOrder
serve-bounded_example =
    serve-bounded strip loopback spend none guarded beta 1 30 0 calls refl refl refl
      (omega arith, (omega arith, omega arith))

-- A worker is started, dies, is started again and again.
abbrev steps : List Step
steps = do_start 7 100 ∷ dies 7 ∷ do_start 8 200 ∷ do_start 9 300 ∷ []

status-run_example :
    ((run initial steps).alive ≡ [])
      × ((status 400 (run initial steps)).running ≡ false)
      × ((status 400 (run initial steps)).pid ≡ none)
    ⊎ (pid : ℕ) × ((run initial steps).alive ≡ pid ∷ [])
      × ((status 400 (run initial steps)).running ≡ true)
      × ((status 400 (run initial steps)).pid ≡ some pid)
status-run_example = status-run steps 400

abbrev incoming : Incoming
incoming = record {
  method = post;
  path = v1_prefix;
  authorization = beta;
  origin = [];
  referer = [];
  host_header = [];
  peer = some acme;
}

is_invalid-gate_example :
    is_invalid
      (auth_middleware strip loopback spend none guarded (proxied incoming) 5 no_hits).verdict
    ≡ (not (is_admin_path incoming.path)
        && is_unauthorized (gate strip loopback (λ t. none) guarded incoming))
unfolding loopback text_eqb
is_invalid-gate_example =
    is_invalid-gate strip loopback guarded (λ t. none) spend none incoming 5 no_hits refl

abbrev embedder : GatewayConfig
embedder = record config { models = record model { endpoint = embeddings } ∷ [] }

abbrev job : ModelConfig → Job
job m = record {
  request = record chat { config = embedder };
  counts = λ body. some (nothing, number 12);
  input_tokens = some 9;
}

create_embeddings-asked_example :
    ((create_embeddings (world beta) job send embedder none gpt no_prefs [] idle).0 ≡ idle)
    ⊎ (m : ModelConfig) × (model_by_id embedder gpt ≡ some m)
      × (excludes none embedder gpt ≡ false)
      × (m.enabled ≡ true)
      × ((m.endpoint == embeddings) ≡ true)
      × ((create_embeddings (world beta) job send embedder none gpt no_prefs [] idle).0
          ≡ settle_all (job m) (tried (world beta) (job m) send embedder no_prefs [] m) idle)
create_embeddings-asked_example =
    create_embeddings-asked (world beta) job send embedder none gpt no_prefs [] idle

abbrev thought : List Choice × Delta
thought = (
  record { delta = some ((thinking, blocks (bare acme ∷ [])) ∷ []); message = none } ∷ [],
  (reasoning, text beta) ∷ [],
)

normalize_obj-normalize_obj_example :
    normalize_obj (normalize_obj thought).0 ≡ ((normalize_obj thought).0, false)
normalize_obj-normalize_obj_example = normalize_obj-normalize_obj thought
