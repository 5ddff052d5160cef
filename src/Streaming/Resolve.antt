-- ===== src/Streaming/Resolve.antt =====
-- localgateway/streaming.py: what both handlers do before their loops. `_resolve_backends` with the
-- errors of requests that cannot be routed, default parameters and the gate of the token estimate. A
-- body is its keys with their values, `none` for null.
pub mod Refusals
pub mod Lengths
pub mod Defaults
use local_gateway.Prelude.{
  if◌then◌else◌, ℤ, ◌+ℤ◌, ltb_ℤ, nat_eq, int_eq, Text, text_eq, contains, is_empty, any, ℕ, Bool,
  true, false, not, ◌&&◌, Option, none, some, List, [], ◌∷◌, arith,
}
use local_gateway.Dict.{Dict, get, set}
use local_gateway.Config.{
  GatewayConfig, ModelConfig, BackendConfig, ProviderConfig, provider_by_id, model_by_id,
}
use local_gateway.Router.Candidates.{or_zero}
use local_gateway.Router.Types.{World, Prefs, Selected}
use local_gateway.Router.Selection.{select_backends}

-- The error dicts: the model they name, the tokens and the largest limit.
pub data RouteError : Type 0 where
  model_not_found : Text → RouteError
  context_length_exceeded : Text → ℤ → ℤ → RouteError
  output_limit_exceeded : Text → ℤ → Option ℤ → RouteError

unfoldable pub is_enabled : Option ProviderConfig → Bool
is_enabled none = false
is_enabled (some p) = p.enabled

unfoldable pub is_serving : GatewayConfig → BackendConfig → Bool
is_serving config b = b.enabled && is_enabled (provider_by_id config b.provider)

unfoldable pub cons_known : Option ℤ → List ℤ → List ℤ
cons_known none zs = zs
cons_known (some z) zs = z ∷ zs

-- [b.limit for b in backends if b.enabled and b.limit is not None and its provider is enabled]
unfoldable pub limits_of : (BackendConfig → Option ℤ) → GatewayConfig → List BackendConfig → List ℤ
limits_of limit config [] = []
limits_of limit config (b ∷ bs) =
    let rest = limits_of limit config bs in
    if is_serving config b then cons_known (limit b) rest else rest

unfoldable pub larger : ℤ → ℤ → ℤ
larger a b = if ltb_ℤ a b then b else a

unfoldable pub largest : ℤ → List ℤ → ℤ
largest z [] = z
largest z (y ∷ zs) = largest (larger z y) zs

-- max(limits) if limits else None
unfoldable pub largest_of : List ℤ → Option ℤ
largest_of [] = none
largest_of (z ∷ zs) = some (largest z zs)

unfoldable pub exceeding : Text → ℤ → Option ℤ → Option RouteError
exceeding model_id needed none = none
exceeding model_id needed (some most) =
    if ltb_ℤ most needed then some (context_length_exceeded model_id needed most) else none

unfoldable pub context_too_small_error :
    GatewayConfig → Option ModelConfig → Option ℤ → Option ℤ → Option RouteError
context_too_small_error config none input_tokens max_tokens = none
context_too_small_error config (some model) none max_tokens = none
context_too_small_error config (some model) (some n) max_tokens =
    exceeding model.id (n +ℤ or_zero max_tokens)
      (largest_of (limits_of (λ b. b.context_length) config model.backends))

-- The backends, or the error with its status.
pub data Route : Type 0 where
  routed : List Selected → Route
  refused : RouteError → ℕ → Route

unfoldable pub no_backend : GatewayConfig → ModelConfig → Text → Option ℤ → Route
no_backend config model logical_model none = refused (model_not_found logical_model) 404
no_backend config model logical_model (some max_tokens) =
    refused
      (output_limit_exceeded logical_model max_tokens
        (largest_of (limits_of (λ b. b.max_output_tokens) config model.backends)))
      400

unfoldable pub refusal : GatewayConfig → ModelConfig → Text → Option ℤ → Option RouteError → Route
refusal config model logical_model max_tokens none =
    no_backend config model logical_model max_tokens
refusal config model logical_model max_tokens (some error) = refused error 400

-- The backends that the router gives, or why there are none.
unfoldable pub answer_with :
    GatewayConfig → ModelConfig → Text → Option ℤ → Option ℤ → List Selected → Route
answer_with config model logical_model max_tokens input_tokens backends =
    if not (is_empty backends)
    then routed backends
    else refusal config model logical_model max_tokens
        (context_too_small_error config (some model) input_tokens max_tokens)

-- For a model that is found; the rotation counters are the router's.
unfoldable pub resolve_for :
    World
    → GatewayConfig
    → ModelConfig
    → Text
    → Option ℤ
    → Option ℤ
    → Prefs
    → Option Text
    → Dict Text ℕ
    → Route × Dict Text ℕ
resolve_for w config model logical_model max_tokens input_tokens prefs cache_key rr =
    if not model.enabled
    then (refused (model_not_found logical_model) 404, rr)
    else let (backends, rr') =
        select_backends w config logical_model max_tokens input_tokens prefs cache_key rr in
      (answer_with config model logical_model max_tokens input_tokens backends, rr')

unfoldable pub resolve_backends :
    World
    → GatewayConfig
    → Text
    → Option ℤ
    → Option ℤ
    → Prefs
    → Option Text
    → Dict Text ℕ
    → Route × Dict Text ℕ
resolve_backends w config logical_model max_tokens input_tokens prefs cache_key rr =
    elim (model_by_id config logical_model) [
      | none ↦ (refused (model_not_found logical_model) 404, rr)
      | some model ↦
          resolve_for w config model logical_model max_tokens input_tokens prefs cache_key rr
    ]

unfoldable pub cache_enabled : GatewayConfig → Option ModelConfig → Bool
cache_enabled config none = false
cache_enabled config (some model) = config.server.response_cache_enabled && model.cache_responses

unfoldable pub is_set : Option ℤ → Bool
is_set none = false
is_set (some z) = true

unfoldable pub input_estimate_needed : Option ModelConfig → Bool → Bool
input_estimate_needed none use_cache = use_cache
input_estimate_needed (some model) use_cache =
    if use_cache then true else any (λ b. b.enabled && is_set b.context_length) model.backends

-- The body's value is absent or null.
unfoldable pub is_unset {ℓ} : {V : Type ℓ} → Option (Option V) → Bool
is_unset none = true
is_unset (some none) = true
is_unset (some (some v)) = false

module _ {ℓ} {V : Type ℓ} (blocked allowed : List Text) where
  -- One turn of the loop over the defaults.
  unfoldable pub apply_one : Text → Option V → Dict Text (Option V) → Dict Text (Option V)
  apply_one key value out =
      if contains key blocked
      then out
      else if not (contains key allowed)
      then out
      else if is_unset (get key out)
      then set key value out
      else out

  -- _DEFAULT_PARAM_BLOCKED and _DEFAULT_PARAM_KEYS are the arguments.
  unfoldable pub apply_default_params :
      Dict Text (Option V) → Dict Text (Option V) → Dict Text (Option V)
  apply_default_params body [] = body
  apply_default_params body ((key, value) ∷ defaults) =
      apply_default_params (apply_one key value body) defaults
