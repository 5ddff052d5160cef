-- ===== src/Streaming/Resolve/Lengths.antt =====
-- When streaming.py answers that a request is too long.
use local_gateway.Router.Tiering.{admitted}
use local_gateway.Prelude.{
  if◌then◌else◌, ℤ, ◌+ℤ◌, ltb_ℤ, nat_eq, int_eq, Text, text_eq, is_empty, any, ℕ, ◌≡◌, refl, ap,
  ◌∙◌, Bool, true, false, not, ◌&&◌, ◌||◌, Option, none, some, List, [], ◌∷◌, arith,
}
use local_gateway.Dict.{Dict}
use local_gateway.Router.Tally.{IsStable}
use local_gateway.Router.Preferring.{Distinct}
use local_gateway.Router.Selection.{select_backends, call_of, needs_of}
use local_gateway.Router.Candidates.{below, or_zero}
use local_gateway.Config.{GatewayConfig, ModelConfig, BackendConfig, model_by_id}
use local_gateway.Router.Candidates.{context_too_small}
use local_gateway.Router.Types.{World, Prefs, Selected}
use local_gateway.Router.Once.{reachable}
use local_gateway.Streaming.Resolve.{
  RouteError, Route, routed, refused, is_serving, limits_of, cons_known, larger, largest,
  largest_of, exceeding, context_too_small_error, resolve_for, resolve_backends, is_set, refusal,
  no_backend, answer_with, model_not_found, context_length_exceeded, output_limit_exceeded,
}
use local_gateway.Streaming.Resolve.Refusals.{is_empty-select_backends}

-- Serving, with a limit that is known.
unfoldable pub is_limited : GatewayConfig → BackendConfig → Bool
is_limited config b = is_serving config b && is_set b.context_length

-- A serving backend with a known context is too small for the request.
unfoldable pub is_short : GatewayConfig → Option ℤ → Option ℤ → BackendConfig → Bool
is_short config input_tokens max_tokens b =
    not (is_limited config b) || context_too_small b input_tokens max_tokens

unfoldable pub is_exceeded : Option RouteError → Bool
is_exceeded none = false
is_exceeded (some (context_length_exceeded model_id needed largest)) = true
is_exceeded (some (model_not_found name)) = false
is_exceeded (some (output_limit_exceeded name max_tokens largest)) = false

unfoldable pub all_short : GatewayConfig → Option ℤ → Option ℤ → List BackendConfig → Bool
all_short config input_tokens max_tokens [] = true
all_short config input_tokens max_tokens (b ∷ bs) =
    is_short config input_tokens max_tokens b && all_short config input_tokens max_tokens bs

-- Every one of some limits is below a need.
unfoldable all_below : ℤ → List ℤ → Bool
all_below needed [] = true
all_below needed (z ∷ zs) = ltb_ℤ z needed && all_below needed zs

ltb-larger : (needed a b : ℤ) → ltb_ℤ (larger a b) needed ≡ (ltb_ℤ a needed && ltb_ℤ b needed)
unfolding larger
ltb-larger needed a b = ground arith

ltb-largest :
    (needed z : ℤ) (zs : List ℤ)
    → ltb_ℤ (largest z zs) needed ≡ (ltb_ℤ z needed && all_below needed zs)
unfolding largest all_below
ltb-largest needed z [] = ground arith
ltb-largest needed z (y ∷ zs) =
    ground (arith, ltb-largest needed (larger z y) zs, ltb-larger needed z y)

is_exceeded-exceeding :
    (model_id : Text) (needed : ℤ) (zs : List ℤ)
    → is_exceeded (exceeding model_id needed (largest_of zs))
      ≡ (not (is_empty zs) && all_below needed zs)
unfolding is_exceeded exceeding largest_of all_below
is_exceeded-exceeding model_id needed [] = refl
is_exceeded-exceeding model_id needed (z ∷ zs) = ground (arith, ltb-largest needed z zs)

is_empty-limits_of :
    (config : GatewayConfig) (bs : List BackendConfig)
    → not (is_empty (limits_of (λ b. b.context_length) config bs)) ≡ any (is_limited config) bs
unfolding limits_of any is_limited cons_known is_set
is_empty-limits_of config [] = refl
is_empty-limits_of config (b ∷ bs) = ground (arith, is_empty-limits_of config bs)

-- A backend, serving or not, with its context and the need.
short_if : Bool → Option ℤ → ℤ → Bool
short_if serving context needed = not (serving && is_set context) || below context needed

all_below-cons_known :
    (serving : Bool) (context : Option ℤ) (needed : ℤ) (zs : List ℤ)
    → all_below needed (if serving then cons_known context zs else zs)
      ≡ (short_if serving context needed && all_below needed zs)
unfolding short_if is_set below cons_known all_below
all_below-cons_known true none needed zs = refl
all_below-cons_known true (some z) needed zs = refl
all_below-cons_known false context needed zs = refl

all_below-limits_of :
    (config : GatewayConfig) (n : ℤ) (max_tokens : Option ℤ) (bs : List BackendConfig)
    → all_below (n +ℤ or_zero max_tokens) (limits_of (λ b. b.context_length) config bs)
      ≡ all_short config (some n) max_tokens bs
unfolding limits_of all_short is_short is_limited short_if context_too_small
all_below-limits_of config n max_tokens [] = unfold all_below in refl
all_below-limits_of config n max_tokens (b ∷ bs) =
    all_below-cons_known (is_serving config b) b.context_length (n +ℤ or_zero max_tokens)
      (limits_of (λ b'. b'.context_length) config bs)
    ∙ ap (λ rest. short_if (is_serving config b) b.context_length (n +ℤ or_zero max_tokens) && rest)
        (all_below-limits_of config n max_tokens bs)

is_exceeded-context_too_small_error :
    (config : GatewayConfig) (model : ModelConfig) (n : ℤ) (max_tokens : Option ℤ)
    → is_exceeded (context_too_small_error config (some model) (some n) max_tokens) ≡ (
        any (is_limited config) model.backends
        && all_short config (some n) max_tokens model.backends)
unfolding context_too_small_error
is_exceeded-context_too_small_error config model n max_tokens =
    is_exceeded-exceeding model.id (n +ℤ or_zero max_tokens)
      (limits_of (λ b. b.context_length) config model.backends)
    ∙ rw
        (
          is_empty-limits_of config model.backends,
          all_below-limits_of config n max_tokens model.backends,
        )
        refl

-- The answer is the error for a request that is too long.
unfoldable pub is_too_long : Route → Bool
is_too_long (routed backends) = false
is_too_long (refused (context_length_exceeded model_id needed largest) status) = true
is_too_long (refused (model_not_found name) status) = false
is_too_long (refused (output_limit_exceeded name max_tokens largest) status) = false

is_too_long-refusal :
    (config : GatewayConfig) (model : ModelConfig) (name : Text) (max_tokens : Option ℤ)
    (e : Option RouteError)
    → is_too_long (refusal config model name max_tokens e) ≡ is_exceeded e
unfolding is_too_long refusal no_backend is_exceeded
is_too_long-refusal config model name none none = refl
is_too_long-refusal config model name (some z) none = refl
is_too_long-refusal config model name max_tokens (some (context_length_exceeded i n l)) = refl
is_too_long-refusal config model name max_tokens (some (model_not_found n)) = refl
is_too_long-refusal config model name max_tokens (some (output_limit_exceeded n m l)) = refl

is_too_long-answer_with :
    (config : GatewayConfig) (model : ModelConfig) (name : Text)
    (max_tokens input_tokens : Option ℤ) (backends : List Selected)
    → is_too_long (answer_with config model name max_tokens input_tokens backends) ≡ (
        is_empty backends
        && is_exceeded (context_too_small_error config (some model) input_tokens max_tokens))
unfolding answer_with
is_too_long-answer_with config model name max_tokens input_tokens [] =
    is_too_long-refusal config model name max_tokens _
is_too_long-answer_with config model name max_tokens input_tokens (c ∷ cs) =
    unfold is_too_long in refl

is_too_long-resolve_for :
    (w : World) (config : GatewayConfig) (model : ModelConfig) (name : Text)
    (max_tokens input_tokens : Option ℤ) (prefs : Prefs) (cache_key : Option Text)
    (rr : Dict Text ℕ)
    → model.enabled ≡ true
    → is_too_long (resolve_for w config model name max_tokens input_tokens prefs cache_key rr).0 ≡ (
        is_empty (select_backends w config name max_tokens input_tokens prefs cache_key rr).0
        && is_exceeded (context_too_small_error config (some model) input_tokens max_tokens))
unfolding resolve_for
is_too_long-resolve_for w config model name max_tokens input_tokens prefs cache_key rr on =
    let (backends, rr') =
      select_backends w config name max_tokens input_tokens prefs cache_key rr in
    ap
      (λ b.
        let answer : Route × Dict Text ℕ =
          if not b
          then (refused (model_not_found name) 404, rr)
          else (answer_with config model name max_tokens input_tokens backends, rr') in
        is_too_long answer.0)
      on
    ∙ is_too_long-answer_with config model name max_tokens input_tokens backends

-- With answers on availability that stay the same during the call, no provider twice in the order and an
-- estimate of the input, a request for an enabled model gets the error that it is too long exactly if no
-- backend of it is admitted, or of a restricted request none in the order, and the serving backends with
-- a known context, of which there is one, are all too small by the router's own filter.
pub is_too_long-resolve_backends :
    (w : World) (config : GatewayConfig) (name : Text) (model : ModelConfig) (max_tokens : Option ℤ)
    (n : ℤ) (prefs : Prefs) (cache_key : Option Text) (rr : Dict Text ℕ)
    → IsStable w
    → Distinct prefs.order
    → model_by_id config name ≡ some model
    → model.enabled ≡ true
    → is_too_long (resolve_backends w config name max_tokens (some n) prefs cache_key rr).0 ≡ (
        is_empty (
          reachable
            (call_of w config model prefs cache_key)
            (admitted config model (needs_of w model max_tokens (some n) prefs) model.backends))
        && (any (is_limited config) model.backends
            && all_short config (some n) max_tokens model.backends))
unfolding resolve_backends
is_too_long-resolve_backends w config name model max_tokens n prefs cache_key rr stable distinct
      found on =
    let short = is_exceeded (context_too_small_error config (some model) (some n) max_tokens) in
    let none_left = is_empty (
      reachable (call_of w config model prefs cache_key)
        (admitted config model (needs_of w model max_tokens (some n) prefs) model.backends)) in
    ap
      (λ o.
        is_too_long
          (elim o as (λ x. Route × Dict Text ℕ) [
            | none ↦ (refused (model_not_found name) 404, rr)
            | some m ↦ resolve_for w config m name max_tokens (some n) prefs cache_key rr
          ]).0)
      found
    ∙ is_too_long-resolve_for w config model name max_tokens (some n) prefs cache_key rr on
    ∙ ap (λ b. b && short)
        (is_empty-select_backends w config name model max_tokens (some n) prefs cache_key rr stable
          distinct found on)
    ∙ ap (λ b. none_left && b) (is_exceeded-context_too_small_error config model n max_tokens)
