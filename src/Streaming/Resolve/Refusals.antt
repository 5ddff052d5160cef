-- ===== src/Streaming/Resolve/Refusals.antt =====
-- When a request is refused before the fallback loops of streaming.py.
use local_gateway.Router.Tiering.{admitted}
use local_gateway.Prelude.{
  ltb, if◌then◌else◌, ℤ, nat_eq, int_eq, Text, text_eq, is_empty, ℕ, ◌≡◌, refl, sym, ap, ◌∙◌, Bool,
  true, false, not, Option, none, some, List, [], ◌∷◌, arith,
}
use local_gateway.Dict.{Dict}
use local_gateway.Router.Tally.{IsStable}
use local_gateway.Router.Preferring.{Distinct}
use local_gateway.Router.Selection.{select_backends, call_of, needs_of}
use local_gateway.Config.{GatewayConfig, ModelConfig, model_by_id}
use local_gateway.Router.Types.{World, Prefs, Selected, Candidate, candidates}
use local_gateway.Router.Once.{reachable, select_backends-once}
use local_gateway.Prelude.Count.{count}
use local_gateway.Streaming.Resolve.{
  RouteError, Route, routed, refused, resolve_for, resolve_backends, refusal, no_backend,
  answer_with, model_not_found,
}

unfoldable pub is_routed : Route → Bool
is_routed (routed backends) = true
is_routed (refused error status) = false

refused-refusal :
    (config : GatewayConfig) (model : ModelConfig) (name : Text) (max_tokens : Option ℤ)
    (e : Option RouteError)
    → is_routed (refusal config model name max_tokens e) ≡ false
unfolding is_routed refusal no_backend
refused-refusal config model name none none = refl
refused-refusal config model name (some z) none = refl
refused-refusal config model name max_tokens (some e) = refl

count-true : (cs : List Selected) → ltb 0 (count (λ _. true) (candidates cs)) ≡ not (is_empty cs)
unfolding count
count-true [] = ground arith
count-true (c ∷ cs) = ground arith

count_candidates : (cs : List Candidate) → ltb 0 (count (λ _. true) cs) ≡ not (is_empty cs)
unfolding count
count_candidates [] = ground arith
count_candidates (c ∷ cs) = ground arith

is_routed-answer_with :
    (config : GatewayConfig) (model : ModelConfig) (name : Text)
    (max_tokens input_tokens : Option ℤ) (backends : List Selected)
    → is_routed (answer_with config model name max_tokens input_tokens backends)
      ≡ not (is_empty backends)
unfolding answer_with
is_routed-answer_with config model name max_tokens input_tokens [] =
    refused-refusal config model name max_tokens _
is_routed-answer_with config model name max_tokens input_tokens (c ∷ cs) = unfold is_routed in refl

is_routed-resolve_for :
    (w : World) (config : GatewayConfig) (model : ModelConfig) (name : Text)
    (max_tokens input_tokens : Option ℤ) (prefs : Prefs) (cache_key : Option Text)
    (rr : Dict Text ℕ)
    → model.enabled ≡ true
    → is_routed (resolve_for w config model name max_tokens input_tokens prefs cache_key rr).0
      ≡ not (is_empty (select_backends w config name max_tokens input_tokens prefs cache_key rr).0)
unfolding resolve_for
is_routed-resolve_for w config model name max_tokens input_tokens prefs cache_key rr on =
    let (backends, rr') =
      select_backends w config name max_tokens input_tokens prefs cache_key rr in
    ap
      (λ b.
        let answer : Route × Dict Text ℕ =
          if not b
          then (refused (model_not_found name) 404, rr)
          else (answer_with config model name max_tokens input_tokens backends, rr') in
        is_routed answer.0)
      on
    ∙ is_routed-answer_with config model name max_tokens input_tokens backends

-- With answers on availability that stay the same during the call and no provider twice in the order,
-- a request for an enabled model is refused exactly if no backend of the model is admitted, or of a
-- restricted request none in the order: cooldowns, snoozes and open circuits refuse no request.
pub is_routed-resolve_backends :
    (w : World) (config : GatewayConfig) (name : Text) (model : ModelConfig)
    (max_tokens input_tokens : Option ℤ) (prefs : Prefs) (cache_key : Option Text)
    (rr : Dict Text ℕ)
    → IsStable w
    → Distinct prefs.order
    → model_by_id config name ≡ some model
    → model.enabled ≡ true
    → is_routed (resolve_backends w config name max_tokens input_tokens prefs cache_key rr).0
      ≡ not (
          is_empty (
            reachable (call_of w config model prefs cache_key) (
              admitted config model
                (needs_of w model max_tokens input_tokens prefs)
                model.backends)))
unfolding resolve_backends
is_routed-resolve_backends w config name model max_tokens input_tokens prefs cache_key rr stable
      distinct found on =
    ap
      (λ o.
        is_routed
          (elim o as (λ x. Route × Dict Text ℕ) [
            | none ↦ (refused (model_not_found name) 404, rr)
            | some m ↦ resolve_for w config m name max_tokens input_tokens prefs cache_key rr
          ]).0)
      found
    ∙ is_routed-resolve_for w config model name max_tokens input_tokens prefs cache_key rr on
    ∙ sym (count-true (select_backends w config name max_tokens input_tokens prefs cache_key rr).0)
    ∙ ap (ltb 0) (
        select_backends-once (λ _. true) w config name model max_tokens input_tokens prefs cache_key
          rr stable distinct found on)
    ∙ count_candidates _

not_injective : (a b : Bool) → not a ≡ not b → a ≡ b
not_injective true true h = refl
not_injective false false h = refl
not_injective true false h = cc
not_injective false true h = cc

pub is_empty-select_backends :
    (w : World) (config : GatewayConfig) (name : Text) (model : ModelConfig)
    (max_tokens input_tokens : Option ℤ) (prefs : Prefs) (cache_key : Option Text)
    (rr : Dict Text ℕ)
    → IsStable w
    → Distinct prefs.order
    → model_by_id config name ≡ some model
    → model.enabled ≡ true
    → is_empty (select_backends w config name max_tokens input_tokens prefs cache_key rr).0
      ≡ is_empty (
          reachable
            (call_of w config model prefs cache_key)
            (admitted config model (needs_of w model max_tokens input_tokens prefs) model.backends))
is_empty-select_backends w config name model max_tokens input_tokens prefs cache_key rr stable
      distinct found on =
    not_injective _ _ (
      sym (count-true (select_backends w config name max_tokens input_tokens prefs cache_key rr).0)
      ∙ ap (ltb 0) (
          select_backends-once (λ _. true) w config name model max_tokens input_tokens prefs
            cache_key rr stable distinct found on)
      ∙ count_candidates _)
