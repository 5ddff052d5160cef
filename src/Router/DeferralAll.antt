-- ===== src/Router/DeferralAll.antt =====
-- `select_backends` of router.py tries what is available first, on every path through it.
use local_gateway.Prelude.{
  if◌then◌else◌, Option-cases, ℤ, nat_eq, int_eq, Text, text_eq, is_empty, ℕ, inl, inr, Bool, true,
  false, not, ◌&&◌, Option, List, [],
}
use local_gateway.Dict.{Dict}
use local_gateway.Config.{GatewayConfig, ModelConfig, model_by_id}
use local_gateway.Router.Types.{Prefs, World, Selected}
use local_gateway.Router.Candidates.{Tiers, collect_tiers, collect_preferred}
use local_gateway.Router.Rotation.{next_rotation}
use local_gateway.Router.Selection.{
  Call, call_of, needs_of, emit_preferred_only, emit_cache_affinity, emit_tiers, emit, select_for,
  select_backends,
}
use local_gateway.Router.Tally.{IsStable}
use local_gateway.Router.Deferral.{
  AvailableFirst, emit_preferred_only-AvailableFirst, emit_tiers-AvailableFirst,
  emit_cache_affinity-AvailableFirst, nothing-AvailableFirst,
}

AvailableFirst-if :
    (w : World) (b : Bool) (x y : List Selected × Dict Text ℕ)
    → AvailableFirst w x.0
    → AvailableFirst w y.0
    → AvailableFirst w (if b then x else y).0
AvailableFirst-if w true x y hx hy = hx
AvailableFirst-if w false x y hx hy = hy

emit-AvailableFirst :
    (w : World) (stable : IsStable w) (c : Call) (model_id : Text) (tiers : Tiers)
    (rr : Dict Text ℕ)
    → AvailableFirst w (emit w c model_id tiers rr).0
unfolding emit
emit-AvailableFirst w stable c model_id tiers rr =
    let preferred = collect_preferred c.order tiers in
    let (rotation, rr') = next_rotation model_id rr in
    let affine = emit_cache_affinity w c rotation preferred tiers in
    let tiered = emit_tiers w c rotation preferred tiers in
    AvailableFirst-if w (not (is_empty preferred) && not c.allow_fallbacks && not c.affinity_active)
      (emit_preferred_only w c preferred, rr)
      (if c.affinity_active then (affine, rr') else (tiered, rr'))
      (emit_preferred_only-AvailableFirst w stable c preferred tiers)
      (AvailableFirst-if w c.affinity_active (affine, rr') (tiered, rr')
        (emit_cache_affinity-AvailableFirst w stable c preferred tiers rotation)
        (emit_tiers-AvailableFirst w stable c preferred tiers rotation))

select_for-AvailableFirst :
    (w : World) (config : GatewayConfig) (model : ModelConfig) (max_tokens input_tokens : Option ℤ)
    (prefs : Prefs) (cache_key : Option Text) (rr : Dict Text ℕ)
    → IsStable w
    → AvailableFirst w (select_for w config model max_tokens input_tokens prefs cache_key rr).0
unfolding select_for
select_for-AvailableFirst w config model max_tokens input_tokens prefs cache_key rr stable =
    let needs = needs_of w model max_tokens input_tokens prefs in
    let tiers = collect_tiers config model needs model.backends [] in
    let c = call_of w config model prefs cache_key in
    AvailableFirst-if w (is_empty tiers) ([], rr) (emit w c model.id tiers rr)
      (nothing-AvailableFirst w) (emit-AvailableFirst w stable c model.id tiers rr)

-- With answers on availability that stay the same during the call, `select_backends` emits every
-- available backend before every backend that is rate-limited or has an open circuit, in every
-- routing mode, with cache affinity and without, with an order, a sort or neither.
pub select_backends-AvailableFirst :
    (w : World) (config : GatewayConfig) (model_id : Text) (max_tokens input_tokens : Option ℤ)
    (prefs : Prefs) (cache_key : Option Text) (rr : Dict Text ℕ)
    → IsStable w
    → AvailableFirst w
        (select_backends w config model_id max_tokens input_tokens prefs cache_key rr).0
unfolding select_backends
select_backends-AvailableFirst w config model_id max_tokens input_tokens prefs cache_key rr stable =
    elim (Option-cases (model_by_id config model_id)) [
      | inl missing ↦ rw (missing, select_backends) (nothing-AvailableFirst w)
      | inr (model, found) ↦
          let x = select_for w config model max_tokens input_tokens prefs cache_key rr in
          rw (found, select_backends)
            (AvailableFirst-if w model.enabled x ([], rr)
              (select_for-AvailableFirst w config model max_tokens input_tokens prefs cache_key rr
                stable)
              (nothing-AvailableFirst w))
    ]
