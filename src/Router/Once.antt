-- ===== src/Router/Once.antt =====
-- `select_backends` of router.py emits every backend that may serve the request, once.
use local_gateway.Prelude.{
  ltb, eqb, if◌then◌else◌, Bool-cases, ℤ, nat_eq, int_eq, Text, text_eq, is_empty, select, sort_by,
  concat_map, ℕ, ◌+◌, ◌≡◌, refl, ap, fun_ext, inl, inr, Bool, true, false, not, ◌&&◌, Option, some,
  List, [], ◌∷◌, ◌++◌, arith,
}
use local_gateway.Prelude.Count.{count, count-map, count-select, count-select_split}
use local_gateway.Dict.{Dict}
use local_gateway.Dict.Laws.{IsDict}
use local_gateway.Config.{GatewayConfig, ModelConfig, model_by_id}
use local_gateway.Router.Types.{
  Candidate, Selected, Prefs, World, Reason, order_pref, ratelimited_fallback, tag_reason,
  candidates,
}
use local_gateway.Router.Candidates.{Needs, Tiers, sorted_keys, collect_tiers, collect_preferred}
use local_gateway.Router.Rotation.{next_rotation}
use local_gateway.Router.Sorting.{sort_list}
use local_gateway.Router.Selection.{
  Call, call_of, available, limited, reason_of, emit_preferred_only, is_preferred, emit, needs_of,
  select_for, select_backends,
}
use local_gateway.Router.Tiering.{
  all_candidates, admitted, collect_tiers-IsDict, count-all_candidates,
}
use local_gateway.Router.Preferring.{
  Distinct, in_order, count-collect_preferred, count-not_preferred,
}
use local_gateway.Router.Tally.{
  tally, IsStable, tally-tag_reason, tally-sort_list, tally-available-limited, tally-append,
}
use local_gateway.Router.Emission.{tally-emit_tiers, tally-emit_cache_affinity}

-- Whether the request is kept to the providers of its order: fallbacks are off, cache affinity is
-- not active, and one of those providers has a candidate.
unfoldable pub restricted : Call → List Candidate → Bool
restricted c cs =
    not c.allow_fallbacks && not c.affinity_active && ltb 0 (count (in_order c.order) cs)

-- What a request may be served by.
unfoldable pub reachable : Call → List Candidate → List Candidate
reachable c cs = if restricted c cs then select (in_order c.order) cs else cs

count-true-is_empty : (cs : List Candidate) → is_empty cs ≡ eqb (count (λ _. true) cs) 0
unfolding count
count-true-is_empty [] = refl
count-true-is_empty (c ∷ cs) = ground arith

module _ (w : World) (stable : IsStable w) (c : Call) (tiers : Tiers) (d : IsDict tiers)
    (distinct : Distinct c.order) where
  abbrev preferred_of : List Candidate
  preferred_of = collect_preferred c.order tiers

  is_empty-preferred :
      is_empty preferred_of ≡ not (ltb 0 (count (in_order c.order) (all_candidates tiers)))
  is_empty-preferred =
      let cs = all_candidates tiers in
      ground (
        arith,
        count-true-is_empty preferred_of,
        count-collect_preferred (λ _. true) c.order tiers distinct,
        count-select (λ _. true) (in_order c.order) cs,
        ap (λ (q : Candidate → Bool). count q cs) (fun_ext λ x. and_true (in_order c.order x)),
      )
    where
      and_true : (b : Bool) → (b && true) ≡ b
      and_true true = refl
      and_true false = refl

  tally-emit_preferred_only :
      (p : Candidate → Bool) → tally p (emit_preferred_only w c preferred_of) ≡ count p preferred_of
  unfolding emit_preferred_only
  tally-emit_preferred_only p =
      let avail = available w 0 preferred_of in
      let rest = limited w 1 preferred_of in
      let a = sort_list w c.by (avail ++ rest) avail in
      let b = sort_list w c.by (avail ++ rest) rest in
      let rl : Reason = record { band = ratelimited_fallback; suffix = [] } in
      omega (
        arith,
        tally-append p (tag_reason (reason_of order_pref c.sort) a) (tag_reason rl b),
        tally-tag_reason p (reason_of order_pref c.sort) a,
        tally-tag_reason p rl b,
        tally-sort_list p w c.by (avail ++ rest) avail,
        tally-sort_list p w c.by (avail ++ rest) rest,
        tally-available-limited p w 0 1 preferred_of stable,
      )

  -- The preferred candidates and the others are all.
  count-preferred_and_others :
      (p : Candidate → Bool)
      → count p preferred_of
          + count p (select (λ x. not (is_preferred preferred_of x)) (all_candidates tiers))
        ≡ count p (all_candidates tiers)
  count-preferred_and_others p = omega (
    arith,
    count-collect_preferred p c.order tiers distinct,
    count-not_preferred p c.order tiers,
    count-select_split p (in_order c.order) (all_candidates tiers),
  )

  pub tally-emit :
      (p : Candidate → Bool) (model_id : Text) (rr : Dict Text ℕ)
      → tally p (emit w c model_id tiers rr).0 ≡ count p (reachable c (all_candidates tiers))
  unfolding emit reachable restricted
  tally-emit p model_id rr =
      let rotation = (next_rotation model_id rr).0 in
      ground (
        arith,
        is_empty-preferred,
        tally-emit_preferred_only p,
        count-collect_preferred p c.order tiers distinct,
        count-preferred_and_others p,
        tally-emit_tiers p w stable c rotation preferred_of tiers d,
        tally-emit_cache_affinity p w stable c rotation preferred_of tiers,
      )

reachable-admitted :
    (p : Candidate → Bool) (c : Call) (config : GatewayConfig) (model : ModelConfig) (needs : Needs)
    → count p (reachable c (all_candidates (collect_tiers config model needs model.backends [])))
      ≡ count p (reachable c (admitted config model needs model.backends))
unfolding reachable restricted
reachable-admitted p c config model needs =
    let bs = model.backends in
    let all = all_candidates (collect_tiers config model needs bs []) in
    ground (
      arith,
      count-all_candidates config model needs p bs,
      count-all_candidates config model needs (in_order c.order) bs,
      count-all_candidates config model needs (λ x. in_order c.order x && p x) bs,
      count-select p (in_order c.order) all,
      count-select p (in_order c.order) (admitted config model needs bs),
    )

no_tiers : (tiers : Tiers) → is_empty tiers ≡ true → all_candidates tiers ≡ []
unfolding all_candidates sorted_keys sort_by concat_map
no_tiers [] h = refl
no_tiers (t ∷ tiers) h = cc

count-nil : (p : Candidate → Bool) → count p [] ≡ 0
unfolding count
count-nil p = refl

reachable-nil : (p : Candidate → Bool) (c : Call) → count p (reachable c []) ≡ 0
unfolding reachable count select
reachable-nil p c = ground arith

-- For a model that is found and enabled, with answers on availability that stay the same during the
-- call and no provider twice in the order, `select_backends` emits exactly the admitted backends,
-- each as often as the configuration holds it, in every routing mode and with every sort; of a
-- restricted request, exactly those of the providers in the order.
pub select_backends-once :
    (p : Candidate → Bool) (w : World) (config : GatewayConfig) (model_id : Text)
    (model : ModelConfig) (max_tokens input_tokens : Option ℤ) (prefs : Prefs)
    (cache_key : Option Text) (rr : Dict Text ℕ)
    → IsStable w
    → Distinct prefs.order
    → model_by_id config model_id ≡ some model
    → model.enabled ≡ true
    → count p (
        candidates (select_backends w config model_id max_tokens input_tokens prefs cache_key rr).0)
      ≡ count p (
          reachable
            (call_of w config model prefs cache_key)
            (admitted config model (needs_of w model max_tokens input_tokens prefs) model.backends))
unfolding select_backends select_for
select_backends-once p w config model_id model max_tokens input_tokens prefs cache_key rr stable
      distinct found on =
    let needs = needs_of w model max_tokens input_tokens prefs in
    let tiers = collect_tiers config model needs model.backends [] in
    let c = call_of w config model prefs cache_key in
    let emitted = (emit w c model.id tiers rr).0 in
    let all_out =
      tally-emit w stable c tiers (collect_tiers-IsDict config model needs model.backends [] tt)
        (unfold call_of in distinct) p model.id rr in
    elim (Bool-cases (is_empty tiers)) [
      | inl bare ↦ ground (
        arith,
        found,
        on,
        bare,
        reachable-admitted p c config model needs,
        reachable-nil p c,
        ap (λ l. count p (reachable c l)) (no_tiers tiers bare),
        count-nil p,
      )
      | inr full ↦ ground (
        arith,
        found,
        on,
        full,
        all_out,
        reachable-admitted p c config model needs,
        count-map p (λ (s : Selected). s.candidate) emitted,
      )
    ]
