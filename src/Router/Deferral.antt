-- ===== src/Router/Deferral.antt =====
-- `select_backends` of router.py defers what is rate-limited or has an open circuit.
use local_gateway.Prelude.{
  ℤ, nat_eq, int_eq, text_eq, select, concat_map, ℕ, ◌≡◌, refl, sym, ◌∙◌, Bool, true, false, not,
  List, [], ◌∷◌, ◌++◌, map, arith,
}
use mathlib.Core.List.{append_assoc}
use local_gateway.Prelude.Count.{count, count-concat_map-zero}
use local_gateway.Router.Types.{
  Candidate, Selected, World, Reason, tier, order_pref, ratelimited_fallback, tag_reason,
}
use local_gateway.Router.Candidates.{Tiers, sorted_keys}
use local_gateway.Router.Sorting.{sort_list}
use local_gateway.Router.Affinity.{emit_bands}
use local_gateway.Router.Selection.{
  Call, available, limited, is_routable, reason_of, group_of, available_by_tier,
  ratelimited_by_tier, add_suffix, not_preferred, emit_preferred_only, emit_cache_affinity,
  tier_order, emit_tiers,
}
use local_gateway.Router.Tally.{
  tally, IsStable, tally-tag_reason, tally-add_suffix, tally-sort_list, tally-balance,
  tally-emit_bands, tally-append,
}
use local_gateway.Router.Emission.{tally-tagged_tiers, tally-not_preferred, unpreferred}

-- A list of available backends followed by a list of others.
pub record AvailableFirst (w : World) (emitted : List Selected) : Type 0 where
  pub front : List Selected
  pub back : List Selected
  pub split : emitted ≡ front ++ back
  pub front_available : tally (λ c. not (is_routable w 0 c)) front ≡ 0
  pub back_limited : tally (is_routable w 0) back ≡ 0

module _ (w : World) (stable : IsStable w) (q : Candidate → Bool) (n : ℕ) where
  tally-available-zero :
      ((c : Candidate) → is_routable w 0 c ≡ true → q c ≡ false)
      → (cs : List Candidate) → tally q (available w n cs) ≡ 0
  unfolding available select count
  tally-available-zero h [] = refl
  tally-available-zero h (c ∷ cs) =
      ground (arith, h c, stable n c.provider.id c.backend.model, tally-available-zero h cs)

  tally-limited-zero :
      ((c : Candidate) → is_routable w 0 c ≡ false → q c ≡ false)
      → (cs : List Candidate) → tally q (limited w n cs) ≡ 0
  unfolding limited select count
  tally-limited-zero h [] = refl
  tally-limited-zero h (c ∷ cs) =
      ground (arith, h c, stable n c.provider.id c.backend.model, tally-limited-zero h cs)

module _ (w : World) (stable : IsStable w) (c : Call) (preferred : List Candidate)
    (tiers : Tiers) where
  module _ (q : Candidate → Bool) where
    tally-high-zero :
        ((x : Candidate) → is_routable w 0 x ≡ true → q x ≡ false)
        → (rotation : ℕ) (ks : List ℤ)
        → tally q (concat_map (available_by_tier w c rotation preferred tiers) ks) ≡ 0
    tally-high-zero h rotation =
        count-concat_map-zero (λ s. q s.candidate) (available_by_tier w c rotation preferred tiers)
          λ key.
            let group = group_of c preferred tiers key in
            let avail = available w 2 group in
            unfold available_by_tier in
            tally-balance q w c rotation key (avail ++ limited w 3 group) avail
            ∙ tally-available-zero w stable q 2 h group

    tally-low-zero :
        ((x : Candidate) → is_routable w 0 x ≡ false → q x ≡ false)
        → (ks : List ℤ) → tally q (concat_map (ratelimited_by_tier w c preferred tiers) ks) ≡ 0
    tally-low-zero h =
        count-concat_map-zero (λ s. q s.candidate) (ratelimited_by_tier w c preferred tiers)
          λ key.
            let group = group_of c preferred tiers key in
            let rest = limited w 3 group in
            unfold ratelimited_by_tier in
            tally-sort_list q w c.by (available w 2 group ++ rest) rest
            ∙ tally-limited-zero w stable q 3 h group

  abbrev down : Candidate → Bool
  down x = not (is_routable w 0 x)

  down-zero : (x : Candidate) → is_routable w 0 x ≡ true → down x ≡ false
  down-zero x h = rw h

  up-zero : (x : Candidate) → is_routable w 0 x ≡ false → is_routable w 0 x ≡ false
  up-zero x h = h

  pub emit_preferred_only-AvailableFirst : AvailableFirst w (emit_preferred_only w c preferred)
  unfolding emit_preferred_only
  emit_preferred_only-AvailableFirst =
      let avail = available w 0 preferred in
      let rest = limited w 1 preferred in
      let a = sort_list w c.by (avail ++ rest) avail in
      let b = sort_list w c.by (avail ++ rest) rest in
      let rl : Reason = record { band = ratelimited_fallback; suffix = [] } in
      record {
        front = tag_reason (reason_of order_pref c.sort) a;
        back = tag_reason rl b;
        split = refl;
        front_available =
            tally-tag_reason down (reason_of order_pref c.sort) a
            ∙ tally-sort_list down w c.by (avail ++ rest) avail
            ∙ tally-available-zero w stable down 0 down-zero preferred;
        back_limited =
            tally-tag_reason (is_routable w 0) rl b
            ∙ tally-sort_list (is_routable w 0) w c.by (avail ++ rest) rest
            ∙ tally-limited-zero w stable (is_routable w 0) 1 up-zero preferred;
      }

  pub emit_tiers-AvailableFirst :
      (rotation : ℕ) → AvailableFirst w (emit_tiers w c rotation preferred tiers)
  unfolding emit_tiers
  emit_tiers-AvailableFirst rotation =
      let ks = sorted_keys tiers in
      let order = tier_order w c ks in
      let avail_p = available w 4 preferred in
      let both = avail_p ++ limited w 5 preferred in
      let high = available_by_tier w c rotation preferred tiers in
      let low = ratelimited_by_tier w c preferred tiers in
      let rl : Reason = record { band = ratelimited_fallback; suffix = [] } in
      let a = tag_reason (reason_of order_pref c.sort) (sort_list w c.by both avail_p) in
      let b = concat_map (λ key. tag_reason (reason_of (tier key) c.sort) (high key)) order in
      let e = tag_reason rl (limited w 6 preferred) in
      let f = concat_map (λ key. tag_reason rl (low key)) ks in
      record {
        front = a ++ b;
        back = e ++ f;
        split = sym (append_assoc a b (e ++ f));
        front_available = omega (
          arith,
          tally-append down a b,
          tally-tag_reason down (reason_of order_pref c.sort) (sort_list w c.by both avail_p),
          tally-sort_list down w c.by both avail_p,
          tally-available-zero w stable down 4 down-zero preferred,
          tally-tagged_tiers down w stable c rotation preferred tiers
              (λ key. reason_of (tier key) c.sort) high order,
          tally-high-zero down down-zero rotation order,
        );
        back_limited = omega (
          arith,
          tally-append (is_routable w 0) e f,
          tally-tag_reason (is_routable w 0) rl (limited w 6 preferred),
          tally-limited-zero w stable (is_routable w 0) 6 up-zero preferred,
          tally-tagged_tiers (is_routable w 0) w stable c rotation preferred tiers (λ _. rl) low ks,
          tally-low-zero (is_routable w 0) up-zero ks,
        );
      }

  pub emit_cache_affinity-AvailableFirst :
      (rotation : ℕ) → AvailableFirst w (emit_cache_affinity w c rotation preferred tiers)
  unfolding emit_cache_affinity
  emit_cache_affinity-AvailableFirst rotation =
      let ks = sorted_keys tiers in
      let high = available_by_tier w c rotation preferred tiers in
      let low = ratelimited_by_tier w c preferred tiers in
      let rl : Reason = record { band = ratelimited_fallback; suffix = [] } in
      let avail_p = available w 4 preferred in
      let kept = concat_map (λ key. select (not_preferred preferred) (high key)) ks in
      let left = concat_map (λ key. select (not_preferred preferred) (low key)) ks in
      let bands = emit_bands w c.order c.max_inflight c.by.cache_key c.by.ttl (avail_p ++ kept) in
      let e = tag_reason rl (limited w 6 preferred) in
      record {
        front = map (add_suffix c.sort) bands;
        back = e ++ tag_reason rl left;
        split = refl;
        front_available = omega (
          arith,
          tally-add_suffix down (add_suffix c.sort) bands (λ s. unfold add_suffix in refl),
          tally-emit_bands down w c.order c.max_inflight c.by.cache_key c.by.ttl (avail_p ++ kept),
          tally-append down avail_p kept,
          tally-available-zero w stable down 4 down-zero preferred,
          tally-not_preferred down w stable c rotation preferred tiers high ks,
          tally-high-zero (unpreferred down preferred) (λ x h. rw h (ground arith)) rotation ks,
        );
        back_limited = omega (
          arith,
          tally-append (is_routable w 0) e (tag_reason rl left),
          tally-tag_reason (is_routable w 0) rl (limited w 6 preferred),
          tally-tag_reason (is_routable w 0) rl left,
          tally-limited-zero w stable (is_routable w 0) 6 up-zero preferred,
          tally-not_preferred (is_routable w 0) w stable c rotation preferred tiers low ks,
          tally-low-zero (unpreferred (is_routable w 0) preferred) (λ x h. rw h (ground arith)) ks,
        );
      }

pub nothing-AvailableFirst : (w : World) → AvailableFirst w []
unfolding count
nothing-AvailableFirst w = record {
  front = [];
  back = [];
  split = refl;
  front_available = refl;
  back_limited = refl;
}
