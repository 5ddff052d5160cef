-- ===== src/Router/Emission.antt =====
-- What `select_backends` of router.py emits: every candidate once.
use local_gateway.Prelude.{
  Option-cases, ℤ, ltb_ℤ, eqb_ℤ_iff, ◌==◌, nat_eq, int_eq, text_eq, select, concat_map, ℕ, zero,
  suc, ◌+◌, ◌≤◌, ◌<◌, ◌≡◌, refl, ap, ◌∙◌, inl, inr, Bool, true, false, not, ◌&&◌, none, some, List,
  [], ◌∷◌, ◌++◌, map, arith,
}
use local_gateway.Prelude.Count.{
  count, count-map, count-sort_by, count-select, count-concat_map-same, count-concat_map-add,
  count-concat_map-front, concat_map-select,
}
use local_gateway.Dict.{keys}
use local_gateway.Dict.Laws.{IsDict}
use local_gateway.Router.Types.{
  Candidate, Selected, World, Reason, tier, order_pref, ratelimited_fallback, untagged, tag_reason,
}
use local_gateway.Router.Candidates.{Tiers, sorted_keys, tier_of}
use local_gateway.Router.Rotation.{sample_tier_order, nth_key, decay_weights, pick_start, total}
use local_gateway.Router.Sorting.{sort_list}
use local_gateway.Router.Affinity.{emit_bands}
use local_gateway.Router.Selection.{
  Call, available, limited, reason_of, is_preferred, group_of, available_by_tier,
  ratelimited_by_tier, add_suffix, not_preferred, emit_cache_affinity, tier_order, emit_tiers,
}
use local_gateway.Router.Tiering.{all_candidates, count-keys}
use local_gateway.Router.Tally.{
  tally, IsStable, tally-tag_reason, tally-add_suffix, tally-sort_list, tally-balance,
  tally-available-limited, tally-emit_bands, tally-append,
}

-- Each key of the tiers stands once.
count-sorted_keys :
    (k : ℤ) (tiers : Tiers) → IsDict tiers → count (λ j. j == k) (sorted_keys tiers) ≤ 1
unfolding sorted_keys
count-sorted_keys k tiers d =
    ground (arith, count-sort_by (λ j. j == k) ltb_ℤ (keys tiers), count-keys k tiers d)

nth_key-count : (ks : List ℤ) (i : ℕ) (k : ℤ) → nth_key ks i ≡ some k → 0 < count (λ j. j == k) ks
unfolding nth_key count
nth_key-count [] i k h = cc
nth_key-count (j ∷ ks) zero k h = ground (arith, eqb_ℤ_iff j k)
nth_key-count (j ∷ ks) (suc i) k h = ground (arith, nth_key-count ks i k h)

module _ {B : Type 0} (p : B → Bool) (f : ℤ → List B) (ks : List ℤ)
    (once : (k : ℤ) → count (λ j. j == k) ks ≤ 1) where
  count-sample :
      (decay : ℕ) (draw : ℕ → ℕ)
      → count p (concat_map f (sample_tier_order decay draw ks)) ≡ count p (concat_map f ks)
  unfolding sample_tier_order
  count-sample decay draw =
      let ws = decay_weights decay ks in
      let i = pick_start ws (draw (total ws)) in
      elim (Option-cases (nth_key ks i)) [
        | inl out ↦ ground (arith, out)
        | inr (k, at) ↦ ground (
          arith,
          at,
          count-concat_map-front p f k ks (omega (arith, once k, nth_key-count ks i k at)),
        )
      ]

  count-tier_order :
      (w : World) (c : Call)
      → count p (concat_map f (tier_order w c ks)) ≡ count p (concat_map f ks)
  unfolding tier_order
  count-tier_order w c = ground (arith, count-sample c.decay (w.draw none))

module _ (p : Candidate → Bool) (w : World) (stable : IsStable w) (c : Call) (rotation : ℕ)
    (preferred : List Candidate) (tiers : Tiers) where
  abbrev spread : (ℤ → List Candidate) → ℤ → List Selected
  spread f key = map untagged (f key)

  tally-by_tier :
      (key : ℤ)
      → tally p (available_by_tier w c rotation preferred tiers key)
          + tally p (ratelimited_by_tier w c preferred tiers key)
        ≡ tally p (spread (group_of c preferred tiers) key)
  unfolding available_by_tier ratelimited_by_tier
  tally-by_tier key =
      let group = group_of c preferred tiers key in
      let avail = available w 2 group in
      let rest = limited w 3 group in
      omega (
        arith,
        tally-balance p w c rotation key (avail ++ rest) avail,
        tally-sort_list p w c.by (avail ++ rest) rest,
        tally-available-limited p w 2 3 group stable,
        count-map (λ (s : Selected). p s.candidate) untagged group,
      )

  -- Over all tiers, the available and the limited ones are the groups.
  tally-tiers :
      (ks : List ℤ)
      → tally p (concat_map (available_by_tier w c rotation preferred tiers) ks)
          + tally p (concat_map (ratelimited_by_tier w c preferred tiers) ks)
        ≡ count p (concat_map (group_of c preferred tiers) ks)
  tally-tiers ks =
      count-concat_map-add (λ s. p s.candidate) (available_by_tier w c rotation preferred tiers)
        (ratelimited_by_tier w c preferred tiers) (spread (group_of c preferred tiers))
        tally-by_tier ks
      ∙ count-concat_map-same (λ s. p s.candidate) p (spread (group_of c preferred tiers))
          (group_of c preferred tiers)
          (λ key. count-map (λ s. p s.candidate) untagged (group_of c preferred tiers key)) ks

  pub tally-tagged_tiers :
      (band : ℤ → Reason) (f : ℤ → List Selected) (ks : List ℤ)
      → tally p (concat_map (λ key. tag_reason (band key) (f key)) ks) ≡ tally p (concat_map f ks)
  tally-tagged_tiers band f ks =
      count-concat_map-same (λ s. p s.candidate) (λ s. p s.candidate)
        (λ key. tag_reason (band key) (f key)) f (λ key. tally-tag_reason p (band key) (f key)) ks

  groups_without :
      c.affinity_active ≡ false
      → group_of c preferred tiers
        ≡ (λ key. select (λ x. not (is_preferred preferred x)) (tier_of tiers key))
  unfolding group_of
  groups_without off = rw off

  groups_with : c.affinity_active ≡ true → group_of c preferred tiers ≡ tier_of tiers
  unfolding group_of
  groups_with on = rw on

  pub tally-emit_tiers :
      IsDict tiers
      → c.affinity_active ≡ false
      → tally p (emit_tiers w c rotation preferred tiers)
        ≡ count p preferred
          + count p (select (λ x. not (is_preferred preferred x)) (all_candidates tiers))
  unfolding emit_tiers all_candidates
  tally-emit_tiers d off =
      let ks = sorted_keys tiers in
      let q = λ (x : Candidate). not (is_preferred preferred x) in
      let avail_p = available w 4 preferred in
      let rest_p = limited w 6 preferred in
      let both = avail_p ++ limited w 5 preferred in
      let high = available_by_tier w c rotation preferred tiers in
      let low = ratelimited_by_tier w c preferred tiers in
      let rl : Reason = record { band = ratelimited_fallback; suffix = [] } in
      let a = tag_reason (reason_of order_pref c.sort) (sort_list w c.by both avail_p) in
      let b =
        concat_map (λ key. tag_reason (reason_of (tier key) c.sort) (high key))
          (tier_order w c ks) in
      let e = tag_reason rl rest_p in
      let f = concat_map (λ key. tag_reason rl (low key)) ks in
      omega (
        arith,
        tally-append p a (b ++ (e ++ f)),
        tally-append p b (e ++ f),
        tally-append p e f,
        tally-tag_reason p (reason_of order_pref c.sort) (sort_list w c.by both avail_p),
        tally-sort_list p w c.by both avail_p,
        tally-tagged_tiers (λ key. reason_of (tier key) c.sort) high (tier_order w c ks),
        count-tier_order (λ (s : Selected). p s.candidate) high ks
            (λ k. count-sorted_keys k tiers d) w c,
        tally-tag_reason p rl rest_p,
        tally-tagged_tiers (λ _. rl) low ks,
        tally-available-limited p w 4 6 preferred stable,
        tally-tiers ks,
        ap (λ (g : ℤ → List Candidate). count p (concat_map g ks)) (groups_without off),
        ap (count p) (concat_map-select q (tier_of tiers) ks),
      )

-- The test of the candidates that are not preferred and pass another test.
abbrev pub unpreferred : (Candidate → Bool) → List Candidate → Candidate → Bool
unpreferred p preferred x = not (is_preferred preferred x) && p x

module _ (p : Candidate → Bool) (w : World) (stable : IsStable w) (c : Call) (rotation : ℕ)
    (preferred : List Candidate) (tiers : Tiers) where
  pub tally-not_preferred :
      (f : ℤ → List Selected) (ks : List ℤ)
      → tally p (concat_map (λ key. select (not_preferred preferred) (f key)) ks)
        ≡ tally (unpreferred p preferred) (concat_map f ks)
  unfolding not_preferred
  tally-not_preferred f ks =
      count-concat_map-same (λ s. p s.candidate) (λ s. unpreferred p preferred s.candidate)
        (λ key. select (not_preferred preferred) (f key)) f
        (λ key. count-select (λ s. p s.candidate) (not_preferred preferred) (f key)) ks

  pub tally-emit_cache_affinity :
      c.affinity_active ≡ true
      → tally p (emit_cache_affinity w c rotation preferred tiers)
        ≡ count p preferred
          + count p (select (λ x. not (is_preferred preferred x)) (all_candidates tiers))
  unfolding emit_cache_affinity all_candidates
  tally-emit_cache_affinity on =
      let ks = sorted_keys tiers in
      let high = available_by_tier w c rotation preferred tiers in
      let low = ratelimited_by_tier w c preferred tiers in
      let rl : Reason = record { band = ratelimited_fallback; suffix = [] } in
      let avail_p = available w 4 preferred in
      let kept = concat_map (λ key. select (not_preferred preferred) (high key)) ks in
      let left = concat_map (λ key. select (not_preferred preferred) (low key)) ks in
      let bands = emit_bands w c.order c.max_inflight c.by.cache_key c.by.ttl (avail_p ++ kept) in
      let a = map (add_suffix c.sort) bands in
      let b = tag_reason rl (limited w 6 preferred) in
      omega (
        arith,
        tally-append p a (b ++ tag_reason rl left),
        tally-append p b (tag_reason rl left),
        tally-add_suffix p (add_suffix c.sort) bands (λ s. unfold add_suffix in refl),
        tally-emit_bands p w c.order c.max_inflight c.by.cache_key c.by.ttl (avail_p ++ kept),
        tally-append p avail_p kept,
        tally-tag_reason p rl (limited w 6 preferred),
        tally-tag_reason p rl left,
        tally-available-limited p w 4 6 preferred stable,
        tally-not_preferred high ks,
        tally-not_preferred low ks,
        tally-tiers (unpreferred p preferred) w stable c rotation preferred tiers ks,
        ap (λ (g : ℤ → List Candidate). count (unpreferred p preferred) (concat_map g ks))
            (groups_with p w stable c rotation preferred tiers on),
        count-select p (λ x. not (is_preferred preferred x)) (concat_map (tier_of tiers) ks),
      )
