-- ===== src/Router/Tally.antt =====
-- The steps of router.py that reorder or tag backends neither add nor lose one.
use local_gateway.Prelude.{
  Bool-cases, Option-cases, ℤ, nat_eq, int_eq, Text, text_eq, contains, length, is_empty, select,
  sort_by, ℕ, ◌+◌, ◌%◌, ◌≡◌, refl, sym, ap, ◌∙◌, fun_ext, inl, inr, Bool, not, Option, none, some,
  List, [], ◌∷◌, ◌++◌, map, arith,
}
use local_gateway.Prelude.Count.{
  count, count-append, count-map, count-sort_by, count-rotate, count-select_split,
}
use local_gateway.Dict.{Dict}
use local_gateway.Router.Types.{
  Candidate, Selected, World, Reason, Band, warm_idle, warm_busy, cold_idle, cold_busy, untagged,
  tag_reason, key_of,
}
use local_gateway.Router.Sorting.{SortBy, sort_list}
use local_gateway.Router.Rotation.{plain_rotation, weighted_rotation, static_weight_rotation}
use local_gateway.Router.Rotation.Start.{weighted_rotation-rotate, static_weight_rotation-rotate}
use local_gateway.Router.Affinity.{
  is_idle, by_inflight, has_room, apply_tiebreak, idle, busy, spill, emit_bands,
}
use local_gateway.Router.Selection.{Call, available, limited, balance, is_routable}

-- How many selected backends have a candidate that passes the test.
abbrev pub tally : (Candidate → Bool) → List Selected → ℕ
tally p = count (λ s. p s.candidate)

-- The passes over the backends all get the same answers.
abbrev pub IsStable : World → Type 0
IsStable w =
    (n : ℕ) (provider_id model : Text)
    → w.routable n provider_id model ≡ w.routable 0 provider_id model

module _ (p : Candidate → Bool) where
  pub tally-tag_reason : (r : Reason) (xs : List Selected) → tally p (tag_reason r xs) ≡ tally p xs
  unfolding tag_reason
  tally-tag_reason r xs =
      count-map (λ s. p s.candidate)
        (λ (s : Selected). record { candidate = s.candidate; reason = r }) xs

  pub tally-add_suffix :
      (f : Selected → Selected) (xs : List Selected)
      → ((s : Selected) → (f s).candidate ≡ s.candidate)
      → tally p (map f xs) ≡ tally p xs
  tally-add_suffix f xs h =
      count-map (λ s. p s.candidate) f xs ∙ ap (λ q. count q xs) (fun_ext λ s. ap p (h s))

  pub tally-sort_list :
      (w : World) (by : SortBy) (both xs : List Selected)
      → tally p (sort_list w by both xs) ≡ tally p xs
  unfolding sort_list
  tally-sort_list w by both xs = elim (Option-cases by.sort) [
    | inl e ↦ rw e
    | inr (s, e) ↦ rw e (count-sort_by (λ s. p s.candidate) _ xs)
  ]

  tally-plain_rotation : (r : ℕ) (xs : List Selected) → tally p (plain_rotation r xs) ≡ tally p xs
  unfolding plain_rotation
  tally-plain_rotation r xs = count-rotate (λ s. p s.candidate) (r % length xs) xs

  tally-weighted_rotation :
      (tps : Dict Text ℕ) (r : ℕ) (draw : ℕ → ℕ) (xs : List Selected)
      → tally p (weighted_rotation tps r draw xs) ≡ tally p xs
  tally-weighted_rotation tps r draw xs =
      let (k, e) = weighted_rotation-rotate tps r draw xs in
      ap (tally p) e ∙ count-rotate (λ s. p s.candidate) k xs

  tally-static_weight_rotation :
      (weights : List ℤ) (r : ℕ) (draw : ℕ → ℕ) (xs : List Selected)
      → tally p (static_weight_rotation weights r draw xs) ≡ tally p xs
  tally-static_weight_rotation weights r draw xs =
      let (k, e) = static_weight_rotation-rotate weights r draw xs in
      ap (tally p) e ∙ count-rotate (λ s. p s.candidate) k xs

  pub tally-balance :
      (w : World) (c : Call) (rotation : ℕ) (key : ℤ) (both avail : List Selected)
      → tally p (balance w c rotation key both avail) ≡ tally p avail
  unfolding balance
  tally-balance w c rotation key both avail =
      let weights = map (λ (s : Selected). s.backend.weight) avail in
      ground (
        arith,
        tally-sort_list w c.by both avail,
        tally-weighted_rotation c.by.tps_map rotation (w.draw (some key)) avail,
        tally-static_weight_rotation weights rotation (w.draw (some key)) avail,
        tally-plain_rotation rotation avail,
      )

  -- The available and the limited ones of two passes with the same answers are all.
  pub tally-available-limited :
      (w : World) (n m : ℕ) (cs : List Candidate)
      → IsStable w
      → tally p (available w n cs) + tally p (limited w m cs) ≡ count p cs
  unfolding available limited
  tally-available-limited w n m cs stable =
      let same : is_routable w m ≡ is_routable w n = fun_ext λ c.
        stable m c.provider.id c.backend.model ∙ sym (stable n c.provider.id c.backend.model) in
      omega (
        arith,
        count-map (λ (s : Selected). p s.candidate) untagged (select (is_routable w n) cs),
        count-map (λ (s : Selected). p s.candidate) untagged
            (select (λ c. not (is_routable w m c)) cs),
        ap (λ (f : Candidate → Bool). count p (select (λ c. not (f c)) cs)) same,
        count-select_split p (is_routable w n) cs,
      )

  tally-apply_tiebreak :
      (order : List Text) (xs : List Selected) → tally p (apply_tiebreak order xs) ≡ tally p xs
  unfolding apply_tiebreak
  tally-apply_tiebreak order xs = elim (Bool-cases (is_empty order)) [
    | inl e ↦ rw e
    | inr e ↦ rw e (count-sort_by (λ s. p s.candidate) _ xs)
  ]

  count-split :
      (q : Selected → Bool) (xs : List Selected)
      → tally p (select q xs) + tally p (select (λ s. not (q s)) xs) ≡ tally p xs
  count-split q xs = count-select_split (λ s. p s.candidate) q xs

  tally-idle-busy :
      (w : World) (order : List Text) (a b : Band) (xs : List Selected)
      → tally p (idle w order a xs) + tally p (busy w order b xs) ≡ tally p xs
  unfolding idle busy
  tally-idle-busy w order a b xs =
      let quiet = select (is_idle w) xs in
      let loud = select (λ s. not (is_idle w s)) xs in
      omega (
        arith,
        tally-tag_reason (record { band = a; suffix = [] }) (apply_tiebreak order quiet),
        tally-tag_reason (record { band = b; suffix = [] })
            (apply_tiebreak order (sort_by (by_inflight w) loud)),
        tally-apply_tiebreak order quiet,
        tally-apply_tiebreak order (sort_by (by_inflight w) loud),
        count-sort_by (λ (s : Selected). p s.candidate) (by_inflight w) loud,
        count-split (is_idle w) xs,
      )

  tally-spill :
      (w : World) (order : List Text) (cap : Option ℤ) (warm cold : List Selected)
      → tally p (spill w order cap warm cold).0 + tally p (spill w order cap warm cold).1
        ≡ tally p warm + tally p cold
  unfolding spill
  tally-spill w order none warm cold = refl
  tally-spill w order (some cap) [] cold = refl
  tally-spill w order (some cap) (s ∷ warm) cold =
      let out = select (λ x. not (has_room w cap x)) (s ∷ warm) in
      omega (
        arith,
        tally-apply_tiebreak order (out ++ cold),
        count-append (λ (x : Selected). p x.candidate) out cold,
        count-split (has_room w cap) (s ∷ warm),
      )

  pub tally-append : (xs ys : List Selected) → tally p (xs ++ ys) ≡ tally p xs + tally p ys
  tally-append xs ys = count-append (λ s. p s.candidate) xs ys

  -- The four bands hold the candidates that were given, each as often.
  pub tally-emit_bands :
      (w : World) (order : List Text) (cap : Option ℤ) (cache_key : Text) (ttl : ℕ)
      (flat : List Selected)
      → tally p (emit_bands w order cap cache_key ttl flat) ≡ tally p flat
  unfolding emit_bands
  tally-emit_bands w order cap cache_key ttl flat =
      let warm_keys = w.warm_backends_for cache_key (map key_of flat) ttl in
      let warm = select (λ s. contains (key_of s) warm_keys) flat in
      let cold = select (λ s. not (contains (key_of s) warm_keys)) flat in
      let wb = busy w order warm_busy warm in
      let cb = busy w order cold_busy cold in
      let rest = spill w order cap wb cb in
      let wi = idle w order warm_idle warm in
      let ci = idle w order cold_idle cold in
      omega (
        arith,
        tally-append wi (rest.0 ++ (ci ++ rest.1)),
        tally-append rest.0 (ci ++ rest.1),
        tally-append ci rest.1,
        tally-spill w order cap wb cb,
        tally-idle-busy w order warm_idle warm_busy warm,
        tally-idle-busy w order cold_idle cold_busy cold,
        count-split (λ s. contains (key_of s) warm_keys) flat,
      )
