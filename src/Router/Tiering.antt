-- ===== src/Router/Tiering.antt =====
-- Every admitted backend of router.py stands in the tier of its priority, once.
use local_gateway.Prelude.{
  if◌then◌else◌, Bool-cases, Option-cases, ltb_ℤ, Eq, ◌==◌, ==_refl, nat_eq, int_eq, text_eq,
  contains, concat_map, ◌+◌, ◌≡◌, refl, ap, ◌∙◌, inl, inr, Bool, false, none, some, List, [], ◌∷◌,
  ◌++◌, arith,
}
use local_gateway.Prelude.Count.{count, count-append, count-concat_map-sort}
use local_gateway.Dict.{Dict, get, get_default, set, has, keys}
use local_gateway.Dict.Laws.{contains-keys, IsDict, set-IsDict, get_default-cons}
use local_gateway.Config.{GatewayConfig, ModelConfig, BackendConfig}
use local_gateway.Router.Types.{Candidate}
use local_gateway.Router.Candidates.{Needs, Tiers, admit, push, collect_tiers, sorted_keys, tier_of}

-- The admitted backends, in the order of the configuration.
unfoldable pub admitted : GatewayConfig → ModelConfig → Needs → List BackendConfig → List Candidate
admitted config model needs [] = []
admitted config model needs (b ∷ bs) =
    let rest = admitted config model needs bs in
    elim (admit config model needs b) [
      | none ↦ rest
      | some provider ↦ record { provider = provider; backend = b } ∷ rest
    ]

-- All candidates, tier by tier.
unfoldable pub all_candidates : Tiers → List Candidate
all_candidates tiers = concat_map (tier_of tiers) (sorted_keys tiers)

module _ {K : Type 0} ⦃e : Eq K⦄ {V : Type 0} where
  abbrev entries : Dict K (List V) → List V
  entries = concat_map (λ entry. entry.1)

  count-set :
      (p : V → Bool) (k : K) (v : List V) (d : Dict K (List V))
      → count p (entries (set k v d)) + count p (get_default k [] d)
        ≡ count p (entries d) + count p v
  unfolding concat_map set
  count-set p k v [] = unfold count get_default get in omega (arith, count-append p v [])
  count-set p k v ((j, w) ∷ d) = elim (Bool-cases (j == k)) [
    | inl same ↦
        rw (same, get_default-cons j k [] w d, same)
          (omega (arith, count-append p v (entries d), count-append p w (entries d)))
    | inr other ↦
        rw (other, get_default-cons j k [] w d, other)
          (omega (
            arith,
            count-append p w (entries d),
            count-append p w (entries (set k v d)),
            count-set p k v d,
          ))
  ]

  count-push :
      (p : V → Bool) (k : K) (x : V) (d : Dict K (List V))
      → count p (entries (push k x d)) ≡ count p (entries d) + count p (x ∷ [])
  unfolding push
  count-push p k x d = omega (
    arith,
    count-set p k (get_default k [] d ++ x ∷ []) d,
    count-append p (get_default k [] d) (x ∷ []),
  )

  pub push-IsDict : (k : K) (x : V) (d : Dict K (List V)) → IsDict d → IsDict (push k x d)
  unfolding push
  push-IsDict k x d h = set-IsDict k (get_default k [] d ++ x ∷ []) d h

  -- Reading other keys does not see the first entry.
  concat-other :
      (k : K) (v : List V) (d : Dict K (List V)) (ks : List K)
      → contains k ks ≡ false
      → concat_map (λ j. get_default j [] ((k, v) ∷ d)) ks ≡ concat_map (λ j. get_default j [] d) ks
  unfolding concat_map contains
  concat-other k v d [] h = refl
  concat-other k v d (j ∷ ks) h =
      let apart : (k == j) ≡ false = ground (arith, e.same_iff k j, e.same_iff j k) in
      rw (get_default-cons k j [] v d, apart, concat-other k v d ks (ground arith))

  concat-keys :
      (d : Dict K (List V)) → IsDict d → concat_map (λ j. get_default j [] d) (keys d) ≡ entries d
  unfolding concat_map
  concat-keys [] h = refl
  concat-keys ((k, v) ∷ d) h = rw (
    get_default-cons k k [] v d,
    ==_refl k,
    concat-other k v d (keys d) (contains-keys k d ∙ h.0),
    concat-keys d h.1,
  )

  -- A key stands once among the keys of a dict.
  pub count-keys :
      (k : K) (d : Dict K (List V))
      → IsDict d
      → count (λ j. j == k) (keys d) ≡ (if has k d then 1 else 0)
  unfolding count has
  count-keys k [] h = refl
  count-keys k ((j, v) ∷ d) h =
      ground (arith, count-keys k d h.1, e.same_iff j k, ap (λ i. has i d))

module _ (config : GatewayConfig) (model : ModelConfig) (needs : Needs) where
  pub collect_tiers-IsDict :
      (bs : List BackendConfig) (tiers : Tiers)
      → IsDict tiers
      → IsDict (collect_tiers config model needs bs tiers)
  unfolding collect_tiers
  collect_tiers-IsDict [] tiers h = h
  collect_tiers-IsDict (b ∷ bs) tiers h = elim (Option-cases (admit config model needs b)) [
    | inl out ↦ rw out (collect_tiers-IsDict bs tiers h)
    | inr (provider, kept) ↦
        let c : Candidate = record { provider = provider; backend = b } in
        rw kept
          (collect_tiers-IsDict bs (push b.priority c tiers) (push-IsDict b.priority c tiers h))
  ]

  count-collect_tiers :
      (p : Candidate → Bool) (bs : List BackendConfig) (tiers : Tiers)
      → count p (entries (collect_tiers config model needs bs tiers))
        ≡ count p (entries tiers) + count p (admitted config model needs bs)
  unfolding collect_tiers admitted count
  count-collect_tiers p [] tiers = omega arith
  count-collect_tiers p (b ∷ bs) tiers = elim (Option-cases (admit config model needs b)) [
    | inl out ↦ ground (arith, out, count-collect_tiers p bs tiers)
    | inr (provider, kept) ↦
        let c : Candidate = record { provider = provider; backend = b } in
        ground (
          arith,
          kept,
          count-collect_tiers p bs (push b.priority c tiers),
          count-push p b.priority c tiers,
        )
  ]

  -- The candidates of all tiers are the admitted backends, as often.
  pub count-all_candidates :
      (p : Candidate → Bool) (bs : List BackendConfig)
      → count p (all_candidates (collect_tiers config model needs bs []))
        ≡ count p (admitted config model needs bs)
  unfolding all_candidates sorted_keys
  count-all_candidates p bs =
      let tiers = collect_tiers config model needs bs [] in
      count-concat_map-sort p (tier_of tiers) ltb_ℤ (keys tiers)
      ∙ ap (count p) (concat-keys tiers (collect_tiers-IsDict bs [] tt))
      ∙ (unfold concat_map count in omega (arith, count-collect_tiers p bs []))
