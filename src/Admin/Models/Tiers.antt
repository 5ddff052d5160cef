-- ===== src/Admin/Models/Tiers.antt =====
-- The priorities that the tiers of the admin page give to the backends of a model.
use local_gateway.Prelude.{
  ltb, leb, eqb, if◌then◌else◌, Bool-cases, ℤ, pos, nat_eq, int_eq, Text, text_eqb_iff, text_eq,
  contains, length, sort_by, concat_map, ℕ, zero, suc, ◌+◌, ◌≤◌, ◌<◌, ◌≡◌, refl, sym, ap, ◌∙◌, inl,
  inr, Bool, true, ◌&&◌, Option, none, some, List, [], ◌∷◌, arith,
}
use mathlib.Core.Option.{map as map_option}
use local_gateway.Prelude.Count.{count, count-append, count-sort_by}
use local_gateway.Config.{GatewayConfig, ModelConfig, BackendConfig, model_by_id}
use local_gateway.Admin.{Outcome, saved, refused}
use local_gateway.Admin.Answers.{saved_injective, refused_saved}
use local_gateway.Admin.Models.{
  covers, range_from, set_priority, set_tier, set_tiers, set_tiers_of, set_backends_tiers,
  with_backends, change_found,
}
use local_gateway.Admin.Models.Lists.{model_by_id-change_found}

-- The priority of the backend at an index.
unfoldable pub priority_at : ℕ → List BackendConfig → Option ℤ
priority_at i [] = none
priority_at zero (b ∷ bs) = some b.priority
priority_at (suc i) (b ∷ bs) = priority_at i bs

-- The number of the first tier that holds an index, where the first of all has the number s.
unfoldable pub tier_of : ℕ → ℕ → List (List ℕ) → Option ℕ
tier_of i s [] = none
tier_of i s (t ∷ ts) = if contains i t then some s else tier_of i (suc s) ts

priority_at-set_priority :
    (i j k : ℕ) (bs : List BackendConfig)
    → i < length bs
    → priority_at i (set_priority j k bs) ≡ (if eqb j i then some (pos k) else priority_at i bs)
unfolding priority_at set_priority
priority_at-set_priority i j k [] h = absurd (omega (arith, h))
priority_at-set_priority zero zero k (b ∷ bs) h = ground arith
priority_at-set_priority zero (suc j) k (b ∷ bs) h = ground arith
priority_at-set_priority (suc i) zero k (b ∷ bs) h = ground arith
priority_at-set_priority (suc i) (suc j) k (b ∷ bs) h =
    ground (arith, priority_at-set_priority i j k bs)

length-set_priority : (j k : ℕ) (bs : List BackendConfig) → length (set_priority j k bs) ≡ length bs
unfolding set_priority
length-set_priority j k [] = refl
length-set_priority zero k (b ∷ bs) = refl
length-set_priority (suc j) k (b ∷ bs) = ap suc (length-set_priority j k bs)

length-set_tier :
    (k : ℕ) (t : List ℕ) (bs : List BackendConfig) → length (set_tier k t bs) ≡ length bs
unfolding set_tier
length-set_tier k [] bs = refl
length-set_tier k (j ∷ t) bs =
    length-set_tier k t (set_priority j k bs) ∙ length-set_priority j k bs

priority_at-set_tier :
    (i k : ℕ) (t : List ℕ) (bs : List BackendConfig)
    → i < length bs
    → priority_at i (set_tier k t bs) ≡ (if contains i t then some (pos k) else priority_at i bs)
unfolding set_tier contains
priority_at-set_tier i k [] bs h = refl
priority_at-set_tier i k (j ∷ t) bs h =
    let len = length-set_priority j k bs in
    ground (
      arith,
      priority_at-set_tier i k t (set_priority j k bs),
      priority_at-set_priority i j k bs h,
      len,
      h,
    )

abbrev flat : List (List ℕ) → List ℕ
flat = concat_map (λ t. t)

count-contains : (i : ℕ) (t : List ℕ) → contains i t ≡ ltb 0 (count (eqb i) t)
unfolding contains count
count-contains i [] = refl
count-contains i (j ∷ t) = ground (arith, count-contains i t)

tier_of-absent :
    (i s : ℕ) (ts : List (List ℕ)) → count (eqb i) (flat ts) ≡ 0 → tier_of i s ts ≡ none
unfolding tier_of concat_map count
tier_of-absent i s [] h = refl
tier_of-absent i s (t ∷ ts) h =
    ground
      (arith, tier_of-absent i (suc s) ts, count-append (eqb i) t (flat ts), count-contains i t, h)

-- An index that stands once in all tiers gets the number of its tier.
priority_at-set_tiers :
    (i s : ℕ) (ts : List (List ℕ)) (bs : List BackendConfig)
    → i < length bs
    → count (eqb i) (flat ts) ≤ 1
    → priority_at i (set_tiers s ts bs)
      ≡ elim (tier_of i s ts) [ none ↦ priority_at i bs | some k ↦ some (pos k) ]
unfolding set_tiers tier_of concat_map
priority_at-set_tiers i s [] bs h once = refl
priority_at-set_tiers i s (t ∷ ts) bs h once =
    let rest = flat ts in
    let both = count-append (eqb i) t rest in
    let few : count (eqb i) rest ≤ 1 = omega (arith, both, once) in
    let later =
      priority_at-set_tiers i (suc s) ts (set_tier s t bs) (rw (length-set_tier s t bs) h) few in
    let here = priority_at-set_tier i s t bs h in
    elim (Bool-cases (contains i t)) [
      | inl in_t ↦
          let gone =
            tier_of-absent i (suc s) ts (ground (arith, count-contains i t, in_t, both, once)) in
          later
          ∙ ap (λ o. elim o [ none ↦ priority_at i (set_tier s t bs) | some k ↦ some (pos k) ]) gone
          ∙ here
          ∙ ap (λ b. if b then some (pos s) else priority_at i bs) in_t
          ∙ sym (
              ap
                (λ b. elim (if b then some s else tier_of i (suc s) ts) [
                  | none ↦ priority_at i bs
                  | some k ↦ some (pos k)
                ])
                in_t)
      | inr not_in ↦
          later
          ∙ ap (λ p. elim (tier_of i (suc s) ts) [ none ↦ p | some k ↦ some (pos k) ])
              (here ∙ ap (λ b. if b then some (pos s) else priority_at i bs) not_in)
          ∙ sym (
              ap
                (λ b. elim (if b then some s else tier_of i (suc s) ts) [
                  | none ↦ priority_at i bs
                  | some k ↦ some (pos k)
                ])
                not_in)
    ]

tier_of-present :
    (i s : ℕ) (ts : List (List ℕ))
    → 1 ≤ count (eqb i) (flat ts)
    → (k : ℕ) × (tier_of i s ts ≡ some k)
unfolding tier_of concat_map count
tier_of-present i s [] h = absurd (omega (arith, h))
tier_of-present i s (t ∷ ts) h = elim (Bool-cases (contains i t)) [
  | inl here ↦ (s, ap (λ b. if b then some s else tier_of i (suc s) ts) here)
  | inr not_here ↦
      let both = count-append (eqb i) t (flat ts) in
      let (k, e) =
        tier_of-present i (suc s) ts (ground (arith, count-contains i t, not_here, both, h)) in
      (k, ap (λ b. if b then some s else tier_of i (suc s) ts) not_here ∙ e)
]

count-range_from :
    (i s n : ℕ) → count (eqb i) (range_from s n) ≡ (if leb s i && ltb i (s + n) then 1 else 0)
unfolding range_from count
count-range_from i s zero = ground arith
count-range_from i s (suc n) = ground (arith, count-range_from i (suc s) n)

covers-once :
    (i n : ℕ) (tiers : List (List ℕ))
    → i < n
    → covers tiers n ≡ true
    → count (eqb i) (flat tiers) ≡ 1
unfolding covers
covers-once i n tiers h c =
    sym (count-sort_by (eqb i) ltb (flat tiers))
    ∙ ap (count (eqb i)) ((text_eqb_iff (sort_by ltb (flat tiers)) (range_from 0 n)).0 c)
    ∙ count-range_from i 0 n
    ∙ ground (arith, h)

set_tiers_of-saved :
    (model_id : Text) (tiers : List (List ℕ)) (config after : GatewayConfig) (model : ModelConfig)
    → set_tiers_of model_id tiers config (some model) ≡ saved after
    → (covers tiers (length model.backends) ≡ true)
      × (after ≡ change_found model_id (with_backends (set_tiers 1 tiers)) config)
unfolding set_tiers_of
set_tiers_of-saved model_id tiers config after model h =
    let changed = change_found model_id (with_backends (set_tiers 1 tiers)) config in
    let answer : Bool → Outcome = λ b. if b then saved changed else refused 422 config in
    elim (Bool-cases (covers tiers (length model.backends))) [
      | inl yes' ↦ (yes', sym (saved_injective changed after (sym (ap answer yes') ∙ h)))
      | inr no' ↦ absurd (refused_saved 422 config after (sym h ∙ ap answer no'))
    ]

-- If the tiers of a model are saved, then each of its backends stands in one of them, and the model has
-- the number of that tier as the backend's priority.
pub set_backends_tiers-priority :
    (model_id : Text) (tiers : List (List ℕ)) (config after : GatewayConfig) (model : ModelConfig)
    (i : ℕ)
    → model_by_id config model_id ≡ some model
    → set_backends_tiers model_id tiers config ≡ saved after
    → i < length model.backends
    → (k : ℕ) × (tier_of i 1 tiers ≡ some k)
      × (map_option (λ m. priority_at i m.backends) (model_by_id after model_id)
          ≡ some (some (pos k)))
unfolding set_backends_tiers
set_backends_tiers-priority model_id tiers config after model i found h small =
    let (c, e) =
      set_tiers_of-saved model_id tiers config after model
        (sym (ap (set_tiers_of model_id tiers config) found) ∙ h) in
    let once = covers-once i (length model.backends) tiers small c in
    let (k, tier) = tier_of-present i 1 tiers (omega (arith, once)) in
    let f = with_backends (set_tiers 1 tiers) in
    (
      k,
      tier,
      ap (λ c. map_option (λ m. priority_at i m.backends) (model_by_id c model_id)) e
          ∙ ap (map_option (λ m. priority_at i m.backends)) (
              model_by_id-change_found model_id f config (λ m. (refl, refl))
              ∙ ap (map_option f) found)
          ∙ ap some (
              priority_at-set_tiers i 1 tiers model.backends small (omega (arith, once))
              ∙ ap (λ o. elim o [ none ↦ priority_at i model.backends | some k ↦ some (pos k) ])
                  tier),
    )
