-- ===== src/Config/Lookup.antt =====
-- What the lookups of config.py find.
use local_gateway.Prelude.{
  Bool-cases, Option-cases, ◌==◌, nat_eq, int_eq, Text, text_eqb_iff, text_eq, contains, any, ◌≡◌,
  ◌⊎◌, inl, inr, true, some, List, [], ◌∷◌, arith,
}
use local_gateway.Config.{
  GatewayConfig, ProviderConfig, ModelConfig, provider_by_id, find_provider, model_by_id,
  find_model, find_alias,
}

find_provider-id :
    (i : Text) (ps : List ProviderConfig) (p : ProviderConfig)
    → find_provider i ps ≡ some p
    → p.id ≡ i
unfolding find_provider
find_provider-id i [] p h = cc
find_provider-id i (q ∷ ps) p h = ground (arith, text_eqb_iff q.id i, find_provider-id i ps p)

-- A provider that is found has the id that was asked for.
pub provider_by_id-id :
    (config : GatewayConfig) (i : Text) (p : ProviderConfig)
    → provider_by_id config i ≡ some p
    → p.id ≡ i
unfolding provider_by_id
provider_by_id-id config i p h = find_provider-id i config.providers p h

find_model-id :
    (i : Text) (ms : List ModelConfig) (m : ModelConfig) → find_model i ms ≡ some m → m.id ≡ i
unfolding find_model
find_model-id i [] m h = cc
find_model-id i (n ∷ ms) m h = ground (arith, text_eqb_iff n.id i, find_model-id i ms m)

find_alias-alias :
    (i : Text) (ms : List ModelConfig) (m : ModelConfig)
    → find_alias i ms ≡ some m
    → contains i m.aliases ≡ true
unfolding find_alias
find_alias-alias i [] m h = cc
find_alias-alias i (n ∷ ms) m h = ground (arith, find_alias-alias i ms m)

find_model-has :
    (i : Text) (ms : List ModelConfig)
    → any (λ m. m.id == i) ms ≡ true
    → (m : ModelConfig) × (find_model i ms ≡ some m)
unfolding find_model any
find_model-has i [] h = absurd (ground arith)
find_model-has i (n ∷ ms) h = elim (Bool-cases (n.id == i)) [
  | inl same ↦ (n, rw same)
  | inr other ↦ let (m, e) = find_model-has i ms (rw other at h) in (m, rw (other, e))
]

-- A name resolves to a model that bears it as its id or among its aliases; where some model has the
-- name as its id, to a model with that id, whatever aliases other models have.
pub model_by_id-resolves :
    (config : GatewayConfig) (i : Text) (m : ModelConfig)
    → model_by_id config i ≡ some m
    → ((m.id ≡ i) ⊎ (contains i m.aliases ≡ true))
      × (any (λ n. n.id == i) config.models ≡ true → m.id ≡ i)
unfolding model_by_id
model_by_id-resolves config i m h = elim (Option-cases (find_model i config.models)) [
  | inl missing ↦ (
    inr (find_alias-alias i config.models m (ground arith)),
    λ has. let (n, e) = find_model-has i config.models has in absurd (cc (missing, e)),
  )
  | inr (n, found) ↦
      let same : n ≡ m = ground arith in
      let named : m.id ≡ i = rw (← same) (find_model-id i config.models n found) in
      (inl named, λ _. named)
]
