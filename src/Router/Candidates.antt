-- ===== src/Router/Candidates.antt =====
-- router.py: the backends that can serve a request, their tiers, and the preferred ones.
use local_gateway.Prelude.{
  if◌then◌else◌, ℤ, pos, ◌+ℤ◌, ltb_ℤ, Eq, nat_eq, int_eq, Text, text_eq, contains, is_empty,
  sort_by, concat_map, Bool, false, not, ◌&&◌, Option, none, some, List, [], ◌∷◌, ◌++◌,
}
use local_gateway.Dict.{Dict, get_default, set, keys}
use local_gateway.Config.{
  GatewayConfig, ModelConfig, ProviderConfig, BackendConfig, TimeSlot, provider_by_id,
}
use local_gateway.TimeRouting.{LocalTime, get_active_slot, filter_backends_for_slot}
use local_gateway.Router.Types.{Candidate}

-- The smaller of the caps of the backend and of the model, where they are set.
unfoldable pub output_cap : Option ℤ → Option ℤ → Option ℤ
output_cap none model_cap = model_cap
output_cap (some b) none = some b
output_cap (some b) (some m) = if ltb_ℤ m b then some m else some b

unfoldable pub below : Option ℤ → ℤ → Bool
below none needed = false
below (some cap) needed = ltb_ℤ cap needed

unfoldable pub output_too_small : ModelConfig → BackendConfig → Option ℤ → Bool
unfolding output_cap below
output_too_small model b none = false
output_too_small model b (some max_tokens) =
    below (output_cap b.max_output_tokens model.max_output_tokens) max_tokens

abbrev pub or_zero : Option ℤ → ℤ
or_zero none = pos 0
or_zero (some n) = n

unfoldable pub context_too_small : BackendConfig → Option ℤ → Option ℤ → Bool
unfolding below
context_too_small b none max_tokens = false
context_too_small b (some input_tokens) max_tokens =
    below b.context_length (input_tokens +ℤ or_zero max_tokens)

unfoldable pub outside_slot : Option TimeSlot → BackendConfig → Bool
outside_slot none b = false
outside_slot (some slot) b = is_empty (filter_backends_for_slot ((b.provider, b.model) ∷ []) slot)

-- What a request asks of a backend.
pub record Needs : Type 0 where
  pub ignore : List Text
  pub max_tokens : Option ℤ
  pub input_tokens : Option ℤ
  pub active_slot : Option TimeSlot

-- The guards of the loop over the backends: the provider, if the backend stays.
unfoldable pub admit : GatewayConfig → ModelConfig → Needs → BackendConfig → Option ProviderConfig
admit config model needs b =
    if not b.enabled
    then none
    else if contains b.provider needs.ignore
    then none
    else elim (provider_by_id config b.provider) [
      | none ↦ none
      | some provider ↦
          if not provider.enabled
          then none
          else if output_too_small model b needs.max_tokens
          then none
          else if context_too_small b needs.input_tokens needs.max_tokens
          then none
          else if outside_slot needs.active_slot b
          then none
          else some provider
    ]

-- `d.setdefault(key, []).append(x)`
unfoldable pub push {ℓ} :
    {K : Type ℓ} ⦃e : Eq K⦄ {V : Type 0} → K → V → Dict K (List V) → Dict K (List V)
push key x d = set key (get_default key [] d ++ x ∷ []) d

abbrev pub Tiers : Type 0
Tiers = Dict ℤ (List Candidate)

unfoldable pub collect_tiers :
    GatewayConfig → ModelConfig → Needs → List BackendConfig → Tiers → Tiers
collect_tiers config model needs [] tiers = tiers
collect_tiers config model needs (b ∷ bs) tiers =
    collect_tiers config model needs bs (elim (admit config model needs b) [
      | none ↦ tiers
      | some provider ↦ push b.priority (record { provider = provider; backend = b }) tiers
    ])

-- sorted(tiers.keys())
unfoldable pub sorted_keys : Tiers → List ℤ
sorted_keys tiers = sort_by ltb_ℤ (keys tiers)

abbrev pub tier_of : Tiers → ℤ → List Candidate
tier_of tiers key = get_default key [] tiers

unfoldable pub group_by_provider :
    List Candidate → Dict Text (List Candidate) → Dict Text (List Candidate)
group_by_provider [] d = d
group_by_provider (c ∷ cs) d = group_by_provider cs (push c.provider.id c d)

-- The candidates of the providers in `order`, provider by provider.
unfoldable pub collect_preferred : List Text → Tiers → List Candidate
unfolding group_by_provider
collect_preferred order tiers =
    let by_provider = group_by_provider (concat_map (tier_of tiers) (sorted_keys tiers)) [] in
    concat_map (λ pid. get_default pid [] by_provider) order

-- The slot that limits the model now, if its time routing is on.
unfoldable pub active_slot_of : ModelConfig → (Text → LocalTime) → Option TimeSlot
active_slot_of model local =
    let r = model.time_routing in
    if r.enabled && not (is_empty r.slots) then get_active_slot r.slots r.timezone local else none
