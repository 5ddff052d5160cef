-- ===== src/Admin/Rename/Routes.antt =====
-- The backends that serve a model after a provider is renamed.
use local_gateway.Prelude.{
  if◌then◌else◌, Bool-cases, ◌==◌, ==_ne, nat_eq, int_eq, Text, text_eqb_iff, text_eq, contains,
  ◌≡◌, refl, sym, ap, ◌∙◌, inl, inr, Bool, true, false, not, Option, none, some, List, [], ◌∷◌,
  arith,
}
use mathlib.Core.Option.{map as map_option}
use local_gateway.Config.{
  GatewayConfig, ProviderConfig, ModelConfig, BackendConfig, find_provider, provider_by_id,
}
use local_gateway.RateLimit.{RateLimit}
use local_gateway.Router.Candidates.{
  Needs, admit, output_too_small, context_too_small, outside_slot,
}
use local_gateway.Admin.{saved}
use local_gateway.Admin.Keys.{change_provider}
use local_gateway.Admin.Rename.{
  of_provider, rename_entity, with_provider_renamed, rename_backend, rename_backends,
}
use local_gateway.Admin.Rename.Saved.{rename_entity-saved}

abbrev pub rename_to : Text → ProviderConfig → ProviderConfig
rename_to new p = record p { id = new }

find_provider-change_new :
    (old new : Text) (ps : List ProviderConfig)
    → find_provider new ps ≡ none
    → find_provider new (change_provider old (rename_to new) ps)
      ≡ map_option (rename_to new) (find_provider old ps)
unfolding find_provider change_provider
find_provider-change_new old new [] h = refl
find_provider-change_new old new (p ∷ ps) h =
    ground (arith, find_provider-change_new old new ps, text_eqb_iff new new, h)

find_provider-change_other :
    (old new i : Text) (ps : List ProviderConfig)
    → (old == i) ≡ false
    → (new == i) ≡ false
    → find_provider i (change_provider old (rename_to new) ps) ≡ find_provider i ps
unfolding find_provider change_provider
find_provider-change_other old new i [] h k = refl
find_provider-change_other old new i (p ∷ ps) h k = ground (
  arith,
  find_provider-change_other old new i ps h k,
  text_eqb_iff p.id i,
  text_eqb_iff p.id old,
  text_eqb_iff old i,
  h,
  k,
)

-- The guards of `admit`, by what they read where no slot is active.
unfoldable guards : Bool → Bool → Bool → Bool → Option ProviderConfig → Option ProviderConfig
guards enabled ignored small long o =
    if not enabled then none else if ignored then none else elim o [
      | none ↦ none
      | some provider ↦
          if not provider.enabled
          then none
          else if small
          then none
          else if long
          then none
          else if false
          then none
          else some provider
    ]

guards-map :
    (new : Text) (enabled ignored small long : Bool) (o : Option ProviderConfig)
    → guards enabled ignored small long (map_option (rename_to new) o)
      ≡ map_option (rename_to new) (guards enabled ignored small long o)
unfolding guards
guards-map new enabled ignored small long none = ground arith
guards-map new enabled ignored small long (some p) = ground arith

admit-guards :
    (config : GatewayConfig) (model : ModelConfig) (needs : Needs) (b : BackendConfig)
    → needs.active_slot ≡ none
    → admit config model needs b
      ≡ guards b.enabled
          (contains b.provider needs.ignore)
          (output_too_small model b needs.max_tokens)
          (context_too_small b needs.input_tokens needs.max_tokens)
          (provider_by_id config b.provider)
unfolding admit guards outside_slot
admit-guards config model needs b h =
    ap (λ slot. admit config model (record needs { active_slot = slot }) b) h

-- If a provider is renamed, no slot limits the model, no backend stands under the new id yet and the
-- request ignores both ids or neither, then each backend is admitted as it was before, with its
-- provider under the new name.
pub rename_entity-admit :
    (old new : Text) (config after : GatewayConfig) (r : RateLimit) (model : ModelConfig)
    (needs : Needs) (b : BackendConfig)
    → needs.active_slot ≡ none
    → contains old needs.ignore ≡ contains new needs.ignore
    → (new == b.provider) ≡ false
    → (rename_entity of_provider old new config r).0 ≡ saved after
    → admit after (rename_backends old new model) needs (rename_backend old new b) ≡ (
        if b.provider == old
        then map_option (rename_to new) (admit config model needs b)
        else admit config model needs b)
unfolding rename_backend rename_backends with_provider_renamed provider_by_id output_too_small
    context_too_small
rename_entity-admit old new config after r model needs b free_slot same fresh h =
    let (differ, e, free) = rename_entity-saved old new config after r h in
    let small = output_too_small model b needs.max_tokens in
    let long = context_too_small b needs.input_tokens needs.max_tokens in
    let w = with_provider_renamed old new config in
    let renamed_model = rename_backends old new model in
    let ps = config.providers in
    let seen : Text → Option ProviderConfig → Option ProviderConfig =
      λ i o. guards b.enabled (contains i needs.ignore) small long o in
    let was = admit config model needs b in
    let before : was ≡ seen b.provider (find_provider b.provider ps) =
      admit-guards config model needs b free_slot in
    let start : (t : Bool)
        → (b.provider == old) ≡ t
        → admit after renamed_model needs (rename_backend old new b)
          ≡ admit w renamed_model needs (if t then record b { provider = new } else b) =
      λ t k.
        ap (λ c. admit c renamed_model needs (rename_backend old new b)) e
        ∙ ap (λ u. admit w renamed_model needs (if u then record b { provider = new } else b)) k in
    elim (Bool-cases (b.provider == old)) [
      | inl here ↦
          start true here
          ∙ admit-guards w renamed_model needs (record b { provider = new }) free_slot
          ∙ ap (λ i. guards b.enabled i small long (provider_by_id w new)) (sym same)
          ∙ ap (seen old) (find_provider-change_new old new ps free)
          ∙ guards-map new b.enabled (contains old needs.ignore) small long (find_provider old ps)
          ∙ ap (map_option (rename_to new)) (
              sym (ap (λ i. seen i (find_provider i ps)) ((text_eqb_iff b.provider old).0 here))
              ∙ sym before)
          ∙ sym (ap (λ t. if t then map_option (rename_to new) was else was) here)
      | inr elsewhere ↦
          start false elsewhere
          ∙ admit-guards w renamed_model needs b free_slot
          ∙ ap (seen b.provider) (
              find_provider-change_other old new b.provider ps
                (==_ne old b.provider
                  (λ k. let hit = (text_eqb_iff b.provider old).1 (sym k) in cc))
                fresh)
          ∙ sym before
          ∙ sym (ap (λ t. if t then map_option (rename_to new) was else was) elsewhere)
    ]
