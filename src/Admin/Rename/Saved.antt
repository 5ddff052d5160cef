-- ===== src/Admin/Rename/Saved.antt =====
-- What a saved rename of a provider tells.
use local_gateway.Prelude.{
  if◌then◌else◌, Bool-cases, ◌==◌, nat_eq, int_eq, Text, text_eq, is_empty, ◌≡◌, refl, sym, ap, ◌∙◌,
  inl, inr, Bool, false, ◌||◌, Option, none, some, arith,
}
use local_gateway.Config.{GatewayConfig, provider_by_id}
use local_gateway.RateLimit.{RateLimit}
use local_gateway.Admin.Answers.{saved_injective, refused_saved}
use local_gateway.Admin.{Outcome, saved, refused}
use local_gateway.Admin.Rename.{
  of_provider, rename_entity, rename_provider, with_provider_renamed, rename_found, ProviderConfig,
}

rename_found-saved :
    (old new : Text) (config after : GatewayConfig) (r : RateLimit) (p q : Option ProviderConfig)
    → (rename_found old new config r p q).0 ≡ saved after
    → (after ≡ with_provider_renamed old new config) × (q ≡ none)
unfolding rename_found
rename_found-saved old new config after r none q h = absurd (refused_saved 404 config after (sym h))
rename_found-saved old new config after r (some p) (some q) h =
    absurd (refused_saved 409 config after (sym h))
rename_found-saved old new config after r (some p) none h =
    (saved_injective after (with_provider_renamed old new config) (sym h), refl)

-- A rename that is saved is of another id, which no provider has, and changes the configuration as said.
pub rename_entity-saved :
    (old new : Text) (config after : GatewayConfig) (r : RateLimit)
    → (rename_entity of_provider old new config r).0 ≡ saved after
    → ((old == new) ≡ false)
      × (after ≡ with_provider_renamed old new config)
      × (provider_by_id config new ≡ none)
unfolding rename_entity rename_provider
rename_entity-saved old new config after r h =
    let renamed =
      rename_found old new config r (provider_by_id config old) (provider_by_id config new) in
    let bad : Bool = is_empty old || is_empty new || old == new in
    let pick : Bool → Outcome × RateLimit = λ b. if b then (refused 422 config, r) else renamed in
    elim (Bool-cases bad) [
      | inl yes' ↦ absurd (refused_saved 422 config after (sym h ∙ ap (λ b. (pick b).0) yes'))
      | inr no' ↦
          let (e, free) =
            rename_found-saved old new config after r (provider_by_id config old)
              (provider_by_id config new) (ap (λ b. (pick b).0) (sym no') ∙ h) in
          (ground (arith, no'), e, free)
    ]
