-- ===== src/Admin/Rename.antt =====
-- localgateway/endpoints/admin.py: `rename_entity`. The ids are those of the body after `strip()`.
-- The rows of the usage database are left out.
pub mod Saved
pub mod Prices
pub mod Routes
use local_gateway.Prelude.{
  if◌then◌else◌, ◌==◌, nat_eq, int_eq, Text, text_eq, is_empty, ◌||◌, Option, none, some, List, [],
  ◌∷◌, ◌++◌, map, arith,
}
use local_gateway.Dict.{Dict, get, set, remove, keys}
use local_gateway.Backend.{backend_key, colon}
use local_gateway.Config.{
  GatewayConfig, ProviderConfig, ModelConfig, BackendConfig, PricingEntry, provider_by_id,
  model_by_id,
}
use local_gateway.RateLimit.{RateLimit, strip_prefix}
use local_gateway.RateLimit.{rename_provider as rename_cooldown_keys}
use local_gateway.Admin.{Outcome, saved, refused}
use local_gateway.Admin.Models.{change_model, finds}
use local_gateway.Admin.Keys.{change_provider}

-- `body.get("type")`
pub data RenameType : Type 0 where
  of_model of_provider of_other : RenameType

unfoldable pub rename_model : Text → Text → GatewayConfig → Outcome
rename_model old_id new_id config = elim (model_by_id config old_id) [
  | none ↦ refused 404 config
  | some model ↦ elim (model_by_id config new_id) [
    | some taken ↦ refused 409 config
    | none ↦ saved (record config {
      models =
          change_model (finds old_id config.models) (λ m. record m { id = new_id }) config.models;
    })
  ]
]

unfoldable pub rename_backend : Text → Text → BackendConfig → BackendConfig
rename_backend old_id new_id b = if b.provider == old_id then record b { provider = new_id } else b

unfoldable pub rename_backends : Text → Text → ModelConfig → ModelConfig
rename_backends old_id new_id m = record m {
  backends = map (rename_backend old_id new_id) m.backends;
}

-- One turn of the loop over the keys of the prices.
unfoldable pub put_price :
    Text → Dict Text PricingEntry → Option PricingEntry → Dict Text PricingEntry
put_price key pricing none = pricing
put_price key pricing (some entry) = set key entry pricing

unfoldable pub move_price : Text → Text → Text → Dict Text PricingEntry → Dict Text PricingEntry
move_price old_id new_id k pricing = elim (strip_prefix (old_id ++ colon ∷ []) k) [
  | none ↦ pricing
  | some rest ↦ put_price (backend_key new_id rest) (remove k pricing) (get k pricing)
]

unfoldable pub move_prices :
    Text → Text → List Text → Dict Text PricingEntry → Dict Text PricingEntry
move_prices old_id new_id [] pricing = pricing
move_prices old_id new_id (k ∷ ks) pricing =
    move_prices old_id new_id ks (move_price old_id new_id k pricing)

unfoldable pub with_provider_renamed : Text → Text → GatewayConfig → GatewayConfig
with_provider_renamed old_id new_id config = record config {
  providers = change_provider old_id (λ p. record p { id = new_id }) config.providers;
  models = map (rename_backends old_id new_id) config.models;
  pricing = move_prices old_id new_id (keys config.pricing) config.pricing;
}

-- The checks of the lookups of the two ids. The cascade to the cooldowns comes after the configuration
-- is saved.
unfoldable pub rename_found :
    Text
    → Text
    → GatewayConfig
    → RateLimit
    → Option ProviderConfig
    → Option ProviderConfig
    → Outcome × RateLimit
rename_found old_id new_id config r none taken = (refused 404 config, r)
rename_found old_id new_id config r (some provider) (some taken) = (refused 409 config, r)
rename_found old_id new_id config r (some provider) none =
    (saved (with_provider_renamed old_id new_id config), (rename_cooldown_keys old_id new_id r).0)

unfoldable pub rename_provider : Text → Text → GatewayConfig → RateLimit → Outcome × RateLimit
rename_provider old_id new_id config r =
    rename_found old_id new_id config r (provider_by_id config old_id)
      (provider_by_id config new_id)

unfoldable pub rename_entity :
    RenameType → Text → Text → GatewayConfig → RateLimit → Outcome × RateLimit
rename_entity of_other old_id new_id config r = (refused 422 config, r)
rename_entity of_model old_id new_id config r =
    if is_empty old_id || is_empty new_id || old_id == new_id
    then (refused 422 config, r)
    else (rename_model old_id new_id config, r)
rename_entity of_provider old_id new_id config r =
    if is_empty old_id || is_empty new_id || old_id == new_id
    then (refused 422 config, r)
    else rename_provider old_id new_id config r
