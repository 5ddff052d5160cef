-- ===== src/Tests/Admin.antt =====
-- Inputs for the handlers of admin.py.
use local_gateway.Prelude.{
  eqb, if◌then◌else◌, pos, ◌==◌, nat_eq, int_eq, Text, text_eqb, text_eq, contains, any,
  insert_sorted, sort_by, concat_map, ℕ, ◌≡◌, refl, true, false, not, ◌&&◌, none, some, List, [],
  ◌∷◌, arith,
}
use local_gateway.Dict.{get}
use local_gateway.Backend.{backend_key}
use local_gateway.Config.{
  GatewayConfig, ProviderConfig, ApiKeyConfig, PricingEntry, pricing_for, model_by_id,
}
use local_gateway.Config.Files.{Disk, Loaded, File}
use local_gateway.Config.Validate.{redacted_key}
use local_gateway.RateLimit.{initial as no_limits}
use local_gateway.Router.Candidates.{Needs, admit}
use local_gateway.Admin.{saved, refused}
use local_gateway.Admin.Keys.{get_config, put_config}
use local_gateway.Admin.Keys.Hidden.{put_config-get_config}
use local_gateway.Admin.Keys.Secret.{Edit, put, set_key, run, is_intact, is_intact-run}
use local_gateway.Config.Files.{Parsed, parsed, unreadable}
use local_gateway.Admin.Backups.{restore_backup, restored}
use local_gateway.Admin.Backups.Undo.{restore_backup-back}
use local_gateway.Admin.Rename.{with_provider_renamed, rename_backend, rename_backends}
use local_gateway.Admin.Rename.Prices.{rename_entity-pricing_for}
use local_gateway.Admin.Rename.Routes.{rename_entity-admit, rename_to}
use local_gateway.Admin.Models.{change_found, with_backends, set_tiers}
use local_gateway.Admin.Models.Tiers.{set_backends_tiers-priority, tier_of, priority_at}
use local_gateway.Config.Validate.Errors.{all}
use local_gateway.Admin.Models.{is_index}
use local_gateway.Admin.Edits.Fields.{weight_name, whole, backend_fields}
use local_gateway.Admin.Edits.{Body, update_backend, has_unknown}
use local_gateway.Admin.Edits.Accepted.{is_saved, fits_field, is_saved-update_backend}
use local_gateway.Tests.Samples.{acme, beta, gpt, config, server, provider, backend, model}

abbrev client : ApiKeyConfig
client = record {
  id = beta;
  key = gpt;
  enabled = true;
  rpm = none;
  daily_budget_usd = none;
  monthly_budget_usd = none;
  model_allowlist = [];
}

-- A provider without a key, one with a key, a client and a legacy key.
abbrev keyed : GatewayConfig
keyed = record config {
  server = record server { api_key = some beta; api_keys = client ∷ [] };
  providers = provider acme ∷ record (provider beta) { api_key = gpt } ∷ [];
}

put_config-get_config_example : put_config keyed (some 0) (some (get_config keyed)) ≡ saved keyed
unfolding local_gateway.Config.Validate.Errors.distinct contains text_eqb
put_config-get_config_example = put_config-get_config keyed refl refl

-- The page's own data written back, a new key, and the placeholder in its place.
abbrev edits : List Edit
edits =
    put (some 0) (some (get_config keyed))
    ∷ set_key acme (some gpt)
    ∷ set_key acme (some redacted_key)
    ∷ []

is_intact-run_example : is_intact (run edits keyed) ≡ true
unfolding is_intact local_gateway.Config.Validate.Errors.all local_gateway.Admin.Keys.Secret.is_own
    text_eqb local_gateway.Admin.Keys.Secret.is_own_key local_gateway.Admin.Keys.is_placeholder
is_intact-run_example = is_intact-run edits keyed refl

abbrev newer : File
newer = record { text = acme; mtime = 20 }

abbrev older : File
older = record { text = beta; mtime = 10 }

scan : Text → Parsed
scan t = if t == acme then parsed config else if t == beta then parsed keyed else unreadable

abbrev disk : Disk
disk = record { file = some newer; slots = λ j. if eqb j 1 then some older else none }

abbrev loaded : Loaded
loaded = record { config = some config; seen = some 20; recovered = none }

restore_backup-back_example :
    ((restore_backup scan config (some (pos 1)) (disk, loaded)).1 ≡ restored keyed)
    × ((restore_backup scan config (some (pos 1)) (disk, loaded)).0.0.slots 0 ≡ some newer)
    × ((restore_backup scan config
          (some (pos 0))
          (restore_backup scan config (some (pos 1)) (disk, loaded)).0).0.0.file
        ≡ some newer)
    × ((restore_backup scan config
          (some (pos 0))
          (restore_backup scan config (some (pos 1)) (disk, loaded)).0).1
        ≡ restored config)
unfolding scan text_eqb
restore_backup-back_example =
    restore_backup-back scan config 1 older newer keyed config disk loaded refl refl refl refl

abbrev carl : Text
carl = b'c' ∷ []

abbrev price : PricingEntry
price = record { input = 3; output = 5; cache_read = none; cache_write = none }

abbrev priced : GatewayConfig
priced = record config { pricing = (backend_key acme gpt, price) ∷ [] }

rename_entity-pricing_for_example :
    pricing_for (with_provider_renamed acme carl priced) carl gpt ≡ pricing_for priced acme gpt
unfolding contains local_gateway.Dict.has get text_eqb backend_key
    local_gateway.Admin.Rename.rename_entity local_gateway.Admin.Rename.rename_provider
    local_gateway.Admin.Rename.rename_found local_gateway.Config.provider_by_id
rename_entity-pricing_for_example =
    rename_entity-pricing_for acme carl gpt priced (with_provider_renamed acme carl priced)
      no_limits refl refl (refl, tt) refl refl

abbrev needs : Needs
needs = record { ignore = []; max_tokens = none; input_tokens = some (pos 100); active_slot = none }

rename_entity-admit_example :
    admit
      (with_provider_renamed acme carl priced)
      (rename_backends acme carl model)
      needs
      (rename_backend acme carl (backend acme 1))
    ≡ (if (backend acme 1).provider == acme
        then mathlib.Core.Option.map (rename_to carl) (admit priced model needs (backend acme 1))
        else admit priced model needs (backend acme 1))
unfolding contains text_eqb local_gateway.Admin.Rename.rename_entity
    local_gateway.Admin.Rename.rename_provider local_gateway.Admin.Rename.rename_found
    local_gateway.Config.provider_by_id
rename_entity-admit_example =
    rename_entity-admit acme carl priced (with_provider_renamed acme carl priced) no_limits model
      needs (backend acme 1) refl refl refl refl

abbrev tiers : List (List ℕ)
tiers = (1 ∷ []) ∷ (0 ∷ []) ∷ []

abbrev tiered : GatewayConfig
tiered = change_found gpt (with_backends (set_tiers 1 tiers)) config

set_backends_tiers-priority_example :
    (k : ℕ) × (tier_of 0 1 tiers ≡ some k)
    × (mathlib.Core.Option.map (λ m. priority_at 0 m.backends) (model_by_id tiered gpt)
        ≡ some (some (pos k)))
unfolding model_by_id text_eqb local_gateway.Admin.Models.set_backends_tiers
    local_gateway.Admin.Models.set_tiers_of local_gateway.Admin.Models.covers sort_by concat_map
    insert_sorted local_gateway.Admin.Models.range_from
set_backends_tiers-priority_example =
    set_backends_tiers-priority gpt tiers config tiered model 0 refl refl (omega arith)

-- A weight that is a whole number is no float, so the update is refused.
abbrev heavier : Body
heavier = (weight_name, whole (pos 2)) ∷ []

is_saved-update_backend_example :
    is_saved (update_backend gpt (pos 0) heavier config) ≡ elim (model_by_id config gpt) [
      | none ↦ false
      | some m ↦
          is_index (pos 0) m.backends
          && (not (has_unknown backend_fields heavier) && all (fits_field heavier) backend_fields)
    ]
is_saved-update_backend_example = is_saved-update_backend gpt (pos 0) heavier config

whole_weight-refused : is_saved (update_backend gpt (pos 0) heavier config) ≡ false
unfolding is_saved update_backend local_gateway.Admin.Edits.update_in model_by_id text_eqb is_index
    local_gateway.Admin.Edits.update_found local_gateway.Admin.Edits.backend_at
    local_gateway.Admin.Edits.settle local_gateway.Admin.Edits.apply_fields has_unknown any contains
    local_gateway.Admin.Edits.apply_each local_gateway.Admin.Edits.apply_one get
    local_gateway.Admin.Edits.Fields.is_float local_gateway.Config.find_model
whole_weight-refused = refl
