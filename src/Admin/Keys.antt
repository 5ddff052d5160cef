-- ===== src/Admin/Keys.antt =====
-- localgateway/endpoints/admin.py: the configuration as the admin page reads and writes it, with its
-- keys hidden.
pub mod Hidden
pub mod Secret
use local_gateway.Prelude.{
  eqb, if◌then◌else◌, ◌==◌, nat_eq, int_eq, Text, text_eq, is_empty, ℕ, Bool, false, not, Option,
  none, some, List, [], ◌∷◌, map, arith,
}
use local_gateway.Config.{
  GatewayConfig, ServerConfig, ProviderConfig, ApiKeyConfig, provider_by_id, api_key_by_id,
}
use local_gateway.Config.Validate.{redacted_key}
use local_gateway.Admin.{Outcome, saved, refused}

unfoldable pub redact : Text → Text
redact key = if is_empty key then key else redacted_key

unfoldable pub redact_provider : ProviderConfig → ProviderConfig
redact_provider p = record p { api_key = redact p.api_key }

unfoldable pub redact_client : ApiKeyConfig → ApiKeyConfig
redact_client k = record k { key = redact k.key }

unfoldable pub redact_legacy : Option Text → Option Text
redact_legacy none = none
redact_legacy (some key) = some (redact key)

-- What `GET /admin/config` shows.
unfoldable pub get_config : GatewayConfig → GatewayConfig
get_config config = record config {
  server = record config.server {
    api_key = redact_legacy config.server.api_key;
    api_keys = map redact_client config.server.api_keys;
  };
  providers = map redact_provider config.providers;
}

-- The rest of a list, where its first item could be restored.
unfoldable pub then_cons {ℓ} : {A : Type ℓ} → Option A → Option (List A) → Option (List A)
then_cons none rest = none
then_cons (some x) none = none
then_cons (some x) (some xs) = some (x ∷ xs)

-- The loops over the entries of a body: the first that cannot be restored ends the handler.
unfoldable pub restore_all {ℓ} : {A : Type ℓ} → (A → Option A) → List A → Option (List A)
restore_all restore [] = some []
restore_all restore (x ∷ xs) = then_cons (restore x) (restore_all restore xs)

unfoldable pub with_stored : ProviderConfig → Option ProviderConfig → Option ProviderConfig
with_stored p none = none
with_stored p (some existing) = some (record p { api_key = existing.api_key })

unfoldable pub restore_provider : GatewayConfig → ProviderConfig → Option ProviderConfig
restore_provider current p =
    if p.api_key == redacted_key then with_stored p (provider_by_id current p.id) else some p

unfoldable pub with_stored_key : ApiKeyConfig → Option ApiKeyConfig → Option ApiKeyConfig
with_stored_key k none = none
with_stored_key k (some existing) = some (record k { key = existing.key })

unfoldable pub restore_client : GatewayConfig → ApiKeyConfig → Option ApiKeyConfig
restore_client current k =
    if k.key == redacted_key then with_stored_key k (api_key_by_id current k.id) else some k

unfoldable pub is_placeholder : Option Text → Bool
is_placeholder none = false
is_placeholder (some key) = key == redacted_key

unfoldable pub restore_legacy : GatewayConfig → Option Text → Option Text
restore_legacy current key = if is_placeholder key then current.server.api_key else key

-- `cfg` once its providers and clients have their keys, with the version of the stored one.
unfoldable pub write_back :
    GatewayConfig
    → GatewayConfig
    → Option (List ProviderConfig)
    → Option (List ApiKeyConfig)
    → Outcome
write_back current cfg none keys = refused 422 current
write_back current cfg (some providers) none = refused 422 current
write_back current cfg (some providers) (some keys) = saved (record cfg {
  server = record cfg.server {
    api_key = restore_legacy current cfg.server.api_key;
    api_keys = keys;
  };
  providers = providers;
  version = current.version;
})

-- The version that the body gives is not the stored one.
unfoldable pub is_stale : GatewayConfig → Option ℕ → Bool
is_stale current none = false
is_stale current (some version) = not (eqb current.version version)

unfoldable pub put_parsed : GatewayConfig → Option GatewayConfig → Outcome
put_parsed current none = refused 422 current
put_parsed current (some cfg) =
    write_back current cfg (restore_all (restore_provider current) cfg.providers)
      (restore_all (restore_client current) cfg.server.api_keys)

-- `PUT /admin/config`: the version in the body, and what the body is validated to.
unfoldable pub put_config : GatewayConfig → Option ℕ → Option GatewayConfig → Outcome
put_config current version parsed =
    if is_stale current version then refused 409 current else put_parsed current parsed

-- The first provider with an id is changed in place.
unfoldable pub change_provider :
    Text → (ProviderConfig → ProviderConfig) → List ProviderConfig → List ProviderConfig
change_provider i f [] = []
change_provider i f (p ∷ ps) = if p.id == i then f p ∷ ps else p ∷ change_provider i f ps

unfoldable pub key_or_empty : Option Text → Text
key_or_empty none = []
key_or_empty (some key) = key

-- `POST /admin/config/api-key`
unfoldable pub set_provider_api_key : GatewayConfig → Text → Option Text → Outcome
set_provider_api_key config provider_id value =
    if is_empty provider_id then refused 422 config else elim (provider_by_id config provider_id) [
      | none ↦ refused 404 config
      | some provider ↦
          if is_placeholder value
          then refused 422 config
          else saved (record config {
            providers =
                change_provider provider_id (λ p. record p { api_key = key_or_empty value })
                  config.providers;
          })
    ]

-- `POST /admin/config/api-key/{provider_id}/reveal`, none for 404.
unfoldable pub reveal_provider_api_key : GatewayConfig → Text → Option Text
reveal_provider_api_key config provider_id = elim (provider_by_id config provider_id) [
  | none ↦ none
  | some p ↦ some p.api_key
]

abbrev legacy_name : Text
legacy_name = b'l' ∷ b'e' ∷ b'g' ∷ b'a' ∷ b'c' ∷ b'y' ∷ []

-- `POST /admin/config/server-key/{key_id}/reveal`, none for 404.
unfoldable pub reveal_server_api_key : GatewayConfig → Text → Option Text
reveal_server_api_key config key_id =
    if key_id == legacy_name
    then elim config.server.api_key [
      | none ↦ none
      | some key ↦ if is_empty key then none else some key
    ]
    else elim (api_key_by_id config key_id) [ none ↦ none | some k ↦ some k.key ]
