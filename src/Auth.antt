-- ===== src/Auth.antt =====
-- localgateway/auth.py: who may call. A request is its `Authorization` header, empty where there is
-- none, and the host of its peer; `strip` is Python's, and `loopback` is the answer of the ipaddress
-- library, none where it raises ValueError.
pub mod Keys
use local_gateway.Prelude.{
  if◌then◌else◌, ◌==◌, nat_eq, int_eq, Text, text_eq, contains, length, take, drop, is_empty, any,
  ℕ, zero, suc, Bool, true, false, not, ◌&&◌, ◌||◌, Option, none, some, List, [], ◌∷◌, ◌++◌, arith,
}
use local_gateway.Config.{GatewayConfig, ApiKeyConfig, ServerConfig}

abbrev pub legacy_key_id : Text
legacy_key_id = b'd' ∷ b'e' ∷ b'f' ∷ b'a' ∷ b'u' ∷ b'l' ∷ b't' ∷ []

abbrev pub bearer : Text
bearer = b'B' ∷ b'e' ∷ b'a' ∷ b'r' ∷ b'e' ∷ b'r' ∷ []

unfoldable pub starts_with : Text → Text → Bool
starts_with prefix text = take (length prefix) text == prefix

-- .replace("Bearer ", ""): the characters still to skip, then the text.
unfoldable pub drop_bearer : ℕ → Text → Text
drop_bearer n [] = []
drop_bearer (suc n) (c ∷ cs) = drop_bearer n cs
drop_bearer zero (c ∷ cs) =
    if starts_with (bearer ++ b' ' ∷ []) (c ∷ cs) then drop_bearer 6 cs else c ∷ drop_bearer 0 cs

unfoldable pub full_access : Text → Text → ApiKeyConfig
full_access id key = record {
  id = id;
  key = key;
  enabled = true;
  rpm = none;
  daily_budget_usd = none;
  monthly_budget_usd = none;
  model_allowlist = [];
}

-- Python's truth of an optional text.
unfoldable pub text_of : Option Text → Text
text_of none = []
text_of (some t) = t

unfoldable pub match_key : Text → List ApiKeyConfig → Option ApiKeyConfig
match_key token [] = none
match_key token (k ∷ ks) =
    if k.enabled && (not (is_empty token) && k.key == token) then some k else match_key token ks

-- `server.api_key and token == server.api_key`
unfoldable pub match_legacy : Text → Text → Option ApiKeyConfig
match_legacy token key =
    if not (is_empty key) && token == key then some (full_access legacy_key_id key) else none

unfoldable pub or_key : Option ApiKeyConfig → Option ApiKeyConfig → Option ApiKeyConfig
or_key none later = later
or_key (some k) later = some k

unfoldable pub resolve_token : Text → ServerConfig → Option ApiKeyConfig
resolve_token token server =
    let legacy = text_of server.api_key in
    if not (is_empty server.api_keys)
    then or_key (match_key token server.api_keys) (match_legacy token legacy)
    else if not (is_empty legacy)
    then match_legacy token legacy
    else some (full_access [] [])

unfoldable pub is_some : Option ApiKeyConfig → Bool
is_some none = false
is_some (some k) = true

module _ (strip : Text → Text) where
  unfoldable pub bearer_token : Text → Text
  bearer_token header = if starts_with bearer header then strip (drop_bearer 0 header) else header

  unfoldable pub resolve_api_key : Text → GatewayConfig → Option ApiKeyConfig
  resolve_api_key header config = resolve_token (bearer_token header) config.server

abbrev mapped : Text
mapped = b':' ∷ b':' ∷ b'f' ∷ b'f' ∷ b'f' ∷ b'f' ∷ b':' ∷ []

abbrev localhost : Text
localhost = b'l' ∷ b'o' ∷ b'c' ∷ b'a' ∷ b'l' ∷ b'h' ∷ b'o' ∷ b's' ∷ b't' ∷ []

abbrev loopback_6 : Text
loopback_6 = b':' ∷ b':' ∷ b'1' ∷ []

module _ (loopback : Text → Option Bool) where
  unfoldable pub is_loopback_host : Option Text → Bool
  is_loopback_host none = false
  is_loopback_host (some host) =
      let plain = if starts_with mapped host then drop 7 host else host in
      if is_empty host
      then false
      else elim (loopback plain) [ some b ↦ b | none ↦ plain == localhost || plain == loopback_6 ]

-- The policy of the admin pages.
module _ (strip : Text → Text) (loopback : Text → Option Bool) where
  unfoldable pub check_api_key : Text → Option Text → GatewayConfig → Bool
  check_api_key header host config =
      if is_empty (text_of config.server.api_key) && is_empty config.server.api_keys
      then true
      else if is_loopback_host loopback host
      then true
      else is_some (resolve_api_key strip header config)

abbrev root_page : Text
root_page = b'/' ∷ []

abbrev models_page : Text
models_page = b'/' ∷ b'm' ∷ b'o' ∷ b'd' ∷ b'e' ∷ b'l' ∷ b's' ∷ []

abbrev providers_page : Text
providers_page = b'/' ∷ b'p' ∷ b'r' ∷ b'o' ∷ b'v' ∷ b'i' ∷ b'd' ∷ b'e' ∷ b'r' ∷ b's' ∷ []

abbrev usage_page : Text
usage_page = b'/' ∷ b'u' ∷ b's' ∷ b'a' ∷ b'g' ∷ b'e' ∷ []

abbrev logs_page : Text
logs_page = b'/' ∷ b'l' ∷ b'o' ∷ b'g' ∷ b's' ∷ []

abbrev settings_page : Text
settings_page = b'/' ∷ b's' ∷ b'e' ∷ b't' ∷ b't' ∷ b'i' ∷ b'n' ∷ b'g' ∷ b's' ∷ []

abbrev model_pages : Text
model_pages = b'/' ∷ b'm' ∷ b'o' ∷ b'd' ∷ b'e' ∷ b'l' ∷ b's' ∷ b'/' ∷ []

abbrev compare_pages : Text
compare_pages = b'/' ∷ b'c' ∷ b'o' ∷ b'm' ∷ b'p' ∷ b'a' ∷ b'r' ∷ b'e' ∷ b'/' ∷ []

abbrev page_paths : List Text
page_paths = root_page ∷ models_page ∷ providers_page ∷ usage_page ∷ logs_page ∷ settings_page ∷ []

abbrev page_prefixes : List Text
page_prefixes = model_pages ∷ compare_pages ∷ []

unfoldable pub is_page_path : Text → Bool
is_page_path path = contains path page_paths || any (λ p. starts_with p path) page_prefixes

abbrev pub admin_prefix : Text
admin_prefix = b'/' ∷ b'a' ∷ b'd' ∷ b'm' ∷ b'i' ∷ b'n' ∷ []

abbrev pub v1_prefix : Text
v1_prefix = b'/' ∷ b'v' ∷ b'1' ∷ []

abbrev api_v1_prefix : Text
api_v1_prefix = b'/' ∷ b'a' ∷ b'p' ∷ b'i' ∷ b'/' ∷ b'v' ∷ b'1' ∷ []

-- `path.startswith("/admin") or is_page_path(path)`, in the middlewares of worker.py and supervisor.py.
unfoldable pub is_admin_path : Text → Bool
is_admin_path path = starts_with admin_prefix path || is_page_path path

-- The paths of the API, which are asked for where the path is not an admin one.
unfoldable pub is_api_path : Text → Bool
is_api_path path = starts_with v1_prefix path || starts_with api_v1_prefix path

-- `cfg.server.api_key or cfg.server.api_keys`
unfoldable pub asks_key : GatewayConfig → Bool
asks_key config =
    not (is_empty (text_of config.server.api_key)) || not (is_empty config.server.api_keys)
