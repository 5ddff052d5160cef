-- ===== src/Tests/Messages.antt =====
-- Inputs for auth.py.
use local_gateway.Auth.Keys.{is_configured, is_known, is_some-resolve_token}
use local_gateway.Auth.{full_access, is_some, resolve_token}
use local_gateway.Prelude.{if◌then◌else◌, nat_eq, int_eq, text_eq, ◌≡◌, true, some, [], ◌∷◌}
use local_gateway.Config.{ServerConfig}
use local_gateway.Tests.Samples.{acme, beta, gpt, server}

abbrev keyed : ServerConfig
keyed = record server { api_keys = full_access gpt acme ∷ []; api_key = some beta }

is_some-resolve_token_example :
    is_some (resolve_token acme keyed) ≡ (if is_configured keyed then is_known acme keyed else true)
is_some-resolve_token_example = is_some-resolve_token acme keyed
