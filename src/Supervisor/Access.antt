-- ===== src/Supervisor/Access.antt =====
-- How the middlewares of supervisor.py and of the worker behind its proxy agree.
use local_gateway.Prelude.{
  Bool-cases, nat_eq, int_eq, Text, text_eqb, text_eq, ℕ, ◌≡◌, refl, ap, ◌∙◌, inl, inr, Bool, true,
  false, not, ◌&&◌, Option, none, some, arith,
}
use local_gateway.Config.{GatewayConfig, ApiKeyConfig}
use local_gateway.Auth.{
  is_loopback_host, check_api_key, resolve_api_key, is_admin_path, is_api_path, asks_key, is_some,
  starts_with, is_loopback_host,
}
use local_gateway.Quota.{Quota, Spend, Period, check_rpm, check_budget}
use local_gateway.Worker.{Verdict, auth_middleware, invalid_key, ask_key, ask_rpm, ask_budget}
use local_gateway.Supervisor.Gate.{
  Request, Reply, unauthorized, origin_guard, admin_auth_middleware, api_auth_middleware, gate,
  worker_host, proxied,
}

unfoldable pub is_unauthorized : Reply → Bool
is_unauthorized unauthorized = true
is_unauthorized _ = false

unfoldable pub is_invalid : Verdict → Bool
is_invalid invalid_key = true
is_invalid _ = false

is_invalid-ask_budget :
    (url : Option Text) (key : ApiKeyConfig) (a : Quota × Option (Period × ℕ × ℕ))
    → is_invalid (ask_budget url key a).verdict ≡ false
unfolding is_invalid ask_budget
is_invalid-ask_budget url key (q, none) = refl
is_invalid-ask_budget url key (q, some e) = refl

is_invalid-ask_rpm :
    (read : Text → Spend) (url : Option Text) (key : ApiKeyConfig) (now : ℕ) (a : Quota × Option ℕ)
    → is_invalid (ask_rpm read url key now a).verdict ≡ false
unfolding is_invalid ask_rpm
is_invalid-ask_rpm read url key now (q, none) =
    is_invalid-ask_budget url key (check_budget read key now q)
is_invalid-ask_rpm read url key now (q, some retry) = refl

is_invalid-ask_key :
    (read : Text → Spend) (url : Option Text) (o : Option ApiKeyConfig) (now : ℕ) (q : Quota)
    → is_invalid (ask_key read url o now q).verdict ≡ not (is_some o)
unfolding is_invalid ask_key is_some
is_invalid-ask_key read url none now q = refl
is_invalid-ask_key read url (some key) now q =
    is_invalid-ask_rpm read url key now (check_rpm key now q)

is_loopback_host-worker_host :
    (loopback : Text → Option Bool)
    → loopback worker_host ≡ some true
    → is_loopback_host loopback (some worker_host) ≡ true
unfolding is_loopback_host starts_with text_eqb
is_loopback_host-worker_host loopback h = ap (λ o. elim o [ some b ↦ b | none ↦ false ]) h

module _ (strip : Text → Text) (loopback : Text → Option Bool) (config : GatewayConfig) where
  -- A caller on this machine is not asked for a key on the admin paths.
  check_api_key-local :
      (header : Text)
      → loopback worker_host ≡ some true
      → check_api_key strip loopback header (some worker_host) config ≡ true
  unfolding check_api_key
  check_api_key-local header h =
      let here = is_loopback_host-worker_host loopback h in ground (arith, here)

  is_invalid-auth_middleware :
      (read : Text → Spend) (url : Option Text) (r : Request) (now : ℕ) (q : Quota)
      → loopback worker_host ≡ some true
      → is_invalid (auth_middleware strip loopback read url config (proxied r) now q).verdict ≡ (
          not (is_admin_path r.path)
          && (is_api_path r.path
              && (asks_key config && not (is_some (resolve_api_key strip r.authorization config)))))
  unfolding auth_middleware proxied is_invalid
  is_invalid-auth_middleware read url r now q h = ground (
    arith,
    check_api_key-local r.authorization h,
    is_invalid-ask_key read url (resolve_api_key strip r.authorization config) now q,
  )

  is_unauthorized-gate :
      (netloc : Text → Option Text) (r : Request)
      → is_admin_path r.path ≡ false
      → is_unauthorized (gate strip loopback netloc config r) ≡ (
          is_api_path r.path
          && (asks_key config && not (is_some (resolve_api_key strip r.authorization config))))
  unfolding gate api_auth_middleware origin_guard admin_auth_middleware is_unauthorized
  is_unauthorized-gate netloc r h = ground (arith, h)

  -- If 127.0.0.1 is a loopback address and both processes have read the same configuration, then the
  -- worker refuses a request that the proxy sends on for its key exactly if the supervisor's
  -- middlewares refuse it for its key and it is not for an admin path: so none that they route.
  pub is_invalid-gate :
      (netloc : Text → Option Text) (read : Text → Spend) (url : Option Text) (r : Request)
      (now : ℕ) (q : Quota)
      → loopback worker_host ≡ some true
      → is_invalid (auth_middleware strip loopback read url config (proxied r) now q).verdict
        ≡ (not (is_admin_path r.path) && is_unauthorized (gate strip loopback netloc config r))
  is_invalid-gate netloc read url r now q h = elim (Bool-cases (is_admin_path r.path)) [
    | inl web ↦ is_invalid-auth_middleware read url r now q h ∙ rw web refl
    | inr api ↦
        is_invalid-auth_middleware read url r now q h
        ∙ rw (api, is_unauthorized-gate netloc r api) refl
  ]
