-- ===== src/Worker/Access.antt =====
-- Who reaches the API of worker.py.
use local_gateway.Quota.Budget.{check_budget-over, is_refused}
use local_gateway.Prelude.{
  nat_eq, int_eq, Text, text_eq, is_empty, ℕ, ◌≡◌, refl, sym, ap, ◌∙◌, Bool, true, false, ◌||◌,
  Option, none, some, arith,
}
use local_gateway.Config.{GatewayConfig, ApiKeyConfig}
use local_gateway.Auth.{
  resolve_api_key, bearer_token, is_admin_path, is_api_path, asks_key, resolve_token,
}
use local_gateway.Auth.Keys.{is_configured, resolve_token-key}
use local_gateway.Quota.{
  Quota, Spend, Period, check_rpm, check_budget, get_spend, over, limited_request, cached_spend,
}
use local_gateway.Worker.{Request, passed, ask_key, ask_rpm, ask_budget, auth_middleware, Outcome}

passed_injective : (j k : Option ApiKeyConfig) → passed j ≡ passed k → j ≡ k
passed_injective j k h = ap (λ v. elim v [ passed x ↦ x | _ ↦ j ]) h

ask_budget-passed :
    (url : Option Text) (key : ApiKeyConfig) (a : Quota × Option (Period × ℕ × ℕ))
    (o : Option ApiKeyConfig)
    → (ask_budget url key a).verdict ≡ passed o
    → (o ≡ some key) × (a.1 ≡ none)
unfolding ask_budget
ask_budget-passed url key (q, none) o h = (sym (passed_injective (some key) o h), refl)
ask_budget-passed url key (q, some e) o h = cc

ask_rpm-passed :
    (read : Text → Spend) (url : Option Text) (key : ApiKeyConfig) (now : ℕ) (a : Quota × Option ℕ)
    (o : Option ApiKeyConfig)
    → (ask_rpm read url key now a).verdict ≡ passed o
    → (o ≡ some key) × (a.1 ≡ none) × ((check_budget read key now a.0).1 ≡ none)
unfolding ask_rpm
ask_rpm-passed read url key now (q, some retry) o h = cc
ask_rpm-passed read url key now (q, none) o h =
    let (same, free) = ask_budget-passed url key (check_budget read key now q) o h in
    (same, refl, free)

pub ask_key-passed :
    (read : Text → Spend) (url : Option Text) (found : Option ApiKeyConfig) (now : ℕ) (q : Quota)
    (o : Option ApiKeyConfig)
    → (ask_key read url found now q).verdict ≡ passed o
    → (key : ApiKeyConfig) × (found ≡ some key)
      × (o ≡ some key)
      × ((check_rpm key now q).1 ≡ none)
      × ((check_budget read key now (check_rpm key now q).0).1 ≡ none)
unfolding ask_key
ask_key-passed read url none now q o h = cc
ask_key-passed read url (some key) now q o h =
    let (same, rate, free) = ask_rpm-passed read url key now (check_rpm key now q) o h in
    (key, refl, same, rate, free)

-- A request for the API, where a key is configured.
pub auth_middleware-ask_key :
    (strip : Text → Text) (loopback : Text → Option Bool) (read : Text → Spend) (url : Option Text)
    (config : GatewayConfig) (r : Request) (now : ℕ) (q : Quota)
    → asks_key config ≡ true
    → is_admin_path r.path ≡ false
    → is_api_path r.path ≡ true
    → auth_middleware strip loopback read url config r now q
      ≡ ask_key read url (resolve_api_key strip r.authorization config) now q
unfolding auth_middleware
auth_middleware-ask_key strip loopback read url config r now q asked web api =
    ground (arith, asked, web, api)

spend_cache-check_rpm :
    (key : ApiKeyConfig) (now : ℕ) (q : Quota) → (check_rpm key now q).0.spend_cache ≡ q.spend_cache
unfolding check_rpm limited_request
spend_cache-check_rpm key now q = ground arith

cached_spend-same :
    (key_id : Text) (now : ℕ) (q r : Quota)
    → r.spend_cache ≡ q.spend_cache
    → cached_spend key_id now r ≡ cached_spend key_id now q
unfolding cached_spend
cached_spend-same key_id now q r h = rw h refl

-- The spend of a key does not depend on its rate limit.
get_spend-check_rpm :
    (read : Text → Spend) (key : ApiKeyConfig) (now : ℕ) (q : Quota)
    → (get_spend read key.id now (check_rpm key now q).0).1 ≡ (get_spend read key.id now q).1
unfolding get_spend
get_spend-check_rpm read key now q =
    let same =
      cached_spend-same key.id now q (check_rpm key now q).0 (spend_cache-check_rpm key now q) in
    ground (arith, same)

within_budget :
    (read : Text → Spend) (key : ApiKeyConfig) (now : ℕ) (q : Quota)
    → (check_budget read key now (check_rpm key now q).0).1 ≡ none
    → is_empty key.id ≡ false
    → (over key.daily_budget_usd (get_spend read key.id now q).1.day_cost
        || over key.monthly_budget_usd (get_spend read key.id now q).1.month_cost)
      ≡ false
within_budget read key now q free named =
    ap
      (λ (s : Spend).
        over key.daily_budget_usd s.day_cost || over key.monthly_budget_usd s.month_cost)
      (sym (get_spend-check_rpm read key now q))
    ∙ sym (check_budget-over read key now (check_rpm key now q).0 named)
    ∙ ap is_refused free
    ∙ unfold is_refused in refl

pub configured :
    (config : GatewayConfig) → asks_key config ≡ true → is_configured config.server ≡ true
unfolding asks_key is_configured
configured config h = ground (arith, h)

-- Where a key is configured, a request for the API that reaches its endpoint bears the secret of the key
-- it comes with, which is not empty and belongs to an enabled key; the key's rate limit allows the
-- request, and, if the key has an id, none of its budgets is spent.
pub auth_middleware-passed :
    (strip : Text → Text) (loopback : Text → Option Bool) (read : Text → Spend) (url : Option Text)
    (config : GatewayConfig) (r : Request) (now : ℕ) (q : Quota) (o : Option ApiKeyConfig)
    → asks_key config ≡ true
    → is_admin_path r.path ≡ false
    → is_api_path r.path ≡ true
    → (auth_middleware strip loopback read url config r now q).verdict ≡ passed o
    → (key : ApiKeyConfig) × (o ≡ some key)
      × (key.key ≡ bearer_token strip r.authorization)
      × (key.enabled ≡ true)
      × (is_empty key.key ≡ false)
      × ((check_rpm key now q).1 ≡ none)
      × (is_empty key.id ≡ false
          → (over key.daily_budget_usd (get_spend read key.id now q).1.day_cost
              || over key.monthly_budget_usd (get_spend read key.id now q).1.month_cost)
            ≡ false)
unfolding resolve_api_key
auth_middleware-passed strip loopback read url config r now q o asked web api h =
    let token = bearer_token strip r.authorization in
    let found = resolve_token token config.server in
    let (key, it, same, rate, free) = ask_key-passed read url found now q o (
      ap (λ (x : Outcome). x.verdict)
        (sym (auth_middleware-ask_key strip loopback read url config r now q asked web api))
      ∙ h) in
    let (own, on, full) = resolve_token-key token config.server key (configured config asked) it in
    (key, same, own, on, ap is_empty own ∙ full, rate, within_budget read key now q free)
