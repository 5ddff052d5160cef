-- ===== src/Worker.antt =====
-- localgateway/worker.py: the middleware that every request of the worker passes. The request is its
-- path, its `Authorization` header (empty where there is none) and the host of its peer; the spend of
-- a key in the usage database, the time and the URL of the webhook are arguments. `call_next` is not
-- part of the model: the result says whether and as whom the request reaches its endpoint.
pub mod Access
pub mod Limits
pub mod Rate
use local_gateway.Prelude.{
  if◌then◌else◌, nat_eq, int_eq, Text, text_eq, ℕ, Bool, false, Option, none, some, [], arith,
}
use local_gateway.Config.{GatewayConfig, ApiKeyConfig}
use local_gateway.Auth.{check_api_key, resolve_api_key, is_admin_path, is_api_path, asks_key}
use local_gateway.Alerts.{post}
use local_gateway.Quota.{Quota, Spend, Period, check_rpm, check_budget}

pub record Request : Type 0 where
  pub path : Text
  pub authorization : Text
  pub host : Option Text

pub data Verdict : Type 0 where
  -- The endpoint is called; the key, where the path is one of the API.
  passed : Option ApiKeyConfig → Verdict
  -- 401
  invalid_key : Verdict
  -- 429, with the time of Retry-After
  rate_limited : ApiKeyConfig → ℕ → Verdict
  -- 402
  over_budget : ApiKeyConfig → Period × ℕ × ℕ → Verdict

-- The counters after a request, its verdict, and whether an alert goes out.
pub record Outcome : Type 0 where
  pub quota : Quota
  pub verdict : Verdict
  pub alerted : Bool

abbrev let_through : Option ApiKeyConfig → Quota → Outcome
let_through key q = record { quota = q; verdict = passed key; alerted = false }

-- The alert of a spent budget has no key, so each refused request sends one.
unfoldable pub ask_budget : Option Text → ApiKeyConfig → Quota × Option (Period × ℕ × ℕ) → Outcome
ask_budget url key (q, none) = let_through (some key) q
ask_budget url key (q, some exceeded) = record {
  quota = q;
  verdict = over_budget key exceeded;
  alerted = post url;
}

unfoldable pub ask_rpm :
    (Text → Spend) → Option Text → ApiKeyConfig → ℕ → Quota × Option ℕ → Outcome
ask_rpm read url key now (q, some retry) = record {
  quota = q;
  verdict = rate_limited key retry;
  alerted = false;
}
ask_rpm read url key now (q, none) = ask_budget url key (check_budget read key now q)

-- Once the key of an API request is looked up.
unfoldable pub ask_key : (Text → Spend) → Option Text → Option ApiKeyConfig → ℕ → Quota → Outcome
ask_key read url none now q = record { quota = q; verdict = invalid_key; alerted = false }
ask_key read url (some key) now q = ask_rpm read url key now (check_rpm key now q)

module _ (strip : Text → Text) (loopback : Text → Option Bool) where
  unfoldable pub auth_middleware :
      (Text → Spend) → Option Text → GatewayConfig → Request → ℕ → Quota → Outcome
  auth_middleware read url config r now q =
      let key = resolve_api_key strip r.authorization config in
      if is_admin_path r.path
      then if check_api_key strip loopback r.authorization r.host config
        then let_through none q
        else record { quota = q; verdict = invalid_key; alerted = false }
      else if is_api_path r.path
      then if asks_key config then ask_key read url key now q else let_through key q
      else let_through none q
