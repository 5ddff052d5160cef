-- ===== src/Quota.antt =====
-- localgateway/clientquota.py: requests per minute and budgets of the API keys. Times are whole
-- milliseconds of `time.monotonic()`, costs whole units of money; `retry_after` is exact where the
-- source rounds it to a tenth of a second. The spend of a key that usage.py reads from the database
-- is an argument.
pub mod Window
pub mod Hits
pub mod Rate
pub mod Budget
use local_gateway.Prelude.{
  ltb, leb, eqb, if◌then◌else◌, pos, pos_part, leb_ℤ, nat_eq, int_eq, Text, text_eq, length,
  is_empty, ℕ, ◌-◌, ◌*◌, Bool, false, ◌&&◌, ◌||◌, Option, none, some, List, [], ◌∷◌, ◌++◌, arith,
}
use local_gateway.Dict.{Dict, get, get_default, set, remove}
use local_gateway.Config.{ApiKeyConfig}

abbrev pub window_ms : ℕ
window_ms = 60000

abbrev pub spend_cache_ttl : ℕ
spend_cache_ttl = 5000

pub record Spend : Type 0 where
  pub day_cost : ℕ
  pub day_requests : ℕ
  pub month_cost : ℕ
  pub month_requests : ℕ

pub record Quota : Type 0 where
  pub hits : Dict Text (List ℕ)
  pub spend_cache : Dict Text (ℕ × Spend)

abbrev pub initial : Quota
initial = record { hits = []; spend_cache = [] }

-- `not key.rpm or key.rpm <= 0 or not key.id`: no limit applies.
unfoldable pub rpm_limit : ApiKeyConfig → Option ℕ
rpm_limit key = elim key.rpm [
  | none ↦ none
  | some z ↦ if leb_ℤ z (pos 0) || is_empty key.id then none else some (pos_part z)
]

-- while dq and now - dq[0] > _WINDOW_S: dq.popleft()
unfoldable pub expire : ℕ → List ℕ → List ℕ
expire now [] = []
expire now (t ∷ ts) = let rest = expire now ts in if ltb window_ms (now - t) then rest else t ∷ ts

-- The wait until the first hit has left the window.
wait : ℕ → List ℕ → ℕ
wait now [] = window_ms
wait now (t ∷ ts) = window_ms - (now - t)

-- A request under a limit of n a minute.
unfoldable pub limited_request : ℕ → ApiKeyConfig → ℕ → Quota → Quota × Option ℕ
unfolding wait
limited_request n key now q =
    let dq = expire now (get_default key.id [] q.hits) in
    if leb n (length dq)
    then (record q { hits = set key.id dq q.hits }, some (wait now dq))
    else (record q { hits = set key.id (dq ++ now ∷ []) q.hits }, none)

-- The result: none where the request is allowed, or the time to wait.
unfoldable pub check_rpm : ApiKeyConfig → ℕ → Quota → Quota × Option ℕ
check_rpm key now q = elim (rpm_limit key) [
  | none ↦ (q, none)
  | some n ↦ limited_request n key now q
]

unfoldable pub current_rpm : Text → ℕ → Quota → Quota × ℕ
current_rpm key_id now q =
    let dq = get_default key_id [] q.hits in
    let kept = expire now dq in
    if is_empty dq then (q, 0) else (record q { hits = set key_id kept q.hits }, length kept)

abbrev pub no_spend : Spend
no_spend = record { day_cost = 0; day_requests = 0; month_cost = 0; month_requests = 0 }

-- `hit and now - hit[0] < _SPEND_CACHE_TTL`
unfoldable pub cached_spend : Text → ℕ → Quota → Option Spend
cached_spend key_id now q = elim (get key_id q.spend_cache) [
  | none ↦ none
  | some hit ↦ if ltb (now - hit.0) spend_cache_ttl then some hit.1 else none
]

-- `read` is the spend in the usage database at the call.
unfoldable pub get_spend : (Text → Spend) → Text → ℕ → Quota → Quota × Spend
get_spend read key_id now q =
    if is_empty key_id then (q, no_spend) else elim (cached_spend key_id now q) [
      | some spend ↦ (q, spend)
      | none ↦ (record q { spend_cache = set key_id (now, read key_id) q.spend_cache }, read key_id)
    ]

unfoldable pub invalidate_spend : Option Text → Quota → Quota
invalidate_spend none q = record q { spend_cache = [] }
invalidate_spend (some key_id) q = record q { spend_cache = remove key_id q.spend_cache }

pub data Period : Type 0 where
  daily monthly : Period

-- A budget of nothing, or of 0, is none.
unfoldable pub budget : Option ℕ → Option ℕ
budget none = none
budget (some limit) = if eqb limit 0 then none else some limit

-- `limit and spent >= limit`
unfoldable pub over : Option ℕ → ℕ → Bool
unfolding budget
over b spent = elim (budget b) [ none ↦ false | some limit ↦ leb limit spent ]

abbrev pub amount : Option ℕ → ℕ
amount none = 0
amount (some n) = n

unfoldable pub check_budget :
    (Text → Spend) → ApiKeyConfig → ℕ → Quota → Quota × Option (Period × ℕ × ℕ)
check_budget read key now q =
    let r = get_spend read key.id now q in
    let day = r.1.day_cost in
    let month = r.1.month_cost in
    if is_empty key.id then (q, none) else elim (budget key.daily_budget_usd) [
      | some limit ↦ (
        r.0,
        if leb limit day
            then some (daily, day, limit)
            else if over key.monthly_budget_usd month
            then some (monthly, month, amount key.monthly_budget_usd)
            else none,
      )
      | none ↦ elim (budget key.monthly_budget_usd) [
        | none ↦ (q, none)
        | some limit ↦ (r.0, if leb limit month then some (monthly, month, limit) else none)
      ]
    ]

-- 0.8 <= spent / limit < 1.0
unfoldable pub near : Option ℕ → ℕ → Bool
unfolding budget
near b spent = elim (budget b) [
  | none ↦ false
  | some limit ↦ leb (4 * limit) (5 * spent) && ltb spent limit
]

unfoldable pub warning : Period → Option ℕ → ℕ → List (Period × ℕ × ℕ)
unfolding near
warning period b spent = if near b spent then (period, spent, amount b) ∷ [] else []

unfoldable pub budget_warnings :
    (Text → Spend) → ApiKeyConfig → ℕ → Quota → Quota × List (Period × ℕ × ℕ)
budget_warnings read key now q =
    let r = get_spend read key.id now q in
    if is_empty key.id then (q, []) else (
      r.0,
      warning daily key.daily_budget_usd r.1.day_cost
          ++ warning monthly key.monthly_budget_usd r.1.month_cost,
    )
