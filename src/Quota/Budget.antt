-- ===== src/Quota/Budget.antt =====
-- The budgets of clientquota.py.
use local_gateway.Prelude.{
  ◌==◌, nat_eq, int_eq, Text, text_eq, is_empty, ℕ, ◌≡◌, refl, ap, ◌∙◌, Bool, true, false, ◌||◌,
  Option, none, some, arith,
}
use local_gateway.Dict.{get}
use local_gateway.Dict.Laws.{get-remove}
use local_gateway.Config.{ApiKeyConfig}
use local_gateway.Quota.{
  Quota, Spend, Period, over, cached_spend, get_spend, invalidate_spend, check_budget,
}

unfoldable pub is_refused : Option (Period × ℕ × ℕ) → Bool
is_refused none = false
is_refused (some b) = true

-- A key with an id is refused exactly if one of its budgets is set, not 0, and spent.
pub check_budget-over :
    (read : Text → Spend) (key : ApiKeyConfig) (now : ℕ) (q : Quota)
    → is_empty key.id ≡ false
    → is_refused (check_budget read key now q).1 ≡ (
        over key.daily_budget_usd (get_spend read key.id now q).1.day_cost
        || over key.monthly_budget_usd (get_spend read key.id now q).1.month_cost)
unfolding check_budget over is_refused
check_budget-over read key now q named = ground (arith, named)

-- Whose spend a call for a key drops: all keys' or the key's own.
unfoldable pub drops : Text → Option Text → Bool
drops key_id none = true
drops key_id (some k) = k == key_id

get-invalidate_spend :
    (key_id : Text) (target : Option Text) (q : Quota)
    → drops key_id target ≡ true
    → get key_id (invalidate_spend target q).spend_cache ≡ none
unfolding drops invalidate_spend get
get-invalidate_spend key_id none q h = refl
get-invalidate_spend key_id (some k) q h = get-remove k key_id q.spend_cache ∙ rw h refl

cached_spend-none :
    (key_id : Text) (now : ℕ) (q : Quota)
    → get key_id q.spend_cache ≡ none
    → cached_spend key_id now q ≡ none
unfolding cached_spend
cached_spend-none key_id now q h = ground (arith, h)

get_spend-uncached :
    (read : Text → Spend) (key_id : Text) (now : ℕ) (q : Quota)
    → is_empty key_id ≡ false
    → cached_spend key_id now q ≡ none
    → (get_spend read key_id now q).1 ≡ read key_id
unfolding get_spend
get_spend-uncached read key_id now q named h = ground (arith, named, h)

-- After a logged cost has dropped the cached spend of a key with an id, the key is refused exactly if
-- one of its budgets is set, not 0, and spent by what the database now says.
pub check_budget-invalidate_spend :
    (read : Text → Spend) (key : ApiKeyConfig) (now : ℕ) (q : Quota) (target : Option Text)
    → is_empty key.id ≡ false
    → drops key.id target ≡ true
    → is_refused (check_budget read key now (invalidate_spend target q)).1 ≡ (
        over key.daily_budget_usd (read key.id).day_cost
        || over key.monthly_budget_usd (read key.id).month_cost)
check_budget-invalidate_spend read key now q target named dropped =
    let r = invalidate_spend target q in
    let missing = cached_spend-none key.id now r (get-invalidate_spend key.id target q dropped) in
    check_budget-over read key now r named
    ∙ ap
        (λ spend.
          over key.daily_budget_usd spend.day_cost || over key.monthly_budget_usd spend.month_cost)
        (get_spend-uncached read key.id now r named missing)
