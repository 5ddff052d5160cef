-- ===== src/Tests/Counters.antt =====
-- Inputs for stats.py and clientquota.py: samples, warm caches, requests and spend.
use local_gateway.Prelude.{
  leb, pos, nat_eq, int_eq, Text, text_eqb, text_eq, ℕ, ◌-◌, ◌<◌, ◌≡◌, refl, ◌↔◌, true, ◌||◌, none,
  some, List, [], ◌∷◌, arith,
}
use local_gateway.Prelude.Count.{count}
use local_gateway.Config.{ApiKeyConfig}
use local_gateway.Quota.{
  Spend, initial, window_ms, rpm_limit, check_rpm, over, check_budget, invalidate_spend,
}
use local_gateway.Quota.Rate.{Op, request, look, play, Timed, Limited, LimitedOp, check_rpm-play}
use local_gateway.Quota.Budget.{is_refused, drops, check_budget-invalidate_spend}
use local_gateway.Tests.Samples.{acme, gpt}

abbrev client : ApiKeyConfig
client = record {
  id = acme;
  key = gpt;
  enabled = true;
  rpm = some (pos 2);
  daily_budget_usd = some 10;
  monthly_budget_usd = none;
  model_allowlist = [];
}

abbrev calls : List (ℕ × Op)
calls = (1, request client) ∷ (5, look acme) ∷ (9, request client) ∷ (20, request client) ∷ []

two_a_minute : rpm_limit client ≡ some 2
unfolding rpm_limit
two_a_minute = refl

timed : Timed 0 calls 30
unfolding Timed
timed = (omega arith, (omega arith, (omega arith, (omega arith, omega arith))))

limited : Limited acme 2 calls
unfolding Limited LimitedOp
limited =
    ((λ h. two_a_minute), (omega arith, ((λ h. two_a_minute), ((λ h. two_a_minute), omega arith))))

check_rpm-play_example :
    (check_rpm client 30 (play acme calls initial []).0).1 ≡ none
    ↔ count (leb (30 - window_ms)) (play acme calls initial []).1 < 2
check_rpm-play_example = check_rpm-play acme 2 30 calls client timed limited refl two_a_minute

abbrev spent : Text → Spend
spent k = record { day_cost = 12; day_requests = 3; month_cost = 40; month_requests = 9 }

check_budget-invalidate_spend_example :
    is_refused (check_budget spent client 50 (invalidate_spend (some acme) initial)).1 ≡ (
      over client.daily_budget_usd (spent acme).day_cost
      || over client.monthly_budget_usd (spent acme).month_cost)
check_budget-invalidate_spend_example =
    check_budget-invalidate_spend spent client 50 initial (some acme) refl
      (unfold drops text_eqb in refl)
