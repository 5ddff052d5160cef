-- ===== src/Worker/Rate.antt =====
-- The rate limits over the requests that the middleware of worker.py lets through.
use local_gateway.Worker.Access.{auth_middleware-ask_key, configured}
use local_gateway.Quota.Rate.{
  request, LimitedOp, within, Inv, Inv-same, op_step, Inv-initial, op_state, note, admits,
}
use local_gateway.Dict.{get_default}
use local_gateway.Quota.Hits.{hits_of, is_none}
use local_gateway.Worker.Limits.{is_limited, resolve_token-rpm_limit}
use local_gateway.Prelude.{
  Bool-cases, Option-cases, ◌==◌, nat_eq, int_eq, Text, text_eq, ℕ, ◌≤◌, ◌≡◌, refl, sym, ap, ◌∙◌,
  ◌⊎◌, inl, inr, Bool, true, false, not, ◌&&◌, Option, none, some, List, [], ◌∷◌, arith,
}
use local_gateway.Config.{ApiKeyConfig, GatewayConfig}
use local_gateway.Auth.{
  resolve_api_key, resolve_token, legacy_key_id, asks_key, is_admin_path, is_api_path, bearer_token,
}
use local_gateway.Quota.{
  check_rpm, rpm_limit, initial, Quota, Spend, check_budget, get_spend, Period,
}
use local_gateway.Prelude.Count.{count, count-append}
use local_gateway.Worker.{
  Verdict, passed, ask_budget, ask_rpm, Request, ask_key, auth_middleware, Outcome,
}

unfoldable pub serves : Text → Verdict → Bool
serves k (passed none) = false
serves k (passed (some key)) = key.id == k
serves k _ = false

hits-check_budget :
    (read : Text → Spend) (key : ApiKeyConfig) (now : ℕ) (q : Quota)
    → (check_budget read key now q).0.hits ≡ q.hits
unfolding check_budget get_spend
hits-check_budget read key now q = ground arith

-- The requests come at times in order, from `last` on, and end by `now`.
unfoldable pub InOrder : ℕ → List (ℕ × Request) → ℕ → Type 0
InOrder last [] now = last ≤ now
InOrder last ((t, r) ∷ rs) now = (last ≤ t) × InOrder t rs now

hits-ask_budget :
    (url : Option Text) (key : ApiKeyConfig) (a : Quota × Option (Period × ℕ × ℕ))
    → (ask_budget url key a).quota ≡ a.0
unfolding ask_budget
hits-ask_budget url key (q, none) = refl
hits-ask_budget url key (q, some e) = refl

-- The hits of an id after a looked-up request are those after `check_rpm`.
hits-ask_rpm :
    (k : Text) (read : Text → Spend) (url : Option Text) (key : ApiKeyConfig) (now : ℕ)
    (a : Quota × Option ℕ)
    → hits_of k (ask_rpm read url key now a).quota ≡ hits_of k a.0
unfolding ask_rpm hits_of
hits-ask_rpm k read url key now (q, some retry) = refl
hits-ask_rpm k read url key now (q, none) =
    ap (λ (x : Quota). get_default k [] x.hits)
      (hits-ask_budget url key (check_budget read key now q))
    ∙ ap (λ h. get_default k [] h) (hits-check_budget read key now q)

serves-ask_budget :
    (k : Text) (url : Option Text) (key : ApiKeyConfig) (a : Quota × Option (Period × ℕ × ℕ))
    → serves k (ask_budget url key a).verdict ≡ true
    → (key.id == k) ≡ true
unfolding ask_budget serves
serves-ask_budget k url key (q, none) h = h
serves-ask_budget k url key (q, some e) h = cc

serves-ask_rpm :
    (k : Text) (read : Text → Spend) (url : Option Text) (key : ApiKeyConfig) (now : ℕ)
    (a : Quota × Option ℕ)
    → serves k (ask_rpm read url key now a).verdict ≡ true
    → (key.id == k && is_none a.1) ≡ true
unfolding ask_rpm serves is_none
serves-ask_rpm k read url key now (q, some retry) h = cc
serves-ask_rpm k read url key now (q, none) h =
    let mine = serves-ask_budget k url key (check_budget read key now q) h in ground (arith, mine)

module _ (strip : Text → Text) (loopback : Text → Option Bool) (read : Text → Spend)
    (url : Option Text) (config : GatewayConfig) where
  -- The state after timed requests, and the times of those that reach an endpoint with a key of the id.
  unfoldable pub serve : Text → List (ℕ × Request) → Quota → List ℕ → Quota × List ℕ
  serve k [] q log = (q, log)
  serve k ((t, r) ∷ rs) q log =
      let o = auth_middleware strip loopback read url config r t q in
      serve k rs o.quota (note (serves k o.verdict) t log)

  -- The hits of an id and whether it is served, by a request for the API or another one.
  auth_middleware-cases :
      (k : Text) (r : Request) (t : ℕ) (q : Quota)
      → asks_key config ≡ true
      → (hits_of k (auth_middleware strip loopback read url config r t q).quota ≡ hits_of k q)
          × (serves k (auth_middleware strip loopback read url config r t q).verdict ≡ false)
        ⊎ (key : ApiKeyConfig) × (resolve_api_key strip r.authorization config ≡ some key)
          × (hits_of k (auth_middleware strip loopback read url config r t q).quota
              ≡ hits_of k (op_state (request key) t q))
          × (serves k (auth_middleware strip loopback read url config r t q).verdict ≡ true
              → admits k (request key) t q ≡ true)
  unfolding ask_key op_state admits auth_middleware serves
  auth_middleware-cases k r t q asked =
      elim (Bool-cases (not (is_admin_path r.path) && is_api_path r.path)) [
        | inr other ↦ inl (ground (arith, other), ground (arith, other))
        | inl api ↦
            let same =
              auth_middleware-ask_key strip loopback read url config r t q asked
                (ground (arith, api)) (ground (arith, api)) in
            elim (Option-cases (resolve_api_key strip r.authorization config)) [
              | inl unknown ↦ inl (
                ap (λ (x : Outcome). hits_of k x.quota)
                    (same ∙ ap (λ o. ask_key read url o t q) unknown),
                ap (λ (x : Outcome). serves k x.verdict)
                      (same ∙ ap (λ o. ask_key read url o t q) unknown)
                    ∙ unfold serves in refl,
              )
              | inr (key, found) ↦ inr (
                key,
                found,
                ap (λ (x : Outcome). hits_of k x.quota)
                      (same ∙ ap (λ o. ask_key read url o t q) found)
                    ∙ hits-ask_rpm k read url key t (check_rpm key t q),
                λ h. serves-ask_rpm k read url key t (check_rpm key t q) (
                    ap (λ (x : Outcome). serves k x.verdict)
                      (sym (same ∙ ap (λ o. ask_key read url o t q) found))
                    ∙ h),
              )
            ]
      ]

  -- The times that a request adds are those of one that `check_rpm` allowed.
  count-note :
      (p : ℕ → Bool) (a b : Bool) (t : ℕ) (log log' : List ℕ)
      → (a ≡ true → b ≡ true)
      → count p log ≤ count p log'
      → count p (note a t log) ≤ count p (note b t log')
  unfolding note count
  count-note p a b t log log' h le =
      ground (arith, count-append p log (t ∷ []), count-append p log' (t ∷ []), h, le)

  Served : Text → ℕ → ℕ → Quota → List ℕ → Type 0
  Served k n last q log =
      (log' : List ℕ) × Inv k n last q log' × ((p : ℕ → Bool) → count p log ≤ count p log')

  Served-serve :
      (k : Text) (n last now : ℕ) (rs : List (ℕ × Request)) (q : Quota) (log : List ℕ)
      → asks_key config ≡ true
      → ((token : Text) (key : ApiKeyConfig)
          → resolve_token token config.server ≡ some key
          → key.id ≡ k
          → rpm_limit key ≡ some n)
      → InOrder last rs now
      → Served k n last q log
      → Served k n now (serve k rs q log).0 (serve k rs q log).1
  unfolding serve InOrder note LimitedOp resolve_api_key Served
  Served-serve k n last now [] q log asked limited order (log', inv, le) =
      (log', Inv-same k n last now q q log' order refl inv, le)
  Served-serve k n last now ((t, r) ∷ rs) q log asked limited order (log', inv, le) =
      let o = auth_middleware strip loopback read url config r t q in
      Served-serve k n t now rs o.quota (note (serves k o.verdict) t log) asked limited order.1
        (elim (auth_middleware-cases k r t q asked) [
          | inl (same, unserved) ↦
              (log', Inv-same k n last t q o.quota log' order.0 same inv, λ p. rw unserved (le p))
          | inr (key, found, hits, allowed) ↦ (
            note (admits k (request key) t q) t log',
            Inv-same k n t t (op_state (request key) t q) o.quota
                (note (admits k (request key) t q) t log') (omega arith) hits
                (op_step k n last t (request key) q log' order.0
                  (limited (bearer_token strip r.authorization) key found) inv),
            λ p.
                count-note p (serves k o.verdict) (admits k (request key) t q) t log log' allowed
                  (le p),
          )
        ])

  -- Where a key is configured and every key of an id, which is not that of the legacy key, has a limit
  -- of n a minute, no window of 60 seconds (its end included) holds more than n requests that reach
  -- an endpoint with a key of the id, whatever requests come.
  pub serve-bounded :
      (k : Text) (n now a : ℕ) (rs : List (ℕ × Request))
      → asks_key config ≡ true
      → is_limited k n config.server.api_keys ≡ true
      → (legacy_key_id == k) ≡ false
      → InOrder 0 rs now
      → count (within a) (serve k rs initial []).1 ≤ n
  unfolding Inv Served
  serve-bounded k n now a rs asked l other order =
      let (log', inv, le) =
        Served-serve k n 0 now rs initial [] asked
          (λ token key.
            resolve_token-rpm_limit k n token config.server key l other (configured config asked))
          order ([], Inv-initial k n, λ p. omega arith) in
      omega (arith, inv.0 a, le (within a))
