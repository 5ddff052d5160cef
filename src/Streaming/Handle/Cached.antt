-- ===== src/Streaming/Handle/Cached.antt =====
-- A response that streaming.py has served once, served again from the cache.
use local_gateway.Prelude.{
  ltb, Bool-cases, nat_eq, int_eq, Text, text_eq, ℕ, suc, ◌+◌, ◌-◌, ◌≤◌, ◌<◌, min, ◌≡◌, refl, ap,
  ◌∙◌, inl, inr, false, none, some, List, [], ◌∷◌, ◌++◌, arith,
}
use local_gateway.Provider.{Exchange}
use local_gateway.RespCache.{lookup, Cache, Hit}
use local_gateway.RespCache.Expiry.{lookup-store, Within}
use local_gateway.Router.Types.{World, Selected, Reason}
use local_gateway.Streaming.{
  Gateway, Request, Response, served, refused, all_failed, Attempt, result, body_of, exchange_with,
  note_served, note_failed, error_line, store, try_backends,
}
use local_gateway.Streaming.Resolve.{Route}
use local_gateway.Streaming.Handle.{
  Asked, Worker, cached, answered, ttl_of, look_in, log_hit, store_all, answer_route, answer_hit,
  handle_request,
}

-- What the loop has stored, from its answer.
stored_after : Request → Response → List (Text × Text) → List (Text × Text)
stored_after q (served body p m reason) l = store q.cache_fp body l
stored_after q (refused error status) l = l
stored_after q (all_failed errors) l = l

stored-try_backends :
    (q : Request) (send : ℕ → Selected → Exchange) (n : ℕ) (sels : List Selected)
    (errors : List Text) (g : Gateway)
    → (try_backends q send n sels errors g).0.stored
      ≡ stored_after q (try_backends q send n sels errors g).1 g.stored
unfolding try_backends stored_after note_served note_failed exchange_with
stored-try_backends q send n [] errors g = refl
stored-try_backends q send n (s ∷ rest) errors g =
    let a : Attempt = record { selected = s; exchange = send n s } in
    let failed = note_failed q a (exchange_with a g) in
    elim (Bool-cases (result q a).success) [
      | inl good ↦ rw good refl
      | inr bad ↦ elim (Bool-cases (result q a).retryable) [
        | inl again ↦
            rw (bad, again)
              (stored-try_backends q send (suc n) rest (errors ++ error_line q a ∷ []) failed)
        | inr final ↦ rw (bad, final) refl
      ]
    ]

-- The cache has just stored the body.
Stored : Request → Asked → Text → Text → Worker → Type 0
Stored q asked fp body s =
    (c : Cache) × (s.cache
      ≡ local_gateway.RespCache.store fp body false (ttl_of q)
          q.config.server.response_cache_max_entries asked.stored_at c)

module _ (q : Request) (asked : Asked) (send : ℕ → Selected → Exchange) (fp body : Text) where
  stored_after-served :
      (p m : Text) (reason : Reason)
      → q.cache_fp ≡ some fp
      → stored_after q (served body p m reason) [] ≡ (fp, body) ∷ []
  unfolding stored_after store
  stored_after-served p m reason h = ap (λ o. store o body []) h

  Stored-answer_route :
      (p m : Text) (reason : Reason) (route : Route) (s : Worker)
      → q.cache_fp ≡ some fp
      → (answer_route q asked send route s).1 ≡ answered (served body p m reason)
      → Stored q asked fp body (answer_route q asked send route s).0
  unfolding answer_route Stored store_all
  Stored-answer_route p m reason (local_gateway.Streaming.Resolve.refused e status) s h k = cc
  Stored-answer_route p m reason (local_gateway.Streaming.Resolve.routed backends) s h k =
      let ran = try_backends q send 0 backends [] (record s.gateway { stored = [] }) in
      let it : ran.1 ≡ served body p m reason = cc in
      (
        s.cache,
        ap (λ l. store_all q asked l s.cache)
            (stored-try_backends q send 0 backends [] (record s.gateway { stored = [] })
              ∙ ap (λ r. stored_after q r []) it
              ∙ stored_after-served p m reason h),
      )

  Stored-answer_hit :
      (w : World) (p m : Text) (reason : Reason) (hit : Hit) (s : Worker)
      → q.cache_fp ≡ some fp
      → (answer_hit w q asked send hit s).1 ≡ answered (served body p m reason)
      → Stored q asked fp body (answer_hit w q asked send hit s).0
  unfolding answer_hit Stored
  Stored-answer_hit w p m reason none s h k = Stored-answer_route p m reason _ _ h k
  Stored-answer_hit w p m reason (some (b, stream, hits)) s h k = cc

look_in-Stored :
    (q r : Request) (asked again : Asked) (fp body : Text) (s : Worker)
    → r.cache_fp ≡ some fp
    → 0 < ttl_of q
    → 0 < ttl_of r
    → again.wall ≤ asked.stored_at + min (ttl_of q) (ttl_of r)
    → Stored q asked fp body s
    → (look_in r.cache_fp (ttl_of r) again.wall s.cache).1 ≡ some (body, false, 1)
unfolding Stored look_in local_gateway.RespCache.store local_gateway.RespCache.Expiry.look_all
look_in-Stored q r asked again fp body s hr life_q life_r soon (c, e) =
    let max_entries = q.config.server.response_cache_max_entries in
    let fresh : ltb (min (ttl_of q) (ttl_of r)) (again.wall - asked.stored_at) ≡ false =
      ground (arith, soon) in
    ap (λ o. (look_in o (ttl_of r) again.wall s.cache).1) hr
    ∙ ap (λ k. (lookup fp (ttl_of r) again.wall k).1) e
    ∙ lookup-store fp body false (ttl_of q) (ttl_of r) max_entries asked.stored_at again.wall [] c
        life_q life_r (unfold Within in omega arith)
    ∙ rw fresh refl

-- Once a backend has served a request whose response may be cached, the very next request that the
-- worker handles, if it has the same fingerprint and comes within both times to live, gets the same body
-- from the cache, and all that it changes in the gateway is the row of the hit: no backend is asked.
pub cached-handle_request :
    (w v : World) (q r : Request) (asked again : Asked) (send resend : ℕ → Selected → Exchange)
    (fp body p m : Text) (reason : Reason) (s : Worker)
    → q.cache_fp ≡ some fp
    → r.cache_fp ≡ some fp
    → 0 < ttl_of q
    → 0 < ttl_of r
    → again.wall ≤ asked.stored_at + min (ttl_of q) (ttl_of r)
    → (handle_request w q asked send s).1 ≡ answered (served body p m reason)
    → let after : Worker = (handle_request w q asked send s).0 in
      ((handle_request v r again resend after).1 ≡ cached body)
      × ((handle_request v r again resend after).0.gateway ≡ log_hit r again after.gateway)
unfolding handle_request answer_hit
cached-handle_request w v q r asked again send resend fp body p m reason s hq hr life_q life_r soon
      first =
    let looked = look_in q.cache_fp (ttl_of q) asked.wall s.cache in
    let after : Worker = (answer_hit w q asked send looked.1 (record s { cache = looked.0 })).0 in
    let kept =
      Stored-answer_hit q asked send fp body w p m reason looked.1 (record s { cache = looked.0 })
        hq first in
    let seen = look_in-Stored q r asked again fp body after hr life_q life_r soon kept in
    let later = record after { cache = (look_in r.cache_fp (ttl_of r) again.wall after.cache).0 } in
    (
      ap (λ h. (answer_hit v r again resend h later).1) seen,
      ap (λ h. (answer_hit v r again resend h later).0.gateway) seen,
    )
