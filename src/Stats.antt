-- ===== src/Stats.antt =====
-- localgateway/stats.py: the counters of the backends, and the registry of warm prompt caches. Times
-- are whole milliseconds of `time.time()`; a hit rate is kept as the quotient of two counts.
pub mod InFlight
pub mod Window
pub mod Warmth
use local_gateway.Prelude.{
  ltb, leb, eqb, if◌then◌else◌, nat_eq, int_eq, Text, text_eq, contains, length, take, is_empty,
  select, sort_by, ℕ, ◌+◌, ◌-◌, ◌*◌, max, Bool, not, ◌&&◌, ◌||◌, Option, none, some, List, [], ◌∷◌,
  arith,
}
use local_gateway.Prelude.Recent.{push}
use local_gateway.Backend.{backend_key}
use local_gateway.Dict.{Dict, get, get_default, set, remove, keys}

abbrev pub window : ℕ
window = 50

-- `deque(maxlen=WINDOW).append`: a full deque drops its oldest item.
unfoldable pub append_window : List ℕ → ℕ → List ℕ
append_window = push window

-- `_BackendStats`
pub record Entry : Type 0 where
  pub latencies : List ℕ
  pub ttfts : List ℕ
  pub successes : ℕ
  pub failures : ℕ
  pub last_error : Option Text
  pub last_error_ts : Option ℕ
  pub last_success_ts : Option ℕ
  pub in_flight : ℕ

abbrev pub new_entry : Entry
new_entry = record {
  latencies = [];
  ttfts = [];
  successes = 0;
  failures = 0;
  last_error = none;
  last_error_ts = none;
  last_success_ts = none;
  in_flight = 0;
}

abbrev pub Registry : Type 0
Registry = Dict Text Entry

-- `_get(key)`, changed and stored.
unfoldable pub update : Text → (Entry → Entry) → Registry → Registry
update key f r = set key (f (get_default key new_entry r)) r

unfoldable pub start_request : Text → Text → Registry → Registry
start_request provider_id model =
    update (backend_key provider_id model) λ e. record e { in_flight = e.in_flight + 1 }

unfoldable pub end_request : Text → Text → Registry → Registry
end_request provider_id model =
    update (backend_key provider_id model)
      λ e. if ltb 0 e.in_flight then record e { in_flight = e.in_flight - 1 } else e

note_sample : List ℕ → Option ℕ → List ℕ
note_sample xs none = xs
note_sample xs (some ms) = append_window xs ms

unfoldable pub record_success : Text → Text → Option ℕ → Option ℕ → ℕ → Registry → Registry
unfolding note_sample
record_success provider_id model latency_ms ttft_ms now =
    update (backend_key provider_id model) λ e. record e {
      latencies = note_sample e.latencies latency_ms;
      ttfts = note_sample e.ttfts ttft_ms;
      successes = e.successes + 1;
      last_success_ts = some now;
    }

unfoldable pub record_failure : Text → Text → Option Text → ℕ → Registry → Registry
record_failure provider_id model error now = update (backend_key provider_id model) λ e. record e {
  failures = e.failures + 1;
  last_error = some (elim error [ none ↦ [] | some t ↦ take 300 t ]);
  last_error_ts = some now;
}

pub record WarmthEntry : Type 0 where
  pub last_seen_ts : ℕ
  pub hit_count : ℕ
  pub write_count : ℕ
  pub miss_count : ℕ

abbrev pub Bucket : Type 0
Bucket = Dict Text WarmthEntry

abbrev pub Warm : Type 0
Warm = Dict Text Bucket

abbrev pub max_keys : ℕ
max_keys = 2000

abbrev pub max_entries : ℕ
max_entries = 20000

abbrev pub number : Option ℕ → ℕ
number none = 0
number (some n) = n

-- The counters of an entry after a response; a hit rate is `hit_count / (hit_count + miss_count)`.
count_activity : ℕ → ℕ → ℕ → ℕ → WarmthEntry → WarmthEntry
count_activity now cached written input e =
    if ltb 0 cached
    then record e { last_seen_ts = now; hit_count = e.hit_count + 1 }
    else if ltb 0 written
    then record e { last_seen_ts = now; write_count = e.write_count + 1 }
    else if ltb 0 input
    then record e { last_seen_ts = now; miss_count = e.miss_count + 1 }
    else record e { last_seen_ts = now }

-- `cache_supported`, or found out from the observed tokens.
supports : Option Bool → ℕ → ℕ → Bool
supports (some b) cached written = b
supports none cached written = ltb 0 cached || ltb 0 written

-- max(e.last_seen_ts for e in bucket.values(), default=0.0)
unfoldable pub newest : Bucket → ℕ
newest [] = 0
newest ((k, e) ∷ b) = max e.last_seen_ts (newest b)

-- min(_warmth, key=...): the first bucket with the smallest key.
unfoldable pub oldest_from : Text → ℕ → Warm → Text
oldest_from best t [] = best
oldest_from best t ((k, b) ∷ w) =
    let later = ltb (newest b) t in
    oldest_from (if later then k else best) (if later then newest b else t) w

unfoldable pub count_entries : Warm → ℕ
count_entries [] = 0
count_entries ((k, b) ∷ w) = length b + count_entries w

unfoldable pub evict : Warm → Warm
unfolding oldest_from newest
evict [] = []
evict ((k, b) ∷ w) = remove (oldest_from k (newest b) w) ((k, b) ∷ w)

unfoldable pub bound : Warm → Warm
unfolding evict count_entries
bound w = if ltb max_keys (length w) || ltb max_entries (count_entries w) then evict w else w

unfoldable pub note_activity : Text → Text → ℕ → ℕ → ℕ → ℕ → Warm → Warm
unfolding count_activity
note_activity cache_key key now cached written input w =
    let bucket = get_default cache_key [] w in
    let fresh : WarmthEntry = record {
      last_seen_ts = now;
      hit_count = 0;
      write_count = 0;
      miss_count = 0;
    } in
    let e = count_activity now cached written input (get_default key fresh bucket) in
    set cache_key (set key e bucket) w

unfoldable pub record_cache_activity :
    Text → Text → Text → Option ℕ → Option ℕ → Option ℕ → Option Bool → ℕ → Warm → Warm
unfolding supports
record_cache_activity provider_id model cache_key cached written input cache_supported now w =
    if is_empty cache_key
    then w
    else if not (supports cache_supported (number cached) (number written))
    then w
    else bound (
        note_activity cache_key (backend_key provider_id model) now (number cached) (number written)
          (number input) w)

-- The entries of a bucket that are not expired.
unfoldable pub is_fresh : ℕ → ℕ → Text × WarmthEntry → Bool
is_fresh now ttl entry = leb (now - entry.1.last_seen_ts) ttl

-- (-last_hit_rate, -last_seen_ts), smallest first; the rate of no counts is 0.
unfoldable pub warmer : Text × WarmthEntry → Text × WarmthEntry → Bool
warmer a b =
    let an = a.1.hit_count in
    let ad = max 1 (a.1.hit_count + a.1.miss_count) in
    let bn = b.1.hit_count in
    let bd = max 1 (b.1.hit_count + b.1.miss_count) in
    ltb (bn * ad) (an * bd) || (eqb (bn * ad) (an * bd) && ltb b.1.last_seen_ts a.1.last_seen_ts)

-- The sweep of the bucket, and the warm candidates.
unfoldable pub warm_backends_for : Text → List Text → ℕ → ℕ → Warm → Warm × List Text
unfolding warmer
warm_backends_for cache_key cands ttl now w =
    if is_empty cache_key || is_empty cands
    then (w, [])
    else let bucket = get_default cache_key [] w in
      let kept = select (is_fresh now ttl) bucket in
      if is_empty bucket then (w, []) else if is_empty kept then (remove cache_key w, []) else (
        set cache_key kept w,
        keys (sort_by warmer (select (λ entry. contains entry.0 cands) kept)),
      )
