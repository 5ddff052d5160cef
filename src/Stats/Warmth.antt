-- ===== src/Stats/Warmth.antt =====
-- The warm prompt caches that stats.py keeps and reports.
use local_gateway.Prelude.{
  ltb, if◌then◌else◌, Bool-cases, ◌==◌, ==_refl, nat_eq, int_eq, Text, text_eqb_iff, text_eq,
  contains, length, is_empty, select, sort_by, ℕ, ◌+◌, ◌≤◌, ◌<◌, ◌≡◌, refl, ap, ◌∙◌, inl, inr, Bool,
  true, false, ◌&&◌, Option, List, [], ◌∷◌, arith,
}
use local_gateway.Prelude.Count.{count, count-map, count-sort_by, count-select}
use local_gateway.Backend.{backend_key}
use local_gateway.Dict.{get_default, has, keys}
use local_gateway.Dict.Laws.{get_default-set, get_default-remove, length-set_le, length-remove-has}
use local_gateway.Stats.{
  Warm, Bucket, WarmthEntry, max_keys, number, newest, oldest_from, evict, bound, note_activity,
  record_cache_activity, is_fresh, warmer, warm_backends_for,
}

-- A candidate whose entry is not expired, and whose key passes a test.
unfoldable pub warm_candidate : List Text → ℕ → ℕ → (Text → Bool) → Text × WarmthEntry → Bool
warm_candidate cands ttl now p entry =
    is_fresh now ttl entry && (contains entry.0 cands && p entry.0)

count-warm :
    (cands : List Text) (ttl now : ℕ) (p : Text → Bool) (bucket : Bucket)
    → count p (
        keys (sort_by warmer (select (λ e. contains e.0 cands) (select (is_fresh now ttl) bucket))))
      ≡ count (warm_candidate cands ttl now p) bucket
unfolding warm_candidate
count-warm cands ttl now p bucket =
    let kept = select (is_fresh now ttl) bucket in
    let warm = select (λ (e : Text × WarmthEntry). contains e.0 cands) kept in
    count-map p (λ (e : Text × WarmthEntry). e.0) (sort_by warmer warm)
    ∙ count-sort_by (λ (e : Text × WarmthEntry). p e.0) warmer warm
    ∙ count-select (λ (e : Text × WarmthEntry). p e.0) (λ e. contains e.0 cands) kept
    ∙ count-select (λ (e : Text × WarmthEntry). contains e.0 cands && p e.0) (is_fresh now ttl)
        bucket

count-select-is_empty :
    {A : Type 0} (p q : A → Bool) (xs : List A)
    → is_empty (select q xs) ≡ true
    → count (λ x. q x && p x) xs ≡ 0
unfolding count select
count-select-is_empty p q [] h = refl
count-select-is_empty p q (x ∷ xs) h = ground (arith, count-select-is_empty p q xs)

is_empty-count : {A : Type 0} (p : A → Bool) (xs : List A) → is_empty xs ≡ true → count p xs ≡ 0
unfolding count
is_empty-count p [] h = refl
is_empty-count p (x ∷ xs) h = cc

is_empty-nil : {A : Type 0} (xs : List A) → is_empty xs ≡ true → xs ≡ []
is_empty-nil [] h = refl
is_empty-nil (x ∷ xs) h = cc

count-none : (p : Text → Bool) → count p [] ≡ 0
unfolding count
count-none p = refl

select-none : (ttl now : ℕ) → select (is_fresh now ttl) [] ≡ []
unfolding select
select-none ttl now = refl

count-expired :
    (cands : List Text) (ttl now : ℕ) (p : Text → Bool) (bucket : Bucket)
    → is_empty (select (is_fresh now ttl) bucket) ≡ true
    → count (warm_candidate cands ttl now p) bucket ≡ 0
unfolding warm_candidate
count-expired cands ttl now p bucket gone =
    count-select-is_empty (λ e. contains e.0 cands && p e.0) (is_fresh now ttl) bucket gone

-- For a cache key and some candidates, `warm_backends_for` lists exactly the candidates with an entry
-- for the key that is not expired, each as often; the registry then has the key's entries that are
-- not expired, and those of every other key as before.
pub warm_backends_for-fresh :
    (p : Text → Bool) (cache_key j : Text) (cands : List Text) (ttl now : ℕ) (w : Warm)
    → is_empty cache_key ≡ false
    → is_empty cands ≡ false
    → (count p (warm_backends_for cache_key cands ttl now w).1
        ≡ count (warm_candidate cands ttl now p) (get_default cache_key [] w))
      × (get_default j [] (warm_backends_for cache_key cands ttl now w).0 ≡ (
          if cache_key == j
          then select (is_fresh now ttl) (get_default cache_key [] w)
          else get_default j [] w))
unfolding warm_backends_for
warm_backends_for-fresh p cache_key j cands ttl now w named some_cands =
    let bucket = get_default cache_key [] w in
    let kept = select (is_fresh now ttl) bucket in
    (
      elim (Bool-cases (is_empty bucket)) [
        | inl bare ↦
            ground (
              arith,
              bare,
              is_empty-count (warm_candidate cands ttl now p) bucket bare,
              count-none p,
            )
        | inr full ↦ elim (Bool-cases (is_empty kept)) [
          | inl gone ↦
              ground (arith, full, gone, count-expired cands ttl now p bucket gone, count-none p)
          | inr left ↦ ground (arith, full, left, count-warm cands ttl now p bucket)
        ]
      ],
      elim (Bool-cases (is_empty bucket)) [
        | inl bare ↦
            let e : bucket ≡ [] = is_empty-nil bucket bare in
            ground (
              arith,
              bare,
              text_eqb_iff cache_key j,
              e,
              ap (select (is_fresh now ttl)) e,
              select-none ttl now,
              ap (λ k. get_default k [] w),
            )
        | inr full ↦ elim (Bool-cases (is_empty kept)) [
          | inl gone ↦
              ground
                (arith, full, gone, is_empty-nil kept gone, get_default-remove cache_key j [] w)
          | inr left ↦ ground (arith, full, left, get_default-set cache_key j [] kept w)
        ]
      ],
    )

oldest_from-has :
    (best : Text) (t : ℕ) (w all : Warm)
    → has best all ≡ true
    → ((k : Text) → has k w ≡ true → has k all ≡ true)
    → has (oldest_from best t w) all ≡ true
unfolding oldest_from has
oldest_from-has best t [] all h inside = h
oldest_from-has best t ((k, b) ∷ w) all h inside = elim (Bool-cases (ltb (newest b) t)) [
  | inl later ↦ rw later (
      oldest_from-has k (newest b) w all (inside k (ground (arith, ==_refl k)))
        (λ j hj. inside j (ground arith)))
  | inr early ↦ rw early (oldest_from-has best t w all h (λ j hj. inside j (ground arith)))
]

length-evict : (w : Warm) → 0 < length w → length (evict w) < length w
length-evict [] h = absurd (omega arith)
length-evict ((k, b) ∷ w) h =
    let all : Warm = (k, b) ∷ w in
    let best = oldest_from k (newest b) w in
    let found : has best all ≡ true =
      oldest_from-has k (newest b) w all (unfold has in ground (arith, ==_refl k))
        (λ j hj. unfold has in ground arith) in
    unfold evict in length-remove-has best all found

length-note_activity :
    (cache_key key : Text) (now cached written input : ℕ) (w : Warm)
    → length (note_activity cache_key key now cached written input w) ≤ length w + 1
unfolding note_activity
length-note_activity cache_key key now cached written input w = length-set_le cache_key _ w

-- Recording keeps the number of keys of the registry within its bound.
pub record_cache_activity-bounded :
    (p m cache_key : Text) (cached written input : Option ℕ) (cache_supported : Option Bool)
    (now : ℕ) (w : Warm)
    → length w ≤ max_keys
    → length (record_cache_activity p m cache_key cached written input cache_supported now w)
      ≤ max_keys
unfolding record_cache_activity bound
record_cache_activity-bounded p m cache_key cached written input cache_supported now w h =
    let noted =
      note_activity cache_key (backend_key p m) now (number cached) (number written) (number input)
        w in
    let grown : length noted ≤ length w + 1 =
      length-note_activity cache_key (backend_key p m) now (number cached) (number written)
        (number input) w in
    ground (arith, grown, length-evict noted)
