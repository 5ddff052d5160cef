-- ===== src/RespCache/Expiry.antt =====
-- How long respcache.py serves a response.
use local_gateway.Prelude.Recent.{drop-append}
use local_gateway.Prelude.{
  ltb, if◌then◌else◌, Bool-cases, ◌==◌, ==_refl, nat_eq, int_eq, Text, text_eq, length, drop,
  length-append, ℕ, zero, suc, ◌+◌, ◌-◌, ◌≤◌, ◌<◌, min, ◌≡◌, refl, ap, ◌∙◌, inl, inr, Bool, false,
  none, some, List, [], ◌∷◌, ◌++◌, arith,
}
use local_gateway.Dict.{Dict, get, remove}
use local_gateway.Dict.Laws.{get-remove}
use local_gateway.RespCache.{
  Cache, Entry, hit_of, mem_capacity, enqueue, move_to_end, mem_put, lookup, lookup_in, lookup_mem,
  store, is_expired, effective_ttl,
}

get_last :
    (key : Text) (e : Entry) (d : Dict Text Entry)
    → get key d ≡ none
    → get key (d ++ (key, e) ∷ []) ≡ some e
unfolding get
get_last key e [] h = rw (==_refl key) refl
get_last key e ((k, v) ∷ d) h = elim (Bool-cases (k == key)) [
  | inl same ↦ absurd (ground (arith, h, same))
  | inr other ↦ rw other (get_last key e d (ground (arith, h, other)))
]

get-drop : (key : Text) (n : ℕ) (d : Dict Text Entry) → get key d ≡ none → get key (drop n d) ≡ none
unfolding get
get-drop key zero d h = h
get-drop key (suc n) [] h = h
get-drop key (suc n) ((k, v) ∷ d) h = elim (Bool-cases (k == key)) [
  | inl same ↦ absurd (ground (arith, h, same))
  | inr other ↦ get-drop key n d (ground (arith, h, other))
]

get-remove_same : (key : Text) (d : Dict Text Entry) → get key (remove key d) ≡ none
get-remove_same key d = get-remove key key d ∙ rw (==_refl key) refl

get-move_to_end :
    (key : Text) (e : Entry) (d : Dict Text Entry) → get key (move_to_end key e d) ≡ some e
unfolding move_to_end
get-move_to_end key e d = get_last key e (remove key d) (get-remove_same key d)

get-mem_put : (key : Text) (e : Entry) (d : Dict Text Entry) → get key (mem_put key e d) ≡ some e
unfolding mem_put move_to_end
get-mem_put key e d =
    let others = remove key d in
    let n = length (others ++ (key, e) ∷ []) - mem_capacity in
    let room : n ≤ length others = omega (arith, length-append others ((key, e) ∷ [])) in
    ap (get key) (drop-append n others ((key, e) ∷ []) room)
    ∙ get_last key e (drop n others) (get-drop key n others (get-remove_same key d))

-- The lookup of a key that the memory has.
lookup-mem :
    (key : Text) (ttl now : ℕ) (e : Entry) (c : Cache)
    → get key c.mem ≡ some e
    → lookup key ttl now c ≡ lookup_mem e key ttl now c
unfolding lookup lookup_in
lookup-mem key ttl now e c h = ap (λ o. lookup_in o key ttl now c) h

hit-lookup :
    (key : Text) (ttl now : ℕ) (e : Entry) (c : Cache)
    → get key c.mem ≡ some e
    → (lookup key ttl now c).1 ≡ (if is_expired ttl now e then none else hit_of e)
unfolding lookup_mem
hit-lookup key ttl now e c h =
    ap (λ r. r.1) (lookup-mem key ttl now e c h)
    ∙ elim (Bool-cases (is_expired ttl now e)) [ inl old ↦ rw old refl | inr fresh ↦ rw fresh refl ]

-- A hit does not make the entry younger.
get-lookup :
    (key : Text) (ttl now : ℕ) (e : Entry) (c : Cache)
    → get key c.mem ≡ some e
    → is_expired ttl now e ≡ false
    → get key (lookup key ttl now c).0.mem ≡ some e
unfolding lookup_mem enqueue
get-lookup key ttl now e c h fresh =
    ap (λ r. get key r.0.mem) (lookup-mem key ttl now e c h)
    ∙ rw fresh (get-move_to_end key e c.mem)

unfoldable pub look_all : Text → ℕ → List ℕ → Cache → Cache
look_all key ttl [] c = c
look_all key ttl (now ∷ times) c = look_all key ttl times (lookup key ttl now c).0

-- All times are within a span from a time on.
unfoldable pub Within : ℕ → ℕ → List ℕ → Type 0
Within t span [] = 0 ≤ span
Within t span (now ∷ times) = (now ≤ t + span) × Within t span times

unexpired :
    (ttl now : ℕ) (e : Entry) → now ≤ e.created + effective_ttl ttl e → is_expired ttl now e ≡ false
unfolding is_expired
unexpired ttl now e h = ground (arith, h)

get-look_all :
    (key : Text) (ttl : ℕ) (times : List ℕ) (e : Entry) (c : Cache)
    → get key c.mem ≡ some e
    → Within e.created (effective_ttl ttl e) times
    → get key (look_all key ttl times c).mem ≡ some e
unfolding look_all Within
get-look_all key ttl [] e c h within = h
get-look_all key ttl (now ∷ times) e c h within =
    get-look_all key ttl times e (lookup key ttl now c).0
      (get-lookup key ttl now e c h (unexpired ttl now e within.0)) within.1

get-store :
    (key body : Text) (stream : Bool) (stored max_entries t : ℕ) (c : Cache)
    → get key (store key body stream stored max_entries t c).mem
      ≡ some (record {
        body = body;
        stream = stream;
        hits = 0;
        created = t;
        ttl = stored;
        last_access = t;
      })
unfolding store enqueue
get-store key body stream stored max_entries t c = elim (Bool-cases (ltb 0 max_entries)) [
  | inl h ↦ rw h (get-mem_put key _ c.mem)
  | inr h ↦ rw h (get-mem_put key _ c.mem)
]

-- Where between the storing of a response and a lookup of its key there are only lookups of this key, by
-- the same time to live, none after the smaller of the two times to live has passed since the storing,
-- the lookup serves the response if that time has not passed, and misses if it has: the lookups in
-- between do not keep it alive.
pub lookup-store :
    (key body : Text) (stream : Bool) (stored ttl max_entries t now : ℕ) (times : List ℕ)
    (c : Cache)
    → 0 < stored
    → 0 < ttl
    → Within t (min stored ttl) times
    → (lookup key ttl now (look_all key ttl times (store key body stream stored max_entries t c))).1
      ≡ (if ltb (min stored ttl) (now - t) then none else some (body, stream, 1))
unfolding hit_of is_expired effective_ttl
lookup-store key body stream stored ttl max_entries t now times c hs ht within =
    let e : Entry = record {
      body = body;
      stream = stream;
      hits = 0;
      created = t;
      ttl = stored;
      last_access = t;
    } in
    let life : effective_ttl ttl e ≡ min stored ttl = ground arith in
    let kept =
      get-look_all key ttl times e (store key body stream stored max_entries t c)
        (get-store key body stream stored max_entries t c) (rw life within) in
    hit-lookup key ttl now e (look_all key ttl times (store key body stream stored max_entries t c))
      kept
    ∙ ground (arith, life)
