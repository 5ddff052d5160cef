-- ===== src/RespCache/Capacity.antt =====
-- The memory of respcache.py stays within its capacity.
use local_gateway.Dict.Laws.{length-remove-has, length-remove}
use local_gateway.Prelude.{
  ltb, Bool-cases, Option-cases, nat_eq, int_eq, Text, text_eq, length, length-append, ℕ, ◌-◌, ◌≤◌,
  ◌≡◌, refl, inl, inr, Bool, true, Option, none, some, List, [], ◌∷◌, arith,
}
use local_gateway.Dict.{Dict, get, has, remove}
use local_gateway.Prelude.Recent.{length-drop}
use local_gateway.RespCache.{
  Entry, mem_capacity, move_to_end, mem_put, Cache, lookup_in, lookup, store, lookup_mem,
  write_back, clear, lookup_rows, enqueue, is_expired,
}

length-mem_put :
    (key : Text) (e : Entry) (mem : Dict Text Entry) → length (mem_put key e mem) ≤ mem_capacity
unfolding mem_put
length-mem_put key e mem =
    omega
      (arith, length-drop (length (move_to_end key e mem) - mem_capacity) (move_to_end key e mem))

has-get :
    (key : Text) (e : Entry) (mem : Dict Text Entry) → get key mem ≡ some e → has key mem ≡ true
unfolding get has
has-get key e [] h = cc
has-get key e ((k, v) ∷ mem) h = ground (arith, has-get key e mem)

length-move_to_end :
    (key : Text) (e : Entry) (mem : Dict Text Entry)
    → has key mem ≡ true
    → length (move_to_end key e mem) ≤ length mem
unfolding move_to_end
length-move_to_end key e mem h =
    omega (arith, length-append (remove key mem) ((key, e) ∷ []), length-remove-has key mem h)

pub data Op : Type 0 where
  look : Text → ℕ → ℕ → Op
  put : Text → Text → Bool → ℕ → ℕ → ℕ → Op
  settle wipe : Op

unfoldable pub after : Op → Cache → Cache
after (look key ttl now) c = (lookup key ttl now c).0
after (put key body stream ttl max_entries now) c = store key body stream ttl max_entries now c
after settle c = write_back c
after wipe c = (clear c).0

unfoldable pub run : List Op → Cache → Cache
run [] c = c
run (op ∷ ops) c = run ops (after op c)

mem-lookup_in :
    (o : Option Entry) (key : Text) (ttl now : ℕ) (c : Cache)
    → get key c.mem ≡ o
    → length c.mem ≤ mem_capacity
    → length (lookup_in o key ttl now c).0.mem ≤ mem_capacity
unfolding lookup_in lookup_mem lookup_rows enqueue
mem-lookup_in none key ttl now c e h = elim (Option-cases (get key c.rows)) [
  | inl gone ↦ rw gone h
  | inr (row, found) ↦ rw found (elim (Bool-cases (is_expired ttl now row)) [
    | inl old ↦ rw old h
    | inr fresh ↦ rw fresh (length-mem_put key (record row { last_access = now }) c.mem)
  ])
]
mem-lookup_in (some v) key ttl now c e h = elim (Bool-cases (is_expired ttl now v)) [
  | inl old ↦ rw old (omega (arith, h, length-remove key c.mem))
  | inr fresh ↦ rw fresh (omega (arith, h, length-move_to_end key v c.mem (has-get key v c.mem e)))
]

mem-after :
    (op : Op) (c : Cache) → length c.mem ≤ mem_capacity → length (after op c).mem ≤ mem_capacity
unfolding after lookup write_back clear store enqueue
mem-after (look key ttl now) c h = mem-lookup_in (get key c.mem) key ttl now c refl h
mem-after (put key body stream ttl max_entries now) c h = elim (Bool-cases (ltb 0 max_entries)) [
  | inl some_bound ↦ rw some_bound (length-mem_put key _ c.mem)
  | inr none_set ↦ rw none_set (length-mem_put key _ c.mem)
]
mem-after settle c h = h
mem-after wipe c h = omega arith

-- Whatever is stored, looked up, written back and cleared, the memory never holds more than 256
-- responses.
pub run-bounded :
    (ops : List Op) (c : Cache)
    → length c.mem ≤ mem_capacity
    → length (run ops c).mem ≤ mem_capacity
unfolding run
run-bounded [] c h = h
run-bounded (op ∷ ops) c h = run-bounded ops (after op c) (mem-after op c h)
