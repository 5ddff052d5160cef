-- ===== src/RespCache.antt =====
-- localgateway/respcache.py: `lookup`, `store` and `clear`. Times and times to live are whole
-- milliseconds. `mem` is the OrderedDict, oldest first; `rows` the table, and `pending` the statements
-- that the writer has still to execute on it. The requests' fingerprints are hashlib's.
pub mod Expiry
pub mod Capacity
use local_gateway.Prelude.{
  ltb, eqb, if◌then◌else◌, nat_eq, int_eq, Text, text_eq, length, take, drop, sort_by, ℕ, ◌+◌, ◌-◌,
  min, Bool, ◌&&◌, Option, none, some, List, [], ◌∷◌, ◌++◌, arith,
}
use local_gateway.Dict.{Dict, get, set, remove, keys}

abbrev pub mem_capacity : ℕ
mem_capacity = 256

pub record Entry : Type 0 where
  pub body : Text
  pub stream : Bool
  pub hits : ℕ
  pub created : ℕ
  pub ttl : ℕ
  pub last_access : ℕ

-- The statements of the source, with their parameters.
pub data Statement : Type 0 where
  delete : Text → Statement
  touch : Text → ℕ → Statement
  insert : Text → Entry → Statement
  trim : ℕ → Statement

pub record Cache : Type 0 where
  pub mem : Dict Text Entry
  pub rows : Dict Text Entry
  pub pending : List Statement

unfoldable pub touched : Option Entry → Text → ℕ → Dict Text Entry → Dict Text Entry
touched none key now rows = rows
touched (some e) key now rows = set key (record e { hits = e.hits + 1; last_access = now }) rows

unfoldable pub remove_all : List Text → Dict Text Entry → Dict Text Entry
remove_all [] rows = rows
remove_all (k ∷ ks) rows = remove_all ks (remove k rows)

unfoldable pub older : Text × Entry → Text × Entry → Bool
older a b = ltb a.1.last_access b.1.last_access

-- What a statement does to the table.
unfoldable pub execute : Statement → Dict Text Entry → Dict Text Entry
unfolding older
execute (delete key) rows = remove key rows
execute (touch key now) rows = touched (get key rows) key now rows
execute (insert key e) rows = set key e rows
execute (trim n) rows = remove_all (take (length rows - n) (keys (sort_by older rows))) rows

unfoldable pub execute_all : List Statement → Dict Text Entry → Dict Text Entry
execute_all [] rows = rows
execute_all (s ∷ ss) rows = execute_all ss (execute s rows)

-- The writer has caught up.
unfoldable pub write_back : Cache → Cache
write_back c = record c { rows = execute_all c.pending c.rows; pending = [] }

unfoldable pub enqueue : Statement → Cache → Cache
enqueue s c = record c { pending = c.pending ++ s ∷ [] }

unfoldable pub move_to_end : Text → Entry → Dict Text Entry → Dict Text Entry
move_to_end key e mem = remove key mem ++ (key, e) ∷ []

-- while len(_mem) > _MEM_CAPACITY: _mem.popitem(last=False)
unfoldable pub mem_put : Text → Entry → Dict Text Entry → Dict Text Entry
mem_put key e mem = let grown = move_to_end key e mem in drop (length grown - mem_capacity) grown

unfoldable pub effective_ttl : ℕ → Entry → ℕ
effective_ttl ttl e = if eqb e.ttl 0 then ttl else min e.ttl ttl

unfoldable pub is_expired : ℕ → ℕ → Entry → Bool
is_expired ttl now e = ltb 0 (effective_ttl ttl e) && ltb (effective_ttl ttl e) (now - e.created)

abbrev pub Hit : Type 0
Hit = Option (Text × Bool × ℕ)

unfoldable pub hit_of : Entry → Hit
hit_of e = some (e.body, e.stream, e.hits + 1)

unfoldable pub lookup_mem : Entry → Text → ℕ → ℕ → Cache → Cache × Hit
lookup_mem e key ttl now c =
    if is_expired ttl now e
    then (enqueue (delete key) (record c { mem = remove key c.mem }), none)
    else (enqueue (touch key now) (record c { mem = move_to_end key e c.mem }), hit_of e)

unfoldable pub lookup_rows : Option Entry → Text → ℕ → ℕ → Cache → Cache × Hit
lookup_rows none key ttl now c = (c, none)
lookup_rows (some e) key ttl now c =
    if is_expired ttl now e then (enqueue (delete key) c, none) else (
      enqueue (touch key now)
          (record c { mem = mem_put key (record e { last_access = now }) c.mem }),
      hit_of e,
    )

unfoldable pub lookup_in : Option Entry → Text → ℕ → ℕ → Cache → Cache × Hit
lookup_in none key ttl now c = lookup_rows (get key c.rows) key ttl now c
lookup_in (some e) key ttl now c = lookup_mem e key ttl now c

unfoldable pub lookup : Text → ℕ → ℕ → Cache → Cache × Hit
lookup key ttl now c = lookup_in (get key c.mem) key ttl now c

unfoldable pub store : Text → Text → Bool → ℕ → ℕ → ℕ → Cache → Cache
store key body stream ttl max_entries now c =
    let e : Entry = record {
      body = body;
      stream = stream;
      hits = 0;
      created = now;
      ttl = ttl;
      last_access = now;
    } in
    let stored = enqueue (insert key e) (record c { mem = mem_put key e c.mem }) in
    if ltb 0 max_entries then enqueue (trim max_entries) stored else stored

-- The number of rows deleted; what the writer still has to execute stays.
unfoldable pub clear : Cache → Cache × ℕ
clear c = (record c { mem = []; rows = [] }, length c.rows)
