-- ===== src/RateLimit/Availability.antt =====
-- ratelimit.py against what it promises of one backend: a status that only the operations on that
-- backend change, and that every query reads.
use local_gateway.Prelude.{
  ltb, if◌then◌else◌, Bool-cases, ℤ, ◌==◌, nat_eq, int_eq, Text, text_eqb_iff, text_eq, contains,
  select, ℕ, ◌+◌, ◌≤◌, ◌≡◌, ◌↔◌, inl, inr, Bool, true, false, not, ◌||◌, Option, none, some, List,
  [], ◌∷◌, arith,
}
use local_gateway.Backend.{backend_key}
use local_gateway.Dict.{get}
use local_gateway.Dict.Laws.{dict_laws, get-remove}
use local_gateway.RateLimit.{
  RateLimit, hold, set_cooldown, snooze, snooze_permanent, unsnooze, clear, is_available, remaining,
  for_ms, initial, add, discard, retry_or_default,
}

unfoldable pub cooling : ℕ → Option ℕ → Bool
cooling t none = false
cooling t (some until) = ltb t until

-- Whether a key is excluded at a time.
unfoldable pub blocked : Text → ℕ → RateLimit → Bool
blocked key t r = contains key r.permanent || cooling t (get key r.cooldowns)

pub contains-add :
    (k j : Text) (s : List Text) → contains j (add k s) ≡ (if k == j then true else contains j s)
unfolding add contains
contains-add k j s = elim (Bool-cases (contains k s)) [
  | inl old ↦ ground (arith, old, text_eqb_iff k j)
  | inr new ↦ rw new (ground arith)
]

pub contains-discard :
    (k j : Text) (s : List Text)
    → contains j (discard k s) ≡ (if k == j then false else contains j s)
unfolding discard contains select
contains-discard k j [] = ground arith
contains-discard k j (i ∷ s) =
    ground (arith, contains-discard k j s, text_eqb_iff i k, text_eqb_iff i j, text_eqb_iff k j)

-- The status of one backend: a permanent snooze, and the end of its cooldown (0 if there is none).
pub record Status : Type 0 where
  pub permanent : Bool
  pub until : ℕ

unfoldable pub blocks : Status → ℕ → Bool
blocks s t = s.permanent || ltb t s.until

pub data Op : Type 0 where
  cool : Text → Text → Option ℤ → Op
  doze : Text → Text → ℤ → Op
  forbid : Text → Text → Op
  free : Text → Text → Op
  clear_all : Op
  query : Text → Text → Op

unfoldable pub apply : ℕ → Op → RateLimit → RateLimit
apply now (cool p m s) r = set_cooldown p m s now r
apply now (doze p m s) r = snooze p m s now r
apply now (forbid p m) r = snooze_permanent p m r
apply now (free p m) r = unsnooze p m r
apply now clear_all r = (clear r).0
apply now (query p m) r = (is_available p m now r).0

-- What an operation promises to do to the status of a key.
unfoldable pub effect : Text → ℕ → Op → Status → Status
unfolding retry_or_default
effect key now (cool p m s) st =
    if backend_key p m == key
    then record { permanent = st.permanent; until = now + hold (retry_or_default s) }
    else st
effect key now (doze p m s) st =
    if backend_key p m == key then record { permanent = false; until = now + hold s } else st
effect key now (forbid p m) st =
    if backend_key p m == key then record { permanent = true; until = 0 } else st
effect key now (free p m) st =
    if backend_key p m == key then record { permanent = false; until = 0 } else st
effect key now clear_all st = record { permanent = false; until = 0 }
effect key now (query p m) st = st

-- The state and a status agree on a key from a time on.
abbrev pub Agrees : Text → ℕ → RateLimit → Status → Type 0
Agrees key now r s =
    (t : ℕ)
    → now ≤ t
    → (contains key r.permanent ≡ s.permanent) × (cooling t (get key r.cooldowns) ≡ ltb t s.until)

nothing-Agrees :
    (key : Text) (now t : ℕ)
    → (contains key initial.permanent ≡ false) × (cooling t (get key initial.cooldowns) ≡ ltb t 0)
unfolding contains get cooling
nothing-Agrees key now t = ground arith

apply-Agrees :
    (key : Text) (now : ℕ) (op : Op) (r : RateLimit) (s : Status)
    → Agrees key now r s
    → Agrees key now (apply now op r) (effect key now op s)
unfolding apply effect set_cooldown snooze snooze_permanent unsnooze clear is_available cooling
apply-Agrees key now (cool p m s) r st h t late =
    let k = backend_key p m in simp dict_laws (ground (arith, text_eqb_iff k key, h t late))
apply-Agrees key now (doze p m s) r st h t late =
    let k = backend_key p m in
    simp (dict_laws, contains-discard) (ground (arith, text_eqb_iff k key, h t late))
apply-Agrees key now (forbid p m) r st h t late =
    let k = backend_key p m in
    simp (dict_laws, contains-add) (ground (arith, text_eqb_iff k key, h t late))
apply-Agrees key now (free p m) r st h t late =
    let k = backend_key p m in
    simp (dict_laws, contains-discard) (ground (arith, text_eqb_iff k key, h t late))
apply-Agrees key now clear_all r st h t late = nothing-Agrees key now t
apply-Agrees key now (query p m) r st h t late =
    let k = backend_key p m in
    ground (arith, text_eqb_iff k key, h t late, get-remove k key r.cooldowns)

-- Operations at times that do not go back.
abbrev pub InOrder : ℕ → List (ℕ × Op) → Type 0
InOrder t [] = Unit
InOrder t ((now, op) ∷ ops) = (t ≤ now) × InOrder now ops

unfoldable pub run : List (ℕ × Op) → RateLimit → RateLimit
run [] r = r
run ((now, op) ∷ ops) r = run ops (apply now op r)

unfoldable pub run_status : Text → List (ℕ × Op) → Status → Status
run_status key [] s = s
run_status key ((now, op) ∷ ops) s = run_status key ops (effect key now op s)

unfoldable pub last_time : ℕ → List (ℕ × Op) → ℕ
last_time t [] = t
last_time t ((now, op) ∷ ops) = last_time now ops

run-Agrees :
    (key : Text) (t : ℕ) (ops : List (ℕ × Op)) (r : RateLimit) (s : Status)
    → InOrder t ops
    → Agrees key t r s
    → Agrees key (last_time t ops) (run ops r) (run_status key ops s)
unfolding run run_status last_time
run-Agrees key t [] r s h a = a
run-Agrees key t ((now, op) ∷ ops) r s h a =
    run-Agrees key now ops (apply now op r) (effect key now op s) h.1
      (apply-Agrees key now op r s (λ u late. a u (omega arith)))

-- After any operations on any backends, at times that do not go back, `is_available` says of a
-- backend what its status says: only the operations on it count, and no query changes an answer.
pub is_available-run :
    (p m : Text) (ops : List (ℕ × Op)) (now : ℕ)
    → InOrder 0 ops
    → last_time 0 ops ≤ now
    → (is_available p m now (run ops initial)).1
      ≡ not
          (blocks (run_status (backend_key p m) ops (record { permanent = false; until = 0 })) now)
unfolding is_available blocks
is_available-run p m ops now h late =
    let key = backend_key p m in
    let start : Agrees key 0 initial (record { permanent = false; until = 0 }) =
      λ t _. nothing-Agrees key 0 t in
    unfold cooling in
    ground (
      arith,
      run-Agrees key 0 ops initial (record { permanent = false; until = 0 }) h start now late,
    )

-- `remaining` is 0 exactly if the backend is available.
pub remaining-is_available :
    (p m : Text) (now : ℕ) (r : RateLimit)
    → ((is_available p m now r).1 ≡ true) ↔ (remaining p m now r ≡ for_ms 0)
unfolding is_available remaining
remaining-is_available p m now r = ground arith
