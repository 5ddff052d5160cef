-- ===== src/RateLimit.antt =====
-- localgateway/ratelimit.py: cooldowns and snoozes of backends. Times are whole milliseconds: `now`
-- is `time.monotonic()`, `wall` is `time.time()`. The snooze file is a value: `none` where it is
-- missing or cannot be read.
pub mod Availability
pub mod Restart
use local_gateway.Prelude.{
  ltb, leb, eqb, if◌then◌else◌, ℤ, pos, at_least, ◌==◌, nat_eq, int_eq, Text, text_eq, contains,
  length, select, ℕ, ◌+◌, ◌-◌, Bool, true, false, not, Option, none, some, List, [], ◌∷◌, ◌++◌,
  arith,
}
use local_gateway.Backend.{backend_key, colon}
use local_gateway.Dict.{Dict, get, has, set, remove}

-- A Python set of texts, as a list; `add` keeps one copy, `discard` drops it.
unfoldable pub add : Text → List Text → List Text
add k s = if contains k s then s else k ∷ s

unfoldable pub discard : Text → List Text → List Text
discard k = select (λ j. not (j == k))

-- `cooldowns` maps a key to the time until which it is cooled down.
pub record RateLimit : Type 0 where
  pub cooldowns : Dict Text ℕ
  pub permanent : List Text

pub record SnoozeFile : Type 0 where
  pub permanent : List Text
  pub timed : Dict Text ℕ

-- `max(0.1, float(retry_after))`
abbrev hold : ℤ → ℕ
hold = at_least 100

retry_or_default : Option ℤ → ℤ
retry_or_default none = pos 5000
retry_or_default (some s) = s

unfoldable pub set_cooldown : Text → Text → Option ℤ → ℕ → RateLimit → RateLimit
unfolding retry_or_default
set_cooldown provider_id model retry_after now r = record r {
  cooldowns =
      set (backend_key provider_id model) (now + hold (retry_or_default retry_after)) r.cooldowns;
}

unfoldable pub snooze : Text → Text → ℤ → ℕ → RateLimit → RateLimit
snooze provider_id model seconds now r =
    let key = backend_key provider_id model in
    record {
      cooldowns = set key (now + hold seconds) r.cooldowns;
      permanent = discard key r.permanent;
    }

unfoldable pub snooze_permanent : Text → Text → RateLimit → RateLimit
snooze_permanent provider_id model r =
    let key = backend_key provider_id model in
    record { cooldowns = remove key r.cooldowns; permanent = add key r.permanent }

unfoldable pub unsnooze : Text → Text → RateLimit → RateLimit
unsnooze provider_id model r =
    let key = backend_key provider_id model in
    record { cooldowns = remove key r.cooldowns; permanent = discard key r.permanent }

-- Whether the state is saved is the third part of the result.
unfoldable pub clear : RateLimit → RateLimit × ℕ × Bool
clear r =
    let count = length r.permanent + length r.cooldowns in
    (record { cooldowns = []; permanent = [] }, count, not (eqb count 0))

-- The `else` part of `is_available`, by the cooldown of the key.
check_cooldown : Text → ℕ → Option ℕ → RateLimit → RateLimit × Bool
check_cooldown key now none r = (r, true)
check_cooldown key now (some until) r =
    if leb until now then (record r { cooldowns = remove key r.cooldowns }, true) else (r, false)

unfoldable pub is_available : Text → Text → ℕ → RateLimit → RateLimit × Bool
unfolding check_cooldown
is_available provider_id model now r =
    let key = backend_key provider_id model in
    if contains key r.permanent then (r, false) else check_cooldown key now (get key r.cooldowns) r

pub data Remaining : Type 0 where
  forever : Remaining
  for_ms : ℕ → Remaining

unfoldable pub remaining : Text → Text → ℕ → RateLimit → Remaining
remaining provider_id model now r =
    let key = backend_key provider_id model in
    if contains key r.permanent
    then forever
    else elim (get key r.cooldowns) [ none ↦ for_ms 0 | some until ↦ for_ms (until - now) ]

-- `k.startswith(prefix)`, with the rest of the text.
unfoldable pub strip_prefix : Text → Text → Option Text
strip_prefix [] k = some k
strip_prefix (c ∷ p) [] = none
strip_prefix (c ∷ p) (d ∷ k) = if c == d then strip_prefix p k else none

renamed : Text → Text → Text → Option Text
renamed old_id new_id k = elim (strip_prefix (old_id ++ (colon ∷ [])) k) [
  | none ↦ none
  | some rest ↦ some (backend_key new_id rest)
]

-- The loops of `rename_provider`: each goes over the old keys and changes a copy.
rename_permanent : Text → Text → List Text → List Text × ℕ → List Text × ℕ
rename_permanent old_id new_id [] acc = acc
rename_permanent old_id new_id (k ∷ ks) (s, moved) =
    rename_permanent old_id new_id ks (elim (renamed old_id new_id k) [
      | none ↦ (s, moved)
      | some k' ↦ (add k' (discard k s), moved + 1)
    ])

rename_cooldowns : Text → Text → Dict Text ℕ → Dict Text ℕ × ℕ → Dict Text ℕ × ℕ
rename_cooldowns old_id new_id [] acc = acc
rename_cooldowns old_id new_id ((k, until) ∷ ks) (d, moved) =
    rename_cooldowns old_id new_id ks (elim (renamed old_id new_id k) [
      | none ↦ (d, moved)
      | some k' ↦ (set k' until (remove k d), moved + 1)
    ])

unfoldable pub rename_provider : Text → Text → RateLimit → RateLimit × ℕ × Bool
unfolding rename_permanent rename_cooldowns renamed
rename_provider old_id new_id r =
    let (perm, m) = rename_permanent old_id new_id r.permanent (r.permanent, 0) in
    let (cool, n) = rename_cooldowns old_id new_id r.cooldowns (r.cooldowns, m) in
    (record { cooldowns = cool; permanent = perm }, n, not (eqb n 0))

-- The timed part of the saved file: cooldowns that are not permanent and not over, with the wall
-- clock's time at which they end.
save_timed : ℕ → ℕ → List Text → Dict Text ℕ → Dict Text ℕ
save_timed now wall permanent [] = []
save_timed now wall permanent ((k, until) ∷ d) =
    let rest = save_timed now wall permanent d in
    if contains k permanent
    then rest
    else if ltb now until
    then (k, wall + (until - now)) ∷ rest
    else rest

unfoldable pub save : ℕ → ℕ → RateLimit → SnoozeFile
unfolding save_timed
save now wall r = record {
  permanent = r.permanent;
  timed = save_timed now wall r.permanent r.cooldowns;
}

load_timed : ℕ → ℕ → Dict Text ℕ → Dict Text ℕ → Dict Text ℕ
load_timed now wall [] d = d
load_timed now wall ((k, expiry) ∷ ts) d =
    load_timed now wall ts (if ltb wall expiry then set k (now + (expiry - wall)) d else d)

unfoldable pub load_from_file : ℕ → ℕ → Option SnoozeFile → RateLimit → RateLimit
unfolding load_timed
load_from_file now wall none r = r
load_from_file now wall (some f) r = record {
  permanent = f.permanent;
  cooldowns = load_timed now wall f.timed r.cooldowns;
}

abbrev pub initial : RateLimit
initial = record { cooldowns = []; permanent = [] }
