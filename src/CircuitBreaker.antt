-- ===== src/CircuitBreaker.antt =====
-- localgateway/circuitbreaker.py: the circuits of the backends. Times and durations are whole
-- milliseconds; `now` is `time.monotonic()`, `wall` is `time.time()`. A call returns the new state
-- with its result and with the log lines, alerts and events that it sends.
pub mod Trace
pub mod Opening
pub mod Bounds
use local_gateway.Prelude.{
  ltb, leb, if◌then◌else◌, ℤ, pos, eqb_ℤ, at_least, nat_eq, int_eq, Text, text_eq, length, take,
  is_empty, concat_map, ℕ, ◌+◌, ◌-◌, ◌*◌, ◌^◌, min, Bool, true, false, ◌&&◌, Option, none, some,
  List, [], ◌∷◌, map, arith,
}
use local_gateway.Backend.{backend_key}
use local_gateway.Dict.{Dict, get, get_default, has, set, remove, keys}

abbrev pub max_backoff : ℕ
max_backoff = 1800000

pub record Circuit : Type 0 where
  pub consecutive_failures : ℕ
  pub open_until : ℕ
  pub trips : ℕ
  pub last_error : Option Text
  pub last_trip_ts : Option ℕ

abbrev pub new_circuit : Circuit
new_circuit = record {
  consecutive_failures = 0;
  open_until = 0;
  trips = 0;
  last_error = none;
  last_trip_ts = none;
}

pub record Settings : Type 0 where
  pub enabled : Bool
  pub threshold : ℕ
  pub backoff : ℕ

pub record Breaker : Type 0 where
  pub circuits : Dict Text Circuit
  pub settings : Settings

-- What a call sends: `logs.error`, `alerts.send`, `events.bump_state_version`, `events.publish`.
pub data Notice : Type 0 where
  open_log : Text → ℕ → ℕ → Notice
  open_alert : Text → Text → Notice
  bump_version : Notice
  trip_event : Text → Text → Notice
  reset_event : Text → Notice

-- `int(threshold or 3)` and `float(backoff_s or 60.0)`: zero is falsy.
or_default : ℤ → ℕ → ℤ
or_default z d = if eqb_ℤ z (pos 0) then pos d else z

unfoldable pub configure : Bool → ℤ → ℤ → Breaker → Breaker
unfolding or_default
configure enabled threshold backoff b = record b {
  settings = record {
    enabled = enabled;
    threshold = at_least 1 (or_default threshold 3);
    backoff = at_least 50 (or_default backoff 60000);
  };
}

-- min(_backoff_s * 2 ** (trips - 1), MAX_BACKOFF_S), exact: Python's float overflows from trip 1025 on.
unfoldable pub backoff_of : Settings → ℕ → ℕ
backoff_of s trips = min (s.backoff * 2 ^ (trips - 1)) max_backoff

unfoldable pub error_text : Option Text → Text
error_text none = []
error_text (some e) = take 300 e

-- The `if success:` branch.
unfoldable pub close_circuit : Circuit → Circuit
close_circuit c = record c { consecutive_failures = 0; trips = 0; open_until = 0 }

unfoldable pub note_failure : Option Text → Circuit → Circuit
unfolding error_text
note_failure error c = record c {
  consecutive_failures = c.consecutive_failures + 1;
  last_error = some (error_text error);
}

unfoldable pub should_trip : Settings → ℕ → Circuit → Bool
should_trip s now c = s.enabled && leb s.threshold c.consecutive_failures && leb c.open_until now

unfoldable pub trip : Settings → ℕ → ℕ → Circuit → Circuit
unfolding backoff_of
trip s now wall c = record c {
  trips = c.trips + 1;
  open_until = now + backoff_of s (c.trips + 1);
  last_trip_ts = some wall;
}

-- The circuit after an outcome, and whether the outcome tripped it.
unfoldable pub step : Settings → Bool → Option Text → ℕ → ℕ → Circuit → Circuit × Bool
unfolding close_circuit note_failure should_trip trip
step s true error now wall c = (close_circuit c, false)
step s false error now wall c =
    let failed = note_failure error c in
    if should_trip s now failed then (trip s now wall failed, true) else (failed, false)

trip_notices : Settings → Text → Option Text → Circuit → List Notice
unfolding backoff_of error_text
trip_notices s key error c =
    open_log key s.threshold (backoff_of s c.trips)
    ∷ open_alert key (error_text error)
    ∷ bump_version
    ∷ trip_event key (error_text error)
    ∷ []

unfoldable pub record_outcome :
    Text → Text → Bool → Option Text → ℕ → ℕ → Breaker → Breaker × Bool × List Notice
unfolding step trip_notices
record_outcome provider_id model success error now wall b =
    let key = backend_key provider_id model in
    let (c, tripped) =
      step b.settings success error now wall (get_default key new_circuit b.circuits) in
    (
      record b { circuits = set key c b.circuits },
      tripped,
      (if tripped then trip_notices b.settings key error c else []),
    )

circuit_open : ℕ → Option Circuit → Bool
circuit_open now none = false
circuit_open now (some c) = if leb c.open_until 0 then false else ltb now c.open_until

unfoldable pub is_open : Text → Text → ℕ → Breaker → Bool
unfolding circuit_open
is_open provider_id model now b =
    if b.settings.enabled
    then circuit_open now (get (backend_key provider_id model) b.circuits)
    else false

reset_notices : List Text → List Notice
unfolding concat_map
reset_notices = concat_map (λ key. bump_version ∷ reset_event key ∷ [])

-- `provider_id` and `model` are both given and not empty, or all circuits are reset.
one_backend : Option Text → Option Text → Option Text
one_backend (some p) (some m) =
    if is_empty p then none else if is_empty m then none else some (backend_key p m)
one_backend _ _ = none

reset_one : Text → Breaker → Breaker × ℕ × List Notice
unfolding reset_notices
reset_one key b =
    if has key b.circuits
    then (record b { circuits = remove key b.circuits }, 1, reset_notices (key ∷ []))
    else (b, 0, [])

unfoldable pub reset : Option Text → Option Text → Breaker → Breaker × ℕ × List Notice
unfolding one_backend reset_one reset_notices
reset provider_id model b = elim (one_backend provider_id model) [
  | some key ↦ reset_one key b
  | none ↦ (record b { circuits = [] }, length b.circuits, reset_notices (keys b.circuits))
]

pub record View : Type 0 where
  pub consecutive_failures : ℕ
  pub is_open : Bool
  pub open_remaining : ℕ
  pub trips : ℕ
  pub last_error : Option Text
  pub last_trip_ts : Option ℕ

-- One entry of the snapshot; the rounding to tenths of a second is left to the printing.
view : Bool → ℕ → Circuit → View
view enabled now c =
    let remaining = if ltb now c.open_until then c.open_until - now else 0 in
    record {
      consecutive_failures = c.consecutive_failures;
      is_open = enabled && ltb 0 remaining;
      open_remaining = remaining;
      trips = c.trips;
      last_error = c.last_error;
      last_trip_ts = c.last_trip_ts;
    }

unfoldable pub snapshot : ℕ → Breaker → Dict Text View
unfolding view
snapshot now b = map (λ entry. (entry.0, view b.settings.enabled now entry.1)) b.circuits

abbrev pub initial : Breaker
initial = record {
  circuits = [];
  settings = record { enabled = false; threshold = 3; backoff = 60000 };
}
