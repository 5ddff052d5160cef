-- ===== src/RateLimit/Restart.antt =====
-- The snooze file of ratelimit.py carries the state across a restart, in which the monotonic clock
-- starts anew and the wall clock goes on.
use local_gateway.Prelude.{
  ltb, if◌then◌else◌, nat_eq, int_eq, Text, text_eqb_iff, text_eq, contains, ℕ, ◌+◌, ◌-◌, ◌≡◌, refl,
  false, none, some, List, [], ◌∷◌, arith,
}
use local_gateway.Backend.{backend_key}
use local_gateway.Dict.{Dict, get, has, set}
use local_gateway.Dict.Laws.{IsDict, get-set, get-absent}
use local_gateway.RateLimit.{
  RateLimit, initial, save, save_timed, load_from_file, load_timed, is_available,
}

save_timed-permanent :
    (now wall : ℕ) (ks : List Text) (d : Dict Text ℕ) (key : Text)
    → has key d ≡ false
    → has key (save_timed now wall ks d) ≡ false
unfolding save_timed has
save_timed-permanent now wall ks [] key h = refl
save_timed-permanent now wall ks ((k, until) ∷ d) key h =
    ground (arith, save_timed-permanent now wall ks d key)

-- What loading the saved cooldowns over other ones leaves at a key.
load-save :
    (now wall now' down : ℕ) (ks : List Text) (d e : Dict Text ℕ) (key : Text)
    → IsDict d
    → get key (load_timed now' (wall + down) (save_timed now wall ks d) e) ≡ (
        if contains key ks then get key e else elim (get key d) [
          | none ↦ get key e
          | some until ↦
              if ltb (now + down) until then some (now' + (until - (now + down))) else get key e
        ])
unfolding load_timed save_timed get
load-save now wall now' down ks [] e key h = ground arith
load-save now wall now' down ks ((k, until) ∷ d) e key h =
    let v = now' + (wall + (until - now) - (wall + down)) in
    ground (
      arith,
      text_eqb_iff k key,
      get-set k key v e,
      get-absent k d h.0,
      load-save now wall now' down ks d e key h.1,
      load-save now wall now' down ks d (set k v e) key h.1,
    )

get-nil : (key : Text) → get {V = ℕ} key [] ≡ none
unfolding get
get-nil key = refl

-- A gateway that is stopped at a time and started again some time later, with its monotonic clock
-- at any other value, excludes at every later time the same backends as one that ran on.
pub load_from_file-save :
    (p m : Text) (r : RateLimit) (now wall now' down later : ℕ)
    → IsDict r.cooldowns
    → (is_available p m
        (now' + later)
        (load_from_file now' (wall + down) (some (save now wall r)) initial)).1
      ≡ (is_available p m (now + down + later) r).1
unfolding is_available load_from_file save
load_from_file-save p m r now wall now' down later h =
    let key = backend_key p m in
    ground (arith, get-nil key, load-save now wall now' down r.permanent r.cooldowns [] key h)
