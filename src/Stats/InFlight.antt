-- ===== src/Stats/InFlight.antt =====
-- Requests in flight, as stats.py counts them.
use local_gateway.Prelude.{
  if◌then◌else◌, ◌==◌, nat_eq, int_eq, Text, text_eqb_iff, text_eq, ℕ, ◌+◌, ◌-◌, ◌≡◌, refl, ap, ◌∙◌,
  Bool, true, false, Option, arith,
}
use local_gateway.Backend.{backend_key}
use local_gateway.Dict.{get_default}
use local_gateway.Dict.Laws.{get_default-set}
use local_gateway.Stats.{
  Entry, Registry, new_entry, update, start_request, end_request, record_success, record_failure,
}

unfoldable pub in_flight : Text → Registry → ℕ
in_flight key r = (get_default key new_entry r).in_flight

-- An update that acts on the number in flight by `g` acts on the key's number by `g`.
in_flight-update :
    (key k : Text) (f : Entry → Entry) (g : ℕ → ℕ) (r : Registry)
    → ((e : Entry) → (f e).in_flight ≡ g e.in_flight)
    → in_flight key (update k f r) ≡ (if k == key then g (in_flight key r) else in_flight key r)
unfolding in_flight update
in_flight-update key k f g r h =
    let e = get_default k new_entry r in
    ground (
      arith,
      get_default-set k key new_entry (f e) r,
      h e,
      text_eqb_iff k key,
      ap (λ j. (get_default j new_entry r).in_flight),
    )

pub in_flight-start_request :
    (key p m : Text) (r : Registry)
    → in_flight key (start_request p m r)
      ≡ (if backend_key p m == key then in_flight key r + 1 else in_flight key r)
unfolding start_request
in_flight-start_request key p m r =
    in_flight-update key (backend_key p m) _ (λ n. n + 1) r (λ e. refl)

pub in_flight-end_request :
    (key p m : Text) (r : Registry)
    → in_flight key (end_request p m r)
      ≡ (if backend_key p m == key then in_flight key r - 1 else in_flight key r)
unfolding end_request
in_flight-end_request key p m r =
    in_flight-update key (backend_key p m) _ (λ n. n - 1) r (λ e. ground arith)

same_if : (b : Bool) (n : ℕ) → (if b then n else n) ≡ n
same_if true n = refl
same_if false n = refl

pub in_flight-record_success :
    (key p m : Text) (latency_ms ttft_ms : Option ℕ) (now : ℕ) (r : Registry)
    → in_flight key (record_success p m latency_ms ttft_ms now r) ≡ in_flight key r
unfolding record_success
in_flight-record_success key p m latency_ms ttft_ms now r =
    in_flight-update key (backend_key p m) _ (λ n. n) r (λ e. refl)
    ∙ same_if (backend_key p m == key) (in_flight key r)

pub in_flight-record_failure :
    (key p m : Text) (error : Option Text) (now : ℕ) (r : Registry)
    → in_flight key (record_failure p m error now r) ≡ in_flight key r
unfolding record_failure
in_flight-record_failure key p m error now r =
    in_flight-update key (backend_key p m) _ (λ n. n) r (λ e. refl)
    ∙ same_if (backend_key p m == key) (in_flight key r)
