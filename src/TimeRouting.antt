-- ===== src/TimeRouting.antt =====
-- localgateway/time_routing.py: the slot of a model that is active now. The conversion of an instant
-- to a time zone is `zoneinfo`'s: the caller gives the local time in every zone.
use local_gateway.Prelude.{
  leb, if◌then◌else◌, Bool-cases, nat_eq, int_eq, Text, text_eq, contains, is_empty, select, any, ℕ,
  ◌+◌, ◌-◌, ◌%◌, ◌<◌, ◌≡◌, refl, ap, inl, inr, Bool, true, false, not, ◌&&◌, ◌||◌, Option, none,
  some, List, [], ◌∷◌, ◌++◌, arith,
}
use local_gateway.Backend.{backend_key}
use local_gateway.Config.{TimeSlot}

-- `weekday()` (0 is Monday) and `hour` of a `datetime`.
pub record LocalTime : Type 0 where
  pub weekday : ℕ
  pub hour : ℕ

unfoldable pub hour_in_range : ℕ → ℕ → ℕ → Bool
hour_in_range hour start end =
    if leb start end then leb start hour && leb hour end else leb start hour || leb hour end

unfoldable pub slot_matches : TimeSlot → LocalTime → Bool
unfolding hour_in_range
slot_matches slot now =
    if not slot.enabled
    then false
    else if not (is_empty slot.days_of_week) && not (contains now.weekday slot.days_of_week)
    then false
    else hour_in_range now.hour slot.start_hour slot.end_hour

first_match : LocalTime → List TimeSlot → Option TimeSlot
first_match now [] = none
first_match now (slot ∷ slots) = if slot_matches slot now then some slot else first_match now slots

unfoldable pub get_active_slot : List TimeSlot → Text → (Text → LocalTime) → Option TimeSlot
unfolding first_match
get_active_slot slots tz_name local = first_match (local tz_name) slots

unfoldable pub filter_backends_for_slot : List (Text × Text) → TimeSlot → List (Text × Text)
filter_backends_for_slot backends slot =
    if is_empty slot.active_providers
    then backends
    else select (λ b. contains (backend_key b.0 b.1) slot.active_providers) backends

-- For hours of the day, the window of a slot is the cyclic interval from its start to its end: the
-- hours that are reached from the start no later than the end is.
pub hour_in_range-cyclic :
    (hour start end : ℕ)
    → hour < 24
    → start < 24
    → end < 24
    → hour_in_range hour start end ≡ leb ((hour + 24 - start) % 24) ((end + 24 - start) % 24)
unfolding hour_in_range
hour_in_range-cyclic hour start end h s e = ground arith

first_match-split :
    (now : LocalTime) (slots : List TimeSlot) (slot : TimeSlot)
    → first_match now slots ≡ some slot
    → (before after : List TimeSlot) × (slots ≡ before ++ slot ∷ after)
      × (slot_matches slot now ≡ true)
      × (any (λ s. slot_matches s now) before ≡ false)
unfolding first_match any
first_match-split now [] slot h = cc
first_match-split now (s ∷ slots) slot h = elim (Bool-cases (slot_matches s now)) [
  | inl yes' ↦
      let same : s ≡ slot = ground arith in
      ([], slots, ap (λ x. x ∷ slots) same, rw (← same) yes', refl)
  | inr no' ↦
      let (before, after, e, fits, none_before) =
        first_match-split now slots slot (rw (no', first_match) at h) in
      (s ∷ before, after, ap (λ l. s ∷ l) e, fits, rw no' none_before)
]

-- The active slot matches the local time of the model's zone, and no slot before it does.
pub get_active_slot-first :
    (slots : List TimeSlot) (tz_name : Text) (local : Text → LocalTime) (slot : TimeSlot)
    → get_active_slot slots tz_name local ≡ some slot
    → (before after : List TimeSlot) × (slots ≡ before ++ slot ∷ after)
      × (slot_matches slot (local tz_name) ≡ true)
      × (any (λ s. slot_matches s (local tz_name)) before ≡ false)
unfolding get_active_slot
get_active_slot-first slots tz_name local slot h = first_match-split (local tz_name) slots slot h
