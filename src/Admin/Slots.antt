-- ===== src/Admin/Slots.antt =====
-- localgateway/endpoints/admin.py: the handlers of the time slots of a model. `lower` is Python's; a body
-- is what pydantic makes of it, none where it is refused.
pub mod Created
use local_gateway.Prelude.{
  ltb, leb, eqb, if◌then◌else◌, ◌==◌, nat_eq, int_eq, Text, text_eq, length, is_empty, select, any,
  ℕ, ◌+◌, ◌/◌, ◌%◌, Bool, true, false, not, ◌&&◌, ◌||◌, Option, none, some, List, [], ◌∷◌, ◌++◌,
  arith,
}
use local_gateway.Config.{GatewayConfig, ModelConfig, TimeSlot, TimeRoutingConfig, model_by_id}
use local_gateway.Admin.{Outcome, saved, refused}
use local_gateway.Admin.Models.{change_found}

abbrev pub dash : ℕ
dash = b'-'

unfoldable pub is_slug_char : ℕ → Bool
is_slug_char c = leb b'a' c && leb c b'z' || leb b'0' c && leb c b'9'

-- re.sub(r"[^a-z0-9]+", "-", text); the flag says that the last character was replaced.
unfoldable pub dashed : Bool → Text → Text
dashed in_run [] = []
dashed in_run (c ∷ cs) =
    let kept = dashed false cs in
    let skipped = dashed true cs in
    if is_slug_char c then c ∷ kept else if in_run then skipped else dash ∷ skipped

-- .strip("-")
unfoldable pub drop_dashes : Text → Text
drop_dashes [] = []
drop_dashes (c ∷ cs) = let rest = drop_dashes cs in if eqb c dash then rest else c ∷ cs

unfoldable pub trim_dashes : Text → Text
trim_dashes [] = []
trim_dashes (c ∷ cs) =
    let rest = trim_dashes cs in if eqb c dash && is_empty rest then [] else c ∷ rest

-- An hour has at most two digits.
unfoldable pub show_hour : ℕ → Text
show_hour n = if ltb n 10 then (b'0' + n) ∷ [] else (b'0' + n / 10) ∷ (b'0' + n % 10) ∷ []

abbrev slot_stem : Text
slot_stem = b's' ∷ b'l' ∷ b'o' ∷ b't' ∷ []

abbrev pub slots_of : ModelConfig → List TimeSlot
slots_of m = m.time_routing.slots

abbrev pub with_slots : (List TimeSlot → List TimeSlot) → ModelConfig → ModelConfig
with_slots f m = record m {
  time_routing = record m.time_routing { slots = f m.time_routing.slots };
}

-- The first slot with an id is replaced. `index` finds an equal slot, which is the first with its id.
unfoldable pub replace_slot : Text → TimeSlot → List TimeSlot → List TimeSlot
replace_slot i s [] = []
replace_slot i s (t ∷ ts) = if t.id == i then s ∷ ts else t ∷ replace_slot i s ts

unfoldable pub has_slot : Text → List TimeSlot → Bool
has_slot i = any (λ s. s.id == i)

unfoldable pub without_slot : Text → List TimeSlot → List TimeSlot
without_slot i = select (λ s. not (s.id == i))

module _ (lower : Text → Text) where
  unfoldable pub slot_id : TimeSlot → Text
  slot_id slot =
      let stem = trim_dashes (drop_dashes (dashed false (lower slot.name))) in
      (if is_empty stem then slot_stem else stem)
      ++ dash ∷ show_hour slot.start_hour
      ++ dash ∷ show_hour slot.end_hour

  unfoldable pub with_id : TimeSlot → TimeSlot
  with_id slot = if is_empty slot.id then record slot { id = slot_id slot } else slot

  unfoldable pub create_in : Text → Option TimeSlot → GatewayConfig → Option ModelConfig → Outcome
  create_in model_id parsed config none = refused 404 config
  create_in model_id none config (some m) = refused 422 config
  create_in model_id (some slot) config (some m) =
      saved (change_found model_id (with_slots (λ ss. ss ++ with_id slot ∷ [])) config)

  -- `POST /admin/models/{model_id}/time-slots`
  unfoldable pub create_time_slot : Text → Option TimeSlot → GatewayConfig → Outcome
  create_time_slot model_id parsed config =
      create_in model_id parsed config (model_by_id config model_id)

unfoldable pub named : Text → TimeSlot → TimeSlot
named i slot = if is_empty slot.id then record slot { id = i } else slot

unfoldable pub update_slot_in :
    Text → Text → Option TimeSlot → GatewayConfig → Option ModelConfig → Outcome
update_slot_in model_id i parsed config none = refused 404 config
update_slot_in model_id i none config (some m) =
    if has_slot i (slots_of m) then refused 422 config else refused 404 config
update_slot_in model_id i (some slot) config (some m) =
    if has_slot i (slots_of m)
    then saved (change_found model_id (with_slots (replace_slot i (named i slot))) config)
    else refused 404 config

-- `PUT /admin/models/{model_id}/time-slots/{slot_id}`
unfoldable pub update_time_slot : Text → Text → Option TimeSlot → GatewayConfig → Outcome
update_time_slot model_id i parsed config =
    update_slot_in model_id i parsed config (model_by_id config model_id)

-- Without the slot the object has a new list that is equal to the old one.
unfoldable pub delete_slot_in : Text → Text → GatewayConfig → Option ModelConfig → Outcome
delete_slot_in model_id i config none = refused 404 config
delete_slot_in model_id i config (some m) =
    let config' = change_found model_id (with_slots (without_slot i)) config in
    if eqb (length (without_slot i (slots_of m))) (length (slots_of m))
    then refused 404 config'
    else saved config'

-- `DELETE /admin/models/{model_id}/time-slots/{slot_id}`
unfoldable pub delete_time_slot : Text → Text → GatewayConfig → Outcome
delete_time_slot model_id i config = delete_slot_in model_id i config (model_by_id config model_id)
