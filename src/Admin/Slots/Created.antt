-- ===== src/Admin/Slots/Created.antt =====
-- A time slot that is created and deleted again.
use local_gateway.Prelude.{
  eqb, if◌then◌else◌, ◌==◌, ==_refl, nat_eq, int_eq, Text, text_eq, length, select, any,
  length-append, ◌≡◌, refl, sym, ap, ◌∙◌, true, false, some, List, [], ◌∷◌, ◌++◌, arith,
}
use mathlib.Core.Option.{map as map_option}
use local_gateway.Config.{GatewayConfig, ModelConfig, TimeSlot, model_by_id}
use local_gateway.Admin.{saved, refused}
use local_gateway.Admin.Answers.{saved_injective}
use local_gateway.Admin.Models.{change_found}
use local_gateway.Admin.Models.Lists.{model_by_id-change_found}
use local_gateway.Admin.Slots.{
  slots_of, with_slots, has_slot, without_slot, with_id, create_in, create_time_slot,
  delete_slot_in, delete_time_slot,
}

without_slot-append :
    (i : Text) (s : TimeSlot) (ss : List TimeSlot)
    → (s.id == i) ≡ true
    → has_slot i ss ≡ false
    → without_slot i (ss ++ s ∷ []) ≡ ss
unfolding without_slot has_slot select any
without_slot-append i s [] h k = ground (arith, h)
without_slot-append i s (t ∷ ss) h k = ground (arith, without_slot-append i s ss h, k)

-- If a slot is created in a model, under an id that none of its slots has, then to delete that id
-- succeeds, and the model has the slots that it had before.
pub delete_time_slot-create_time_slot :
    (lower : Text → Text) (model_id : Text) (slot : TimeSlot) (config after : GatewayConfig)
    (m : ModelConfig)
    → model_by_id config model_id ≡ some m
    → has_slot (with_id lower slot).id (slots_of m) ≡ false
    → create_time_slot lower model_id (some slot) config ≡ saved after
    → (final : GatewayConfig) × (delete_time_slot model_id (with_id lower slot).id after
        ≡ saved final)
      × (map_option slots_of (model_by_id final model_id) ≡ some (slots_of m))
unfolding create_time_slot create_in delete_time_slot delete_slot_in
delete_time_slot-create_time_slot lower model_id slot config after m found fresh h =
    let new = with_id lower slot in
    let f = with_slots (λ ss. ss ++ new ∷ []) in
    let g = with_slots (without_slot new.id) in
    let e : after ≡ change_found model_id f config =
      saved_injective after (change_found model_id f config)
        (sym h ∙ ap (create_in lower model_id (some slot) config) found) in
    let there : model_by_id after model_id ≡ some (f m) =
      ap (λ c. model_by_id c model_id) e
      ∙ model_by_id-change_found model_id f config (λ x. (refl, refl))
      ∙ ap (map_option f) found in
    let same = without_slot-append new.id new (slots_of m) (==_refl new.id) fresh in
    let final = change_found model_id g after in
    let shorter : eqb (length (without_slot new.id (slots_of (f m)))) (length (slots_of (f m)))
        ≡ false =
      ap (λ l. eqb (length l) (length (slots_of (f m)))) same
      ∙ ground (arith, length-append (slots_of m) (new ∷ [])) in
    (
      final,
      ap (delete_slot_in model_id new.id after) there
          ∙ ap (λ b. if b then refused 404 final else saved final) shorter,
      ap (map_option slots_of) (
            model_by_id-change_found model_id g after (λ x. (refl, refl)) ∙ ap (map_option g) there)
          ∙ ap some same,
    )
