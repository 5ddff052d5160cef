-- ===== src/Admin/Models/Lists.antt =====
-- The models after one of them is created, changed or deleted.
use local_gateway.Prelude.{
  if◌then◌else◌, Bool-cases, Option-cases, ◌==◌, ==_refl, nat_eq, int_eq, Text, text_eq, contains,
  is_empty, any, ◌≡◌, refl, sym, ap, ◌∙◌, inl, inr, Bool, true, false, Option, none, some, List, [],
  ◌∷◌, ◌++◌, arith,
}
use mathlib.Core.Option.{map as map_option}
use local_gateway.Config.{GatewayConfig, ModelConfig, model_by_id, find_model, find_alias}
use local_gateway.Admin.Answers.{saved_injective, refused_saved}
use local_gateway.Admin.{Outcome, saved, refused}
use local_gateway.Admin.Models.{
  append_model, with_models, has_model, change_model, finds, change_found, create_model,
  delete_model, without_first,
}

-- A change that leaves the names of a model.
abbrev KeepsNames : (ModelConfig → ModelConfig) → Type 0
KeepsNames f = (m : ModelConfig) → ((f m).id ≡ m.id) × ((f m).aliases ≡ m.aliases)

find_model-change_id :
    (i : Text) (f : ModelConfig → ModelConfig) (ms : List ModelConfig)
    → KeepsNames f
    → find_model i (change_model (λ m. m.id == i) f ms) ≡ map_option f (find_model i ms)
unfolding find_model change_model
find_model-change_id i f [] k = refl
find_model-change_id i f (m ∷ ms) k = ground (arith, find_model-change_id i f ms k, (k m).0)

find_model-change_other :
    (i : Text) (p : ModelConfig → Bool) (f : ModelConfig → ModelConfig) (ms : List ModelConfig)
    → KeepsNames f
    → find_model i ms ≡ none
    → find_model i (change_model p f ms) ≡ none
unfolding find_model change_model
find_model-change_other i p f [] k h = refl
find_model-change_other i p f (m ∷ ms) k h =
    ground (arith, find_model-change_other i p f ms k, (k m).0, h)

find_alias-change :
    (i : Text) (f : ModelConfig → ModelConfig) (ms : List ModelConfig)
    → KeepsNames f
    → find_alias i (change_model (λ m. contains i m.aliases) f ms) ≡ map_option f (find_alias i ms)
unfolding find_alias change_model
find_alias-change i f [] k = refl
find_alias-change i f (m ∷ ms) k =
    ground (arith, find_alias-change i f ms k, ap (contains i) (k m).1)

has_model-find_model :
    (i : Text) (ms : List ModelConfig)
    → has_model i ms ≡ elim (find_model i ms) [ none ↦ false | some m ↦ true ]
unfolding has_model find_model any
has_model-find_model i [] = refl
has_model-find_model i (m ∷ ms) = ground (arith, has_model-find_model i ms)

-- A model is found, after it is changed, as it was found before.
pub model_by_id-change_found :
    (i : Text) (f : ModelConfig → ModelConfig) (config : GatewayConfig)
    → KeepsNames f
    → model_by_id (change_found i f config) i ≡ map_option f (model_by_id config i)
unfolding model_by_id change_found finds
model_by_id-change_found i f config k =
    let ms = config.models in
    let look : List ModelConfig → Option ModelConfig =
      λ l. elim (find_model i l) [ some m ↦ some m | none ↦ find_alias i l ] in
    let pick : Option ModelConfig → Option ModelConfig → Option ModelConfig =
      λ o a. elim o [ some m ↦ some m | none ↦ a ] in
    let by : Bool → ModelConfig → Bool = λ b m. if b then m.id == i else contains i m.aliases in
    elim (Option-cases (find_model i ms)) [
      | inl missing ↦
          let has =
            has_model-find_model i ms ∙ ap (λ o. elim o [ none ↦ false | some m ↦ true ]) missing in
          ap (λ b. look (change_model (by b) f ms)) has
          ∙ ap (λ o. pick o (find_alias i (change_model (by false) f ms)))
              (find_model-change_other i (by false) f ms k missing)
          ∙ find_alias-change i f ms k
          ∙ sym (ap (λ o. map_option f (pick o (find_alias i ms))) missing)
      | inr (m, found) ↦
          let has =
            has_model-find_model i ms ∙ ap (λ o. elim o [ none ↦ false | some m ↦ true ]) found in
          ap (λ b. look (change_model (by b) f ms)) has
          ∙ ap (λ o. pick o (find_alias i (change_model (by true) f ms)))
              (find_model-change_id i f ms k ∙ ap (map_option f) found)
          ∙ sym (ap (λ o. map_option f (pick o (find_alias i ms))) found)
    ]

without_first-append :
    (i : Text) (m : ModelConfig) (ms : List ModelConfig)
    → find_model i ms ≡ none
    → (m.id == i) ≡ true
    → without_first (λ n. n.id == i) (ms ++ m ∷ []) ≡ ms
unfolding without_first find_model
without_first-append i m [] h k = ground (arith, k)
without_first-append i m (n ∷ ms) h k = ground (arith, without_first-append i m ms, h, k)

has_model-append :
    (i : Text) (m : ModelConfig) (ms : List ModelConfig)
    → (m.id == i) ≡ true
    → has_model i (ms ++ m ∷ []) ≡ true
unfolding has_model any
has_model-append i m [] k = ground (arith, k)
has_model-append i m (n ∷ ms) k = ground (arith, has_model-append i m ms k)

find_model-free :
    (config : GatewayConfig) (i : Text)
    → model_by_id config i ≡ none
    → find_model i config.models ≡ none
unfolding model_by_id
find_model-free config i h = ground (arith, h)

append_model-saved :
    (o : Option ModelConfig) (m : ModelConfig) (config after : GatewayConfig)
    → append_model o (some m) config ≡ saved after
    → (o ≡ none) × (after ≡ with_models config (config.models ++ m ∷ []))
unfolding append_model
append_model-saved none m config after h =
    (refl, sym (saved_injective (with_models config (config.models ++ m ∷ [])) after h))
append_model-saved (some taken) m config after h = absurd (refused_saved 409 config after (sym h))

-- A model that is created under its id, without blanks around it, is deleted by that id, and the models
-- are those before.
pub delete_model-create_model :
    (m : ModelConfig) (config after : GatewayConfig)
    → create_model m.id (some m) config ≡ saved after
    → delete_model m.id after ≡ saved (record after { models = config.models })
unfolding create_model delete_model
delete_model-create_model m config after h =
    let answer : Bool → Outcome = λ b.
      if b then refused 422 config else append_model (model_by_id config m.id) (some m) config in
    elim (Bool-cases (is_empty m.id)) [
      | inl bare ↦ absurd (refused_saved 422 config after (sym h ∙ ap answer bare))
      | inr named ↦
          let (free, e) =
            append_model-saved (model_by_id config m.id) m config after
              (sym (ap answer named) ∙ h) in
          let models = ap (λ (c : GatewayConfig). c.models) e in
          let there =
            ap (has_model m.id) models ∙ has_model-append m.id m config.models (==_refl m.id) in
          let rest =
            ap (without_first (λ n. n.id == m.id)) models
            ∙ without_first-append m.id m config.models (find_model-free config m.id free)
                (==_refl m.id) in
          ap
            (λ b.
              if b
              then saved (with_models after (without_first (λ n. n.id == m.id) after.models))
              else refused 404 after)
            there
          ∙ ap (λ ms. saved (with_models after ms)) rest
    ]
