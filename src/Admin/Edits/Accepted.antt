-- ===== src/Admin/Edits/Accepted.antt =====
-- Which updates of a backend are accepted.
use local_gateway.Prelude.{
  if◌then◌else◌, Bool-cases, ℤ, pos, negsuc, pos_part, nat_eq, int_eq, Text, text_eq, length, ℕ,
  zero, suc, ◌<◌, ◌≡◌, refl, sym, ap, ◌∙◌, inl, inr, Bool, true, false, not, ◌&&◌, Option, none,
  some, List, [], ◌∷◌, arith,
}
use local_gateway.Dict.{get}
use local_gateway.Config.{GatewayConfig, ModelConfig, BackendConfig, model_by_id}
use local_gateway.Config.Validate.Errors.{all}
use local_gateway.Admin.{Outcome, saved, refused}
use local_gateway.Admin.Models.{change_found, is_index}
use local_gateway.Admin.Edits.Fields.{Value, Value, Field, backend_fields}
use local_gateway.Admin.Edits.{
  apply_one, Body, apply_each, has_unknown, apply_fields, settle, update_at, backend_at,
  update_found, update_in, update_backend,
}

unfoldable pub is_saved : Outcome → Bool
is_saved (saved c) = true
is_saved (refused s c) = false

-- A field that is missing, or has a value of its type.
unfoldable pub fits_field : {O : Type 0} → Body → Field O → Bool
fits_field body f = elim (get f.name body) [ none ↦ true | some v ↦ f.fits v ]

module _ {O : Type 0} where
  apply_one-fits :
      (f : Field O) (o : Option Value) (obj : O)
      → (apply_one f o obj).1 ≡ elim o [ none ↦ true | some v ↦ f.fits v ]
  unfolding apply_one
  apply_one-fits f none obj = refl
  apply_one-fits f (some v) obj = elim (Bool-cases (f.fits v)) [
    | inl yes' ↦ rw yes' refl
    | inr no' ↦ rw no' refl
  ]

  apply_each-fits :
      (fs : List (Field O)) (body : Body) (obj : O)
      → (apply_each fs body obj).1 ≡ all (fits_field body) fs
  unfolding apply_each all fits_field
  apply_each-fits [] body obj = refl
  apply_each-fits (f ∷ fs) body obj =
      let turn = apply_one f (get f.name body) obj in
      let ok = apply_one-fits f (get f.name body) obj in
      let rest = apply_each-fits fs body turn.0 in
      elim (Bool-cases turn.1) [
        | inl yes' ↦
            ap (λ (b : Bool). (if b then apply_each fs body turn.0 else turn).1) yes'
            ∙ rest
            ∙ ap (λ b. b && all (fits_field body) fs) (sym yes' ∙ ok)
        | inr no' ↦
            ap (λ (b : Bool). (if b then apply_each fs body turn.0 else turn).1) no'
            ∙ no'
            ∙ ap (λ b. b && all (fits_field body) fs) (sym no' ∙ ok)
      ]

  apply_fields-fits :
      (fs : List (Field O)) (body : Body) (obj : O)
      → (apply_fields fs body obj).1 ≡ (not (has_unknown fs body) && all (fits_field body) fs)
  unfolding apply_fields
  apply_fields-fits fs body obj = ground (arith, apply_each-fits fs body obj)

is_saved-settle : (b : Bool) (config : GatewayConfig) → is_saved (settle b config) ≡ b
unfolding is_saved settle
is_saved-settle true config = refl
is_saved-settle false config = refl

backend_at-index :
    (n : ℕ) (bs : List BackendConfig)
    → n < length bs
    → (b : BackendConfig) × (backend_at n bs ≡ some b)
unfolding backend_at
backend_at-index n [] h = absurd (omega (arith, h))
backend_at-index zero (b ∷ bs) h = (b, refl)
backend_at-index (suc n) (b ∷ bs) h = backend_at-index n bs (omega (arith, h))

unfoldable is_none_at : Option BackendConfig → Bool
is_none_at none = true
is_none_at (some b) = false

is_saved-update_found :
    (model_id : Text) (n : ℕ) (body : Body) (config : GatewayConfig) (o : Option BackendConfig)
    → is_saved (update_found model_id n body config o) ≡ (
        not (is_none_at o)
        && (not (has_unknown backend_fields body) && all (fits_field body) backend_fields))
unfolding update_found is_none_at
is_saved-update_found model_id n body config none = unfold is_saved in refl
is_saved-update_found model_id n body config (some b) =
    is_saved-settle (apply_fields backend_fields body b).1 (
      change_found model_id
        (λ m. record m {
          backends = update_at (λ c. (apply_fields backend_fields body b).0) n m.backends;
        })
        config)
    ∙ apply_fields-fits backend_fields body b

index_below :
    (index : ℤ) (bs : List BackendConfig) → is_index index bs ≡ true → pos_part index < length bs
unfolding is_index
index_below (pos n) bs h = ground (arith, h)
index_below (negsuc n) bs h = ground (arith, h)

is_saved-update_in :
    (model_id : Text) (index : ℤ) (body : Body) (config : GatewayConfig) (o : Option ModelConfig)
    → is_saved (update_in model_id index body config o) ≡ elim o [
      | none ↦ false
      | some m ↦
          is_index index m.backends
          && (not (has_unknown backend_fields body) && all (fits_field body) backend_fields)
    ]
unfolding update_in is_saved
is_saved-update_in model_id index body config none = refl
is_saved-update_in model_id index body config (some m) =
    let n = pos_part index in
    let fine = not (has_unknown backend_fields body) && all (fits_field body) backend_fields in
    let o = backend_at n m.backends in
    let answer : Bool → Outcome =
      λ b. if b then update_found model_id n body config o else refused 400 config in
    elim (Bool-cases (is_index index m.backends)) [
      | inr out ↦ ap (λ b. is_saved (answer b)) out ∙ sym (ap (λ b. b && fine) out)
      | inl within ↦
          let (b, there) = backend_at-index n m.backends (index_below index m.backends within) in
          ap (λ b. is_saved (answer b)) within
          ∙ is_saved-update_found model_id n body config o
          ∙ ap (λ o. not (is_none_at o) && fine) there
          ∙ unfold is_none_at in sym (ap (λ b. b && fine) within)
    ]

-- An update of a backend is saved exactly if the model is found, the index is that of one of its backends,
-- each key of the body is a field that may be set, and each field in the body has a value of its type.
pub is_saved-update_backend :
    (model_id : Text) (index : ℤ) (body : Body) (config : GatewayConfig)
    → is_saved (update_backend model_id index body config) ≡ elim (model_by_id config model_id) [
      | none ↦ false
      | some m ↦
          is_index index m.backends
          && (not (has_unknown backend_fields body) && all (fits_field body) backend_fields)
    ]
unfolding update_backend
is_saved-update_backend model_id index body config =
    is_saved-update_in model_id index body config (model_by_id config model_id)
