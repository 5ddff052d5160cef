-- ===== src/Reasoning/Idempotent.antt =====
-- What reasoning.py leaves of a delta.
use local_gateway.Prelude.{
  if◌then◌else◌, Bool-cases, ◌==◌, nat_eq, int_eq, Text, text_eqb, text_eqb_iff, text_eq, is_empty,
  ◌≡◌, refl, sym, ap, ◌∙◌, inl, inr, Bool, true, false, ◌||◌, Option, none, some, List, [], ◌∷◌,
  arith,
}
use local_gateway.Dict.{get, set}
use local_gateway.Dict.Laws.{get-set}
use local_gateway.Reasoning.{
  Delta, Choice, text, reasoning, reasoning_content, reasoning_keys, is_truthy, first_value, fill,
  normalize_delta, normalize_field, normalize_choices, normalize_obj,
}

get-fill :
    (target key value : Text) (d : Delta × Bool)
    → is_empty value ≡ false
    → is_truthy (get key (fill target value d).0) ≡ (target == key || is_truthy (get key d.0))
unfolding fill is_truthy
get-fill target key value (d, changed) h =
    ground (arith, get-set target key (text value) d, text_eqb_iff target key, h)

fill-same :
    (target value : Text) (d : Delta)
    → is_truthy (get target d) ≡ true
    → fill target value (d, false) ≡ (d, false)
unfolding fill
fill-same target value d h = ap (λ b. if b then (d, false) else (set target (text value) d, true)) h

if_same {ℓ} : {A : Type ℓ} (b : Bool) (x : A) → (if b then x else x) ≡ x
if_same true x = refl
if_same false x = refl

normalize-full :
    (d : Delta)
    → is_truthy (get reasoning_content d) ≡ true
    → is_truthy (get reasoning d) ≡ true
    → normalize_delta d ≡ (d, false)
unfolding normalize_delta
normalize-full d h k =
    let value = first_value reasoning_keys d in
    ap (λ r. if is_empty value then (d, false) else fill reasoning value r)
      (fill-same reasoning_content value d h)
    ∙ ap (λ r. if is_empty value then (d, false) else r) (fill-same reasoning value d k)
    ∙ if_same (is_empty value) (d, false)

-- The deltas that a found value leaves, and the two names under which it then stands.
filled-truthy :
    (value : Text) (d : Delta)
    → is_empty value ≡ false
    → (is_truthy
          (get reasoning_content (fill reasoning value (fill reasoning_content value (d, false))).0)
        ≡ true)
      × (is_truthy
            (get reasoning (fill reasoning value (fill reasoning_content value (d, false))).0)
          ≡ true)
unfolding text_eqb
filled-truthy value d full =
    let first = fill reasoning_content value (d, false) in
    (
      get-fill reasoning reasoning_content value first full
          ∙ get-fill reasoning_content reasoning_content value (d, false) full,
      get-fill reasoning reasoning value first full,
    )

-- Nothing changes in what `normalize_delta` leaves.
normalize_delta-normalize_delta :
    (d : Delta) → normalize_delta (normalize_delta d).0 ≡ ((normalize_delta d).0, false)
unfolding normalize_delta
normalize_delta-normalize_delta d =
    let value = first_value reasoning_keys d in
    let both = fill reasoning value (fill reasoning_content value (d, false)) in
    let answer : Bool → Delta × Bool = λ b. if b then (d, false) else both in
    elim (Bool-cases (is_empty value)) [
      | inl bare ↦
          ap (λ b. normalize_delta (answer b).0) bare
          ∙ ap answer bare
          ∙ sym (ap (λ b. ((answer b).0, false)) bare)
      | inr full ↦
          let (a, b) = filled-truthy value d full in
          ap (λ b. normalize_delta (answer b).0) full
          ∙ normalize-full both.0 a b
          ∙ sym (ap (λ b. ((answer b).0, false)) full)
    ]

get-fill_kept :
    (target key value : Text) (d : Delta × Bool)
    → is_truthy (get key d.0) ≡ true
    → get key (fill target value d).0 ≡ get key d.0
unfolding fill
get-fill_kept target key value (d, changed) h =
    ground (arith, get-set target key (text value) d, text_eqb_iff target key, h)

-- If one of the three names of a delta gives a text, then both of the names that clients read stand for
-- something, and what stood under any name is still there.
pub get-normalize_delta :
    (d : Delta) (key : Text)
    → is_empty (first_value reasoning_keys d) ≡ false
    → is_truthy (get key d) ≡ true
    → (is_truthy (get reasoning_content (normalize_delta d).0) ≡ true)
      × (is_truthy (get reasoning (normalize_delta d).0) ≡ true)
      × (get key (normalize_delta d).0 ≡ get key d)
unfolding normalize_delta
get-normalize_delta d key full h =
    let value = first_value reasoning_keys d in
    let first = fill reasoning_content value (d, false) in
    let both = fill reasoning value first in
    let answer : Bool → Delta = λ b. (if b then (d, false) else both).0 in
    let (a, b) = filled-truthy value d full in
    let kept = get-fill_kept reasoning_content key value (d, false) h in
    (
      ap (λ b. is_truthy (get reasoning_content (answer b))) full ∙ a,
      ap (λ b. is_truthy (get reasoning (answer b))) full ∙ b,
      ap (λ b. get key (answer b)) full
          ∙ get-fill_kept reasoning key value first (ap is_truthy kept ∙ h)
          ∙ kept,
    )

normalize_field-normalize_field :
    (o : Option Delta) → normalize_field (normalize_field o).0 ≡ ((normalize_field o).0, false)
unfolding normalize_field
normalize_field-normalize_field none = refl
normalize_field-normalize_field (some d) =
    ap (λ (r : Delta × Bool). (some r.0, r.1)) (normalize_delta-normalize_delta d)

normalize_choices-normalize_choices :
    (cs : List Choice)
    → normalize_choices (normalize_choices cs).0 ≡ ((normalize_choices cs).0, false)
unfolding normalize_choices
normalize_choices-normalize_choices [] = refl
normalize_choices-normalize_choices (c ∷ cs) =
    rw
      (
        normalize_field-normalize_field c.delta,
        normalize_field-normalize_field c.message,
        normalize_choices-normalize_choices cs,
      )
      refl

-- To normalise an object again changes nothing, and says so, in its choices and its other fields.
pub normalize_obj-normalize_obj :
    (o : List Choice × Delta) → normalize_obj (normalize_obj o).0 ≡ ((normalize_obj o).0, false)
unfolding normalize_obj
normalize_obj-normalize_obj (choices, top) =
    rw (normalize_choices-normalize_choices choices, normalize_delta-normalize_delta top) refl
