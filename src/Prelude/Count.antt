-- ===== src/Prelude/Count.antt =====
-- How often a list holds items that pass a test: two lists with the same counts for every test
-- hold the same items, as often, in some order.
use Prim.Native.Nat.{ℕ, suc, ◌+◌, ◌*◌}
use mathlib.Core.Path.{◌≡◌, refl, ap, sym, ◌∙◌}
use mathlib.Core.Bool.{Bool, true, false, not, ◌&&◌, ◌||◌}
use mathlib.Core.List.{List, [], ◌∷◌, ◌++◌, map, append_assoc}
use mathlib.Core.Logic.{inl, inr}
use native.Mathlib.Omega.{arith}
use local_gateway.Prelude.Tests.{if◌then◌else◌, Bool-cases}
use local_gateway.Prelude.Keys.{Eq, ◌==◌}
use local_gateway.Prelude.Lists.{
  select, insert_sorted, sort_by, rotate, concat_map, take, drop, take-append-drop,
}

module _ {ℓ} {A : Type ℓ} where
  unfoldable pub count : (A → Bool) → List A → ℕ
  count p [] = 0
  count p (x ∷ xs) = if p x then suc (count p xs) else count p xs

  pub count-append : (p : A → Bool) (xs ys : List A) → count p (xs ++ ys) ≡ count p xs + count p ys
  unfolding count
  count-append p [] ys = omega arith
  count-append p (x ∷ xs) ys = ground (arith, count-append p xs ys)

  pub count-insert_sorted :
      (p : A → Bool) (before : A → A → Bool) (x : A) (xs : List A)
      → count p (insert_sorted before x xs) ≡ count p (x ∷ xs)
  unfolding count insert_sorted
  count-insert_sorted p before x [] = refl
  count-insert_sorted p before x (y ∷ ys) = ground (arith, count-insert_sorted p before x ys)

  pub count-sort_by :
      (p : A → Bool) (before : A → A → Bool) (xs : List A)
      → count p (sort_by before xs) ≡ count p xs
  unfolding sort_by count
  count-sort_by p before [] = refl
  count-sort_by p before (x ∷ xs) =
      ground (arith, count-insert_sorted p before x (sort_by before xs), count-sort_by p before xs)

  pub count-rotate : (p : A → Bool) (r : ℕ) (xs : List A) → count p (rotate r xs) ≡ count p xs
  unfolding rotate
  count-rotate p r xs = omega (
    arith,
    count-append p (drop r xs) (take r xs),
    count-append p (take r xs) (drop r xs),
    ap (count p) (take-append-drop r xs),
  )

  -- A filter and its complement split the counts.
  pub count-select_split :
      (p q : A → Bool) (xs : List A)
      → count p (select q xs) + count p (select (λ x. not (q x)) xs) ≡ count p xs
  unfolding count select
  count-select_split p q [] = omega arith
  count-select_split p q (x ∷ xs) = ground (arith, count-select_split p q xs)

  pub count-select :
      (p q : A → Bool) (xs : List A) → count p (select q xs) ≡ count (λ x. q x && p x) xs
  unfolding count select
  count-select p q [] = refl
  count-select p q (x ∷ xs) = ground (arith, count-select p q xs)

pub count-map {ℓ κ} :
    {A : Type ℓ} {B : Type κ} (p : B → Bool) (f : A → B) (xs : List A)
    → count p (map f xs) ≡ count (λ x. p (f x)) xs
unfolding count
count-map p f [] = refl
count-map p f (x ∷ xs) = ground (arith, count-map p f xs)

module _ {ℓ κ} {A : Type ℓ} {B : Type κ} where
  pub concat_map-append :
      (f : A → List B) (xs ys : List A)
      → concat_map f (xs ++ ys) ≡ concat_map f xs ++ concat_map f ys
  unfolding concat_map
  concat_map-append f [] ys = refl
  concat_map-append f (x ∷ xs) ys =
      ap (λ l. f x ++ l) (concat_map-append f xs ys)
      ∙ sym (append_assoc (f x) (concat_map f xs) (concat_map f ys))

  -- The lists for the items add up, in any order of the items.
  pub count-concat_map-insert :
      (p : B → Bool) (f : A → List B) (before : A → A → Bool) (x : A) (xs : List A)
      → count p (concat_map f (insert_sorted before x xs))
        ≡ count p (f x) + count p (concat_map f xs)
  unfolding concat_map insert_sorted
  count-concat_map-insert p f before x [] = count-append p (f x) []
  count-concat_map-insert p f before x (y ∷ ys) = ground (
    arith,
    count-append p (f x) (f y ++ concat_map f ys),
    count-append p (f y) (concat_map f ys),
    count-append p (f y) (concat_map f (insert_sorted before x ys)),
    count-concat_map-insert p f before x ys,
  )

  pub count-concat_map-sort :
      (p : B → Bool) (f : A → List B) (before : A → A → Bool) (xs : List A)
      → count p (concat_map f (sort_by before xs)) ≡ count p (concat_map f xs)
  unfolding concat_map sort_by
  count-concat_map-sort p f before [] = refl
  count-concat_map-sort p f before (x ∷ xs) = omega (
    arith,
    count-concat_map-insert p f before x (sort_by before xs),
    count-concat_map-sort p f before xs,
    count-append p (f x) (concat_map f xs),
  )

  -- Lists with the same counts for each item have the same counts together.
  pub count-concat_map-same {ν} :
      {C : Type ν} (p : B → Bool) (q : C → Bool) (f : A → List B) (g : A → List C)
      → ((x : A) → count p (f x) ≡ count q (g x))
      → (xs : List A) → count p (concat_map f xs) ≡ count q (concat_map g xs)
  unfolding concat_map
  count-concat_map-same p q f g h [] = unfold count in refl
  count-concat_map-same p q f g h (x ∷ xs) = omega (
    arith,
    count-append p (f x) (concat_map f xs),
    count-append q (g x) (concat_map g xs),
    h x,
    count-concat_map-same p q f g h xs,
  )

  pub count-concat_map-add :
      (p : B → Bool) (f g : A → List B) (h : A → List B)
      → ((x : A) → count p (f x) + count p (g x) ≡ count p (h x))
      → (xs : List A)
      → count p (concat_map f xs) + count p (concat_map g xs) ≡ count p (concat_map h xs)
  unfolding concat_map
  count-concat_map-add p f g h e [] = unfold count in refl
  count-concat_map-add p f g h e (x ∷ xs) = omega (
    arith,
    count-append p (f x) (concat_map f xs),
    count-append p (g x) (concat_map g xs),
    count-append p (h x) (concat_map h xs),
    e x,
    count-concat_map-add p f g h e xs,
  )

-- Taking one item to the front keeps the counts, if it stands once in the list.
module _ {ℓ κ} {A : Type ℓ} {B : Type κ} ⦃e : Eq A⦄ where
  count-concat_map-pull :
      (p : B → Bool) (f : A → List B) (k : A) (xs : List A)
      → count p (concat_map f xs)
        ≡ count (λ j. j == k) xs * count p (f k)
          + count p (concat_map f (select (λ j. not (j == k)) xs))
  unfolding concat_map select count
  count-concat_map-pull p f k [] = omega arith
  count-concat_map-pull p f k (x ∷ xs) = elim (Bool-cases (x == k)) [
    | inl same ↦
        let eq : x ≡ k = (e.same_iff x k).0 same in
        rw same (
          omega (
            arith,
            count-append p (f x) (concat_map f xs),
            ap (λ j. count p (f j)) eq,
            count-concat_map-pull p f k xs,
          ))
    | inr other ↦ rw other (
        omega (
          arith,
          count-append p (f x) (concat_map f xs),
          count-append p (f x) (concat_map f (select (λ j. not (j == k)) xs)),
          count-concat_map-pull p f k xs,
        ))
  ]

  pub count-concat_map-front :
      (p : B → Bool) (f : A → List B) (k : A) (xs : List A)
      → count (λ j. j == k) xs ≡ 1
      → count p (concat_map f (k ∷ select (λ j. not (j == k)) xs)) ≡ count p (concat_map f xs)
  unfolding concat_map
  count-concat_map-front p f k xs once =
      let n = count (λ j. j == k) xs in
      omega (
        arith,
        count-concat_map-pull p f k xs,
        count-append p (f k) (concat_map f (select (λ j. not (j == k)) xs)),
        ap (λ (t : ℕ). t * count p (f k)) once,
      )

-- Two tests that never both pass split the counts of their disjunction.
pub count-select_or {ℓ} :
    {A : Type ℓ} (p q r s : A → Bool) (xs : List A)
    → ((x : A) → s x ≡ (q x || r x))
    → ((x : A) → q x ≡ true → r x ≡ false)
    → count p (select q xs) + count p (select r xs) ≡ count p (select s xs)
unfolding count select
count-select_or p q r s [] either apart = refl
count-select_or p q r s (x ∷ xs) either apart =
    ground (arith, either x, apart x, count-select_or p q r s xs either apart)

pub select-append {ℓ} :
    {A : Type ℓ} (q : A → Bool) (xs ys : List A) → select q (xs ++ ys) ≡ select q xs ++ select q ys
unfolding select
select-append q [] ys = refl
select-append q (x ∷ xs) ys = ground (arith, select-append q xs ys)

pub concat_map-select {ℓ κ} :
    {A : Type ℓ} {B : Type κ} (q : B → Bool) (f : A → List B) (xs : List A)
    → concat_map (λ x. select q (f x)) xs ≡ select q (concat_map f xs)
unfolding concat_map
concat_map-select q f [] = unfold select in refl
concat_map-select q f (x ∷ xs) =
    ap (λ l. select q (f x) ++ l) (concat_map-select q f xs)
    ∙ sym (select-append q (f x) (concat_map f xs))

pub count-concat_map-zero {ℓ κ} :
    {A : Type ℓ} {B : Type κ} (p : B → Bool) (f : A → List B)
    → ((x : A) → count p (f x) ≡ 0)
    → (xs : List A) → count p (concat_map f xs) ≡ 0
unfolding concat_map
count-concat_map-zero p f h [] = unfold count in refl
count-concat_map-zero p f h (x ∷ xs) =
    omega (arith, count-append p (f x) (concat_map f xs), h x, count-concat_map-zero p f h xs)
