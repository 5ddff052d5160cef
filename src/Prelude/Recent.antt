-- ===== src/Prelude/Recent.antt =====
-- A list that keeps the last items only: what `deque(maxlen=n).append` and a bounded queue that drops
-- its oldest item do.
use Prim.Native.Nat.{ℕ, zero, suc, ◌-◌, ◌≤◌, ◌<◌}
use mathlib.Core.Path.{◌≡◌, refl, sym, ap, ◌∙◌}
use mathlib.Core.Bool.{false}
use mathlib.Core.Logic.{inl, inr}
use mathlib.Core.List.{List, [], ◌∷◌, ◌++◌, append-nil}
use native.Mathlib.Omega.{arith}
use local_gateway.Prelude.Tests.{ltb, if◌then◌else◌, Bool-cases}
use local_gateway.Prelude.Lists.{length, drop, length-append}

module _ {ℓ} {A : Type ℓ} where
  -- The item is put last; a full list loses its first.
  unfoldable pub push : ℕ → List A → A → List A
  push cap xs x = if ltb (length xs) cap then xs ++ x ∷ [] else drop 1 xs ++ x ∷ []

  unfoldable pub push_all : ℕ → List A → List A → List A
  push_all cap xs [] = xs
  push_all cap xs (y ∷ ys) = push_all cap (push cap xs y) ys

  unfoldable pub last_items : ℕ → List A → List A
  last_items cap xs = drop (length xs - cap) xs

  pub drop-append : (n : ℕ) (xs ys : List A) → n ≤ length xs → drop n (xs ++ ys) ≡ drop n xs ++ ys
  drop-append zero xs ys h = refl
  drop-append (suc n) [] ys h = absurd (omega arith)
  drop-append (suc n) (x ∷ xs) ys h = drop-append n xs ys (omega arith)

  drop-drop : (n : ℕ) (xs : List A) → drop 1 (drop n xs) ≡ drop (suc n) xs
  drop-drop zero [] = refl
  drop-drop zero (x ∷ xs) = refl
  drop-drop (suc n) [] = refl
  drop-drop (suc n) (x ∷ xs) = drop-drop n xs

  pub length-drop : (n : ℕ) (xs : List A) → length (drop n xs) ≡ length xs - n
  length-drop zero xs = omega arith
  length-drop (suc n) [] = omega arith
  length-drop (suc n) (x ∷ xs) = omega (arith, length-drop n xs)

  push-last_items :
      (cap : ℕ) (xs : List A) (s : A)
      → 0 < cap
      → push cap (last_items cap xs) s ≡ last_items cap (xs ++ s ∷ [])
  unfolding push last_items
  push-last_items cap xs s some_room = elim (Bool-cases (ltb (length xs) cap)) [
    | inl few ↦
        let a : length xs - cap ≡ 0 = ground arith in
        let b : length (xs ++ s ∷ []) - cap ≡ 0 = ground (arith, length-append xs (s ∷ [])) in
        rw (a, b, few)
    | inr many ↦
        let n = length xs - cap in
        let full : ltb (length (drop n xs)) cap ≡ false = ground (arith, length-drop n xs) in
        let b : length (xs ++ s ∷ []) - cap ≡ suc n = ground (arith, length-append xs (s ∷ [])) in
        rw (full, b, drop-drop n xs) (sym (drop-append (suc n) xs (s ∷ []) (ground arith)))
  ]

  append_assoc_cons : (xs : List A) (s : A) (ys : List A) → (xs ++ s ∷ []) ++ ys ≡ xs ++ s ∷ ys
  append_assoc_cons [] s ys = refl
  append_assoc_cons (x ∷ xs) s ys = ap (λ l. x ∷ l) (append_assoc_cons xs s ys)

  pub push_all-last_items :
      (cap : ℕ) (xs ys : List A)
      → 0 < cap
      → push_all cap (last_items cap xs) ys ≡ last_items cap (xs ++ ys)
  unfolding push_all
  push_all-last_items cap xs [] some_room = ap (last_items cap) (sym (append-nil xs))
  push_all-last_items cap xs (s ∷ ys) some_room =
      ap (λ l. push_all cap l ys) (push-last_items cap xs s some_room)
      ∙ push_all-last_items cap (xs ++ s ∷ []) ys some_room
      ∙ ap (last_items cap) (append_assoc_cons xs s ys)
