-- ===== src/Prelude/Keys.antt =====
-- Equality tests as an interface: the keys of Python's `dict` and `set`.
use mathlib.Core.Path.{◌≡◌, refl}
use mathlib.Core.Logic.{◌↔◌, ◌≢◌, inl, inr}
use mathlib.Core.Bool.{Bool, true, false, ◌&&◌, ◌||◌}
use mathlib.Core.List.{List, [], ◌∷◌}
use Prim.Native.Nat.{ℕ}
use native.Mathlib.Omega.{arith}
use local_gateway.Prelude.Tests.{eqb, eqb_iff, Bool-cases}
use local_gateway.Prelude.Int.{ℤ, eqb_ℤ, eqb_ℤ_iff}

-- A test for equality that decides it.
pub record Eq {κ} (K : Type κ) : Type κ where
  pub same : K → K → Bool
  pub same_iff : (j k : K) → (same j k ≡ true) ↔ (j ≡ k)

-- Python's `==`, by the test of the type of its sides.
abbrev pub ◌==◌ {κ} : {K : Type κ} → ⦃test : Eq K⦄ → K → K → Bool
◌==◌ ⦃test⦄ = test.same

infix 50 ◌==◌
pub ==_iff {ℓ} : {A : Type ℓ} ⦃e : Eq A⦄ (a b : A) → ((a == b) ≡ true) ↔ (a ≡ b)
==_iff ⦃e⦄ a b = e.same_iff a b

pub ==_refl {ℓ} : {A : Type ℓ} ⦃e : Eq A⦄ (a : A) → (a == a) ≡ true
==_refl ⦃e⦄ a = (e.same_iff a a).1 refl

pub ==_ne {ℓ} : {A : Type ℓ} ⦃e : Eq A⦄ (a b : A) → a ≢ b → (a == b) ≡ false
==_ne ⦃e⦄ a b h = elim (Bool-cases (a == b)) [
  | inl t ↦ absurd (h ((e.same_iff a b).0 t))
  | inr f ↦ f
]

instance abbrev pub nat_eq : Eq ℕ
nat_eq = record { same = eqb; same_iff = eqb_iff }

instance abbrev pub int_eq : Eq ℤ
int_eq = record { same = eqb_ℤ; same_iff = eqb_ℤ_iff }

-- A Python `str` or `bytes`: the list of its code points or bytes.
abbrev pub Text : Type 0
Text = List ℕ

unfoldable pub text_eqb : Text → Text → Bool
text_eqb [] [] = true
text_eqb [] (y ∷ ys) = false
text_eqb (x ∷ xs) [] = false
text_eqb (x ∷ xs) (y ∷ ys) = eqb x y && text_eqb xs ys

text_eqb_refl : (xs : Text) → text_eqb xs xs ≡ true
unfolding text_eqb
text_eqb_refl [] = refl
text_eqb_refl (x ∷ xs) = ground (arith, text_eqb_refl xs)

text_eqb_sound : (xs ys : Text) → text_eqb xs ys ≡ true → xs ≡ ys
unfolding text_eqb
text_eqb_sound [] [] h = refl
text_eqb_sound [] (y ∷ ys) h = cc
text_eqb_sound (x ∷ xs) [] h = cc
text_eqb_sound (x ∷ xs) (y ∷ ys) h = ground (arith, text_eqb_sound xs ys)

pub text_eqb_iff : (xs ys : Text) → (text_eqb xs ys ≡ true) ↔ (xs ≡ ys)
text_eqb_iff xs ys = (text_eqb_sound xs ys, λ e. rw e (text_eqb_refl ys))

instance abbrev pub text_eq : Eq Text
text_eq = record { same = text_eqb; same_iff = text_eqb_iff }

-- Membership, as Python's `in`.
module _ {ℓ} {A : Type ℓ} ⦃e : Eq A⦄ where
  unfoldable pub contains : A → List A → Bool
  contains a [] = false
  contains a (x ∷ xs) = x == a || contains a xs
