-- ===== src/Dict/Laws.antt =====
-- The laws of `Dict`.
use local_gateway.Prelude.{
  if◌then◌else◌, Bool-cases, Eq, ◌==◌, nat_eq, int_eq, text_eq, contains, length, suc, ◌+◌, ◌≤◌,
  ◌<◌, ◌≡◌, refl, inl, inr, true, false, none, some, [], ◌∷◌, arith,
}
use local_gateway.Dict.{keys, Dict, get, get_default, has, set, remove}

module _ {ℓ κ} {K : Type ℓ} {V : Type κ} ⦃e : Eq K⦄ where
  pub get-set :
      (k j : K) (v : V) (d : Dict K V) → get j (set k v d) ≡ (if k == j then some v else get j d)
  unfolding get set
  get-set k j v [] = refl
  get-set k j v ((i, w) ∷ d) =
      ground (arith, get-set k j v d, e.same_iff i k, e.same_iff i j, e.same_iff k j)

  pub get-remove :
      (k j : K) (d : Dict K V) → get j (remove k d) ≡ (if k == j then none else get j d)
  unfolding get remove
  get-remove k j [] = ground arith
  get-remove k j ((i, w) ∷ d) =
      ground (arith, get-remove k j d, e.same_iff i k, e.same_iff i j, e.same_iff k j)

  pub get_default-set :
      (k j : K) (u v : V) (d : Dict K V)
      → get_default j u (set k v d) ≡ (if k == j then v else get_default j u d)
  unfolding get_default
  get_default-set k j u v d = ground (arith, get-set k j v d)

  pub get_default-cons :
      (k j : K) (u v : V) (d : Dict K V)
      → get_default j u ((k, v) ∷ d) ≡ (if k == j then v else get_default j u d)
  unfolding get_default get
  get_default-cons k j u v d = ground arith

  pub has-get : (k : K) (d : Dict K V) → has k d ≡ elim (get k d) [ none ↦ false | some v ↦ true ]
  unfolding has get
  has-get k [] = refl
  has-get k ((i, w) ∷ d) = ground (arith, has-get k d)

  pub length-remove : (k : K) (d : Dict K V) → length (remove k d) ≤ length d
  unfolding remove
  length-remove k [] = omega arith
  length-remove k ((i, w) ∷ d) = ground (arith, length-remove k d)

  pub remove-absent : (k : K) (d : Dict K V) → get k d ≡ none → remove k d ≡ d
  unfolding get remove
  remove-absent k [] h = refl
  remove-absent k ((i, w) ∷ d) h = ground (arith, remove-absent k d)

  pub get-set_self : (k : K) (v : V) (d : Dict K V) → get k (set k v d) ≡ some v
  get-set_self k v d = ground (arith, get-set k k v d, e.same_iff k k)

module _ {ℓ κ} {K : Type ℓ} {V : Type κ} ⦃e : Eq K⦄ where
  -- No key stands twice: what Python's `dict` guarantees.
  abbrev pub IsDict : Dict K V → Type 0
  IsDict [] = Unit
  IsDict ((k, v) ∷ d) = (has k d ≡ false) × IsDict d

module _ {ℓ κ} {K : Type ℓ} {V : Type κ} ⦃e : Eq K⦄ where
  pub has-set :
      (k j : K) (v : V) (d : Dict K V) → has j (set k v d) ≡ (if k == j then true else has j d)
  unfolding has set
  has-set k j v [] = refl
  has-set k j v ((i, w) ∷ d) =
      ground (arith, has-set k j v d, e.same_iff i k, e.same_iff i j, e.same_iff k j)

  pub has-remove :
      (k j : K) (d : Dict K V) → has j (remove k d) ≡ (if k == j then false else has j d)
  unfolding has remove
  has-remove k j [] = ground arith
  has-remove k j ((i, w) ∷ d) =
      ground (arith, has-remove k j d, e.same_iff i k, e.same_iff i j, e.same_iff k j)

  pub set-IsDict : (k : K) (v : V) (d : Dict K V) → IsDict d → IsDict (set k v d)
  unfolding set has
  set-IsDict k v [] h = ground arith
  set-IsDict k v ((i, w) ∷ d) h = elim (Bool-cases (i == k)) [
    | inl same ↦ rw same h
    | inr other ↦
        rw other
          (ground (arith, has-set k i v d, e.same_iff i k, e.same_iff k i), set-IsDict k v d h.1)
  ]

  pub remove-IsDict : (k : K) (d : Dict K V) → IsDict d → IsDict (remove k d)
  unfolding remove
  remove-IsDict k [] h = h
  remove-IsDict k ((i, w) ∷ d) h = elim (Bool-cases (i == k)) [
    | inl same ↦ rw same (remove-IsDict k d h.1)
    | inr other ↦ rw other (ground (arith, has-remove k i d, h.0), remove-IsDict k d h.1)
  ]

  pub get-absent : (k : K) (d : Dict K V) → has k d ≡ false → get k d ≡ none
  unfolding has get
  get-absent k [] h = refl
  get-absent k ((i, w) ∷ d) h = ground (arith, get-absent k d)

module _ {ℓ κ} {K : Type ℓ} {V : Type κ} ⦃e : Eq K⦄ where
  pub get_default-remove :
      (k j : K) (u : V) (d : Dict K V)
      → get_default j u (remove k d) ≡ (if k == j then u else get_default j u d)
  unfolding get_default
  get_default-remove k j u d = ground (arith, get-remove k j d)

  pub length-set :
      (k : K) (v : V) (d : Dict K V)
      → length (set k v d) ≡ (if has k d then length d else suc (length d))
  unfolding set has
  length-set k v [] = refl
  length-set k v ((i, w) ∷ d) = ground (arith, length-set k v d)

  pub length-remove-has : (k : K) (d : Dict K V) → has k d ≡ true → length (remove k d) < length d
  unfolding remove has
  length-remove-has k [] h = cc
  length-remove-has k ((i, w) ∷ d) h = ground (arith, length-remove-has k d, length-remove k d)

  pub contains-keys : (k : K) (d : Dict K V) → contains k (keys d) ≡ has k d
  unfolding contains has
  contains-keys k [] = refl
  contains-keys k ((j, v) ∷ d) = ground (arith, contains-keys k d)

  pub length-set_le : (k : K) (v : V) (d : Dict K V) → length (set k v d) ≤ length d + 1
  length-set_le k v d = elim (Bool-cases (has k d)) [
    | inl h ↦ rw (length-set k v d, h) (omega arith)
    | inr h ↦ rw (length-set k v d, h) (omega arith)
  ]

pub ruleset dict_laws = (get-set, get-remove)
