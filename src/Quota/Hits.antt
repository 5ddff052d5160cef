-- ===== src/Quota/Hits.antt =====
-- What the calls of clientquota.py do to the hits of an id.
use local_gateway.Prelude.{
  ltb, leb, if◌then◌else◌, Bool-cases, Option-cases, ◌==◌, nat_eq, int_eq, Text, text_eqb_iff,
  text_eq, length, is_empty, ℕ, ◌≡◌, refl, ap, ◌∙◌, ◌↔◌, ◌⊎◌, inl, inr, Bool, true, false, Option,
  none, some, List, [], ◌∷◌, ◌++◌, arith,
}
use local_gateway.Dict.{get_default, set}
use local_gateway.Dict.Laws.{get_default-set}
use local_gateway.Config.{ApiKeyConfig}
use local_gateway.Quota.{Quota, rpm_limit, limited_request, expire, check_rpm, current_rpm}

unfoldable pub is_none : Option ℕ → Bool
is_none none = true
is_none (some n) = false

pub is_none_iff : (o : Option ℕ) → (o ≡ none) ↔ (is_none o ≡ true)
unfolding is_none
is_none_iff none = ((λ h. refl), (λ h. refl))
is_none_iff (some n) = ((λ h. cc), (λ h. cc))

unfoldable pub hits_of : Text → Quota → List ℕ
hits_of k q = get_default k [] q.hits

hits-set :
    (k j : Text) (ts : List ℕ) (q : Quota)
    → hits_of k (record q { hits = set j ts q.hits }) ≡ (if j == k then ts else hits_of k q)
unfolding hits_of
hits-set k j ts q = get_default-set j k [] ts q.hits

check_rpm-rpm_limit :
    (n : ℕ) (key : ApiKeyConfig) (t : ℕ) (q : Quota)
    → rpm_limit key ≡ some n
    → check_rpm key t q ≡ limited_request n key t q
unfolding check_rpm
check_rpm-rpm_limit n key t q limit =
    ap
      (λ o. elim o as (λ x. Quota × Option ℕ) [
        | none ↦ (q, none)
        | some m ↦ limited_request m key t q
      ])
      limit

check_rpm-unlimited :
    (key : ApiKeyConfig) (t : ℕ) (q : Quota) → rpm_limit key ≡ none → check_rpm key t q ≡ (q, none)
unfolding check_rpm
check_rpm-unlimited key t q limit =
    ap
      (λ o. elim o as (λ x. Quota × Option ℕ) [
        | none ↦ (q, none)
        | some m ↦ limited_request m key t q
      ])
      limit

hits-limited_request :
    (k : Text) (n : ℕ) (key : ApiKeyConfig) (t : ℕ) (q : Quota)
    → hits_of k (limited_request n key t q).0 ≡ (
        if key.id == k
        then if ltb (length (expire t (hits_of key.id q))) n
          then expire t (hits_of key.id q) ++ t ∷ []
          else expire t (hits_of key.id q)
        else hits_of k q)
unfolding limited_request hits_of
hits-limited_request k n key t q =
    let dq = expire t (get_default key.id [] q.hits) in
    elim (Bool-cases (leb n (length dq))) [
      | inl full ↦
          let no : ltb (length dq) n ≡ false = ground arith in
          rw (full, no) (hits-set k key.id dq q)
      | inr few ↦
          let well : ltb (length dq) n ≡ true = ground arith in
          rw (few, well) (hits-set k key.id (dq ++ t ∷ []) q)
    ]

pub hits-check_rpm_other :
    (k : Text) (key : ApiKeyConfig) (t : ℕ) (q : Quota)
    → key.id == k ≡ false
    → hits_of k (check_rpm key t q).0 ≡ hits_of k q
hits-check_rpm_other k key t q other = elim (Option-cases (rpm_limit key)) [
  | inl without ↦ ap (λ r. hits_of k r.0) (check_rpm-unlimited key t q without)
  | inr (n, limit) ↦
      ap (λ r. hits_of k r.0) (check_rpm-rpm_limit n key t q limit)
      ∙ hits-limited_request k n key t q
      ∙ rw other refl
]

unfoldable pub own_answer : Text → ℕ → ℕ → Quota → Bool
own_answer k n t q = ltb (length (expire t (hits_of k q))) n

is_none-limited_request :
    (n : ℕ) (key : ApiKeyConfig) (t : ℕ) (q : Quota)
    → is_none (limited_request n key t q).1 ≡ own_answer key.id n t q
unfolding limited_request own_answer hits_of is_none
is_none-limited_request n key t q = ground arith

-- A limited request of the id: it is allowed exactly if the hits that are kept are fewer.
pub is_none-check_rpm :
    (k : Text) (n : ℕ) (key : ApiKeyConfig) (t : ℕ) (q : Quota)
    → key.id ≡ k
    → rpm_limit key ≡ some n
    → is_none (check_rpm key t q).1 ≡ own_answer k n t q
is_none-check_rpm k n key t q own limit =
    ap (λ r. is_none r.1) (check_rpm-rpm_limit n key t q limit)
    ∙ is_none-limited_request n key t q
    ∙ ap (λ j. own_answer j n t q) own

pub hits-check_rpm_own :
    (k : Text) (n : ℕ) (key : ApiKeyConfig) (t : ℕ) (q : Quota)
    → key.id ≡ k
    → rpm_limit key ≡ some n
    → hits_of k (check_rpm key t q).0
      ≡ (if own_answer k n t q then expire t (hits_of k q) ++ t ∷ [] else expire t (hits_of k q))
unfolding own_answer
hits-check_rpm_own k n key t q own limit =
    let mine : key.id == k ≡ true = ground (arith, text_eqb_iff key.id k, own) in
    ap (λ r. hits_of k r.0) (check_rpm-rpm_limit n key t q limit)
    ∙ hits-limited_request k n key t q
    ∙ rw mine (
        ap
          (λ j.
            if ltb (length (expire t (hits_of j q))) n
            then expire t (hits_of j q) ++ t ∷ []
            else expire t (hits_of j q))
          own)

pub hits-current_rpm :
    (k i : Text) (t : ℕ) (q : Quota)
    → (hits_of k (current_rpm i t q).0 ≡ hits_of k q)
      ⊎ (hits_of k (current_rpm i t q).0 ≡ expire t (hits_of k q))
unfolding current_rpm hits_of
hits-current_rpm k i t q =
    let dq = get_default i [] q.hits in
    elim (Bool-cases (is_empty dq)) [
      | inl bare ↦ inl (rw bare refl)
      | inr full ↦ rw full (elim (Bool-cases (i == k)) [
        | inl mine ↦ inr (
            hits-set k i (expire t dq) q
            ∙ rw mine
                (ap (λ j. expire t (get_default j [] q.hits)) (ground (arith, text_eqb_iff i k))))
        | inr other ↦ inl (hits-set k i (expire t dq) q ∙ rw other refl)
      ])
    ]
