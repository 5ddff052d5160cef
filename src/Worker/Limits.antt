-- ===== src/Worker/Limits.antt =====
-- The limits of the keys that a token is taken for.
use local_gateway.Auth.Keys.{none-some, is_configured, or_key-some}
use local_gateway.Prelude.{
  eqb, if◌then◌else◌, Bool-cases, ◌==◌, nat_eq, int_eq, Text, text_eqb_iff, text_eq, is_empty, ℕ,
  ◌≡◌, sym, ap, ◌∙◌, inl, inr, Bool, true, false, not, ◌&&◌, ◌||◌, Option, none, some, List, [],
  ◌∷◌, arith,
}
use local_gateway.Config.{ApiKeyConfig, ServerConfig}
use local_gateway.Auth.{
  resolve_token, match_key, match_legacy, or_key, full_access, legacy_key_id, text_of,
}
use local_gateway.Quota.{rpm_limit}

unfoldable pub is_limit : ℕ → Option ℕ → Bool
is_limit n none = false
is_limit n (some m) = eqb m n

-- All keys of the id have the limit n.
unfoldable pub is_limited : Text → ℕ → List ApiKeyConfig → Bool
is_limited k n [] = true
is_limited k n (key ∷ keys) =
    (not (key.id == k) || is_limit n (rpm_limit key)) && is_limited k n keys

is_limit_iff : (n : ℕ) (o : Option ℕ) → is_limit n o ≡ true → o ≡ some n
unfolding is_limit
is_limit_iff n none h = cc
is_limit_iff n (some m) h = ground (arith, h)

match_key-rpm_limit :
    (k : Text) (n : ℕ) (token : Text) (keys : List ApiKeyConfig) (key : ApiKeyConfig)
    → is_limited k n keys ≡ true
    → match_key token keys ≡ some key
    → key.id ≡ k
    → rpm_limit key ≡ some n
unfolding match_key is_limited
match_key-rpm_limit k n token [] key l h own = cc
match_key-rpm_limit k n token (j ∷ keys) key l h own =
    elim (Bool-cases (j.enabled && (not (is_empty token) && j.key == token))) [
      | inl e ↦
          let same : some j ≡ some key =
            ap (λ b. if b then some j else match_key token keys) (sym e) ∙ h in
          let it : j ≡ key = cc in
          let mine = (text_eqb_iff j.id k).1 (ap (λ (x : ApiKeyConfig). x.id) it ∙ own) in
          ap rpm_limit (sym it) ∙ is_limit_iff n (rpm_limit j) (ground (arith, l, mine))
      | inr e ↦
          match_key-rpm_limit k n token keys key (ground (arith, l))
            (ap (λ b. if b then some j else match_key token keys) (sym e) ∙ h) own
    ]

full_access-id :
    (k i token : Text) (o : Option ApiKeyConfig) (key : ApiKeyConfig)
    → o ≡ some (full_access i token)
    → o ≡ some key
    → key.id ≡ k
    → i ≡ k
unfolding full_access
full_access-id k i token o key e h own =
    let it : some (full_access i token) ≡ some key = sym e ∙ h in
    let same : full_access i token ≡ key = cc in ap (λ (x : ApiKeyConfig). x.id) same ∙ own

match_legacy-id :
    (k token legacy : Text) (key : ApiKeyConfig)
    → match_legacy token legacy ≡ some key
    → key.id ≡ k
    → legacy_key_id ≡ k
unfolding match_legacy
match_legacy-id k token legacy key h own =
    elim (Bool-cases (not (is_empty legacy) && token == legacy)) [
      | inl e ↦
          full_access-id k legacy_key_id legacy (match_legacy token legacy) key
            (unfold match_legacy in
              ap (λ b. if b then some (full_access legacy_key_id legacy) else none) e)
            h own
      | inr e ↦ absurd (
          none-some
            (sym (ap (λ b. if b then some (full_access legacy_key_id legacy) else none) e) ∙ h))
    ]

-- A token of an id that is not the legacy one is under the limit of the id's keys.
pub resolve_token-rpm_limit :
    (k : Text) (n : ℕ) (token : Text) (server : ServerConfig) (key : ApiKeyConfig)
    → is_limited k n server.api_keys ≡ true
    → (legacy_key_id == k) ≡ false
    → is_configured server ≡ true
    → resolve_token token server ≡ some key
    → key.id ≡ k
    → rpm_limit key ≡ some n
unfolding resolve_token is_configured
resolve_token-rpm_limit k n token server key l other conf h own =
    let legacy = text_of server.api_key in
    let clash : match_legacy token legacy ≡ some key → rpm_limit key ≡ some n = λ e.
      let same = (text_eqb_iff legacy_key_id k).1 (match_legacy-id k token legacy key e own) in
      cc in
    let both = or_key (match_key token server.api_keys) (match_legacy token legacy) in
    let answer : Bool → Bool → Option ApiKeyConfig = λ a l.
      if not a
      then both
      else if not l
      then match_legacy token legacy
      else some (full_access [] []) in
    elim (Bool-cases (is_empty server.api_keys)) [
      | inr listed ↦
          elim (or_key-some (match_key token server.api_keys) (match_legacy token legacy) key
            (ap (λ a. answer a (is_empty legacy)) (sym listed) ∙ h)) [
              | inl e ↦ match_key-rpm_limit k n token server.api_keys key l e own
              | inr e ↦ clash e
            ]
      | inl bare ↦
          let set' : is_empty legacy ≡ false = ground (arith, conf, bare) in
          clash (
            ap (λ l. answer true l) (sym set')
            ∙ ap (λ a. answer a (is_empty legacy)) (sym bare)
            ∙ h)
    ]
