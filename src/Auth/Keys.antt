-- ===== src/Auth/Keys.antt =====
-- Which tokens auth.py takes.
use local_gateway.Prelude.{
  if◌then◌else◌, Bool-cases, ◌==◌, nat_eq, int_eq, Text, text_eqb_iff, text_eq, is_empty, any, ◌≡◌,
  refl, sym, ap, ◌∙◌, ◌⊎◌, inl, inr, Bool, true, false, not, ◌&&◌, ◌||◌, Option, none, some, List,
  [], ◌∷◌, arith,
}
use local_gateway.Config.{ApiKeyConfig, ServerConfig}
use local_gateway.Auth.{
  text_of, match_key, match_legacy, or_key, resolve_token, full_access, is_some, legacy_key_id,
}

unfoldable pub is_configured : ServerConfig → Bool
is_configured server = not (is_empty (text_of server.api_key) && is_empty server.api_keys)

-- The token is that of an enabled key, or the legacy key.
unfoldable pub is_known : Text → ServerConfig → Bool
is_known token server =
    not (is_empty token)
    && (any (λ k. k.enabled && k.key == token) server.api_keys || token == text_of server.api_key)

is_some-match_key :
    (token : Text) (ks : List ApiKeyConfig)
    → is_some (match_key token ks)
      ≡ (not (is_empty token) && any (λ k. k.enabled && k.key == token) ks)
unfolding is_some match_key any
is_some-match_key token [] = ground arith
is_some-match_key token (k ∷ ks) = ground (arith, is_some-match_key token ks)

is_some-match_legacy :
    (token key : Text) → is_some (match_legacy token key) ≡ (not (is_empty key) && token == key)
unfolding is_some match_legacy
is_some-match_legacy token key = ground arith

is_some-or_key : (o p : Option ApiKeyConfig) → is_some (or_key o p) ≡ (is_some o || is_some p)
unfolding is_some or_key
is_some-or_key none p = refl
is_some-or_key (some k) p = refl

is_empty-same : (x y : Text) → x == y ≡ true → is_empty x ≡ is_empty y
is_empty-same x y h = ap is_empty ((text_eqb_iff x y).0 h)

any_empty :
    (token : Text) (ks : List ApiKeyConfig)
    → is_empty ks ≡ true
    → any (λ k. k.enabled && k.key == token) ks ≡ false
unfolding any
any_empty token [] h = refl
any_empty token (k ∷ ks) h = cc

-- Where a key is configured, exactly the token of an enabled key and the legacy key are taken, and
-- never the empty token; where none is, everyone.
pub is_some-resolve_token :
    (token : Text) (server : ServerConfig)
    → is_some (resolve_token token server)
      ≡ (if is_configured server then is_known token server else true)
unfolding resolve_token is_configured is_known
is_some-resolve_token token server =
    let legacy = text_of server.api_key in
    let open_access : is_some (some (full_access [] [])) ≡ true = unfold is_some in refl in
    ground (
      arith,
      open_access,
      is_some-or_key (match_key token server.api_keys) (match_legacy token legacy),
      is_some-match_key token server.api_keys,
      is_some-match_legacy token legacy,
      is_empty-same token legacy,
      any_empty token server.api_keys,
    )

match_key-key :
    (token : Text) (ks : List ApiKeyConfig) (k : ApiKeyConfig)
    → match_key token ks ≡ some k
    → (k.key ≡ token) × (k.enabled ≡ true) × (is_empty token ≡ false)
unfolding match_key
match_key-key token [] k h = cc
match_key-key token (j ∷ ks) k h =
    elim (Bool-cases (j.enabled && (not (is_empty token) && j.key == token))) [
      | inl e ↦
          let same : some j ≡ some k =
            ap (λ b. if b then some j else match_key token ks) (sym e) ∙ h in
          let it : j ≡ k = cc in
          (
            ap (λ (x : ApiKeyConfig). x.key) (sym it) ∙ ground (arith, e, text_eqb_iff j.key token),
            ap (λ (x : ApiKeyConfig). x.enabled) (sym it) ∙ ground (arith, e),
            ground (arith, e),
          )
      | inr e ↦
          match_key-key token ks k (ap (λ b. if b then some j else match_key token ks) (sym e) ∙ h)
    ]

pub none-some : {k : ApiKeyConfig} → none ≡ some k → ⊥
none-some h = cc

match_legacy-key :
    (token key : Text) (k : ApiKeyConfig)
    → match_legacy token key ≡ some k
    → (k.key ≡ token) × (k.enabled ≡ true) × (is_empty token ≡ false)
unfolding match_legacy full_access
match_legacy-key token key k h = elim (Bool-cases (not (is_empty key) && token == key)) [
  | inl e ↦
      let same : some (full_access legacy_key_id key) ≡ some k =
        ap (λ b. if b then some (full_access legacy_key_id key) else none) (sym e) ∙ h in
      let it : full_access legacy_key_id key ≡ k = cc in
      let token_is : token ≡ key = ground (arith, e, text_eqb_iff token key) in
      (
        ap (λ (x : ApiKeyConfig). x.key) (sym it) ∙ sym token_is,
        ap (λ (x : ApiKeyConfig). x.enabled) (sym it),
        ap is_empty token_is ∙ ground (arith, e),
      )
  | inr e ↦
      absurd
        (none-some (ap (λ b. if b then some (full_access legacy_key_id key) else none) (sym e) ∙ h))
]

pub or_key-some :
    (o p : Option ApiKeyConfig) (k : ApiKeyConfig)
    → or_key o p ≡ some k
    → (o ≡ some k) ⊎ (p ≡ some k)
unfolding or_key
or_key-some none p k h = inr h
or_key-some (some j) p k h = inl h

-- A key that a token is taken for has the token as its secret, and is enabled.
pub resolve_token-key :
    (token : Text) (server : ServerConfig) (k : ApiKeyConfig)
    → is_configured server ≡ true
    → resolve_token token server ≡ some k
    → (k.key ≡ token) × (k.enabled ≡ true) × (is_empty token ≡ false)
unfolding resolve_token is_configured
resolve_token-key token server k conf h =
    let legacy = text_of server.api_key in
    let both = or_key (match_key token server.api_keys) (match_legacy token legacy) in
    let answer : Bool → Bool → Option ApiKeyConfig = λ a l.
      if not a
      then both
      else if not l
      then match_legacy token legacy
      else some (full_access [] []) in
    elim (Bool-cases (is_empty server.api_keys)) [
      | inr listed ↦
          elim (or_key-some (match_key token server.api_keys) (match_legacy token legacy) k
            (ap (λ a. answer a (is_empty legacy)) (sym listed) ∙ h)) [
              | inl e ↦ match_key-key token server.api_keys k e
              | inr e ↦ match_legacy-key token legacy k e
            ]
      | inl bare ↦ elim (Bool-cases (is_empty legacy)) [
        | inl none_set ↦ absurd (ground (arith, conf, bare, none_set))
        | inr legacy_set ↦ match_legacy-key token legacy k (
            ap (λ l. answer true l) (sym legacy_set)
            ∙ ap (λ a. answer a (is_empty legacy)) (sym bare)
            ∙ h)
      ]
    ]
