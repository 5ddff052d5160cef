-- ===== src/Admin/Keys/Hidden.antt =====
-- The admin page's read and write of the configuration neither loses a key nor stores the placeholder.
use local_gateway.Prelude.{
  if◌then◌else◌, Bool-cases, ◌==◌, ==_refl, nat_eq, int_eq, Text, text_eqb, text_eqb_iff, text_eq,
  contains, is_empty, ◌≡◌, refl, ap, ◌∙◌, inl, inr, true, false, not, Option, none, some, List, [],
  ◌∷◌, map, arith,
}
use local_gateway.Config.{
  GatewayConfig, ProviderConfig, ApiKeyConfig, provider_by_id, api_key_by_id, find_provider,
  find_key,
}
use local_gateway.Config.Validate.{redacted_key}
use local_gateway.Config.Validate.Errors.{distinct}
use local_gateway.Admin.{saved, refused}
use local_gateway.Admin.Keys.{
  redact, redact_provider, redact_client, redact_legacy, get_config, then_cons, restore_all,
  with_stored, restore_provider, with_stored_key, restore_client, is_placeholder, restore_legacy,
  write_back, is_stale, put_parsed, put_config,
}

-- Lists that are searched by an id.
module _ {A : Type 0} (id_of : A → Text) (find : Text → List A → Option A)
    (find-cons : (i : Text) (x : A) (xs : List A)
      → find i (x ∷ xs) ≡ (if id_of x == i then some x else find i xs)) where
  -- The search in a list finds each item of another by its id.
  AllFound : List A → List A → Type 0
  AllFound l [] = Unit
  AllFound l (x ∷ xs) = (find (id_of x) l ≡ some x) × AllFound l xs

  AllFound-cons :
      (y : A) (l xs : List A)
      → contains (id_of y) (map id_of xs) ≡ false
      → AllFound l xs
      → AllFound (y ∷ l) xs
  unfolding AllFound contains
  AllFound-cons y l [] h k = tt
  AllFound-cons y l (x ∷ xs) h k = (
    find-cons (id_of x) y l
        ∙ ground
            (arith, h, k.0, text_eqb_iff (id_of y) (id_of x), text_eqb_iff (id_of x) (id_of y)),
    AllFound-cons y l xs (ground (arith, h)) k.1,
  )

  distinct-AllFound : (l : List A) → distinct (map id_of l) ≡ true → AllFound l l
  unfolding AllFound distinct
  distinct-AllFound [] h = tt
  distinct-AllFound (x ∷ xs) h = (
    find-cons (id_of x) x xs ∙ rw (==_refl (id_of x)) refl,
    AllFound-cons x xs xs (ground (arith, h)) (distinct-AllFound xs (ground (arith, h))),
  )

  -- Items that are hidden one by one and restored by the search.
  restore_all-hidden :
      (hide : A → A) (restore : A → Option A) (l xs : List A)
      → ((x : A) → find (id_of x) l ≡ some x → restore (hide x) ≡ some x)
      → AllFound l xs
      → restore_all restore (map hide xs) ≡ some xs
  unfolding restore_all AllFound then_cons
  restore_all-hidden hide restore l [] h k = refl
  restore_all-hidden hide restore l (x ∷ xs) h k =
      rw (h x k.0, restore_all-hidden hide restore l xs h k.1) refl

empty_key : (key : Text) → is_empty key ≡ true → (key == redacted_key) ≡ false
unfolding text_eqb
empty_key [] h = refl
empty_key (c ∷ key) h = cc

redact-empty : (key : Text) → is_empty key ≡ true → redact key ≡ key
unfolding redact
redact-empty key h = ap (λ b. if b then key else redacted_key) h

redact-full : (key : Text) → is_empty key ≡ false → redact key ≡ redacted_key
unfolding redact
redact-full key h = ap (λ b. if b then key else redacted_key) h

restore_provider-redact_provider :
    (current : GatewayConfig) (p : ProviderConfig)
    → provider_by_id current p.id ≡ some p
    → restore_provider current (redact_provider p) ≡ some p
unfolding restore_provider redact_provider text_eqb with_stored
restore_provider-redact_provider current p found =
    let stored : ProviderConfig → Option ProviderConfig = λ q.
      if q.api_key == redacted_key then with_stored q (provider_by_id current q.id) else some q in
    elim (Bool-cases (is_empty p.api_key)) [
      | inl bare ↦
          ap (λ key. stored (record p { api_key = key })) (redact-empty p.api_key bare)
          ∙ ap (λ b. if b then with_stored p (provider_by_id current p.id) else some p)
              (empty_key p.api_key bare)
      | inr full ↦
          ap (λ key. stored (record p { api_key = key })) (redact-full p.api_key full)
          ∙ ap (with_stored (record p { api_key = redacted_key })) found
    ]

restore_client-redact_client :
    (current : GatewayConfig) (k : ApiKeyConfig)
    → api_key_by_id current k.id ≡ some k
    → restore_client current (redact_client k) ≡ some k
unfolding restore_client redact_client text_eqb with_stored_key
restore_client-redact_client current k found =
    let stored : ApiKeyConfig → Option ApiKeyConfig = λ q.
      if q.key == redacted_key then with_stored_key q (api_key_by_id current q.id) else some q in
    elim (Bool-cases (is_empty k.key)) [
      | inl bare ↦
          ap (λ key. stored (record k { key = key })) (redact-empty k.key bare)
          ∙ ap (λ b. if b then with_stored_key k (api_key_by_id current k.id) else some k)
              (empty_key k.key bare)
      | inr full ↦
          ap (λ key. stored (record k { key = key })) (redact-full k.key full)
          ∙ ap (with_stored_key (record k { key = redacted_key })) found
    ]

restore_legacy-redact_legacy :
    (o : Option Text) → (if is_placeholder (redact_legacy o) then o else redact_legacy o) ≡ o
unfolding is_placeholder redact_legacy
restore_legacy-redact_legacy none = refl
restore_legacy-redact_legacy (some key) = elim (Bool-cases (is_empty key)) [
  | inl bare ↦
      ap (λ k. if k == redacted_key then some key else some k) (redact-empty key bare)
      ∙ ap (λ b. if b then some key else some key) (empty_key key bare)
  | inr full ↦
      ap (λ k. if k == redacted_key then some key else some k) (redact-full key full)
      ∙ unfold text_eqb in refl
]

-- If no two providers and no two client keys share an id, then to write what `GET /admin/config` showed
-- back, with the version it showed, is to save the configuration as it is, with all its keys.
pub put_config-get_config :
    (current : GatewayConfig)
    → distinct (map (λ p. p.id) current.providers) ≡ true
    → distinct (map (λ k. k.id) current.server.api_keys) ≡ true
    → put_config current (some current.version) (some (get_config current)) ≡ saved current
unfolding put_config is_stale put_parsed get_config write_back restore_legacy provider_by_id
    api_key_by_id
put_config-get_config current hp hk =
    let providers =
      restore_all-hidden (λ (p : ProviderConfig). p.id) find_provider
        (λ i x xs. unfold find_provider in refl) redact_provider (restore_provider current)
        current.providers current.providers (restore_provider-redact_provider current)
        (distinct-AllFound (λ (p : ProviderConfig). p.id) find_provider
          (λ i x xs. unfold find_provider in refl) current.providers hp) in
    let keys =
      restore_all-hidden (λ (k : ApiKeyConfig). k.id) find_key (λ i x xs. unfold find_key in refl)
        redact_client (restore_client current) current.server.api_keys current.server.api_keys
        (restore_client-redact_client current)
        (distinct-AllFound (λ (k : ApiKeyConfig). k.id) find_key (λ i x xs. unfold find_key in refl)
          current.server.api_keys hk) in
    ap (λ b. if not b then refused 409 current else put_parsed current (some (get_config current)))
      (==_refl current.version)
    ∙ ap
        (λ ps.
          write_back current (get_config current) ps
            (restore_all (restore_client current) (map redact_client current.server.api_keys)))
        providers
    ∙ ap (λ ks. write_back current (get_config current) (some current.providers) ks) keys
    ∙ ap (λ o. saved (record current { server = record current.server { api_key = o } }))
        (restore_legacy-redact_legacy current.server.api_key)
