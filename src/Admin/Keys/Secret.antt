-- ===== src/Admin/Keys/Secret.antt =====
-- The placeholder of the admin page is never stored as a key.
use local_gateway.Prelude.{
  Bool-cases, Option-cases, ◌==◌, nat_eq, int_eq, Text, text_eqb, text_eq, is_empty, ℕ, ◌≡◌, refl,
  inl, inr, Bool, true, false, not, ◌&&◌, Option, none, some, List, [], ◌∷◌, arith,
}
use local_gateway.Config.{
  GatewayConfig, ProviderConfig, ApiKeyConfig, provider_by_id, api_key_by_id, find_provider,
  find_key,
}
use local_gateway.Config.Validate.{redacted_key}
use local_gateway.Config.Validate.Errors.{all}
use local_gateway.Admin.{config_after}
use local_gateway.Admin.Keys.{
  then_cons, restore_all, with_stored, restore_provider, with_stored_key, restore_client,
  is_placeholder, restore_legacy, write_back, is_stale, put_parsed, put_config, change_provider,
  key_or_empty, set_provider_api_key,
}

unfoldable pub is_own : ProviderConfig → Bool
is_own p = not (p.api_key == redacted_key)

unfoldable pub is_own_key : ApiKeyConfig → Bool
is_own_key k = not (k.key == redacted_key)

-- No key of the configuration is the placeholder.
unfoldable pub is_intact : GatewayConfig → Bool
is_intact config =
    all is_own config.providers
    && (all is_own_key config.server.api_keys && not (is_placeholder config.server.api_key))

module _ {A : Type 0} (good : A → Bool) where
  good_one : Option A → Bool
  good_one none = true
  good_one (some x) = good x

  good_all : Option (List A) → Bool
  good_all none = true
  good_all (some xs) = all good xs

  good_all-then_cons :
      (o : Option A) (rest : Option (List A))
      → good_one o ≡ true
      → good_all rest ≡ true
      → good_all (then_cons o rest) ≡ true
  unfolding good_all then_cons good_one all
  good_all-then_cons none rest h k = refl
  good_all-then_cons (some x) none h k = refl
  good_all-then_cons (some x) (some xs) h k = ground (arith, h, k)

  good_all-restore_all :
      (restore : A → Option A) (xs : List A)
      → ((x : A) → good_one (restore x) ≡ true)
      → good_all (restore_all restore xs) ≡ true
  unfolding restore_all
  good_all-restore_all restore [] h = unfold good_all all in refl
  good_all-restore_all restore (x ∷ xs) h =
      good_all-then_cons (restore x) (restore_all restore xs) (h x)
        (good_all-restore_all restore xs h)

good_one-find_provider :
    (i : Text) (ps : List ProviderConfig)
    → all is_own ps ≡ true
    → good_one is_own (find_provider i ps) ≡ true
unfolding good_one all find_provider
good_one-find_provider i [] h = refl
good_one-find_provider i (p ∷ ps) h = ground (arith, h, good_one-find_provider i ps)

good_one-find_key :
    (i : Text) (ks : List ApiKeyConfig)
    → all is_own_key ks ≡ true
    → good_one is_own_key (find_key i ks) ≡ true
unfolding good_one all find_key
good_one-find_key i [] h = refl
good_one-find_key i (k ∷ ks) h = ground (arith, h, good_one-find_key i ks)

good_one-with_stored :
    (p : ProviderConfig) (o : Option ProviderConfig)
    → good_one is_own o ≡ true
    → good_one is_own (with_stored p o) ≡ true
unfolding good_one with_stored is_own
good_one-with_stored p none h = refl
good_one-with_stored p (some q) h = h

good_one-with_stored_key :
    (k : ApiKeyConfig) (o : Option ApiKeyConfig)
    → good_one is_own_key o ≡ true
    → good_one is_own_key (with_stored_key k o) ≡ true
unfolding good_one with_stored_key is_own_key
good_one-with_stored_key k none h = refl
good_one-with_stored_key k (some q) h = h

good_one-restore_provider :
    (current : GatewayConfig) (p : ProviderConfig)
    → all is_own current.providers ≡ true
    → good_one is_own (restore_provider current p) ≡ true
unfolding restore_provider provider_by_id
good_one-restore_provider current p h = elim (Bool-cases (p.api_key == redacted_key)) [
  | inl hidden ↦ rw hidden (
      good_one-with_stored p (find_provider p.id current.providers)
        (good_one-find_provider p.id current.providers h))
  | inr own ↦ rw own (unfold good_one is_own in rw own refl)
]

good_one-restore_client :
    (current : GatewayConfig) (k : ApiKeyConfig)
    → all is_own_key current.server.api_keys ≡ true
    → good_one is_own_key (restore_client current k) ≡ true
unfolding restore_client api_key_by_id
good_one-restore_client current k h = elim (Bool-cases (k.key == redacted_key)) [
  | inl hidden ↦ rw hidden (
      good_one-with_stored_key k (find_key k.id current.server.api_keys)
        (good_one-find_key k.id current.server.api_keys h))
  | inr own ↦ rw own (unfold good_one is_own_key in rw own refl)
]

is_intact-write_back :
    (current cfg : GatewayConfig) (ps : Option (List ProviderConfig))
    (ks : Option (List ApiKeyConfig))
    → is_intact current ≡ true
    → good_all is_own ps ≡ true
    → good_all is_own_key ks ≡ true
    → is_intact (config_after (write_back current cfg ps ks)) ≡ true
unfolding write_back config_after good_all
is_intact-write_back current cfg none ks h hp hk = h
is_intact-write_back current cfg (some ps) none h hp hk = h
is_intact-write_back current cfg (some ps) (some ks) h hp hk =
    unfold is_intact restore_legacy in ground (arith, h, hp, hk)

is_intact-put_parsed :
    (current : GatewayConfig) (parsed : Option GatewayConfig)
    → is_intact current ≡ true
    → is_intact (config_after (put_parsed current parsed)) ≡ true
unfolding put_parsed
is_intact-put_parsed current none h = unfold config_after in h
is_intact-put_parsed current (some cfg) h =
    let parts : (all is_own current.providers ≡ true)
        × (all is_own_key current.server.api_keys ≡ true) =
      unfold is_intact in (ground (arith, h), ground (arith, h)) in
    is_intact-write_back current cfg _ _ h
      (good_all-restore_all is_own (restore_provider current) cfg.providers
        (λ p. good_one-restore_provider current p parts.0))
      (good_all-restore_all is_own_key (restore_client current) cfg.server.api_keys
        (λ k. good_one-restore_client current k parts.1))

is_intact-put_config :
    (current : GatewayConfig) (version : Option ℕ) (parsed : Option GatewayConfig)
    → is_intact current ≡ true
    → is_intact (config_after (put_config current version parsed)) ≡ true
unfolding put_config
is_intact-put_config current version parsed h = elim (Bool-cases (is_stale current version)) [
  | inl stale ↦ rw stale (unfold config_after in h)
  | inr fresh ↦ rw fresh (is_intact-put_parsed current parsed h)
]

all-change_provider :
    (i key : Text) (ps : List ProviderConfig)
    → (key == redacted_key) ≡ false
    → all is_own ps ≡ true
    → all is_own (change_provider i (λ p. record p { api_key = key }) ps) ≡ true
unfolding all change_provider is_own
all-change_provider i key [] h k = refl
all-change_provider i key (p ∷ ps) h k = ground (arith, h, k, all-change_provider i key ps h)

key_or_empty-placeholder :
    (value : Option Text)
    → is_placeholder value ≡ false
    → (key_or_empty value == redacted_key) ≡ false
unfolding is_placeholder key_or_empty text_eqb
key_or_empty-placeholder none h = refl
key_or_empty-placeholder (some key) h = h

-- One request that sets keys.
pub data Edit : Type 0 where
  put : Option ℕ → Option GatewayConfig → Edit
  set_key : Text → Option Text → Edit

unfoldable pub after : Edit → GatewayConfig → GatewayConfig
after (put version parsed) config = config_after (put_config config version parsed)
after (set_key provider_id value) config =
    config_after (set_provider_api_key config provider_id value)

unfoldable pub run : List Edit → GatewayConfig → GatewayConfig
run [] config = config
run (e ∷ edits) config = run edits (after e config)

is_intact-set_key :
    (config : GatewayConfig) (provider_id : Text) (value : Option Text)
    → is_intact config ≡ true
    → is_intact (config_after (set_provider_api_key config provider_id value)) ≡ true
unfolding set_provider_api_key config_after is_intact
is_intact-set_key config provider_id value h = elim (Bool-cases (is_empty provider_id)) [
  | inl unnamed ↦ rw unnamed h
  | inr named ↦ elim (Option-cases (provider_by_id config provider_id)) [
    | inl missing ↦ rw (named, missing) h
    | inr (p, found) ↦ elim (Bool-cases (is_placeholder value)) [
      | inl hidden ↦ rw (named, found, hidden) h
      | inr own ↦
          let kept =
            all-change_provider provider_id (key_or_empty value) config.providers
              (key_or_empty-placeholder value own) (ground (arith, h)) in
          rw (named, found, own) (ground (arith, h, kept))
    ]
  ]
]

-- After any writes by `put_config` and `set_provider_api_key`, accepted or refused, the configuration has
-- the placeholder for no key, if it had it for none before.
pub is_intact-run :
    (edits : List Edit) (config : GatewayConfig)
    → is_intact config ≡ true
    → is_intact (run edits config) ≡ true
unfolding run after
is_intact-run [] config h = h
is_intact-run (put version parsed ∷ edits) config h =
    is_intact-run edits (config_after (put_config config version parsed))
      (is_intact-put_config config version parsed h)
is_intact-run (set_key provider_id value ∷ edits) config h =
    is_intact-run edits (config_after (set_provider_api_key config provider_id value))
      (is_intact-set_key config provider_id value h)
