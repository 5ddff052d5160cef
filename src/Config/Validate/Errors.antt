-- ===== src/Config/Validate/Errors.antt =====
-- When `validate_config` of config.py reports no error.
use local_gateway.Prelude.{
  ◌==◌, nat_eq, int_eq, Text, text_eqb_iff, text_eq, contains, any, concat_map, ℕ, ◌+◌, ◌≡◌, refl,
  sym, ◌∙◌, Bool, true, false, not, ◌&&◌, Option, none, some, List, [], ◌∷◌, ◌++◌, map, arith,
}
use local_gateway.Config.{
  ProviderConfig, ModelConfig, find_provider, GatewayConfig, BackendConfig, provider_by_id,
}
use local_gateway.Config.Validate.{
  Issue, error, warning, redacted_key, duplicate_providers, is_ascii, learn, alias_issues,
  duplicate_models, scan_backends, each_backend, key_issues, when, orphan, warning_passes, an_error,
  duplicate_model_id, model_at, no_backends, validate_config, disabled, error_passes, unpriced,
  too_long,
}

unfoldable pub is_error : Issue → Bool
is_error i = elim i.severity [ error ↦ true | warning ↦ false ]

-- No issue of a list is an error.
unfoldable pub no_error : List Issue → Bool
no_error is = not (any is_error is)

unfoldable pub all {ℓ} : {A : Type ℓ} → (A → Bool) → List A → Bool
all p [] = true
all p (x ∷ xs) = p x && all p xs

unfoldable pub is_found {ℓ} : {A : Type ℓ} → Option A → Bool
is_found none = false
is_found (some x) = true

-- No text of a list comes again in it.
unfoldable pub distinct : List Text → Bool
distinct [] = true
distinct (x ∷ xs) = not (contains x xs) && distinct xs

-- No text of the second list is in the first.
unfoldable pub apart : List Text → List Text → Bool
apart seen = all (λ x. not (contains x seen))

-- No alias is the id of its model or of an earlier one, an earlier alias, or given twice.
unfoldable pub aliases_apart : List Text → List Text → List ModelConfig → Bool
aliases_apart ids known [] = true
aliases_apart ids known (m ∷ ms) =
    (apart (m.id ∷ ids) m.aliases && (apart known m.aliases && distinct m.aliases))
    && aliases_apart (m.id ∷ ids) (learn known m.aliases) ms

unfoldable pub is_usable_key : ProviderConfig → Bool
is_usable_key p = not (p.api_key == redacted_key) && is_ascii p.api_key

no_error-append : (is js : List Issue) → no_error (is ++ js) ≡ (no_error is && no_error js)
unfolding no_error any
no_error-append [] js = refl
no_error-append (i ∷ is) js = ground (arith, no_error-append is js)

apart-cons :
    (s : Text) (seen xs : List Text) → apart (s ∷ seen) xs ≡ (not (contains s xs) && apart seen xs)
unfolding apart all contains
apart-cons s seen [] = refl
apart-cons s seen (x ∷ xs) =
    ground (arith, apart-cons s seen xs, text_eqb_iff x s, text_eqb_iff s x)

apart-none : (xs : List Text) → apart [] xs ≡ true
unfolding apart all contains
apart-none [] = refl
apart-none (x ∷ xs) = apart-none xs

no_error-duplicate_providers :
    (seen : List Text) (ps : List ProviderConfig)
    → no_error (duplicate_providers seen ps)
      ≡ (apart seen (map (λ p. p.id) ps) && distinct (map (λ p. p.id) ps))
unfolding no_error duplicate_providers any apart all distinct is_error
no_error-duplicate_providers seen [] = refl
no_error-duplicate_providers seen (p ∷ ps) =
    let ids = map (λ (p : ProviderConfig). p.id) ps in
    ground (arith, no_error-duplicate_providers (p.id ∷ seen) ps, apart-cons p.id seen ids)

no_error-alias_issues :
    (m : Text) (seen known names : List Text)
    → no_error (alias_issues m seen known names)
      ≡ (apart seen names && (apart known names && distinct names))
unfolding no_error alias_issues any apart all distinct is_error
no_error-alias_issues m seen known [] = refl
no_error-alias_issues m seen known (a ∷ names) =
    ground (arith, no_error-alias_issues m seen (a ∷ known) names, apart-cons a known names)

unfoldable pub model_ids : List ModelConfig → List Text
model_ids = map (λ m. m.id)

no_error-duplicate_models :
    (seen known : List Text) (ms : List ModelConfig)
    → no_error (duplicate_models seen known ms)
      ≡ ((apart seen (model_ids ms) && distinct (model_ids ms)) && aliases_apart seen known ms)
unfolding duplicate_models aliases_apart model_ids
no_error-duplicate_models seen known [] = unfold no_error any apart all distinct in refl
no_error-duplicate_models seen known (m ∷ ms) =
    let later = learn known m.aliases in
    let one =
      no_error-append (when (contains m.id seen) (an_error duplicate_model_id (model_at m.id) m.id))
        (alias_issues m.id (m.id ∷ seen) known m.aliases
          ++ duplicate_models (m.id ∷ seen) later ms) in
    let two =
      no_error-append (alias_issues m.id (m.id ∷ seen) known m.aliases)
        (duplicate_models (m.id ∷ seen) later ms) in
    let head : no_error
          (when (contains m.id seen) (an_error duplicate_model_id (model_at m.id) m.id))
        ≡ not (contains m.id seen) =
      unfold no_error any is_error in ground arith in
    let split : apart seen (m.id ∷ model_ids ms)
        ≡ (not (contains m.id seen) && apart seen (model_ids ms)) =
      unfold apart all in refl in
    let split' : distinct (m.id ∷ model_ids ms)
        ≡ (not (contains m.id (model_ids ms)) && distinct (model_ids ms)) =
      unfold distinct in refl in
    ground (
      arith,
      one,
      two,
      head,
      split,
      split',
      no_error-alias_issues m.id (m.id ∷ seen) known m.aliases,
      no_error-duplicate_models (m.id ∷ seen) later ms,
      apart-cons m.id seen (model_ids ms),
    )

-- An id is among the providers' ids exactly if the lookup finds it.
is_found-find_provider :
    (i : Text) (ps : List ProviderConfig)
    → is_found (find_provider i ps) ≡ contains i (map (λ p. p.id) ps)
unfolding is_found find_provider contains
is_found-find_provider i [] = refl
is_found-find_provider i (p ∷ ps) = ground (arith, is_found-find_provider i ps)

no_error-scan_backends :
    (pids : List Text) (m : ModelConfig) (i : ℕ) (bs : List BackendConfig)
    → no_error (scan_backends (orphan pids) m i bs) ≡ all (λ b. contains b.provider pids) bs
unfolding scan_backends orphan all no_error any is_error
no_error-scan_backends pids m i [] = refl
no_error-scan_backends pids m i (b ∷ bs) = ground (arith, no_error-scan_backends pids m (i + 1) bs)

no_error-each_backend :
    (pids : List Text) (ms : List ModelConfig)
    → no_error (each_backend (orphan pids) ms)
      ≡ all (λ m. all (λ b. contains b.provider pids) m.backends) ms
unfolding each_backend concat_map all
no_error-each_backend pids [] = unfold no_error any in refl
no_error-each_backend pids (m ∷ ms) =
    no_error-append (scan_backends (orphan pids) m 0 m.backends) (each_backend (orphan pids) ms)
    ∙ rw (no_error-scan_backends pids m 0 m.backends, no_error-each_backend pids ms) refl

no_error-key_issues :
    (ps : List ProviderConfig) → no_error (concat_map key_issues ps) ≡ all is_usable_key ps
unfolding concat_map key_issues all is_usable_key no_error any is_error
no_error-key_issues [] = refl
no_error-key_issues (p ∷ ps) = ground (arith, no_error-key_issues ps)

all-same {ℓ} :
    {A : Type ℓ} (p q : A → Bool) (xs : List A) → ((x : A) → p x ≡ q x) → all p xs ≡ all q xs
unfolding all
all-same p q [] h = refl
all-same p q (x ∷ xs) h = rw (h x, all-same p q xs h) refl

no_error-scan_backends-true :
    (check : ModelConfig → ℕ → BackendConfig → List Issue)
    → ((m : ModelConfig) (i : ℕ) (b : BackendConfig) → no_error (check m i b) ≡ true)
    → (m : ModelConfig) (i : ℕ) (bs : List BackendConfig)
    → no_error (scan_backends check m i bs) ≡ true
unfolding scan_backends
no_error-scan_backends-true check h m i [] = unfold no_error any in refl
no_error-scan_backends-true check h m i (b ∷ bs) =
    no_error-append (check m i b) (scan_backends check m (i + 1) bs)
    ∙ rw (h m i b, no_error-scan_backends-true check h m (i + 1) bs) refl

no_error-concat_map {ℓ} :
    {A : Type ℓ} (f : A → List Issue)
    → ((a : A) → no_error (f a) ≡ true)
    → (xs : List A) → no_error (concat_map f xs) ≡ true
unfolding concat_map
no_error-concat_map f h [] = unfold no_error any in refl
no_error-concat_map f h (x ∷ xs) =
    no_error-append (f x) (concat_map f xs) ∙ rw (h x, no_error-concat_map f h xs) refl

-- A test that only warns.
no_error-when : (b : Bool) (i : Issue) → is_error i ≡ false → no_error (when b i) ≡ true
unfolding no_error any
no_error-when true i h = rw h refl
no_error-when false i h = refl

no_error-each_backend-true :
    (check : ModelConfig → ℕ → BackendConfig → List Issue)
    → ((m : ModelConfig) (i : ℕ) (b : BackendConfig) → no_error (check m i b) ≡ true)
    → (ms : List ModelConfig) → no_error (each_backend check ms) ≡ true
unfolding each_backend
no_error-each_backend-true check h ms =
    no_error-concat_map (λ m. scan_backends check m 0 m.backends)
      (λ m. no_error-scan_backends-true check h m 0 m.backends) ms

-- The passes that warn report no error.
no_error-warning_passes : (cfg : GatewayConfig) → no_error (warning_passes cfg) ≡ true
unfolding warning_passes no_backends disabled unpriced too_long is_error
no_error-warning_passes cfg =
    no_error-append (concat_map no_backends cfg.models) _
    ∙ rw (no_error-concat_map no_backends (λ m. no_error-when _ _ refl) cfg.models) (
        no_error-append (each_backend (disabled cfg.providers) cfg.models) _
        ∙ rw
            (no_error-each_backend-true (disabled cfg.providers) (λ m i b. no_error-when _ _ refl)
              cfg.models)
            (no_error-append (each_backend (unpriced cfg) cfg.models)
                (each_backend too_long cfg.models)
              ∙ rw
                  (no_error-each_backend-true (unpriced cfg) (λ m i b. no_error-when _ _ refl)
                    cfg.models)
                  (no_error-each_backend-true too_long (λ m i b. no_error-when _ _ refl)
                    cfg.models)))

-- `validate_config` reports no error exactly if no two providers and no two models share an id, no
-- alias is the id of its model or of an earlier one or an earlier alias or given twice, the provider of
-- every backend is found, and every key is in ASCII and not the redacted one. An alias that is the id of
-- a later model is no error.
pub no_error-validate_config :
    (cfg : GatewayConfig)
    → no_error (validate_config cfg) ≡ (
        distinct (map (λ p. p.id) cfg.providers)
        && ((distinct (model_ids cfg.models) && aliases_apart [] [] cfg.models)
            && (all (λ m. all (λ b. is_found (provider_by_id cfg b.provider)) m.backends) cfg.models
                && all is_usable_key cfg.providers)))
unfolding validate_config error_passes provider_by_id
no_error-validate_config cfg =
    let pids = map (λ (p : ProviderConfig). p.id) cfg.providers in
    let names = duplicate_models [] [] cfg.models in
    let orphans = each_backend (orphan pids) cfg.models in
    let keys = concat_map key_issues cfg.providers in
    let found : all (λ m. all (λ b. contains b.provider pids) m.backends) cfg.models
        ≡ all (λ m. all (λ b. is_found (find_provider b.provider cfg.providers)) m.backends)
            cfg.models =
      all-same _ _ cfg.models (λ m.
        all-same _ _ m.backends (λ b. sym (is_found-find_provider b.provider cfg.providers))) in
    ground (
      arith,
      no_error-append (error_passes cfg) (warning_passes cfg),
      no_error-warning_passes cfg,
      no_error-append (duplicate_providers [] cfg.providers) (names ++ (orphans ++ keys)),
      no_error-append names (orphans ++ keys),
      no_error-append orphans keys,
      no_error-duplicate_providers [] cfg.providers,
      no_error-duplicate_models [] [] cfg.models,
      no_error-each_backend pids cfg.models,
      no_error-key_issues cfg.providers,
      found,
      apart-none pids,
      apart-none (model_ids cfg.models),
    )
