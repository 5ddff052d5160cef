-- ===== src/Config/Validate.antt =====
-- localgateway/config.py: `validate_config`. An issue has its code, the place of its path and the id,
-- alias or key that its message names.
pub mod Errors
use local_gateway.Prelude.{
  ltb, if◌then◌else◌, ℤ, pos, ltb_ℤ, eqb_ℤ, ◌==◌, nat_eq, int_eq, Text, text_eq, contains, is_empty,
  concat_map, ℕ, ◌+◌, Bool, true, false, not, ◌&&◌, ◌||◌, Option, none, some, List, [], ◌∷◌, ◌++◌,
  map, arith,
}
use local_gateway.Backend.{backend_key}
use local_gateway.Dict.{has, get}
use local_gateway.Config.{GatewayConfig, ProviderConfig, BackendConfig, ModelConfig}

pub data Severity : Type 0 where
  error warning : Severity

pub data Code : Type 0 where
  duplicate_provider_id duplicate_model_id alias_collision orphan_backend placeholder_key : Code
  non_ascii_key model_no_backends disabled_provider_referenced pricing_gap mot_exceeds_context :
      Code

pub data Place : Type 0 where
  provider_at : Text → Place
  provider_key : Text → Place
  model_at : Text → Place
  aliases_of : Text → Place
  backend_at : Text → ℕ → Place

pub record Issue : Type 0 where
  pub severity : Severity
  pub code : Code
  pub place : Place
  pub subject : Text

abbrev pub an_error : Code → Place → Text → Issue
an_error c p t = record { severity = error; code = c; place = p; subject = t }

abbrev pub a_warning : Code → Place → Text → Issue
a_warning c p t = record { severity = warning; code = c; place = p; subject = t }

abbrev pub when : Bool → Issue → List Issue
when b i = if b then i ∷ [] else []

-- REDACTED_KEY, six bullets.
abbrev bullet : ℕ
bullet = 8226

abbrev pub redacted_key : Text
redacted_key = bullet ∷ bullet ∷ bullet ∷ bullet ∷ bullet ∷ bullet ∷ []

unfoldable pub duplicate_providers : List Text → List ProviderConfig → List Issue
duplicate_providers seen [] = []
duplicate_providers seen (p ∷ ps) =
    when (contains p.id seen) (an_error duplicate_provider_id (provider_at p.id) p.id)
    ++ duplicate_providers (p.id ∷ seen) ps

-- The aliases of one model; `known` are the keys of `all_aliases`.
unfoldable pub alias_issues : Text → List Text → List Text → List Text → List Issue
alias_issues m seen known [] = []
alias_issues m seen known (a ∷ rest) =
    when (contains a seen || contains a known) (an_error alias_collision (aliases_of m) a)
    ++ alias_issues m seen (a ∷ known) rest

-- `known` after the aliases of a model.
unfoldable pub learn : List Text → List Text → List Text
learn known [] = known
learn known (a ∷ rest) = learn (a ∷ known) rest

unfoldable pub duplicate_models : List Text → List Text → List ModelConfig → List Issue
duplicate_models seen known [] = []
duplicate_models seen known (m ∷ ms) =
    when (contains m.id seen) (an_error duplicate_model_id (model_at m.id) m.id)
    ++ (alias_issues m.id (m.id ∷ seen) known m.aliases
        ++ duplicate_models (m.id ∷ seen) (learn known m.aliases) ms)

-- for m in cfg.models: for i, b in enumerate(m.backends): one test of each backend.
unfoldable pub scan_backends :
    (ModelConfig → ℕ → BackendConfig → List Issue)
    → ModelConfig
    → ℕ
    → List BackendConfig
    → List Issue
scan_backends check m i [] = []
scan_backends check m i (b ∷ bs) = check m i b ++ scan_backends check m (i + 1) bs

unfoldable pub each_backend :
    (ModelConfig → ℕ → BackendConfig → List Issue) → List ModelConfig → List Issue
each_backend check = concat_map (λ m. scan_backends check m 0 m.backends)

unfoldable pub orphan : List Text → ModelConfig → ℕ → BackendConfig → List Issue
orphan pids m i b =
    when (not (contains b.provider pids)) (an_error orphan_backend (backend_at m.id i) b.provider)

-- `.encode("ascii")` fails.
unfoldable pub is_ascii : Text → Bool
is_ascii [] = true
is_ascii (c ∷ cs) = ltb c 128 && is_ascii cs

unfoldable pub key_issues : ProviderConfig → List Issue
key_issues p =
    if p.api_key == redacted_key
    then an_error placeholder_key (provider_key p.id) p.id ∷ []
    else when (not (is_ascii p.api_key)) (an_error non_ascii_key (provider_key p.id) p.id)

unfoldable pub no_backends : ModelConfig → List Issue
no_backends m = when (is_empty m.backends) (a_warning model_no_backends (model_at m.id) m.id)

-- `pid_enabled.get(...)`: of providers with one id the last counts.
unfoldable pub pid_enabled : Text → List ProviderConfig → Option Bool
pid_enabled i [] = none
pid_enabled i (p ∷ ps) = elim (pid_enabled i ps) [
  | some b ↦ some b
  | none ↦ if p.id == i then some p.enabled else none
]

unfoldable pub is_disabled : Option Bool → Bool
is_disabled none = false
is_disabled (some b) = not b

unfoldable pub disabled : List ProviderConfig → ModelConfig → ℕ → BackendConfig → List Issue
disabled ps m i b =
    when (b.enabled && is_disabled (pid_enabled b.provider ps))
      (a_warning disabled_provider_referenced (backend_at m.id i) b.provider)

unfoldable pub unpriced : GatewayConfig → ModelConfig → ℕ → BackendConfig → List Issue
unpriced cfg m i b =
    let key = backend_key b.provider b.model in
    when (not (has key cfg.pricing)) (a_warning pricing_gap (backend_at m.id i) key)

-- `x or y` of optional numbers, where 0 is falsy.
unfoldable pub number_or : Option ℤ → ℤ → ℤ
number_or none d = d
number_or (some z) d = if eqb_ℤ z (pos 0) then d else z

-- `mot and ctx and mot > ctx`
unfoldable pub exceeds : ModelConfig → BackendConfig → Bool
exceeds m b =
    let mot = number_or m.max_output_tokens (pos 0) in
    let ctx = number_or b.context_length (number_or m.context_length (pos 0)) in
    not (eqb_ℤ mot (pos 0)) && not (eqb_ℤ ctx (pos 0)) && ltb_ℤ ctx mot

unfoldable pub too_long : ModelConfig → ℕ → BackendConfig → List Issue
too_long m i b = when (exceeds m b) (a_warning mot_exceeds_context (backend_at m.id i) b.model)

unfoldable pub error_passes : GatewayConfig → List Issue
error_passes cfg =
    duplicate_providers [] cfg.providers
    ++ (duplicate_models [] [] cfg.models
        ++ (each_backend (orphan (map (λ (p : ProviderConfig). p.id) cfg.providers)) cfg.models
            ++ concat_map key_issues cfg.providers))

unfoldable pub warning_passes : GatewayConfig → List Issue
warning_passes cfg =
    concat_map no_backends cfg.models
    ++ (each_backend (disabled cfg.providers) cfg.models
        ++ (each_backend (unpriced cfg) cfg.models ++ each_backend too_long cfg.models))

unfoldable pub validate_config : GatewayConfig → List Issue
validate_config cfg = error_passes cfg ++ warning_passes cfg
