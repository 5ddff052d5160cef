-- ===== src/Router/Types.antt =====
-- The data of router.py, and what `select_backends` reads from the other parts of the gateway.
use local_gateway.Prelude.{
  ℤ, nat_eq, int_eq, Text, text_eq, ℕ, Bool, true, Option, none, some, List, [], ◌∷◌, map,
}
use local_gateway.Dict.{Dict}
use local_gateway.Config.{ProviderConfig, BackendConfig}
use local_gateway.Backend.{backend_key}
use local_gateway.TimeRouting.{LocalTime}

pub data Sort : Type 0 where
  latency throughput price cache value : Sort

-- The reason texts. `none_yet` is the empty text; `tier k` is f"tier-{k}".
pub data Band : Type 0 where
  none_yet warm_idle warm_busy cold_idle cold_busy ratelimited_fallback order_pref : Band
  tier : ℤ → Band

-- A reason and the suffixes " sort:..." that follow it.
pub record Reason : Type 0 where
  pub band : Band
  pub suffix : List Sort

-- A provider and one of its backends, `tuple[ProviderConfig, BackendConfig]`.
pub record Candidate : Type 0 where
  pub provider : ProviderConfig
  pub backend : BackendConfig

-- `SelectedBackend`
pub record Selected : Type 0 where
  pub candidate : Candidate
  pub open candidate use *
  pub reason : Reason

abbrev pub untagged : Candidate → Selected
untagged c = record { candidate = c; reason = record { band = none_yet; suffix = [] } }

unfoldable pub key_of : Selected → Text
key_of s = backend_key s.provider.id s.backend.model

-- `ProviderPrefs`; an empty `order` or `ignore` stands for `None`.
pub record Prefs : Type 0 where
  pub order : List Text
  pub ignore : List Text
  pub allow_fallbacks : Bool
  pub sort : Option Sort

abbrev pub no_prefs : Prefs
no_prefs = record { order = []; ignore = []; allow_fallbacks = true; sort = none }

-- One entry of `stats.snapshot()`: latencies and rates are in tenths.
pub record BackendStats : Type 0 where
  pub avg_latency_ms : Option ℕ
  pub success_rate : Option ℕ
  pub in_flight : ℕ

-- What `select_backends` reads elsewhere. `routable n p m` is the answer of the n-th pass over the
-- backends to whether the backend is available and its circuit is closed: each pass asks anew.
-- `draw d total` is `random() * total`, for the draw in a tier or for the order of the tiers.
pub record World : Type 0 where
  pub routable : ℕ → Text → Text → Bool
  pub local_time : Text → LocalTime
  pub tps_map : Text → Dict Text ℕ
  pub snapshot : Text → BackendStats
  pub warm_backends_for : Text → List Text → ℕ → List Text
  pub last_hit_rate : Text → Text → ℕ
  pub draw : Option ℤ → ℕ → ℕ

unfoldable pub tag_reason : Reason → List Selected → List Selected
tag_reason reason = map (λ (s : Selected). record { candidate = s.candidate; reason = reason })

unfoldable pub sort_suffix : Option Sort → List Sort
sort_suffix none = []
sort_suffix (some s) = s ∷ []

abbrev pub candidates : List Selected → List Candidate
candidates = map (λ s. s.candidate)
