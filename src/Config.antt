-- ===== src/Config.antt =====
-- localgateway/config.py: the configuration and its lookups. Durations are whole milliseconds,
-- weights are thousandths, and prices are picodollars per token (10^-12 $), so that the constants of
-- the source are whole numbers. Fields that only the admin pages show are left out.
pub mod Lookup
pub mod Validate
pub mod Files
use local_gateway.Prelude.{
  if◌then◌else◌, ℤ, ◌==◌, nat_eq, int_eq, Text, text_eq, contains, ℕ, Bool, Option, none, some,
  List, [], ◌∷◌, arith,
}
use local_gateway.Dict.{Dict, get}
use local_gateway.Backend.{backend_key}

pub record ApiKeyConfig : Type 0 where
  pub id : Text
  pub key : Text
  pub enabled : Bool
  pub rpm : Option ℤ
  pub daily_budget_usd : Option ℕ
  pub monthly_budget_usd : Option ℕ
  pub model_allowlist : List Text

pub data RoutingMode : Type 0 where
  explore failover : RoutingMode

pub record ServerConfig : Type 0 where
  pub api_key : Option Text
  pub api_keys : List ApiKeyConfig
  pub routing_mode : RoutingMode
  pub routing_decay : ℕ
  pub stats_routing_enabled : Bool
  pub circuit_breaker_enabled : Bool
  pub circuit_breaker_threshold : ℤ
  pub circuit_breaker_backoff_s : ℤ
  pub cache_affinity_enabled : Bool
  pub cache_affinity_ttl_sec : ℕ
  pub max_inflight_before_spill : Option ℤ
  pub response_cache_enabled : Bool
  pub response_cache_ttl_sec : ℕ
  pub response_cache_max_entries : ℕ
  pub probe_enabled : Bool
  pub probe_interval_s : ℕ

pub record ProviderConfig : Type 0 where
  pub id : Text
  pub api_key : Text
  pub enabled : Bool

pub record BackendConfig : Type 0 where
  pub provider : Text
  pub model : Text
  pub priority : ℤ
  pub enabled : Bool
  pub context_length : Option ℤ
  pub max_output_tokens : Option ℤ
  pub cache_supported : Option Bool
  pub weight : ℤ

pub record TimeSlot : Type 0 where
  pub id : Text
  pub name : Text
  pub start_hour : ℕ
  pub end_hour : ℕ
  pub days_of_week : List ℕ
  pub active_providers : List Text
  pub enabled : Bool

pub record TimeRoutingConfig : Type 0 where
  pub enabled : Bool
  pub timezone : Text
  pub slots : List TimeSlot

pub record ModelConfig : Type 0 where
  pub id : Text
  pub backends : List BackendConfig
  pub enabled : Bool
  pub context_length : Option ℤ
  pub max_output_tokens : Option ℤ
  pub aliases : List Text
  pub time_routing : TimeRoutingConfig
  pub cache_responses : Bool
  pub endpoint : Text
  pub probe_interval_s : Option ℕ

pub record PricingEntry : Type 0 where
  pub input : ℕ
  pub output : ℕ
  pub cache_read : Option ℕ
  pub cache_write : Option ℕ

pub record GatewayConfig : Type 0 where
  pub server : ServerConfig
  pub providers : List ProviderConfig
  pub models : List ModelConfig
  pub pricing : Dict Text PricingEntry
  pub version : ℕ

unfoldable pub find_provider : Text → List ProviderConfig → Option ProviderConfig
find_provider i [] = none
find_provider i (p ∷ ps) = if p.id == i then some p else find_provider i ps

unfoldable pub provider_by_id : GatewayConfig → Text → Option ProviderConfig
unfolding find_provider
provider_by_id config provider_id = find_provider provider_id config.providers

unfoldable pub find_model : Text → List ModelConfig → Option ModelConfig
find_model i [] = none
find_model i (m ∷ ms) = if m.id == i then some m else find_model i ms

unfoldable pub find_alias : Text → List ModelConfig → Option ModelConfig
find_alias i [] = none
find_alias i (m ∷ ms) = if contains i m.aliases then some m else find_alias i ms

-- The canonical ids of all models come before any alias.
unfoldable pub model_by_id : GatewayConfig → Text → Option ModelConfig
unfolding find_model find_alias
model_by_id config model_id = elim (find_model model_id config.models) [
  | some m ↦ some m
  | none ↦ find_alias model_id config.models
]

abbrev pub no_pricing : PricingEntry
no_pricing = record { input = 0; output = 0; cache_read = none; cache_write = none }

unfoldable pub pricing_for : GatewayConfig → Text → Text → PricingEntry
pricing_for config provider_id model = elim (get (backend_key provider_id model) config.pricing) [
  | none ↦ no_pricing
  | some entry ↦ entry
]

unfoldable pub find_key : Text → List ApiKeyConfig → Option ApiKeyConfig
find_key i [] = none
find_key i (k ∷ ks) = if k.id == i then some k else find_key i ks

unfoldable pub api_key_by_id : GatewayConfig → Text → Option ApiKeyConfig
unfolding find_key
api_key_by_id config key_id = find_key key_id config.server.api_keys
