-- ===== src/Tests/Samples.antt =====
-- Configurations, backends and outcomes that the tests share.
use local_gateway.Prelude.{
  pos, ◌==◌, nat_eq, int_eq, Text, text_eq, ℕ, true, false, not, none, some, [], ◌∷◌,
}
use local_gateway.Config.{
  GatewayConfig, ServerConfig, ProviderConfig, BackendConfig, ModelConfig, TimeSlot, failover,
}
use local_gateway.TimeRouting.{LocalTime}
use local_gateway.Router.Types.{World, Prefs}

abbrev pub acme : Text
acme = b'a' ∷ []

abbrev pub beta : Text
beta = b'b' ∷ []

abbrev pub gpt : Text
gpt = b'g' ∷ []

abbrev pub server : ServerConfig
server = record {
  api_key = none;
  api_keys = [];
  routing_mode = failover;
  routing_decay = 400;
  stats_routing_enabled = true;
  circuit_breaker_enabled = true;
  circuit_breaker_threshold = pos 2;
  circuit_breaker_backoff_s = pos 1000;
  cache_affinity_enabled = false;
  cache_affinity_ttl_sec = 300;
  max_inflight_before_spill = none;
  response_cache_enabled = false;
  response_cache_ttl_sec = 3600;
  response_cache_max_entries = 1000;
  probe_enabled = true;
  probe_interval_s = 3600000;
}

abbrev pub provider : Text → ProviderConfig
provider i = record { id = i; api_key = []; enabled = true }

abbrev pub backend : Text → ℕ → BackendConfig
backend p priority = record {
  provider = p;
  model = gpt;
  priority = pos priority;
  enabled = true;
  context_length = some (pos 8000);
  max_output_tokens = none;
  cache_supported = none;
  weight = pos 1000;
}

abbrev pub night : TimeSlot
night = record {
  id = [];
  name = [];
  start_hour = 22;
  end_hour = 6;
  days_of_week = [];
  active_providers = [];
  enabled = true;
}

abbrev pub model : ModelConfig
model = record {
  id = gpt;
  backends = backend beta 2 ∷ backend acme 1 ∷ [];
  enabled = true;
  context_length = none;
  max_output_tokens = some (pos 4000);
  aliases = (b'm' ∷ []) ∷ [];
  time_routing = record { enabled = true; timezone = []; slots = night ∷ [] };
  cache_responses = false;
  endpoint = b'c' ∷ b'h' ∷ b'a' ∷ b't' ∷ [];
  probe_interval_s = some 60000;
}

abbrev pub config : GatewayConfig
config = record {
  server = server;
  providers = provider acme ∷ provider beta ∷ [];
  models = model ∷ [];
  pricing = [];
  version = 0;
}

abbrev pub midnight : LocalTime
midnight = record { weekday = 0; hour = 0 }

-- The provider with the given id is rate-limited.
abbrev pub world : Text → World
world bad = record {
  routable = λ n p m. not (p == bad);
  local_time = λ tz. midnight;
  tps_map = λ m. [];
  snapshot = λ k. record { avg_latency_ms = none; success_rate = none; in_flight = 0 };
  warm_backends_for = λ key ks ttl. ks;
  last_hit_rate = λ key k. 0;
  draw = λ d n. 0;
}

abbrev pub prefs : Prefs
prefs = record { order = beta ∷ []; ignore = []; allow_fallbacks = true; sort = none }
