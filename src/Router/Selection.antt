-- ===== src/Router/Selection.antt =====
-- router.py: `select_backends`.
use local_gateway.Prelude.{
  ltb, eqb, if◌then◌else◌, ℤ, pos, ◌==◌, nat_eq, int_eq, Text, text_eq, length, is_empty, select,
  any, concat_map, ℕ, Bool, true, false, not, ◌&&◌, ◌||◌, Option, none, some, List, [], ◌++◌, map,
}
use local_gateway.Dict.{Dict}
use local_gateway.Config.{GatewayConfig, ModelConfig, RoutingMode, explore, failover, model_by_id}
use local_gateway.Router.Types.{
  Candidate, Selected, Prefs, Sort, throughput, value, World, Band, Reason, tier, order_pref,
  ratelimited_fallback, untagged, tag_reason, sort_suffix,
}
use local_gateway.Router.Candidates.{
  Needs, Tiers, collect_tiers, sorted_keys, tier_of, collect_preferred, active_slot_of,
}
use local_gateway.Router.Sorting.{SortBy, sort_list}
use local_gateway.Router.Rotation.{
  next_rotation, plain_rotation, weighted_rotation, static_weight_rotation, sample_tier_order,
}
use local_gateway.Router.Affinity.{tagged, emit_bands}

-- The settings of one call: `prefs`, and what is read of the configuration.
pub record Call : Type 0 where
  pub order : List Text
  pub allow_fallbacks : Bool
  pub sort : Option Sort
  pub affinity_active : Bool
  pub max_inflight : Option ℤ
  pub routing_mode : RoutingMode
  pub decay : ℕ
  pub by : SortBy

is_explore : RoutingMode → Bool
is_explore explore = true
is_explore failover = false

sort_reads_tps : Option Sort → Bool
sort_reads_tps (some throughput) = true
sort_reads_tps (some value) = true
sort_reads_tps _ = false

abbrev nonzero_or : ℕ → ℕ → ℕ
nonzero_or d n = if eqb n 0 then d else n

has_cache_key : Option Text → Bool
has_cache_key none = false
has_cache_key (some k) = not (is_empty k)

cache_key_text : Option Text → Text
cache_key_text none = []
cache_key_text (some k) = k

unfoldable pub call_of : World → GatewayConfig → ModelConfig → Prefs → Option Text → Call
unfolding is_explore sort_reads_tps has_cache_key cache_key_text
call_of w config model prefs cache_key =
    let server = config.server in
    record {
      order = prefs.order;
      allow_fallbacks = prefs.allow_fallbacks;
      sort = prefs.sort;
      affinity_active = server.cache_affinity_enabled && has_cache_key cache_key;
      max_inflight = server.max_inflight_before_spill;
      routing_mode = server.routing_mode;
      decay = nonzero_or 400 server.routing_decay;
      by = record {
        config = config;
        sort = prefs.sort;
        cache_key = cache_key_text cache_key;
        ttl = nonzero_or 300 server.cache_affinity_ttl_sec;
        tps_map =
            if server.stats_routing_enabled
              && (sort_reads_tps prefs.sort || is_explore server.routing_mode)
            then w.tps_map model.id
            else [];
      };
    }

-- The sublists of a list that the n-th pass finds available, and not.
abbrev pub is_routable : World → ℕ → Candidate → Bool
is_routable w n c = w.routable n c.provider.id c.backend.model

unfoldable pub available : World → ℕ → List Candidate → List Selected
available w n cs = map untagged (select (is_routable w n) cs)

unfoldable pub limited : World → ℕ → List Candidate → List Selected
limited w n cs = map untagged (select (λ c. not (is_routable w n c)) cs)

abbrev pub reason_of : Band → Option Sort → Reason
reason_of band sort = record { band = band; suffix = sort_suffix sort }

-- Only the preferred providers.
unfoldable pub emit_preferred_only : World → Call → List Candidate → List Selected
emit_preferred_only w c preferred =
    let avail = available w 0 preferred in
    let rest = limited w 1 preferred in
    tag_reason (reason_of order_pref c.sort) (sort_list w c.by (avail ++ rest) avail)
    ++ tagged ratelimited_fallback (sort_list w c.by (avail ++ rest) rest)

-- (p.id, b.model) in preferred_keys
unfoldable pub is_preferred : List Candidate → Candidate → Bool
is_preferred preferred c =
    any (λ p. p.provider.id == c.provider.id && (p.backend.model == c.backend.model)) preferred

-- The group of a tier; without cache affinity the preferred ones leave it.
unfoldable pub group_of : Call → List Candidate → Tiers → ℤ → List Candidate
unfolding is_preferred
group_of c preferred tiers key =
    if c.affinity_active
    then tier_of tiers key
    else select (λ x. not (is_preferred preferred x)) (tier_of tiers key)

-- How the available backends of a tier are ordered.
unfoldable pub balance : World → Call → ℕ → ℤ → List Selected → List Selected → List Selected
unfolding is_explore
balance w c rotation key both avail = elim c.sort [
  | some _ ↦ sort_list w c.by both avail
  | none ↦
      if is_empty avail
      then avail
      else if not (is_empty c.by.tps_map) && is_explore c.routing_mode
      then weighted_rotation c.by.tps_map rotation (w.draw (some key)) avail
      else let weights = map (λ (s : Selected). s.backend.weight) avail in
        if any (λ w. not (w == pos 1000)) weights
        then static_weight_rotation weights rotation (w.draw (some key)) avail
        else plain_rotation rotation avail
]

unfoldable pub available_by_tier : World → Call → ℕ → List Candidate → Tiers → ℤ → List Selected
available_by_tier w c rotation preferred tiers key =
    let group = group_of c preferred tiers key in
    let avail = available w 2 group in balance w c rotation key (avail ++ limited w 3 group) avail

unfoldable pub ratelimited_by_tier : World → Call → List Candidate → Tiers → ℤ → List Selected
ratelimited_by_tier w c preferred tiers key =
    let group = group_of c preferred tiers key in
    let rest = limited w 3 group in sort_list w c.by (available w 2 group ++ rest) rest

-- The loop that adds the sort suffix to the reasons of `_emit_cache_affinity`.
unfoldable pub add_suffix : Option Sort → Selected → Selected
add_suffix sort s = record s {
  reason = record s.reason { suffix = s.reason.suffix ++ sort_suffix sort };
}

unfoldable pub not_preferred : List Candidate → Selected → Bool
unfolding is_preferred
not_preferred preferred s = not (is_preferred preferred s.candidate)

unfoldable pub emit_cache_affinity : World → Call → ℕ → List Candidate → Tiers → List Selected
unfolding add_suffix not_preferred
emit_cache_affinity w c rotation preferred tiers =
    let tier_keys = sorted_keys tiers in
    let flat =
      available w 4 preferred
      ++ concat_map
          (λ key.
            select (not_preferred preferred) (available_by_tier w c rotation preferred tiers key))
          tier_keys in
    map (add_suffix c.sort) (emit_bands w c.order c.max_inflight c.by.cache_key c.by.ttl flat)
    ++ (tagged ratelimited_fallback (limited w 6 preferred)
        ++ tagged ratelimited_fallback (
            concat_map
              (λ key.
                select (not_preferred preferred) (ratelimited_by_tier w c preferred tiers key))
              tier_keys))

-- The order of the tiers.
unfoldable pub tier_order : World → Call → List ℤ → List ℤ
unfolding is_explore
tier_order w c tier_keys =
    if is_explore c.routing_mode && ltb 1 (length tier_keys) && is_empty c.order
    then sample_tier_order c.decay (w.draw none) tier_keys
    else tier_keys

-- Without cache affinity. The limited preferred backends of the fifth pass are only tagged.
unfoldable pub emit_tiers : World → Call → ℕ → List Candidate → Tiers → List Selected
emit_tiers w c rotation preferred tiers =
    let tier_keys = sorted_keys tiers in
    let avail_p = available w 4 preferred in
    let limited_p = limited w 5 preferred in
    tag_reason (reason_of order_pref c.sort) (sort_list w c.by (avail_p ++ limited_p) avail_p)
    ++ (concat_map
          (λ key.
            tag_reason (reason_of (tier key) c.sort)
              (available_by_tier w c rotation preferred tiers key))
          (tier_order w c tier_keys)
        ++ (tagged ratelimited_fallback (limited w 6 preferred)
            ++ concat_map
                (λ key. tagged ratelimited_fallback (ratelimited_by_tier w c preferred tiers key))
                tier_keys))

-- From the tiers on: the emission, and the rotation counters.
unfoldable pub emit : World → Call → Text → Tiers → Dict Text ℕ → List Selected × Dict Text ℕ
emit w c model_id tiers rr =
    let preferred = collect_preferred c.order tiers in
    if not (is_empty preferred) && not c.allow_fallbacks && not c.affinity_active
    then (emit_preferred_only w c preferred, rr)
    else let (rotation, rr') = next_rotation model_id rr in
      if c.affinity_active
      then (emit_cache_affinity w c rotation preferred tiers, rr')
      else (emit_tiers w c rotation preferred tiers, rr')

unfoldable pub needs_of : World → ModelConfig → Option ℤ → Option ℤ → Prefs → Needs
needs_of w model max_tokens input_tokens prefs = record {
  ignore = prefs.ignore;
  max_tokens = max_tokens;
  input_tokens = input_tokens;
  active_slot = active_slot_of model w.local_time;
}

-- `select_backends` for a model that is found and enabled.
unfoldable pub select_for :
    World
    → GatewayConfig
    → ModelConfig
    → Option ℤ
    → Option ℤ
    → Prefs
    → Option Text
    → Dict Text ℕ
    → List Selected × Dict Text ℕ
select_for w config model max_tokens input_tokens prefs cache_key rr =
    let needs = needs_of w model max_tokens input_tokens prefs in
    let tiers = collect_tiers config model needs model.backends [] in
    if is_empty tiers
    then ([], rr)
    else emit w (call_of w config model prefs cache_key) model.id tiers rr

unfoldable pub select_backends :
    World
    → GatewayConfig
    → Text
    → Option ℤ
    → Option ℤ
    → Prefs
    → Option Text
    → Dict Text ℕ
    → List Selected × Dict Text ℕ
select_backends w config model_id max_tokens input_tokens prefs cache_key rr =
    elim (model_by_id config model_id) [
      | none ↦ ([], rr)
      | some model ↦
          if model.enabled
          then select_for w config model max_tokens input_tokens prefs cache_key rr
          else ([], rr)
    ]
