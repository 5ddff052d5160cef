-- ===== src/Router/Sorting.antt =====
-- router.py: the stats-driven sorts. A Python tuple of numbers is a list of parts, compared in order.
use local_gateway.Prelude.{
  ltb, eqb, if◌then◌else◌, nat_eq, int_eq, Text, text_eq, is_empty, sort_by, ℕ, ◌+◌, ◌*◌, max, Bool,
  true, false, ◌&&◌, Option, none, some, List, [], ◌∷◌, map,
}
use local_gateway.Dict.{Dict, get, set}
use local_gateway.Config.{GatewayConfig, pricing_for}
use local_gateway.Router.Types.{
  Selected, Sort, latency, throughput, price, cache, value, BackendStats, World, key_of,
}

-- A number, the negative of a number, and the negative of a quotient.
pub data Part : Type 0 where
  up : ℕ → Part
  down : ℕ → Part
  down_ratio : ℕ → ℕ → Part

part_lt : Part → Part → Bool
part_lt (up a) (up b) = ltb a b
part_lt (down a) (down b) = ltb b a
part_lt (down_ratio a b) (down_ratio c d) = ltb (c * b) (a * d)
part_lt _ _ = false

unfoldable pub tuple_lt : List Part → List Part → Bool
unfolding part_lt
tuple_lt [] [] = false
tuple_lt [] (y ∷ ys) = true
tuple_lt (x ∷ xs) [] = false
tuple_lt (x ∷ xs) (y ∷ ys) =
    let rest = tuple_lt xs ys in if part_lt x y then true else if part_lt y x then false else rest

abbrev flag_none : Option ℕ → Part
flag_none none = up 1
flag_none (some n) = up 0

abbrev number : Option ℕ → ℕ
number none = 0
number (some n) = n

-- `lat or 999999`, in tenths
or_slow : Option ℕ → ℕ
or_slow none = 9999990
or_slow (some n) = if eqb n 0 then 9999990 else n

-- `_blended_price`, in picodollars per token
unfoldable pub blended_price : GatewayConfig → Selected → Option ℕ
blended_price config s =
    let p = pricing_for config s.provider.id s.backend.model in
    if eqb p.input 0 && eqb p.output 0 then none else some (p.input + p.output)

-- Best throughput per dollar; the floor of the price is 1e-12 $.
value_key : Option ℕ → Option ℕ → List Part
value_key (some tps) (some p) = up 0 ∷ down_ratio tps (max p 1) ∷ []
value_key _ _ = up 1 ∷ down_ratio 0 1 ∷ []

unfoldable pub sort_key :
    GatewayConfig → Sort → Dict Text ℕ → (Text → BackendStats) → Dict Text ℕ → Selected → List Part
unfolding or_slow value_key blended_price
sort_key config latency tps_map snap warm s =
    let lat = (snap (key_of s)).avg_latency_ms in flag_none lat ∷ up (number lat) ∷ []
sort_key config throughput [] snap warm s =
    let st = snap (key_of s) in
    flag_none st.success_rate ∷ down (number st.success_rate) ∷ up (or_slow st.avg_latency_ms) ∷ []
sort_key config throughput (entry ∷ entries) snap warm s =
    let tps = get (key_of s) (entry ∷ entries) in flag_none tps ∷ down (number tps) ∷ []
sort_key config price tps_map snap warm s =
    let p = blended_price config s in flag_none p ∷ up (number p) ∷ []
sort_key config value tps_map snap warm s =
    value_key (get (key_of s) tps_map) (blended_price config s)
sort_key config cache tps_map snap warm s =
    let rate = number (get (key_of s) warm) in
    up (if eqb rate 0 then 1 else 0)
    ∷ down rate
    ∷ up (or_slow (snap (key_of s)).avg_latency_ms)
    ∷ []

-- The `for k in warm` loop of `_sort_context`.
warm_rates : (Text → ℕ) → List Text → Dict Text ℕ → Dict Text ℕ
warm_rates rate [] d = d
warm_rates rate (k ∷ ks) d = warm_rates rate ks (set k (rate k) d)

-- `_sort_context`: the hit rates of the warm candidates, for the sort that reads them.
unfoldable pub sort_context : World → Sort → Text → ℕ → List Selected → Dict Text ℕ
unfolding warm_rates
sort_context w cache cache_key ttl cs =
    if is_empty cs
    then []
    else warm_rates (w.last_hit_rate cache_key) (w.warm_backends_for cache_key (map key_of cs) ttl)
        []
sort_context w _ cache_key ttl cs = []

-- What all sorts of one request share.
pub record SortBy : Type 0 where
  pub config : GatewayConfig
  pub sort : Option Sort
  pub cache_key : Text
  pub ttl : ℕ
  pub tps_map : Dict Text ℕ

-- `xs.sort(key=...)`, with the context taken over `both`, if a sort is asked for.
unfoldable pub sort_list : World → SortBy → List Selected → List Selected → List Selected
sort_list w by both xs = elim by.sort [
  | none ↦ xs
  | some sort ↦
      let warm = sort_context w sort by.cache_key by.ttl both in
      let key = sort_key by.config sort by.tps_map w.snapshot warm in
      sort_by (λ a b. tuple_lt (key a) (key b)) xs
]
