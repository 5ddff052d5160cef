-- ===== src/Router/Affinity.antt =====
-- router.py: `_apply_tiebreak` and `_emit_cache_affinity`.
use local_gateway.Prelude.{
  ltb, eqb, if◌then◌else◌, ℤ, pos, ltb_ℤ, nat_eq, int_eq, Text, text_eq, contains, length, is_empty,
  select, sort_by, ℕ, ◌+◌, Bool, not, Option, none, some, List, [], ◌∷◌, ◌++◌, map,
}
use local_gateway.Dict.{Dict, get_default, set}
use local_gateway.Router.Types.{
  Selected, World, Band, warm_idle, warm_busy, cold_idle, cold_busy, key_of, tag_reason,
}

-- {pid: i for i, pid in enumerate(order)}
ranks : ℕ → List Text → Dict Text ℕ → Dict Text ℕ
ranks i [] d = d
ranks i (pid ∷ order) d = ranks (i + 1) order (set pid i d)

unfoldable pub apply_tiebreak : List Text → List Selected → List Selected
unfolding ranks
apply_tiebreak order items =
    if is_empty order
    then items
    else let pos = λ (s : Selected). get_default s.provider.id (length order) (ranks 0 order []) in
      sort_by (λ a b. ltb (pos a) (pos b)) items

abbrev pub tagged : Band → List Selected → List Selected
tagged band = tag_reason (record { band = band; suffix = [] })

abbrev pub by_inflight : World → Selected → Selected → Bool
by_inflight w a b = ltb (w.snapshot (key_of a)).in_flight (w.snapshot (key_of b)).in_flight

abbrev pub is_idle : World → Selected → Bool
is_idle w s = eqb (w.snapshot (key_of s)).in_flight 0

-- The two lists of `split_idle_busy`, each after its tiebreak and its tag.
unfoldable pub idle : World → List Text → Band → List Selected → List Selected
idle w order band items = tagged band (apply_tiebreak order (select (is_idle w) items))

unfoldable pub busy : World → List Text → Band → List Selected → List Selected
busy w order band items =
    tagged band
      (apply_tiebreak order (sort_by (by_inflight w) (select (λ s. not (is_idle w s)) items)))

-- `inflight(s) < max_inflight`
abbrev pub has_room : World → ℤ → Selected → Bool
has_room w cap s = ltb_ℤ (pos (w.snapshot (key_of s)).in_flight) cap

-- The two busy bands after the spill.
unfoldable pub spill :
    World → List Text → Option ℤ → List Selected → List Selected → List Selected × List Selected
spill w order none warm cold = (warm, cold)
spill w order (some cap) [] cold = ([], cold)
spill w order (some cap) (s ∷ warm) cold = (
  select (has_room w cap) (s ∷ warm),
  apply_tiebreak order (select (λ x. not (has_room w cap x)) (s ∷ warm) ++ cold),
)

-- The four bands of the candidates in `flat`.
unfoldable pub emit_bands : World → List Text → Option ℤ → Text → ℕ → List Selected → List Selected
emit_bands w order max_inflight cache_key ttl flat =
    let warm_keys = w.warm_backends_for cache_key (map key_of flat) ttl in
    let warm = select (λ s. contains (key_of s) warm_keys) flat in
    let cold = select (λ s. not (contains (key_of s) warm_keys)) flat in
    let (warm_rest, cold_rest) =
      spill w order max_inflight (busy w order warm_busy warm) (busy w order cold_busy cold) in
    idle w order warm_idle warm ++ (warm_rest ++ (idle w order cold_idle cold ++ cold_rest))
