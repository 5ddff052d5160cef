-- ===== src/Router/Rotation.antt =====
-- router.py: load balancing within a tier, and the order of the tiers. Weights are whole numbers in
-- the unit of the configuration; probabilities are compared after multiplying by their denominators.
pub mod Start
use local_gateway.Prelude.{
  ltb, leb, eqb, if◌then◌else◌, ℤ, pos_part, ◌==◌, nat_eq, int_eq, Text, text_eq, length, is_empty,
  select, rotate, ℕ, zero, suc, ◌+◌, ◌*◌, ◌%◌, ◌^◌, not, Option, none, some, List, [], ◌∷◌, map,
}
use local_gateway.Dict.{Dict, get, get_default, set}
use local_gateway.Router.Types.{Selected, key_of}

-- `_next_rotation`: the model's counter, and the counters with it incremented.
unfoldable pub next_rotation : Text → Dict Text ℕ → ℕ × Dict Text ℕ
next_rotation model_id rr = let n = get_default model_id 0 rr in (n, set model_id (n + 1) rr)

unfoldable pub total : List ℕ → ℕ
total [] = 0
total (w ∷ ws) = w + total ws

-- The loop that finds the first index whose accumulated weight passes the draw.
unfoldable pub walk : ℕ → ℕ → ℕ → List ℕ → ℕ
walk pick acc i [] = 0
walk pick acc i (w ∷ ws) =
    let rest = walk pick (acc + w) (i + 1) ws in if ltb pick (acc + w) then i else rest

unfoldable pub pick_start : List ℕ → ℕ → ℕ
unfolding walk
pick_start weights pick = walk pick 0 0 weights

-- items[r:] + items[:r] at r = rotation % n
unfoldable pub plain_rotation {ℓ} : {A : Type ℓ} → ℕ → List A → List A
plain_rotation rotation items = rotate (rotation % length items) items

unfoldable pub measured : Dict Text ℕ → List Selected → List ℕ
measured tps_map [] = []
measured tps_map (s ∷ items) =
    let rest = measured tps_map items in
    elim (get (key_of s) tps_map) [ none ↦ rest | some tps ↦ tps ∷ rest ]

-- Each weight times the number of measurements: the average weight becomes their sum.
unfoldable pub tps_weights : Dict Text ℕ → ℕ → ℕ → List Selected → List ℕ
tps_weights tps_map sum n =
    map λ s. elim (get (key_of s) tps_map) [ none ↦ sum | some tps ↦ tps * n ]

unfoldable pub weighted_rotation : Dict Text ℕ → ℕ → (ℕ → ℕ) → List Selected → List Selected
unfolding measured tps_weights pick_start total
weighted_rotation tps_map rotation draw items =
    if leb (length items) 1
    then items
    else let known = measured tps_map items in
      if is_empty known
      then plain_rotation rotation items
      else let weights = tps_weights tps_map (total known) (length known) items in
        rotate (pick_start weights (draw (total weights))) items

unfoldable pub static_weight_rotation : List ℤ → ℕ → (ℕ → ℕ) → List Selected → List Selected
unfolding pick_start total
static_weight_rotation weights rotation draw items =
    if leb (length items) 1
    then items
    else let positive = map pos_part weights in
      if eqb (total positive) 0
      then plain_rotation rotation items
      else rotate (pick_start positive (draw (total positive))) items

-- decay ** i, for the decay in thousandths, over the common denominator 1000 ** (n - 1)
unfoldable pub decay_weights : ℕ → List ℤ → List ℕ
decay_weights decay [] = []
decay_weights decay (k ∷ ks) = (1000 ^ length ks) ∷ map (λ w. decay * w) (decay_weights decay ks)

unfoldable pub nth_key : List ℤ → ℕ → Option ℤ
nth_key [] i = none
nth_key (k ∷ ks) zero = some k
nth_key (k ∷ ks) (suc i) = nth_key ks i

-- The sampled tier first, the others in their order. The list of tiers is not empty.
unfoldable pub sample_tier_order : ℕ → (ℕ → ℕ) → List ℤ → List ℤ
unfolding pick_start total decay_weights nth_key
sample_tier_order decay draw tier_keys =
    let weights = decay_weights decay tier_keys in
    elim (nth_key tier_keys (pick_start weights (draw (total weights)))) [
      | none ↦ tier_keys
      | some start_key ↦ start_key ∷ select (λ k. not (k == start_key)) tier_keys
    ]
