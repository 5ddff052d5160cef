-- ===== src/Router/Rotation/Start.antt =====
-- Where the weighted rotations of router.py start.
use local_gateway.Prelude.{
  leb, eqb, Bool-cases, ℤ, pos_part, nat_eq, int_eq, Text, text_eq, length, is_empty, rotate, ℕ,
  ◌+◌, ◌%◌, ◌≤◌, ◌<◌, ◌≡◌, sym, ◌↔◌, inl, inr, List, [], ◌∷◌, ◌++◌, map, arith,
}
use mathlib.Core.List.{append-nil}
use local_gateway.Dict.{Dict}
use local_gateway.Router.Types.{Selected}
use local_gateway.Router.Rotation.{
  total, walk, pick_start, plain_rotation, weighted_rotation, static_weight_rotation, measured,
  tps_weights,
}

rotate-zero {ℓ} : {A : Type ℓ} (xs : List A) → rotate 0 xs ≡ xs
unfolding rotate
rotate-zero xs = append-nil xs

-- A weighted rotation is a rotation.
pub weighted_rotation-rotate :
    (tps : Dict Text ℕ) (r : ℕ) (draw : ℕ → ℕ) (xs : List Selected)
    → (k : ℕ) × (weighted_rotation tps r draw xs ≡ rotate k xs)
unfolding weighted_rotation plain_rotation
weighted_rotation-rotate tps r draw xs = elim (Bool-cases (leb (length xs) 1)) [
  | inl short ↦ (0, rw short (sym (rotate-zero xs)))
  | inr long ↦ elim (Bool-cases (is_empty (measured tps xs))) [
    | inl none' ↦ (r % length xs, rw (long, none'))
    | inr some' ↦
        let known = measured tps xs in
        let ws = tps_weights tps (total known) (length known) xs in
        (pick_start ws (draw (total ws)), rw (long, some'))
  ]
]

pub static_weight_rotation-rotate :
    (weights : List ℤ) (r : ℕ) (draw : ℕ → ℕ) (xs : List Selected)
    → (k : ℕ) × (static_weight_rotation weights r draw xs ≡ rotate k xs)
unfolding static_weight_rotation plain_rotation
static_weight_rotation-rotate weights r draw xs = elim (Bool-cases (leb (length xs) 1)) [
  | inl short ↦ (0, rw short (sym (rotate-zero xs)))
  | inr long ↦ elim (Bool-cases (eqb (total (map pos_part weights)) 0)) [
    | inl none' ↦ (r % length xs, rw (long, none'))
    | inr some' ↦
        let ws = map pos_part weights in (pick_start ws (draw (total ws)), rw (long, some'))
  ]
]

walk-lem :
    (pick acc i : ℕ) (before : List ℕ) (w : ℕ) (after : List ℕ)
    → acc + total before ≤ pick
    → pick < acc + total before + w
    → walk pick acc i (before ++ w ∷ after) ≡ i + length before
unfolding walk total
walk-lem pick acc i [] w after low high = ground arith
walk-lem pick acc i (v ∷ before) w after low high =
    ground (arith, walk-lem pick (acc + v) (i + 1) before w after)

walk-ge :
    (pick acc i : ℕ) (ws : List ℕ) → acc ≤ pick → pick < acc + total ws → i ≤ walk pick acc i ws
unfolding walk total
walk-ge pick acc i [] low high = absurd (omega arith)
walk-ge pick acc i (w ∷ ws) low high = ground (arith, walk-ge pick (acc + w) (i + 1) ws)

walk-interval :
    (pick acc i : ℕ) (before : List ℕ) (w : ℕ) (after : List ℕ)
    → acc ≤ pick
    → pick < acc + total (before ++ w ∷ after)
    → walk pick acc i (before ++ w ∷ after) ≡ i + length before
    → (acc + total before ≤ pick) × (pick < acc + total before + w)
unfolding walk total
walk-interval pick acc i [] w after low high e =
    ground (arith, walk-ge pick (acc + w) (i + 1) after)
walk-interval pick acc i (v ∷ before) w after low high e = ground (
  arith,
  walk-interval pick (acc + v) (i + 1) before w after,
  walk-ge pick (acc + v) (i + 1) (before ++ w ∷ after),
)

-- A draw below the total starts at an item exactly if it lies in the item's stretch of the
-- accumulated weights: of the draws below the total, as many as its weight start at an item, and an
-- item of weight 0 is never first.
pub pick_start-interval :
    (before : List ℕ) (w : ℕ) (after : List ℕ) (pick : ℕ)
    → pick < total (before ++ w ∷ after)
    → (pick_start (before ++ w ∷ after) pick ≡ length before)
      ↔ ((total before ≤ pick) × (pick < total before + w))
unfolding pick_start
pick_start-interval before w after pick h = (
  λ e. ground (arith, walk-interval pick 0 0 before w after (omega arith) (omega arith)),
  λ b. ground (arith, walk-lem pick 0 0 before w after, b.0, b.1),
)
