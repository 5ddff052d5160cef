-- ===== src/Stats/Window.antt =====
-- The bounded windows of samples of stats.py.
use local_gateway.Prelude.{
  nat_eq, int_eq, text_eq, length, drop, ℕ, ◌-◌, ◌≤◌, ◌≡◌, refl, ◌∙◌, List, [], ◌∷◌, arith,
}
use local_gateway.Prelude.Recent.{push_all, last_items, length-drop, push_all-last_items}
use local_gateway.Stats.{window, append_window}

-- All samples, in the order of their recording.
unfoldable pub record_all : List ℕ → List ℕ → List ℕ
record_all xs [] = xs
record_all xs (s ∷ samples) = record_all (append_window xs s) samples

record_all-push_all : (xs samples : List ℕ) → record_all xs samples ≡ push_all window xs samples
unfolding record_all append_window push_all
record_all-push_all xs [] = refl
record_all-push_all xs (s ∷ samples) = record_all-push_all (append_window xs s) samples

-- After any samples a window holds the last 50 of them, in order, or all where there are fewer.
pub record_all-last_window :
    (samples : List ℕ)
    → (record_all [] samples ≡ drop (length samples - window) samples)
      × (length (record_all [] samples) ≤ window)
unfolding last_items
record_all-last_window samples =
    let e = record_all-push_all [] samples ∙ push_all-last_items window [] samples (omega arith) in
    (e, rw e (omega (arith, length-drop (length samples - window) samples)))
