-- ===== src/Quota/Window.antt =====
-- The deque of hits of clientquota.py: times in order, of which the expired are dropped.
use local_gateway.Prelude.{
  ltb, leb, Bool-cases, nat_eq, int_eq, text_eq, length, ℕ, ◌+◌, ◌-◌, ◌≤◌, ◌≡◌, refl, inl, inr,
  Bool, List, [], ◌∷◌, ◌++◌, arith,
}
use local_gateway.Prelude.Count.{count}
use local_gateway.Quota.{window_ms, expire}

-- Times that rise from `lo` and end by `hi`.
unfoldable pub Rising : ℕ → List ℕ → ℕ → Type 0
Rising lo [] hi = lo ≤ hi
Rising lo (t ∷ ts) hi = (lo ≤ t) × Rising t ts hi

Rising-from : (l lo : ℕ) (ts : List ℕ) (hi : ℕ) → l ≤ lo → Rising lo ts hi → Rising l ts hi
unfolding Rising
Rising-from l lo [] hi h r = omega arith
Rising-from l lo (t ∷ ts) hi h r = (omega (arith, r.0), r.1)

pub Rising-to : (lo : ℕ) (ts : List ℕ) (hi h : ℕ) → hi ≤ h → Rising lo ts hi → Rising lo ts h
unfolding Rising
Rising-to lo [] hi h le r = omega arith
Rising-to lo (t ∷ ts) hi h le r = (r.0, Rising-to t ts hi h le r.1)

pub Rising-last :
    (lo : ℕ) (ts : List ℕ) (hi now : ℕ)
    → hi ≤ now
    → Rising lo ts hi
    → Rising lo (ts ++ now ∷ []) now
unfolding Rising
Rising-last lo [] hi now le r = (omega arith, omega arith)
Rising-last lo (t ∷ ts) hi now le r = (r.0, Rising-last t ts hi now le r.1)

pub Rising-expire :
    (now lo : ℕ) (ts : List ℕ) (hi : ℕ) → Rising lo ts hi → Rising lo (expire now ts) hi
unfolding Rising expire
Rising-expire now lo [] hi r = r
Rising-expire now lo (t ∷ ts) hi r = elim (Bool-cases (ltb window_ms (now - t))) [
  | inl old ↦ rw old (Rising-from lo t (expire now ts) hi r.0 (Rising-expire now t ts hi r.1))
  | inr young ↦ rw young r
]

count-Rising :
    (b lo : ℕ) (ts : List ℕ) (hi : ℕ) → b ≤ lo → Rising lo ts hi → count (leb b) ts ≡ length ts
unfolding Rising count
count-Rising b lo [] hi h r = refl
count-Rising b lo (t ∷ ts) hi h r =
    ground (arith, count-Rising b t ts hi (omega (arith, r.0)) r.1, r.0)

pub count-length : (p : ℕ → Bool) (ts : List ℕ) → count p ts ≤ length ts
unfolding count
count-length p [] = omega arith
count-length p (t ∷ ts) = ground (arith, count-length p ts)

-- What is dropped is older than a bound that lies in the window.
pub count-expire :
    (b now : ℕ) (ts : List ℕ)
    → now ≤ b + window_ms
    → count (leb b) (expire now ts) ≡ count (leb b) ts
unfolding count expire
count-expire b now [] h = refl
count-expire b now (t ∷ ts) h = ground (arith, count-expire b now ts h)

-- What is kept of times in order lies in the window.
pub count-expire_window :
    (now lo : ℕ) (ts : List ℕ) (hi : ℕ)
    → Rising lo ts hi
    → count (leb (now - window_ms)) (expire now ts) ≡ length (expire now ts)
unfolding Rising expire count
count-expire_window now lo [] hi r = refl
count-expire_window now lo (t ∷ ts) hi r = elim (Bool-cases (ltb window_ms (now - t))) [
  | inl old ↦ rw old (count-expire_window now t ts hi r.1)
  | inr young ↦
      rw young (count-Rising (now - window_ms) t (t ∷ ts) hi (ground arith) (omega arith, r.1))
]
