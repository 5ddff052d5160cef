-- ===== src/Quota/Rate.antt =====
-- The rate limit of clientquota.py over any requests, of one key and of others, and looks at the
-- counters between them.
use local_gateway.Prelude.{
  leb, if◌then◌else◌, Bool-cases, ◌==◌, nat_eq, int_eq, Text, text_eqb_iff, text_eq, length, ℕ, ◌+◌,
  ◌-◌, ◌≤◌, ◌<◌, ◌≡◌, refl, sym, ap, ◌∙◌, ◌↔◌, inl, inr, Bool, false, ◌&&◌, none, some, List, [],
  ◌∷◌, ◌++◌, arith,
}
use local_gateway.Prelude.Count.{count}
use local_gateway.Dict.{get_default, get}
use local_gateway.Config.{ApiKeyConfig}
use local_gateway.Quota.{Quota, window_ms, rpm_limit, expire, check_rpm, current_rpm, initial}
use local_gateway.Quota.Hits.{
  is_none, is_none_iff, hits_of, own_answer, hits-check_rpm_other, is_none-check_rpm,
  hits-check_rpm_own, hits-current_rpm,
}
use local_gateway.Quota.Window.{
  Rising, Rising-to, Rising-last, Rising-expire, count-length, count-expire, count-expire_window,
}

pub data Op : Type 0 where
  request : ApiKeyConfig → Op
  look : Text → Op

unfoldable pub op_state : Op → ℕ → Quota → Quota
op_state (request key) t q = (check_rpm key t q).0
op_state (look i) t q = (current_rpm i t q).0

-- Whether a call is a request of the id that is allowed.
unfoldable pub admits : Text → Op → ℕ → Quota → Bool
unfolding is_none
admits k (request key) t q = key.id == k && is_none (check_rpm key t q).1
admits k (look i) t q = false

unfoldable pub note : Bool → ℕ → List ℕ → List ℕ
note b t log = if b then log ++ t ∷ [] else log

-- The state after timed calls, and the times of the requests of an id that were allowed.
unfoldable pub play : Text → List (ℕ × Op) → Quota → List ℕ → Quota × List ℕ
play k [] q log = (q, log)
play k ((t, op) ∷ ops) q log = play k ops (op_state op t q) (note (admits k op t q) t log)

-- The calls come at times in order, from `last` on, and end by `now`.
unfoldable pub Timed : ℕ → List (ℕ × Op) → ℕ → Type 0
Timed last [] now = last ≤ now
Timed last ((t, op) ∷ ops) now = (last ≤ t) × Timed t ops now

unfoldable pub LimitedOp : Text → ℕ → Op → Type 0
LimitedOp k n (request key) = key.id ≡ k → rpm_limit key ≡ some n
LimitedOp k n (look i) = 0 ≤ n

-- Every request of the id is under the same limit.
unfoldable pub Limited : Text → ℕ → List (ℕ × Op) → Type 0
Limited k n [] = 0 ≤ n
Limited k n ((t, op) ∷ ops) = LimitedOp k n op × Limited k n ops

-- A time lies in the window that starts at `a`.
unfoldable pub within : ℕ → ℕ → Bool
within a t = leb a t && leb t (a + window_ms)

-- The deque of an id knows its allowed requests of the last window.
unfoldable pub Inv : Text → ℕ → ℕ → Quota → List ℕ → Type 0
Inv k n last q log =
    ((a : ℕ) → count (within a) log ≤ n)
    × ((b : ℕ) → last ≤ b + window_ms → count (leb b) log ≡ count (leb b) (hits_of k q))
    × Rising 0 (hits_of k q) last

count-within : (a t : ℕ) (log : List ℕ) → count (within a) (log ++ t ∷ []) ≤ count (leb a) log + 1
unfolding within count
count-within a t [] = ground arith
count-within a t (x ∷ log) = ground (arith, count-within a t log)

count-outside :
    (a t : ℕ) (log : List ℕ)
    → within a t ≡ false
    → count (within a) (log ++ t ∷ []) ≡ count (within a) log
unfolding count
count-outside a t [] h = rw h refl
count-outside a t (x ∷ log) h = rw (count-outside a t log h) refl

count-last :
    (b t : ℕ) (log : List ℕ)
    → count (leb b) (log ++ t ∷ []) ≡ (if leb b t then count (leb b) log + 1 else count (leb b) log)
unfolding count
count-last b t [] = refl
count-last b t (x ∷ log) = ground (arith, count-last b t log)

-- Expired hits are dropped, and nothing is allowed.
Inv-expire :
    (k : Text) (n last t : ℕ) (q r : Quota) (log : List ℕ)
    → last ≤ t
    → hits_of k r ≡ expire t (hits_of k q)
    → Inv k n last q log
    → Inv k n t r log
unfolding Inv
Inv-expire k n last t q r log le e i = (
  i.0,
  (λ b h.
      i.1 b (omega (arith, h))
      ∙ sym (count-expire b t (hits_of k q) h)
      ∙ ap (count (leb b)) (sym e)),
  rw e (Rising-to 0 (expire t (hits_of k q)) last t le (Rising-expire t 0 (hits_of k q) last i.2)),
)

-- The deque is not touched.
pub Inv-same :
    (k : Text) (n last t : ℕ) (q r : Quota) (log : List ℕ)
    → last ≤ t
    → hits_of k r ≡ hits_of k q
    → Inv k n last q log
    → Inv k n t r log
unfolding Inv
Inv-same k n last t q r log le e i = (
  i.0,
  (λ b h. i.1 b (omega (arith, h)) ∙ ap (count (leb b)) (sym e)),
  rw e (Rising-to 0 (hits_of k q) last t le i.2),
)

-- A request is allowed, with fewer hits left than the limit.
Inv-allowed :
    (k : Text) (n last t : ℕ) (q r : Quota) (log : List ℕ)
    → last ≤ t
    → length (expire t (hits_of k q)) < n
    → hits_of k r ≡ expire t (hits_of k q) ++ t ∷ []
    → Inv k n last q log
    → Inv k n t r (log ++ t ∷ [])
unfolding Inv
Inv-allowed k n last t q r log le few e i =
    let dq = expire t (hits_of k q) in
    let known : (b : ℕ) → t ≤ b + window_ms → count (leb b) log ≡ count (leb b) dq =
      λ b h. i.1 b (omega (arith, h)) ∙ sym (count-expire b t (hits_of k q) h) in
    (
      (λ a. elim (Bool-cases (within a t)) [
        | inl inside ↦ omega (
          arith,
          count-within a t log,
          known a (unfold within in ground arith),
          count-length (leb a) dq,
        )
        | inr outside ↦ omega (arith, count-outside a t log outside, i.0 a)
      ]),
      (λ b h. rw (e, count-last b t log, count-last b t dq, known b h) refl),
      rw e (Rising-last 0 dq last t le (Rising-expire t 0 (hits_of k q) last i.2)),
    )

pub op_step :
    (k : Text) (n last t : ℕ) (op : Op) (q : Quota) (log : List ℕ)
    → last ≤ t
    → LimitedOp k n op
    → Inv k n last q log
    → Inv k n t (op_state op t q) (note (admits k op t q) t log)
unfolding op_state admits note LimitedOp
op_step k n last t (look i) q log le h inv = elim (hits-current_rpm k i t q) [
  | inl same ↦ Inv-same k n last t q (current_rpm i t q).0 log le same inv
  | inr kept ↦ Inv-expire k n last t q (current_rpm i t q).0 log le kept inv
]
op_step k n last t (request key) q log le h inv = elim (Bool-cases (key.id == k)) [
  | inr other ↦ rw other (
      Inv-same k n last t q (check_rpm key t q).0 log le (hits-check_rpm_other k key t q other) inv)
  | inl mine ↦
      let own : key.id ≡ k = ground (arith, text_eqb_iff key.id k) in
      let state = hits-check_rpm_own k n key t q own (h own) in
      rw (mine, is_none-check_rpm k n key t q own (h own))
        (elim (Bool-cases (own_answer k n t q)) [
          | inl well ↦ rw well (
              Inv-allowed k n last t q (check_rpm key t q).0 log le
                (unfold own_answer in ground arith) (state ∙ rw well refl) inv)
          | inr full ↦
              rw full
                (Inv-expire k n last t q (check_rpm key t q).0 log le (state ∙ rw full refl) inv)
        ])
]

Inv-play :
    (k : Text) (n last now : ℕ) (ops : List (ℕ × Op)) (q : Quota) (log : List ℕ)
    → Timed last ops now
    → Limited k n ops
    → Inv k n last q log
    → Inv k n now (play k ops q log).0 (play k ops q log).1
unfolding Timed Limited play
Inv-play k n last now [] q log timed limited inv = Inv-same k n last now q q log timed refl inv
Inv-play k n last now ((t, op) ∷ ops) q log timed limited inv =
    Inv-play k n t now ops (op_state op t q) (note (admits k op t q) t log) timed.1 limited.1
      (op_step k n last t op q log timed.0 limited.0 inv)

pub Inv-initial : (k : Text) (n : ℕ) → Inv k n 0 initial []
unfolding Inv hits_of get_default get count Rising
Inv-initial k n = ((λ a. omega arith), (λ b h. refl), omega arith)

-- Over any timed requests and looks, in which all requests of an id are under a limit of n a minute,
-- no window of 60 seconds (its end included) holds more than n allowed requests of the id.
pub play-bounded :
    (k : Text) (n now a : ℕ) (ops : List (ℕ × Op))
    → Timed 0 ops now
    → Limited k n ops
    → count (within a) (play k ops initial []).1 ≤ n
unfolding Inv
play-bounded k n now a ops timed limited =
    (Inv-play k n 0 now ops initial [] timed limited (Inv-initial k n)).0 a

-- After any such calls a request of the id at time `now` is allowed exactly if fewer than n requests of
-- the id were allowed in the last 60 seconds.
pub check_rpm-play :
    (k : Text) (n now : ℕ) (ops : List (ℕ × Op)) (key : ApiKeyConfig)
    → Timed 0 ops now
    → Limited k n ops
    → key.id ≡ k
    → rpm_limit key ≡ some n
    → (check_rpm key now (play k ops initial []).0).1 ≡ none
      ↔ count (leb (now - window_ms)) (play k ops initial []).1 < n
unfolding Inv own_answer
check_rpm-play k n now ops key timed limited own limit =
    let q = (play k ops initial []).0 in
    let inv = Inv-play k n 0 now ops initial [] timed limited (Inv-initial k n) in
    let kept = expire now (hits_of k q) in
    let known = inv.1 (now - window_ms) (omega arith) in
    let a = count-expire (now - window_ms) now (hits_of k q) (omega arith) in
    let b = count-expire_window now 0 (hits_of k q) now inv.2 in
    let c = is_none-check_rpm k n key now q own limit in
    let d = is_none_iff (check_rpm key now q).1 in
    ((λ e. ground (arith, known, a, b, c, d.0 e)), (λ few. d.1 (c ∙ ground (arith, known, a, b))))
