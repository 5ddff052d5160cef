-- ===== src/Supervisor/Single.antt =====
-- How many workers the supervisor keeps.
use local_gateway.Prelude.{
  eqb, if◌then◌else◌, eqb_iff, Bool-cases, ==_refl, nat_eq, int_eq, text_eq, contains, is_empty,
  select, ℕ, ◌≡◌, refl, sym, ap, ◌∙◌, ◌⊎◌, inl, inr, Bool, true, false, not, ◌||◌, Option, none,
  some, List, [], ◌∷◌, arith,
}
use local_gateway.Supervisor.{
  initial, start, stop, restart, status, is_running, polls, already_running, start_found, spawn,
  stop_found, System, initial, start, start_found, stop, stop_found, spawn, is_running, polls, die,
  restart, Status, started,
}

-- What happens to the supervisor: `restart` is a stop and a later start, between which the lock is free.
pub data Step : Type 0 where
  do_start : ℕ → ℕ → Step
  do_stop : Bool → Step
  dies : ℕ → Step

unfoldable pub step : System → Step → System
step s (do_start pid now) = (start pid now s).0
step s (do_stop obeys) = (stop obeys s).0
step s (dies pid) = die pid s

unfoldable pub run : System → List Step → System
run s [] = s
run s (e ∷ es) = run (step s e) es

-- No worker is alive, or only the one that the supervisor holds.
abbrev IsSingle : System → Type 0
IsSingle s = (s.alive ≡ []) ⊎ (pid : ℕ) × (s.alive ≡ pid ∷ []) × (s.sup.proc ≡ some pid)

start_found-none :
    (pid now : ℕ) (s : System) (o : Option ℕ)
    → s.alive ≡ []
    → start_found pid now s o ≡ (spawn pid now s, started pid)
unfolding start_found contains
start_found-none pid now s none h = refl
start_found-none pid now s (some r) h =
    ap (λ l. if contains r l then (s, already_running r) else (spawn pid now s, started pid)) h

start_found-one :
    (pid now p : ℕ) (s : System)
    → s.alive ≡ p ∷ []
    → start_found pid now s (some p) ≡ (s, already_running p)
unfolding start_found contains
start_found-one pid now p s h =
    ap (λ l. if contains p l then (s, already_running p) else (spawn pid now s, started pid)) h
    ∙ ap (λ b. if b || false then (s, already_running p) else (spawn pid now s, started pid))
        (==_refl p)

IsSingle-start : (pid now : ℕ) (s : System) → IsSingle s → IsSingle (start pid now s).0
unfolding start spawn
IsSingle-start pid now s (inl bare) =
    let e = start_found-none pid now s s.sup.proc bare in
    inr (
      pid,
      ap (λ (r : System × Status). r.0.alive) e ∙ ap (λ l. pid ∷ l) bare,
      ap (λ (r : System × Status). r.0.sup.proc) e,
    )
IsSingle-start pid now s (inr (p, one, held)) =
    let e = ap (start_found pid now s) held ∙ start_found-one pid now p s one in
    inr (
      p,
      ap (λ (r : System × Status). r.0.alive) e ∙ one,
      ap (λ (r : System × Status). r.0.sup.proc) e ∙ held,
    )

-- The children that a stop leaves alive.
abbrev left : Option ℕ → List ℕ → List ℕ
left none alive = alive
left (some p) alive = if contains p alive then select (λ q. not (eqb q p)) alive else alive

alive-stop_found :
    (obeys : Bool) (s : System) (o : Option ℕ) → (stop_found obeys s o).0.alive ≡ left o s.alive
unfolding stop_found
alive-stop_found obeys s none = refl
alive-stop_found obeys s (some p) = ground arith

left-none : (o : Option ℕ) → left o [] ≡ []
unfolding contains
left-none none = refl
left-none (some p) = refl

left-one : (p : ℕ) → left (some p) (p ∷ []) ≡ []
unfolding contains select
left-one p = ground (arith, eqb_iff p p)

-- A stop leaves no worker alive.
alive-stop : (obeys : Bool) (s : System) → IsSingle s → (stop obeys s).0.alive ≡ []
unfolding stop
alive-stop obeys s (inl bare) =
    alive-stop_found obeys s s.sup.proc ∙ ap (left s.sup.proc) bare ∙ left-none s.sup.proc
alive-stop obeys s (inr (p, one, held)) =
    alive-stop_found obeys s s.sup.proc
    ∙ ap (left s.sup.proc) one
    ∙ ap (λ o. left o (p ∷ [])) held
    ∙ left-one p

IsSingle-die : (p : ℕ) (s : System) → IsSingle s → IsSingle (die p s)
unfolding die select
IsSingle-die p s (inl bare) = inl (ap (select (λ q. not (eqb q p))) bare)
IsSingle-die p s (inr (q, one, held)) = elim (Bool-cases (eqb q p)) [
  | inl own ↦
      inl (ap (select (λ q. not (eqb q p))) one ∙ ap (λ b. if not b then q ∷ [] else []) own)
  | inr other ↦
      inr (
        q,
        ap (select (λ q. not (eqb q p))) one ∙ ap (λ b. if not b then q ∷ [] else []) other,
        held,
      )
]

IsSingle-step : (s : System) (e : Step) → IsSingle s → IsSingle (step s e)
unfolding step
IsSingle-step s (do_start pid now) h = IsSingle-start pid now s h
IsSingle-step s (do_stop obeys) h = inl (alive-stop obeys s h)
IsSingle-step s (dies pid) h = IsSingle-die pid s h

IsSingle-run : (es : List Step) (s : System) → IsSingle s → IsSingle (run s es)
unfolding run
IsSingle-run [] s h = h
IsSingle-run (e ∷ es) s h = IsSingle-run es (step s e) (IsSingle-step s e h)

polls-none : (o : Option ℕ) → polls o [] ≡ false
unfolding polls contains
polls-none none = refl
polls-none (some p) = refl

is_running-alive : (s : System) → IsSingle s → is_running s ≡ not (is_empty s.alive)
unfolding is_running polls contains
is_running-alive s (inl bare) =
    ap (polls s.sup.proc) bare ∙ polls-none s.sup.proc ∙ sym (ap (λ l. not (is_empty l)) bare)
is_running-alive s (inr (p, one, held)) =
    ap (λ o. polls o s.alive) held
    ∙ ap (contains p) one
    ∙ ground (arith, eqb_iff p p)
    ∙ sym (ap (λ l. not (is_empty l)) one)

-- After any starts, stops and deaths of workers, in any order, at most one worker is alive, and the
-- status reports that one, or that none runs.
pub status-run :
    (es : List Step) (now : ℕ)
    → ((run initial es).alive ≡ [])
        × ((status now (run initial es)).running ≡ false)
        × ((status now (run initial es)).pid ≡ none)
      ⊎ (pid : ℕ) × ((run initial es).alive ≡ pid ∷ [])
        × ((status now (run initial es)).running ≡ true)
        × ((status now (run initial es)).pid ≡ some pid)
unfolding status
status-run es now =
    let s = run initial es in
    let single = IsSingle-run es initial (inl refl) in
    let up = is_running-alive s single in
    elim single [
      | inl bare ↦
          let off = up ∙ ap (λ l. not (is_empty l)) bare in
          inl (bare, off, ap (λ b. if b then s.sup.proc else none) off)
      | inr (p, one, held) ↦
          let on = up ∙ ap (λ l. not (is_empty l)) one in
          inr (p, one, on, ap (λ b. if b then s.sup.proc else none) on ∙ held)
    ]

-- After any of them, a stop leaves no worker alive, and a restart exactly the one that it starts.
pub restart-run :
    (es : List Step) (obeys : Bool) (pid now : ℕ)
    → ((stop obeys (run initial es)).0.alive ≡ [])
      × ((restart obeys pid now (run initial es)).0.alive ≡ pid ∷ [])
      × ((restart obeys pid now (run initial es)).1 ≡ started pid)
unfolding restart start spawn
restart-run es obeys pid now =
    let gone = alive-stop obeys (run initial es) (IsSingle-run es initial (inl refl)) in
    let s = (stop obeys (run initial es)).0 in
    let e = start_found-none pid now s s.sup.proc gone in
    (
      gone,
      ap (λ (r : System × Status). r.0.alive) e ∙ ap (λ l. pid ∷ l) gone,
      ap (λ (r : System × Status). r.1) e,
    )
