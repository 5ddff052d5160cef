-- ===== src/Prober/Intervals.antt =====
-- How often prober.py probes a model.
use local_gateway.Prelude.{
  if◌then◌else◌, Bool-cases, ◌==◌, nat_eq, int_eq, Text, text_eqb_iff, text_eq, is_empty, select, ℕ,
  ◌+◌, ◌≤◌, ◌<◌, ◌≡◌, refl, ap, ◌∙◌, ◌⊎◌, inl, inr, Bool, true, false, ◌&&◌, List, [], ◌∷◌, ◌++◌,
  arith,
}
use local_gateway.Dict.{Dict, get_default, set}
use local_gateway.Dict.Laws.{get_default-set}
use local_gateway.Config.{GatewayConfig, ModelConfig, BackendConfig}
use local_gateway.Prober.{Target, targets_of, interval_of, is_due, collect, tick, or_interval}

-- The models with an id all have at least the given interval.
unfoldable pub IsSlow : Text → ℕ → ℕ → List ModelConfig → Type 0
IsSlow i span server_interval [] = 0 ≤ span
IsSlow i span server_interval (m ∷ ms) =
    (m.id ≡ i → span ≤ interval_of server_interval m) × IsSlow i span server_interval ms

unfoldable pub targets_for : Text → List Target → List Target
targets_for i = select (λ t. t.model_id == i)

module _ (config : GatewayConfig) (is_available : Text → Text → Bool) where
  targets_for-other :
      (i id : Text) (bs : List BackendConfig)
      → id == i ≡ false
      → targets_for i (targets_of config is_available id bs) ≡ []
  unfolding targets_for targets_of select
  targets_for-other i id [] h = refl
  targets_for-other i id (b ∷ bs) h = ground (arith, h, targets_for-other i id bs h)

  targets_for-append :
      (i : Text) (xs ys : List Target)
      → targets_for i xs ≡ []
      → targets_for i ys ≡ []
      → targets_for i (xs ++ ys) ≡ []
  unfolding targets_for select
  targets_for-append i [] ys h k = k
  targets_for-append i (x ∷ xs) ys h k = ground (arith, h, k, targets_for-append i xs ys)

  -- A model that is due has another id, so that its turn leaves the time of the id.
  targets_for-turn :
      (due : Bool) (i : Text) (server_interval now t : ℕ) (m : ModelConfig) (ms : List ModelConfig)
      (last : Dict Text ℕ)
      → (due ≡ true → m.id == i ≡ false)
      → get_default i 0 last ≡ t
      → ((l : Dict Text ℕ)
          → get_default i 0 l ≡ t
          → (targets_for i (collect config is_available server_interval now ms l).0 ≡ [])
            × (get_default i 0 (collect config is_available server_interval now ms l).1 ≡ t))
      → let rest : List Target × Dict Text ℕ =
          collect config is_available server_interval now ms
            (if due then set m.id now last else last) in
        (targets_for i
            ((if due then targets_of config is_available m.id m.backends else []) ++ rest.0)
          ≡ [])
        × (get_default i 0 rest.1 ≡ t)
  targets_for-turn true i server_interval now t m ms last other at later =
      let rest =
        later (set m.id now last) (get_default-set m.id i 0 now last ∙ rw (other refl) at) in
      (
        targets_for-append i (targets_of config is_available m.id m.backends) _
            (targets_for-other i m.id m.backends (other refl)) rest.0,
        rest.1,
      )
  targets_for-turn false i server_interval now t m ms last other at later = later last at

  targets_for-collect :
      (i : Text) (span server_interval now t : ℕ) (ms : List ModelConfig) (last : Dict Text ℕ)
      → IsSlow i span server_interval ms
      → now < t + span
      → get_default i 0 last ≡ t
      → (targets_for i (collect config is_available server_interval now ms last).0 ≡ [])
        × (get_default i 0 (collect config is_available server_interval now ms last).1 ≡ t)
  unfolding IsSlow collect is_due
  targets_for-collect i span server_interval now t [] last slow lt at =
      (unfold targets_for select in refl, at)
  targets_for-collect i span server_interval now t (m ∷ ms) last slow lt at =
      targets_for-turn
        (m.enabled && is_due (interval_of server_interval m) now (get_default m.id 0 last)) i
        server_interval now t m ms last (λ due. not_due due) at
        (λ l at'. targets_for-collect i span server_interval now t ms l slow.1 lt at')
    where
      not_due :
          m.enabled && is_due (interval_of server_interval m) now (get_default m.id 0 last) ≡ true
          → m.id == i ≡ false
      not_due due = elim (Bool-cases (m.id == i)) [
        | inr other ↦ other
        | inl same ↦
            let it = (text_eqb_iff m.id i).0 same in
            let then_last : get_default m.id 0 last ≡ t = ap (λ j. get_default j 0 last) it ∙ at in
            absurd (ground (arith, due, then_last, slow.0 it, lt))
      ]

  mark_turn :
      (due : Bool) (i id : Text) (now : ℕ) (last : Dict Text ℕ)
      → get_default i 0 last ≡ now
      → get_default i 0 (if due then set id now last else last) ≡ now
  mark_turn false i id now last at = at
  mark_turn true i id now last at =
      get_default-set id i 0 now last
      ∙ elim (Bool-cases (id == i)) [ inl e ↦ rw e refl | inr e ↦ rw e at ]

  -- Once an id is marked in a turn, it stays so.
  mark-collect :
      (i : Text) (server_interval now : ℕ) (ms : List ModelConfig) (last : Dict Text ℕ)
      → get_default i 0 last ≡ now
      → get_default i 0 (collect config is_available server_interval now ms last).1 ≡ now
  unfolding collect
  mark-collect i server_interval now [] last at = at
  mark-collect i server_interval now (m ∷ ms) last at =
      let due = m.enabled && is_due (interval_of server_interval m) now (get_default m.id 0 last) in
      mark-collect i server_interval now ms (if due then set m.id now last else last)
        (mark_turn due i m.id now last at)

  -- A turn that has a target for an id marks the id.
  targets_for-mark_turn :
      (due : Bool) (i : Text) (server_interval now : ℕ) (m : ModelConfig) (ms : List ModelConfig)
      (last : Dict Text ℕ)
      → ((l : Dict Text ℕ)
          → (targets_for i (collect config is_available server_interval now ms l).0 ≡ [])
            ⊎ (get_default i 0 (collect config is_available server_interval now ms l).1 ≡ now))
      → let rest : List Target × Dict Text ℕ =
          collect config is_available server_interval now ms
            (if due then set m.id now last else last) in
        (targets_for i
            ((if due then targets_of config is_available m.id m.backends else []) ++ rest.0)
          ≡ [])
        ⊎ (get_default i 0 rest.1 ≡ now)
  targets_for-mark_turn false i server_interval now m ms last later = later last
  targets_for-mark_turn true i server_interval now m ms last later = elim (Bool-cases (m.id == i)) [
    | inl same ↦ inr (
        mark-collect i server_interval now ms (set m.id now last)
          (get_default-set m.id i 0 now last ∙ rw same refl))
    | inr other ↦ elim (later (set m.id now last)) [
      | inl none_left ↦ inl (
          targets_for-append i (targets_of config is_available m.id m.backends) _
            (targets_for-other i m.id m.backends other) none_left)
      | inr marked ↦ inr marked
    ]
  ]

  targets_for-mark :
      (i : Text) (server_interval now : ℕ) (ms : List ModelConfig) (last : Dict Text ℕ)
      → (targets_for i (collect config is_available server_interval now ms last).0 ≡ [])
        ⊎ (get_default i 0 (collect config is_available server_interval now ms last).1 ≡ now)
  unfolding collect
  targets_for-mark i server_interval now [] last = inl (unfold targets_for select in refl)
  targets_for-mark i server_interval now (m ∷ ms) last =
      targets_for-mark_turn
        (m.enabled && is_due (interval_of server_interval m) now (get_default m.id 0 last)) i
        server_interval now m ms last (λ l. targets_for-mark i server_interval now ms l)

  tick-collect :
      (interval now : ℕ) (last : Dict Text ℕ)
      → tick config is_available interval now last ≡ (
          if config.server.probe_enabled
          then collect config is_available
              (or_interval interval config.server.probe_interval_s)
              now
              config.models
              last
          else ([], last))
  unfolding tick
  tick-collect interval now last = refl

  tick-mark :
      (i : Text) (interval now : ℕ) (last : Dict Text ℕ)
      → is_empty (targets_for i (tick config is_available interval now last).0) ≡ false
      → get_default i 0 (tick config is_available interval now last).1 ≡ now
  tick-mark i interval now last h = elim (Bool-cases config.server.probe_enabled) [
    | inl on ↦
        let server_interval = or_interval interval config.server.probe_interval_s in
        let it = collect config is_available server_interval now config.models last in
        let same : tick config is_available interval now last ≡ it =
          tick-collect interval now last ∙ ap (λ b. if b then it else ([], last)) on in
        elim (targets_for-mark i server_interval now config.models last) [
          | inl e ↦
              let bare : is_empty (targets_for i (tick config is_available interval now last).0)
                  ≡ true =
                ap (λ x. is_empty (targets_for i x.0)) same ∙ ap is_empty e in
              cc
          | inr e ↦ ap (λ x. get_default i 0 x.1) same ∙ e
        ]
    | inr off ↦
        let server_interval = or_interval interval config.server.probe_interval_s in
        let it = collect config is_available server_interval now config.models last in
        let same : tick config is_available interval now last ≡ ([], last) =
          tick-collect interval now last ∙ ap (λ b. if b then it else ([], last)) off in
        let bare : is_empty (targets_for i (tick config is_available interval now last).0) ≡ true =
          ap (λ x. is_empty (targets_for i x.0)) same ∙ unfold targets_for select in refl in
        cc
  ]

  -- All times come before another.
  unfoldable pub Before : ℕ → List ℕ → Type 0
  Before end [] = 0 ≤ end
  Before end (now ∷ times) = (now < end) × Before end times

  unfoldable pub tick_all : ℕ → List ℕ → Dict Text ℕ → List Target × Dict Text ℕ
  tick_all interval [] last = ([], last)
  tick_all interval (now ∷ times) last =
      let (found, after) = tick config is_available interval now last in
      let (later, final) = tick_all interval times after in (found ++ later, final)

  targets_for-tick :
      (i : Text) (span interval now t : ℕ) (last : Dict Text ℕ)
      → IsSlow i span (or_interval interval config.server.probe_interval_s) config.models
      → now < t + span
      → get_default i 0 last ≡ t
      → (targets_for i (tick config is_available interval now last).0 ≡ [])
        × (get_default i 0 (tick config is_available interval now last).1 ≡ t)
  unfolding tick collect targets_of local_gateway.Config.provider_by_id
  targets_for-tick i span interval now t last slow lt at =
      elim (Bool-cases config.server.probe_enabled) [
        | inl on ↦ rw on (
            targets_for-collect i span (or_interval interval config.server.probe_interval_s) now t
              config.models last slow lt at)
        | inr off ↦ rw off (unfold targets_for select in refl, at)
      ]

  targets_for-later :
      (i : Text) (span interval t : ℕ) (times : List ℕ) (last : Dict Text ℕ)
      → IsSlow i span (or_interval interval config.server.probe_interval_s) config.models
      → Before (t + span) times
      → get_default i 0 last ≡ t
      → targets_for i (tick_all interval times last).0 ≡ []
  unfolding tick_all Before
  targets_for-later i span interval t [] last slow before at = unfold targets_for select in refl
  targets_for-later i span interval t (now ∷ times) last slow before at =
      let here = targets_for-tick i span interval now t last slow before.0 at in
      targets_for-append i (tick config is_available interval now last).0 _ here.0 (
        targets_for-later i span interval t times (tick config is_available interval now last).1
          slow before.1 here.1)

  -- If a turn of the prober's loop probes a backend for an id, and every model with the id has at least
  -- some interval, then however often the loop turns before the interval has passed since, it probes no
  -- backend for the id.
  pub targets_for-tick_all :
      (i : Text) (span interval t : ℕ) (times : List ℕ) (last : Dict Text ℕ)
      → IsSlow i span (or_interval interval config.server.probe_interval_s) config.models
      → Before (t + span) times
      → is_empty (targets_for i (tick config is_available interval t last).0) ≡ false
      → targets_for i (tick_all interval times (tick config is_available interval t last).1).0 ≡ []
  targets_for-tick_all i span interval t times last slow before made =
      targets_for-later i span interval t times (tick config is_available interval t last).1 slow
        before (tick-mark i interval t last made)
