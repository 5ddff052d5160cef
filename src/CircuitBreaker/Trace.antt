-- ===== src/CircuitBreaker/Trace.antt =====
-- Sequences of outcomes of circuitbreaker.py, and the circuit that one backend sees of them.
use local_gateway.Prelude.{
  ltb, if◌then◌else◌, Bool-cases, ◌==◌, nat_eq, int_eq, Text, text_eqb_iff, text_eq, select, ℕ, ◌≡◌,
  refl, ◌∙◌, inl, inr, Bool, ◌&&◌, Option, List, [], ◌∷◌, arith,
}
use local_gateway.Backend.{backend_key}
use local_gateway.Dict.{get_default}
use local_gateway.Dict.Laws.{get_default-set}
use local_gateway.CircuitBreaker.{
  Circuit, Breaker, Settings, new_circuit, step, record_outcome, is_open,
}

pub record Outcome : Type 0 where
  pub provider_id : Text
  pub model : Text
  pub success : Bool
  pub error : Option Text
  pub now : ℕ
  pub wall : ℕ

unfoldable pub after : Outcome → Breaker → Breaker
after o b = (record_outcome o.provider_id o.model o.success o.error o.now o.wall b).0

unfoldable pub run : List Outcome → Breaker → Breaker
run [] b = b
run (o ∷ os) b = run os (after o b)

-- The circuit of one backend, stepped by its own outcomes.
unfoldable pub circuit_after : Settings → Outcome → Circuit → Circuit
circuit_after s o c = (step s o.success o.error o.now o.wall c).0

unfoldable pub run_circuit : Settings → List Outcome → Circuit → Circuit
run_circuit s [] c = c
run_circuit s (o ∷ os) c = run_circuit s os (circuit_after s o c)

unfoldable pub is_for : Text → Outcome → Bool
is_for key o = backend_key o.provider_id o.model == key

unfoldable pub circuit_at : Text → Breaker → Circuit
circuit_at key b = get_default key new_circuit b.circuits

pub settings-after : (o : Outcome) (b : Breaker) → (after o b).settings ≡ b.settings
unfolding after record_outcome
settings-after o b = refl

pub settings-run : (os : List Outcome) (b : Breaker) → (run os b).settings ≡ b.settings
unfolding run
settings-run [] b = refl
settings-run (o ∷ os) b = settings-run os (after o b) ∙ settings-after o b

circuit_at-after :
    (key : Text) (o : Outcome) (b : Breaker)
    → circuit_at key (after o b)
      ≡ (if is_for key o then circuit_after b.settings o (circuit_at key b) else circuit_at key b)
unfolding circuit_at after record_outcome is_for circuit_after
circuit_at-after key o b =
    let k = backend_key o.provider_id o.model in
    let c = step b.settings o.success o.error o.now o.wall (get_default k new_circuit b.circuits) in
    ground (arith, get_default-set k key new_circuit c.0 b.circuits, text_eqb_iff k key)

-- The circuit of a backend after any outcomes is that of its own outcomes alone, in their order:
-- what other backends do never changes it.
pub circuit_at-run :
    (key : Text) (os : List Outcome) (b : Breaker)
    → circuit_at key (run os b) ≡ run_circuit b.settings (select (is_for key) os) (circuit_at key b)
unfolding run run_circuit select circuit_at is_for
circuit_at-run key [] b = refl
circuit_at-run key (o ∷ os) b = elim (Bool-cases (is_for key o)) [
  | inl own ↦
      rw (circuit_at-run key os (after o b), settings-after o b, circuit_at-after key o b, own)
  | inr other ↦
      rw (circuit_at-run key os (after o b), settings-after o b, circuit_at-after key o b, other)
]

pub is_open-circuit_at :
    (p m : Text) (now : ℕ) (b : Breaker)
    → is_open p m now b ≡ b.settings.enabled && ltb now (circuit_at (backend_key p m) b).open_until
unfolding is_open circuit_at get_default
is_open-circuit_at p m now b = ground arith
