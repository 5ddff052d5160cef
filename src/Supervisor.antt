-- ===== src/Supervisor.antt =====
-- localgateway/supervisor.py: `Supervisor`, the parent of the gateway's worker process, and the
-- middlewares in front of it. The processes are the operating system's: a state says which of those
-- that the supervisor started are alive. `started_at` is whole seconds of `time.time()`.
pub mod Single
pub mod Gate
pub mod Access
use local_gateway.Prelude.{
  eqb, if◌then◌else◌, nat_eq, int_eq, text_eq, contains, select, ℕ, ◌-◌, Bool, false, not, Option,
  none, some, List, [], ◌∷◌, arith,
}

pub record Supervisor : Type 0 where
  pub proc : Option ℕ
  pub started_at : Option ℕ

-- The supervisor and the pids of its live children.
pub record System : Type 0 where
  pub sup : Supervisor
  pub alive : List ℕ

abbrev pub initial : System
initial = record { sup = record { proc = none; started_at = none }; alive = [] }

pub data Status : Type 0 where
  started already_running stopped : ℕ → Status
  already_stopped : Status

-- What a stop sends to the process.
pub data Signal : Type 0 where
  terminate kill : Signal

-- `self.proc is not None and self.proc.poll() is None`
unfoldable pub polls : Option ℕ → List ℕ → Bool
polls none alive = false
polls (some pid) alive = contains pid alive

unfoldable pub is_running : System → Bool
is_running s = polls s.sup.proc s.alive

-- `Popen` and the pid that it gives.
unfoldable pub spawn : ℕ → ℕ → System → System
spawn pid now s = record {
  sup = record { proc = some pid; started_at = some now };
  alive = pid ∷ s.alive;
}

unfoldable pub start_found : ℕ → ℕ → System → Option ℕ → System × Status
start_found pid now s none = (spawn pid now s, started pid)
start_found pid now s (some running) =
    if contains running s.alive
    then (s, already_running running)
    else (spawn pid now s, started pid)

-- `start`, with the pid that the operating system would give. The wait until the worker answers
-- changes nothing.
unfoldable pub start : ℕ → ℕ → System → System × Status
start pid now s = start_found pid now s s.sup.proc

abbrev cleared : List ℕ → System
cleared alive = record { sup = record { proc = none; started_at = none }; alive = alive }

unfoldable pub stop_found : Bool → System → Option ℕ → System × Status × List Signal
stop_found obeys s none = (cleared s.alive, already_stopped, [])
stop_found obeys s (some pid) =
    if contains pid s.alive
    then (
      cleared (select (λ p. not (eqb p pid)) s.alive),
      stopped pid,
      if obeys then terminate ∷ [] else terminate ∷ kill ∷ [],
    )
    else (cleared s.alive, already_stopped, [])

-- `stop`, which waits until the process has ended: it ends by itself within ten seconds of the
-- first signal, or by the second.
unfoldable pub stop : Bool → System → System × Status × List Signal
stop obeys s = stop_found obeys s s.sup.proc

unfoldable pub restart : Bool → ℕ → ℕ → System → System × Status
restart obeys pid now s = start pid now (stop obeys s).0

pub record Report : Type 0 where
  pub running : Bool
  pub pid : Option ℕ
  pub uptime : Option ℕ

-- `time.time() - self.started_at`, if it is set and not 0.
unfoldable pub uptime_at : ℕ → Option ℕ → Option ℕ
uptime_at now none = none
uptime_at now (some t) = if eqb t 0 then none else some (now - t)

unfoldable pub status : ℕ → System → Report
status now s =
    let running = is_running s in
    record {
      running = running;
      pid = if running then s.sup.proc else none;
      uptime = if running then uptime_at now s.sup.started_at else none;
    }

-- A child that ends by itself.
unfoldable pub die : ℕ → System → System
die pid s = record s { alive = select (λ p. not (eqb p pid)) s.alive }
