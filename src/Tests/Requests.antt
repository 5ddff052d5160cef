-- ===== src/Tests/Requests.antt =====
-- Inputs for the routing of requests in streaming.py and for prober.py.
use local_gateway.Prelude.{
  pos, nat_eq, int_eq, Text, text_eqb, text_eq, contains, take, is_empty, select, any, ℕ, zero, suc,
  ◌≡◌, refl, true, false, not, ◌&&◌, none, some, List, [], ◌∷◌, arith,
}
use local_gateway.Dict.{get, get_default}
use local_gateway.Config.{model_by_id, provider_by_id}
use local_gateway.CircuitBreaker.{initial as no_circuits}
use local_gateway.Router.Selection.{call_of, needs_of}
use local_gateway.Router.Once.{reachable}
use local_gateway.Router.Tiering.{admitted}
use local_gateway.Streaming.Resolve.{resolve_backends}
use local_gateway.Streaming.Resolve.Refusals.{is_routed, is_routed-resolve_backends}
use local_gateway.Streaming.Resolve.Lengths.{
  is_too_long, is_limited, all_short, is_too_long-resolve_backends,
}
use local_gateway.Prober.{
  or_interval, Target, Probed, answered, no_answer, Notes, probe_count, interval_of, tick, collect,
  targets_of, is_due, is_up,
}
use local_gateway.Prober.Intervals.{targets_for, tick_all, targets_for-tick_all, IsSlow, Before}
use local_gateway.Prober.Feed.{probes_of}
use local_gateway.Tests.Samples.{acme, beta, gpt, config, model, world, prefs}

is_routed-resolve_backends_example :
    is_routed (resolve_backends (world acme) config gpt none (some (pos 100)) prefs none []).0
    ≡ not (
        is_empty (
          reachable (call_of (world acme) config model prefs none) (
            admitted config model
              (needs_of (world acme) model none (some (pos 100)) prefs)
              model.backends)))
unfolding contains
is_routed-resolve_backends_example =
    is_routed-resolve_backends (world acme) config gpt model none (some (pos 100)) prefs none []
      (λ n p m. refl) (refl, tt) (unfold model_by_id text_eqb in refl) refl

is_too_long-resolve_backends_example :
    is_too_long
      (resolve_backends (world acme) config gpt (some (pos 2000)) (some (pos 7000)) prefs none []).0
    ≡ (is_empty (
          reachable (call_of (world acme) config model prefs none) (
            admitted config model
              (needs_of (world acme) model (some (pos 2000)) (some (pos 7000)) prefs)
              model.backends))
        && (any (is_limited config) model.backends
            && all_short config (some (pos 7000)) (some (pos 2000)) model.backends))
unfolding contains
is_too_long-resolve_backends_example =
    is_too_long-resolve_backends (world acme) config gpt model (some (pos 2000)) (pos 7000) prefs
      none [] (λ n p m. refl) (refl, tt) (unfold model_by_id text_eqb in refl) refl

-- The model's interval is a minute.
targets_for-tick_all_example :
    targets_for gpt
      (tick_all config
        (λ p m. true)
        5000
        (310000 ∷ 359999 ∷ [])
        (tick config (λ p m. true) 5000 300000 []).1).0
    ≡ []
targets_for-tick_all_example =
    targets_for-tick_all config (λ p m. true) gpt 60000 5000 300000 (310000 ∷ 359999 ∷ []) []
      (unfold IsSlow interval_of in (λ e. omega arith, omega arith))
      (unfold Before in (omega arith, (omega arith, omega arith)))
      (unfold targets_for tick collect targets_of is_due is_up interval_of or_interval get_default
          get provider_by_id text_eqb select in
        refl)

abbrev target : Text → Target
target p = record { provider_id = p; backend_model = gpt; model_id = gpt }

-- The first probe is refused, the second answers.
probe : ℕ → Target → Probed
probe zero t = record { result = no_answer (some 429) gpt 20; now = 5; wall = 1005 }
probe (suc n) t = record {
  result = answered (record {
    latency_ms = 900;
    ttft_ms = some 100;
    tps = some 80;
    input_tokens = none;
    output_tokens = some 64;
    from_history = false;
  });
  now = 9;
  wall = 1009;
}

abbrev blank : Notes
blank = record { stats = []; breaker = no_circuits; rows = [] }

abbrev made : List (Target × Probed)
made = probes_of probe 0 (take probe_count (target beta ∷ target acme ∷ []))
