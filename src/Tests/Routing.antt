-- ===== src/Tests/Routing.antt =====
-- Inputs for router.py, time_routing.py and the lookups of config.py.
use local_gateway.Prelude.{
  pos, ◌==◌, nat_eq, int_eq, text_eqb, text_eq, contains, ◌+◌, ◌≤◌, ◌<◌, ◌≡◌, refl, ◌↔◌, Bool, none,
  some, [], ◌∷◌, arith,
}
use local_gateway.Prelude.Count.{count}
use local_gateway.Config.{model_by_id}
use local_gateway.TimeRouting.{slot_matches, get_active_slot}
use local_gateway.Router.Types.{Candidate, candidates}
use local_gateway.Router.Rotation.{pick_start, total}
use local_gateway.Router.Rotation.Start.{pick_start-interval}
use local_gateway.Router.Selection.{call_of, needs_of, select_backends}
use local_gateway.Router.Tiering.{admitted}
use local_gateway.Router.Once.{reachable, select_backends-once}
use local_gateway.Router.Deferral.{AvailableFirst}
use local_gateway.Router.DeferralAll.{select_backends-AvailableFirst}
use local_gateway.Tests.Samples.{acme, gpt, config, model, world, prefs, night, midnight}

of_acme : Candidate → Bool
of_acme c = c.provider.id == acme

found : model_by_id config gpt ≡ some model
unfolding model_by_id text_eqb
found = refl

select_backends-once_example :
    count of_acme
      (candidates (select_backends (world acme) config gpt none (some (pos 100)) prefs none []).0)
    ≡ count of_acme (
        reachable (call_of (world acme) config model prefs none) (
          admitted config model
            (needs_of (world acme) model none (some (pos 100)) prefs)
            model.backends))
unfolding contains
select_backends-once_example =
    select_backends-once of_acme (world acme) config gpt model none (some (pos 100)) prefs none []
      (λ n p m. refl) (refl, tt) found refl

select_backends-AvailableFirst_example :
    AvailableFirst
      (world acme)
      (select_backends (world acme) config gpt none (some (pos 100)) prefs none []).0
select_backends-AvailableFirst_example =
    select_backends-AvailableFirst (world acme) config gpt none (some (pos 100)) prefs none []
      (λ n p m. refl)

pick_start-interval_example :
    (pick_start (1000 ∷ 0 ∷ 500 ∷ []) 1200 ≡ 2) ↔ ((1000 ≤ 1200) × (1200 < 1000 + 500))
unfolding total
pick_start-interval_example = pick_start-interval (1000 ∷ 0 ∷ []) 500 [] 1200 (omega arith)

active : get_active_slot (night ∷ []) [] (λ tz. midnight) ≡ some night
unfolding get_active_slot slot_matches
active = refl
