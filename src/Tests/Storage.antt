-- ===== src/Tests/Storage.antt =====
-- Inputs for config.py's validation and files, dbwriter.py and respcache.py.
use local_gateway.Config.Validate.{validate_config}
use local_gateway.RespCache.Expiry.{look_all, lookup-store, Within}
use local_gateway.Config.Files.Loading.{reload_config-recovers, content, decided_by, is_final}
use local_gateway.Config.Files.Backups.{save_all, nth, history, save_all-history}
use local_gateway.Config.Validate.Errors.{
  no_error, distinct, model_ids, aliases_apart, is_found, is_usable_key, no_error-validate_config,
}
use local_gateway.DbWriter.Batches.{writes_of, is_ending, apply_all, run-apply_all}
use local_gateway.DbWriter.Schedules.{run-stop, over, takes, waits}
use local_gateway.RespCache.{Cache, lookup, store}
use local_gateway.DbWriter.{
  Turn, got, write, idle, run_thread, stop_mark, enqueue, stop, enqueue_all, start,
}
use local_gateway.Config.Files.{Parsed, parsed, unreadable, reload_config, Loaded, file_mtime, Disk}
use local_gateway.Prelude.{
  ltb, eqb, if◌then◌else◌, ◌==◌, nat_eq, int_eq, Text, text_eqb, text_eq, ℕ, zero, suc, ◌-◌, ◌<◌,
  min, ◌≡◌, refl, true, ◌&&◌, Option, none, some, List, [], ◌∷◌, ◌++◌, map, arith,
}
use local_gateway.Config.{GatewayConfig, provider_by_id}
use local_gateway.Config.Validate.Errors.{all}
use local_gateway.Tests.Samples.{acme, beta, gpt, config}

no_error-validate_config_example : no_error (validate_config config) ≡ (
    distinct (map (λ p. p.id) config.providers)
    && ((distinct (model_ids config.models) && aliases_apart [] [] config.models)
        && (all
              (λ m. all (λ b. is_found (provider_by_id config b.provider)) m.backends)
              config.models
            && all is_usable_key config.providers)))
no_error-validate_config_example = no_error-validate_config config

print : GatewayConfig → Text
print cfg = acme

scan : Text → Parsed
scan t = if t == acme then parsed (record config { version = 1 }) else unreadable

abbrev unread : Loaded
unread = record { config = none; seen = none; recovered = none }

abbrev no_files : Disk
no_files = record { file = none; slots = λ j. none }

abbrev twice : List (GatewayConfig × ℕ)
twice = (config, 10) ∷ (config, 20) ∷ []

save_all-history_example :
    ((save_all print twice (no_files, unread)).0.file ≡ nth 0 (history print [] twice))
    × ((save_all print twice (no_files, unread)).0.slots 0 ≡ nth 1 (history print [] twice))
save_all-history_example = save_all-history print twice unread 0 (omega arith)

-- The file is broken, the newest backup as well, the next one is good.
abbrev damaged : Disk
damaged = record {
  file = some (record { text = beta; mtime = 30 });
  slots = λ j.
      if eqb j 0
      then some (record { text = gpt; mtime = 20 })
      else some (record { text = acme; mtime = 10 });
}

reload_config-recovers_example :
    reload_config scan config damaged unread
    ≡ decided_by (parsed (record config { version = 1 })) 1 (file_mtime damaged) unread
reload_config-recovers_example =
    reload_config-recovers scan config damaged unread 1 (parsed (record config { version = 1 }))
      (unfold content scan text_eqb in refl) (omega arith)
      (λ j lt. rw (is_zero j lt) (unfold content scan text_eqb in refl))
      (unfold content scan text_eqb in refl) (unfold is_final in refl)
  where
    is_zero : (j : ℕ) → j < 1 → j ≡ 0
    is_zero j lt = omega (arith, lt)

-- Statements of the tests add a number to the database; 0 raises.
exec : ℕ → List ℕ → Option (List ℕ)
exec zero d = none
exec (suc n) d = some (d ++ suc n ∷ [])

-- The commit of the tests never raises.
commit_ok : List ℕ → Option (List ℕ)
commit_ok d = some d

abbrev turns : List (Turn ℕ)
turns = got (write 5) ∷ got (write 0) ∷ idle true ∷ got (write 7) ∷ got stop_mark ∷ []

run-apply_all_example :
    ((run_thread exec commit_ok true turns []).db.saved ≡ apply_all exec (writes_of turns) [])
    × ((run_thread exec commit_ok true turns []).ended ≡ true)
unfolding is_ending
run-apply_all_example =
    run-apply_all exec commit_ok (λ d. unfold commit_ok in refl) true turns [] refl

run-stop_example :
    ((run_thread exec commit_ok true turns []).db.saved ≡ apply_all exec (5 ∷ 0 ∷ 7 ∷ []) [])
    × ((run_thread exec commit_ok true turns []).ended ≡ true)
unfolding stop start enqueue enqueue_all
run-stop_example =
    run-stop exec commit_ok (λ d. unfold commit_ok in refl) true (5 ∷ 0 ∷ 7 ∷ []) turns []
      (takes (write 5) (takes (write 0) (waits (takes (write 7) (takes stop_mark over)))))

abbrev no_responses : Cache
no_responses = record { mem = []; rows = []; pending = [] }

lookup-store_example :
    (lookup acme 800 600
      (look_all acme 800 (300 ∷ 700 ∷ []) (store acme gpt true 900 10 0 no_responses))).1
    ≡ (if ltb (min 900 800) (600 - 0) then none else some (gpt, true, 1))
lookup-store_example =
    lookup-store acme gpt true 900 800 10 0 600 (300 ∷ 700 ∷ []) no_responses (omega arith)
      (omega arith) (unfold Within in (omega arith, (omega arith, omega arith)))
