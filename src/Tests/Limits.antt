-- ===== src/Tests/Limits.antt =====
-- Inputs for ratelimit.py.
use local_gateway.Prelude.{
  nat_eq, int_eq, text_eq, ℕ, ◌+◌, ◌≡◌, refl, false, not, none, some, List, [], ◌∷◌, arith,
}
use local_gateway.Backend.{backend_key}
use local_gateway.Dict.{has}
use local_gateway.RateLimit.{
  RateLimit, SnoozeFile, initial, is_available, remaining, for_ms, save, load_from_file,
}
use local_gateway.RateLimit.Availability.{
  Op, cool, forbid, free, query, run, run_status, blocks, is_available-run, remaining-is_available,
}
use local_gateway.RateLimit.Restart.{load_from_file-save}
use local_gateway.Tests.Samples.{acme, beta, gpt}

abbrev ops : List (ℕ × Op)
ops = (1, cool acme gpt none) ∷ (2, forbid beta gpt) ∷ (6000, query acme gpt) ∷ []

is_available-run_example :
    (is_available acme gpt 7000 (run ops initial)).1
    ≡ not (
        blocks
          (run_status (backend_key acme gpt) ops (record { permanent = false; until = 0 }))
          7000)
unfolding local_gateway.RateLimit.Availability.last_time
is_available-run_example = is_available-run acme gpt ops 7000 (omega arith) (omega arith)

abbrev cooled : RateLimit
cooled = record { cooldowns = (backend_key acme gpt, 900) ∷ []; permanent = [] }

load_from_file-save_example :
    (is_available acme gpt
      (7 + 100)
      (load_from_file 7 (5000 + 200) (some (save 100 5000 cooled)) initial)).1
    ≡ (is_available acme gpt (100 + 200 + 100) cooled).1
unfolding has
load_from_file-save_example = load_from_file-save acme gpt cooled 100 5000 7 200 100 (refl, tt)
