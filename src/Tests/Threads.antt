-- ===== src/Tests/Threads.antt =====
-- Two threads that both find no executor, where the second one waits for the first.
use fingerprint_hub.Prelude.{ℕ, ◌≡◌, refl, Env, codes, Option, some, List, [], ◌∷◌}
use fingerprint_hub.Workers.{Executor, returned, get_max_workers, run, start, step}
use fingerprint_hub.Workers.Sharing.{run-shares}
use fingerprint_hub.Workers.Progress.{run-returns}
use fingerprint_hub.Prelude.Turns.{turns}

abbrev four : Env
four name = some (codes "4")

abbrev schedule : List ℕ
schedule = 1 ∷ 2 ∷ 1 ∷ 2 ∷ 1 ∷ 1 ∷ 1 ∷ 2 ∷ 2 ∷ 2 ∷ 2 ∷ []

abbrev pool : Executor
pool = record { number = 0; max_workers = get_max_workers four }

four_workers : get_max_workers four ≡ 4
unfolding get_max_workers
four_workers = refl

run-shares_example : (some pool ≡ some pool) × ((run four schedule start).made ≡ 1)
unfolding run
run-shares_example = run-shares four schedule 2 (some pool) refl

run-returns_example :
    (u : ℕ) × (r : Option Executor) × ((turns
          (step four)
          6
          2
          (turns (step four) 3 u (run four (1 ∷ 2 ∷ 1 ∷ 2 ∷ []) start))).phase
        2
      ≡ returned r)
run-returns_example = run-returns four (1 ∷ 2 ∷ 1 ∷ 2 ∷ []) 2
