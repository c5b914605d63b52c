-- ===== src/Tests/Races.antt =====
-- Two consumers flag a row at the same time: the second one waits for the first, and hides the row.
use fingerprint_hub.Prelude.{ℕ, ◌≡◌, refl, Option, Result, some, none, List, [], ◌∷◌, true, ok}
use fingerprint_hub.Schema.{hidden}
use fingerprint_hub.Store.Contribute.{contribute}
use fingerprint_hub.Store.Flags.{FlagResult}
use fingerprint_hub.Store.Races.{Call, answered, interleave, opened}
use fingerprint_hub.Store.Races.Serial.{Answered, interleave-Answered}
use fingerprint_hub.Store.Races.Progress.{next_statement, interleave-answers}
use fingerprint_hub.Prelude.Turns.{turns}
use fingerprint_hub.Tests.Data.{plain, two_rows}

abbrev calls : ℕ → Call
calls t = record { nonce = []; consumer_id = t; reason = none; now_ms = 3000 }

abbrev schedule : List ℕ
schedule = 2 ∷ 3 ∷ 2 ∷ 3 ∷ 2 ∷ 2 ∷ 3 ∷ 3 ∷ 3 ∷ 3 ∷ []

abbrev answer : FlagResult
answer = record { flag_count = 2; status = hidden; hidden_now = true }

interleave-Answered_example :
    Answered plain 1 2 calls two_rows 3
      (ok (some answer))
      (interleave plain 1 2 calls schedule (opened two_rows)).db
unfolding interleave contribute
interleave-Answered_example =
    interleave-Answered plain 1 2 calls two_rows schedule 3 (ok (some answer)) refl

interleave-answers_example :
    (u : ℕ) × (r : Result (Option FlagResult)) × ((turns (next_statement plain 1 2 calls) 4 3 (
          turns
            (next_statement plain 1 2 calls)
            3
            u
            (interleave plain 1 2 calls (2 ∷ 3 ∷ 2 ∷ []) (opened two_rows)))).stage
        3
      ≡ answered r)
interleave-answers_example = interleave-answers plain 1 2 calls two_rows (2 ∷ 3 ∷ 2 ∷ []) 3
