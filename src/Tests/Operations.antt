-- ===== src/Tests/Operations.antt =====
-- The operations of the store on the small history.
use fingerprint_hub.Prelude.{◌≡◌, refl, codes, none, some, [], ◌∷◌, ◌++◌, true, false, ok}
use fingerprint_hub.Schema.{active, hidden, Fingerprint}
use fingerprint_hub.Sql.{fetch_one}
use fingerprint_hub.Store.Keys.{has_id}
use fingerprint_hub.Store.Contribute.{Contribution, write, contribute, created, duplicate}
use fingerprint_hub.Store.Hits.{report_hit}
use fingerprint_hub.Store.Flags.{flag}
use fingerprint_hub.Store.Delete.{soft_delete}
use fingerprint_hub.Store.Feed.{feed}
use fingerprint_hub.Store.Feed.Replica.{unfiltered}
use fingerprint_hub.Store.Effects.Hitting.{feed-report_hit}
use fingerprint_hub.Store.Effects.Flagging.{flag-found}
use fingerprint_hub.Store.Effects.Contributing.{contribute-Outcome, Outcome, Holds}
use fingerprint_hub.Store.Effects.Racing.{race, race_once}
use fingerprint_hub.Tests.Data.{plain, nonces, image, sample, sample-IsValid}

program : Unit {0}
unfolding contribute flag report_hit soft_delete write
program = tt

abbrev second : Fingerprint
second = record {
  id = 2;
  sync_seq = 2;
  phash_hex = codes "123456789abcdef0";
  algorithm = codes "phash";
  algorithm_version = codes "imagehash.phash";
  normalization_version = codes "alpha_white_v1";
  category = codes "scam";
  action = codes "kick";
  consumer_id = 2;
  source_guild_id = none;
  reason = some (codes "reported");
  source_url = none;
  added_at_ms = 2000;
  updated_at_ms = 2000;
  hit_count = 0;
  last_hit_at_ms = none;
  auto_added = false;
  provenance = codes "manual_staff";
  status = active;
  flag_count = 0;
}

second_found : fetch_one (has_id 2) sample.fingerprints ≡ some second
unfolding program
second_found = refl

feed-report_hit_example :
    feed 3 unfiltered 0 (report_hit plain [] 2 1 none none 5000 sample).1
    ≡ feed 3 unfiltered 0 sample
feed-report_hit_example = feed-report_hit plain [] 2 1 none none 5000 sample 3 0 unfiltered

flag-found_example :
    ((flag plain [] 2 1 none 5000 1 sample).0
      ≡ ok (some (record { flag_count = 1; status = hidden; hidden_now = true })))
    × (fetch_one (has_id 2) (flag plain [] 2 1 none 5000 1 sample).1.fingerprints
        ≡ some
            (record second { sync_seq = 4; updated_at_ms = 5000; status = hidden; flag_count = 1 }))
    × ((flag plain [] 2 1 none 5000 1 sample).1.next_sync_seq ≡ 5)
unfolding program
flag-found_example =
    flag-found plain [] 2 1 none 5000 1 sample second none sample-IsValid second_found refl refl

contribute-Outcome_example :
    Outcome plain nonces 2
      (image (codes "123456789abcdef0"))
      (image (codes "123456789abcdef0"))
      6000
      sample
unfolding program
contribute-Outcome_example =
    contribute-Outcome plain nonces 2 (image (codes "123456789abcdef0"))
      (image (codes "123456789abcdef0")) 6000 sample sample-IsValid refl

abbrev racer : Contribution
racer = image (codes "00000000ffffffff")

race_once_example :
    (r : Fingerprint) × Holds racer 2 6000 4 r
    × (r.id ≡ 3)
    × (race 2 sample
          ((racer, 6000) ∷ (racer, 6001) ∷ (record racer { reason = none }, 6002) ∷ [])
          sample
        ≡ (
          created (some r)
              ∷ duplicate (some (record { id = r.id; status = active }))
              ∷ duplicate (some (record { id = r.id; status = active }))
              ∷ [],
          record sample {
            fingerprints = sample.fingerprints ++ r ∷ [];
            next_fingerprint_id = 6;
            next_sync_seq = 7;
          },
        ))
unfolding program
race_once_example =
    race_once racer 2 6000 ((racer, 6001) ∷ (record racer { reason = none }, 6002) ∷ []) sample refl
      (refl, (refl, tt))
