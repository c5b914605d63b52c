-- ===== src/Tests/Commands.antt =====
-- Runs of the command-line tools.
use fingerprint_hub.Prelude.{
  ◌≡◌, refl, Str, codes, str_eq, str_in, true, false, none, some, [], ◌∷◌, All, raise, Exc,
}
use fingerprint_hub.Prelude.Int.{pos, negsuc}
use fingerprint_hub.Schema.{Consumer}
use fingerprint_hub.Consumers.{
  valid_scopes, create_consumer, with_key, is_nonempty, invalid_scopes, insert_consumer,
  generate_api_key,
}
use fingerprint_hub.Api.Access.{Gate, Arrival, admitted, authenticate}
use fingerprint_hub.Postgres.{no_pool}
use fingerprint_hub.Store.History.{init}
use fingerprint_hub.Store.Retention.{has_negative, metadata_outlives_row, purge}
use fingerprint_hub.Tools.{
  printed, status, scopes_of, create_consumer_main, default_days, purge_retention_main,
  generate_field_key_main,
}
use fingerprint_hub.Tools.Retention.{RunOutcome, purge_retention_main-RunOutcome}
use fingerprint_hub.Tools.Accounts.{create_consumer_main-admitted}
use fingerprint_hub.Tests.Startup.{env, willing}
use fingerprint_hub.Tests.Data.{sample}

purge_retention_main-RunOutcome_example :
    RunOutcome willing env default_days true 86400000000 no_pool sample
      (purge_retention_main willing env default_days true 86400000000 no_pool sample)
purge_retention_main-RunOutcome_example =
    purge_retention_main-RunOutcome willing env default_days true 86400000000 no_pool sample

-- A negative number of days is refused.
refused_days :
    (purge_retention_main willing env
      (record default_days { hit_days = negsuc 0 })
      true
      1
      no_pool
      sample).0
    ≡ status 2
unfolding purge_retention_main
refused_days = refl

-- Nothing is counted on an empty database.
nothing_purged :
    (purge_retention_main willing env default_days false 86400000000 no_pool init).0
    ≡ printed (
      false,
      record {
        hits_deleted = 0;
        flag_reasons_cleared = 0;
        tombstones_anonymized = 0;
        tombstones_deleted = 0;
      },
    )
unfolding purge_retention_main str_eq has_negative metadata_outlives_row purge
nothing_purged = refl

abbrev digest : Str → Str
digest key = key

-- Blank parts of the option are dropped.
some_scopes : scopes_of (some (codes " read, write ,")) ≡ codes "read" ∷ codes "write" ∷ []
unfolding scopes_of
some_scopes = refl

wrong_scope :
    (create_consumer_main willing env digest
      (codes "t")
      (codes "bot")
      (some (codes "root"))
      1
      no_pool
      init).0
    ≡ status 2
unfolding create_consumer_main create_consumer str_eq is_nonempty invalid_scopes
wrong_scope = refl

abbrev gate : Gate
gate = record { request_times = λ i. []; last_seen_marked = λ i. none }

abbrev arrival : Arrival
arrival = record {
  is_public = false;
  api_key = some (codes "fph_token");
  now = 1;
  now_ms = 1;
  touch_succeeds = true;
  ping_succeeds = true;
}

create_consumer_main-admitted_example :
    (c : Consumer) × ((authenticate digest
        (pos 300)
        arrival
        gate
        (create_consumer_main willing env digest
          (codes "token")
          (codes "bot")
          none
          1
          no_pool
          init).2).0
      ≡ admitted c)
    × (c.id ≡ 1)
    × (c.name ≡ codes "bot")
    × (c.scopes ≡ scopes_of none)
    × All (λ s. str_in s valid_scopes ≡ true) (scopes_of none)
unfolding create_consumer_main create_consumer with_key str_eq is_nonempty invalid_scopes
    insert_consumer generate_api_key
create_consumer_main-admitted_example =
    create_consumer_main-admitted willing env digest (codes "token") (codes "bot") none 1 no_pool
      init 1 (codes "fph_token") (pos 300) arrival gate refl refl refl refl refl

key_lines :
    generate_field_key_main (some (codes "no spaces")) [] ≡ raise Exc.field_encryption_config_error
unfolding generate_field_key_main
key_lines = refl
