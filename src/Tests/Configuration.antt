-- ===== src/Tests/Configuration.antt =====
-- The configuration of some environments, and an answer under one of them.
use fingerprint_hub.Prelude.{◌≡◌, refl, Env, codes, str_eq, none, some, if◌then◌else◌}
use fingerprint_hub.Prelude.Int.{pos}
use fingerprint_hub.Config.{load_config_from_env}
use fingerprint_hub.Workers.{get_max_workers}
use fingerprint_hub.Api.Bounds.{IsShortAnswer, answers-IsShort}
use fingerprint_hub.Api.Reading.{sync_fingerprints, list_fingerprints}
use fingerprint_hub.Tests.Data.{plain, sample}
use fingerprint_hub.Tests.Service.{reader, defaults, about_second}

-- Nothing is set.
bare : load_config_from_env (λ name. none) ≡ defaults
unfolding load_config_from_env
bare = refl

abbrev env : Env
env name =
    if str_eq name (codes "FINGERPRINTHUB_MAX_SYNC_LIMIT")
    then some (codes " 1_0 ")
    else if str_eq name (codes "FINGERPRINTHUB_AUTO_HIDE_FLAG_THRESHOLD")
    then some (codes "-3")
    else if str_eq name (codes "FINGERPRINTHUB_PORT")
    then some (codes "http")
    else if str_eq name (codes "FINGERPRINTHUB_RATE_LIMIT")
    then some (codes " ")
    else none

-- A number, one that is too small, one that is none, and a blank text.
some_set :
    load_config_from_env env
    ≡ record defaults { max_sync_limit = pos 10; auto_hide_flag_threshold = 1 }
unfolding load_config_from_env str_eq
some_set = refl

at_least_one_worker : get_max_workers (λ name. some (codes "0")) ≡ 1
unfolding get_max_workers
at_least_one_worker = refl

answers-IsShort_example :
    IsShortAnswer
      (load_config_from_env env)
      (sync_fingerprints (load_config_from_env env) (about_second reader) sample).0
    × IsShortAnswer
        (load_config_from_env env)
        (list_fingerprints plain (load_config_from_env env) (about_second reader) sample).0
answers-IsShort_example =
    answers-IsShort plain (load_config_from_env env) (about_second reader) sample
