-- ===== src/Config.antt =====
-- config.py: the configuration of the service, read from the environment.
use fingerprint_hub.Prelude.{ℕ, Str, Env, codes, none, some, or_else, if◌then◌else◌}
use fingerprint_hub.Prelude.Int.{ℤ, pos, at_least}
use fingerprint_hub.Api.Values.{is_blank, int}
use fingerprint_hub.Api.Messages.{ServiceConfig}

abbrev pub default_host : Str
default_host = codes "127.0.0.1"

abbrev pub default_port : ℕ
default_port = 58751

abbrev pub default_rate_limit_per_minute : ℕ
default_rate_limit_per_minute = 300

abbrev pub default_auto_hide_flag_threshold : ℕ
default_auto_hide_flag_threshold = 2

abbrev pub default_max_sync_limit : ℕ
default_max_sync_limit = 500

abbrev pub default_sync_limit : ℕ
default_sync_limit = 200

abbrev pub default_max_list_limit : ℕ
default_max_list_limit = 200

-- `_int_env`
unfoldable pub int_env : Env → Str → ℤ → ℤ
unfolding is_blank int
int_env env name default = elim (env name) [
  | none ↦ default
  | some raw ↦ if is_blank (some raw) then default else or_else (int raw) default
]

unfoldable pub load_config_from_env : Env → ServiceConfig
unfolding int_env
load_config_from_env env = record {
  host = or_else (env (codes "FINGERPRINTHUB_HOST")) default_host;
  port = int_env env (codes "FINGERPRINTHUB_PORT") (pos default_port);
  rate_limit_per_minute =
      int_env env (codes "FINGERPRINTHUB_RATE_LIMIT") (pos default_rate_limit_per_minute);
  auto_hide_flag_threshold = at_least 1 (
      int_env env (codes "FINGERPRINTHUB_AUTO_HIDE_FLAG_THRESHOLD")
        (pos default_auto_hide_flag_threshold));
  max_sync_limit = int_env env (codes "FINGERPRINTHUB_MAX_SYNC_LIMIT") (pos default_max_sync_limit);
  default_sync_limit =
      int_env env (codes "FINGERPRINTHUB_DEFAULT_SYNC_LIMIT") (pos default_sync_limit);
  max_list_limit = int_env env (codes "FINGERPRINTHUB_MAX_LIST_LIMIT") (pos default_max_list_limit);
}
