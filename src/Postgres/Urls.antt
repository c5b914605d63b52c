-- ===== src/Postgres/Urls.antt =====
-- The URL of the service and the URL of the migrations of alembic/env.py.
use fingerprint_hub.Prelude.{
  ℕ, ◌≡◌, ◌∙◌, refl, sym, ap, Str, Env, Bool, true, false, ◌&&◌, ◌||◌, Option, some, [], ◌∷◌, ◌++◌,
  drop, length, ok, raise, Exc, Bool-cases, inl, inr, arith, if◌then◌else◌, str_eq,
}
use fingerprint_hub.Prelude.Int.{pos}
use fingerprint_hub.Encryption.Envelope.{starts_with}
use fingerprint_hub.Postgres.{
  postgres_config, mapping_at, database_url_env, libpq_scheme, sqlalchemy_scheme, replace_first,
  normalize_psycopg_dsn, nonempty_or, text_at, get_database_url, int_at, PostgresSettings,
  get_postgres_settings, migration_url,
}

-- `part in text`
unfoldable pub occurs : Str → Str → Bool
unfolding starts_with
occurs part [] = starts_with part []
occurs part (c ∷ s) = starts_with part (c ∷ s) || occurs part s

replace_first_none : (old new s : Str) → occurs old s ≡ false → replace_first old new s ≡ s
unfolding occurs replace_first
replace_first_none old new [] h = rw h refl
replace_first_none old new (c ∷ s) h =
    let here : starts_with old (c ∷ s) ≡ false = ground (arith, h) in
    let rest = replace_first_none old new s (ground (arith, h)) in rw (here, rest) refl

starts_with-drop : (p s : Str) → starts_with p s ≡ true → s ≡ p ++ drop (length p) s
unfolding starts_with
starts_with-drop [] s h = refl
starts_with-drop (a ∷ p) [] h = absurd cc
starts_with-drop (a ∷ p) (c ∷ s) h =
    let same : c ≡ a = ground (arith, h) in
    let rest = starts_with-drop p s (ground (arith, h)) in rw (same) (ap (◌∷◌ a) rest)

replaced :
    (rest : Str)
    → replace_first libpq_scheme sqlalchemy_scheme (libpq_scheme ++ rest)
      ≡ sqlalchemy_scheme ++ rest
unfolding replace_first starts_with
replaced rest = refl

replaced_back :
    (rest : Str) → normalize_psycopg_dsn (sqlalchemy_scheme ++ rest) ≡ libpq_scheme ++ rest
unfolding normalize_psycopg_dsn replace_first starts_with
replaced_back rest = refl

-- `if url.startswith(…): return url.replace(…)`
abbrev rewritten : Str → Str
rewritten url =
    if starts_with libpq_scheme url then replace_first libpq_scheme sqlalchemy_scheme url else url

rewritten-normal :
    (url : Str)
    → (starts_with libpq_scheme url && occurs sqlalchemy_scheme url) ≡ false
    → normalize_psycopg_dsn (rewritten url) ≡ normalize_psycopg_dsn url
rewritten-normal url h = elim (Bool-cases (starts_with libpq_scheme url)) [
  | inr e ↦ rw e refl
  | inl e ↦
      let rest = drop (length libpq_scheme) url in
      let whole : url ≡ libpq_scheme ++ rest = starts_with-drop libpq_scheme url e in
      let out : replace_first libpq_scheme sqlalchemy_scheme url ≡ sqlalchemy_scheme ++ rest =
        ap (replace_first libpq_scheme sqlalchemy_scheme) whole ∙ replaced rest in
      let kept : normalize_psycopg_dsn url ≡ url = same e in
      rw e (ap normalize_psycopg_dsn out ∙ replaced_back rest ∙ sym whole ∙ sym kept)
]
  where
    same : starts_with libpq_scheme url ≡ true → normalize_psycopg_dsn url ≡ url
    same e =
        unfold normalize_psycopg_dsn in
        replace_first_none sqlalchemy_scheme libpq_scheme url (ground (arith, h, e))

-- The settings of the service in such an environment.
abbrev pub settings_of : Str → PostgresSettings
settings_of url = record {
  dsn = normalize_psycopg_dsn url;
  pool_min_size = pos 1;
  pool_max_size = pos 10;
  connect_timeout_seconds = pos 5;
}

pub get_postgres_settings_of :
    (env : Env) (c : ℕ) (url : Str)
    → env database_url_env ≡ some (c ∷ url)
    → get_postgres_settings env postgres_config ≡ ok (settings_of (c ∷ url))
unfolding get_postgres_settings get_database_url mapping_at text_at nonempty_or int_at str_eq
get_postgres_settings_of env c url set = rw set refl

no_url :
    (env : Env)
    → env database_url_env ≡ some []
    → get_postgres_settings env postgres_config ≡ raise Exc.runtime_error
unfolding get_postgres_settings get_database_url mapping_at text_at nonempty_or str_eq
no_url env set = rw set refl

migration_url_of :
    (env : Env) (main_option : Option Str) (c : ℕ) (url : Str)
    → env database_url_env ≡ some (c ∷ url)
    → migration_url env main_option ≡ rewritten (c ∷ url)
unfolding migration_url nonempty_or
migration_url_of env main_option c url set = rw set refl

-- Where the variable of the URL is set, and its text does not both begin with "postgresql://" and hold
-- "postgresql+psycopg://", the service connects to the URL that the migrations run on, up to the driver
-- that it names, whatever the main option of Alembic is.
pub settings-migration_url :
    (env : Env) (main_option : Option Str) (url : Str) (settings : PostgresSettings)
    → env database_url_env ≡ some url
    → (starts_with libpq_scheme url && occurs sqlalchemy_scheme url) ≡ false
    → get_postgres_settings env postgres_config ≡ ok settings
    → settings.dsn ≡ normalize_psycopg_dsn (migration_url env main_option)
settings-migration_url env main_option [] settings set plain h =
    absurd (let r = no_url env set in cc)
settings-migration_url env main_option (c ∷ url) settings set plain h =
    let r = get_postgres_settings_of env c url set in
    let same : settings ≡ settings_of (c ∷ url) = cc in
    ap (λ t. t.dsn) same
    ∙ sym (rewritten-normal (c ∷ url) plain)
    ∙ ap normalize_psycopg_dsn (sym (migration_url_of env main_option c url set))
