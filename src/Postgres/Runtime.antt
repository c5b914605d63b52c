-- ===== src/Postgres/Runtime.antt =====
-- `validate_postgres_runtime` of utils/postgres_utils.py. What Alembic and the database answer enters
-- as an argument.
use fingerprint_hub.Prelude.{
  ◌≡◌, ◌↔◌, ◌∙◌, refl, sym, Str, Env, str_eq, str_eq_iff, str_in, Bool, true, false, ◌&&◌, ◌||◌,
  ltb, ◌==◌, Option, none, some, List, [], ◌∷◌, if◌then◌else◌, Result, ok, raise, Exc, arith,
  Bool-cases, Option-cases, Result-cases, inl, inr,
}
use fingerprint_hub.Postgres.{Configuration, PostgresSettings, get_postgres_settings}

pub record Inspection : Type 0 where
  -- `script.get_heads()`
  pub expected_heads : List Str
  -- the exception of `psycopg.connect`
  pub connect_error : Option Exc
  -- `SHOW server_version`
  pub server_version : Option Str
  -- whether `to_regclass('public.alembic_version')` is not NULL
  pub has_version_table : Bool
  -- `SELECT version_num FROM alembic_version`
  pub version_nums : List Str

pub record RuntimeInfo : Type 0 where
  pub server_version : Option Str
  pub alembic_heads : List Str

-- `a <= b`, by code points
unfoldable pub str_leb : Str → Str → Bool
str_leb [] t = true
str_leb (a ∷ s) [] = false
str_leb (a ∷ s) (b ∷ t) = ltb a b || (a == b && str_leb s t)

-- `sorted(set(texts))`
unfoldable pub insert_text : Str → List Str → List Str
unfolding str_eq str_leb
insert_text x [] = x ∷ []
insert_text x (y ∷ ys) =
    let rest = insert_text x ys in
    if str_eq x y then y ∷ ys else if str_leb x y then x ∷ y ∷ ys else y ∷ rest

unfoldable pub sorted_set : List Str → List Str
unfolding insert_text
sorted_set [] = []
sorted_set (x ∷ xs) = insert_text x (sorted_set xs)

-- `set(xs) <= set(ys)`, and `set(xs) == set(ys)`
unfoldable pub is_subset : List Str → List Str → Bool
unfolding str_in str_eq
is_subset [] ys = true
is_subset (x ∷ xs) ys = str_in x ys && is_subset xs ys

unfoldable pub same_set : List Str → List Str → Bool
unfolding is_subset
same_set xs ys = is_subset xs ys && is_subset ys xs

-- From the connection on.
unfoldable pub inspect : Inspection → Result RuntimeInfo
unfolding same_set sorted_set
inspect i = elim i.connect_error [
  | some e ↦ raise e
  | none ↦
      if i.has_version_table && same_set i.version_nums i.expected_heads
      then ok
          (record { server_version = i.server_version; alembic_heads = sorted_set i.version_nums })
      else raise Exc.runtime_error
]

unfoldable pub validate_postgres_runtime : Env → Configuration → Inspection → Result RuntimeInfo
unfolding get_postgres_settings inspect
validate_postgres_runtime env config i = elim (get_postgres_settings env config) [
  | raise e ↦ raise e
  | ok _ ↦ inspect i
]

is_subset-in :
    (x : Str) (xs ys : List Str) → is_subset xs ys ≡ true → str_in x xs ≡ true → str_in x ys ≡ true
unfolding is_subset str_in
is_subset-in x [] ys h k = absurd cc
is_subset-in x (z ∷ xs) ys h k = elim (Bool-cases (str_eq x z)) [
  | inl e ↦ let same : x ≡ z = (str_eq_iff x z).0 e in rw same (ground (arith, h))
  | inr e ↦ is_subset-in x xs ys (ground (arith, h)) (ground (arith, k, e))
]

-- The revisions of the database are the heads that Alembic expects.
pub record IsAtHead (i : Inspection) : Type 0 where
  pub connects : i.connect_error ≡ none
  pub has_version_table : i.has_version_table ≡ true
  pub heads : (v : Str) → (str_in v i.version_nums ≡ true) ↔ (str_in v i.expected_heads ≡ true)

inspect-IsAtHead : (i : Inspection) (info : RuntimeInfo) → inspect i ≡ ok info → IsAtHead i
inspect-IsAtHead i info h = elim (Option-cases i.connect_error) [
  | inr (x, e) ↦ absurd (let r = unconnected x e in cc)
  | inl e ↦ elim (Bool-cases (i.has_version_table && same_set i.version_nums i.expected_heads)) [
    | inr f ↦ absurd (let r = mismatched e f in cc)
    | inl f ↦
        let same : same_set i.version_nums i.expected_heads ≡ true = ground (arith, f) in
        let (sub, sup) = both same in
        record {
          connects = e;
          has_version_table = ground (arith, f);
          heads = λ v. (
            is_subset-in v i.version_nums i.expected_heads sub,
            is_subset-in v i.expected_heads i.version_nums sup,
          );
        }
  ]
]
  where
    unconnected : (x : Exc) → i.connect_error ≡ some x → inspect i ≡ raise x
    unconnected x e = unfold inspect in rw (e, inspect) refl

    mismatched :
        i.connect_error ≡ none
        → (i.has_version_table && same_set i.version_nums i.expected_heads) ≡ false
        → inspect i ≡ raise Exc.runtime_error
    mismatched e f = unfold inspect in rw (e, f, inspect) refl

    both :
        same_set i.version_nums i.expected_heads ≡ true
        → (is_subset i.version_nums i.expected_heads ≡ true)
          × (is_subset i.expected_heads i.version_nums ≡ true)
    both f = (unfold same_set in ground (arith, f), unfold same_set in ground (arith, f))

pub validate-IsAtHead :
    (env : Env) (config : Configuration) (i : Inspection) (info : RuntimeInfo)
    → validate_postgres_runtime env config i ≡ ok info
    → IsAtHead i
validate-IsAtHead env config i info h = elim (Result-cases (get_postgres_settings env config)) [
  | inl (x, e) ↦ absurd (let r = unset x e in cc)
  | inr (s, e) ↦ inspect-IsAtHead i info (sym (set s e) ∙ h)
]
  where
    unset :
        (x : Exc)
        → get_postgres_settings env config ≡ raise x
        → validate_postgres_runtime env config i ≡ raise x
    unset x e = unfold validate_postgres_runtime in rw (e, validate_postgres_runtime) refl

    set :
        (s : PostgresSettings)
        → get_postgres_settings env config ≡ ok s
        → validate_postgres_runtime env config i ≡ inspect i
    set s e = unfold validate_postgres_runtime in rw (e, validate_postgres_runtime) refl
