-- ===== src/Migration/Steps.antt =====
-- What a rewriting of the five columns of alembic/versions/0002_privacy_hardening.py does, row by row.
use fingerprint_hub.Prelude.{
  ℕ, ◌≡◌, refl, Str, Option, List, Zip, Zip-compose, Result, ok, Result-bind,
}
use fingerprint_hub.Schema.{Fingerprint, Db}
use fingerprint_hub.Migration.{
  Column, source_guild_id, reason, source_url, guild_id, flag_reason, rewrite_row, rewrite_column,
  rewrite_fingerprints, rewrite_tables,
}
use fingerprint_hub.Migration.Columns.{rewrite_column-Zip}

abbrev pub Rewrite : Type 0
Rewrite = ℕ → Str → Result (Option Str)

abbrev pub Step : {A : Type 0} → Rewrite → Column A → A → A → Type 0
Step f c r r' = (i : ℕ) × (rewrite_row (f i) c r ≡ ok r')

-- What the three columns of a fingerprint do to it, one after the other.
abbrev pub RowSteps : (ℕ → Rewrite) → Fingerprint → Fingerprint → Type 0
RowSteps f r r₃ =
    (r₁ : Fingerprint) × (r₂ : Fingerprint) × Step (f 0) source_guild_id r r₁
    × Step (f 1) reason r₁ r₂
    × Step (f 2) source_url r₂ r₃

pub record Rewritten (f : ℕ → Rewrite) (db db' : Db) : Type 0 where
  pub rows : Zip (RowSteps f) db.fingerprints db'.fingerprints
  pub hits : Zip (Step (f 3) guild_id) db.hits db'.hits
  pub flags : Zip (Step (f 4) flag_reason) db.flags db'.flags
  pub rest : db' ≡ record db { fingerprints = db'.fingerprints; hits = db'.hits; flags = db'.flags }

module _ (f : ℕ → Rewrite) where
  row_steps :
      (rows rows₁ rows₂ rows₃ : List Fingerprint)
      → rewrite_column (f 0) source_guild_id rows ≡ ok rows₁
      → rewrite_column (f 1) reason rows₁ ≡ ok rows₂
      → rewrite_column (f 2) source_url rows₂ ≡ ok rows₃
      → Zip (RowSteps f) rows rows₃
  row_steps rows rows₁ rows₂ rows₃ e₁ e₂ e₃ =
      Zip-compose (Step (f 0) source_guild_id)
        (λ r₁ r₃. (r₂ : Fingerprint) × Step (f 1) reason r₁ r₂ × Step (f 2) source_url r₂ r₃)
        (RowSteps f) (λ r r₁ r₃ s t. (r₁, t.0, s, t.1, t.2)) rows rows₁ rows₃
        (rewrite_column-Zip source_guild_id (f 0) rows rows₁ e₁)
        (Zip-compose (Step (f 1) reason) (Step (f 2) source_url)
          (λ r₁ r₃. (r₂ : Fingerprint) × Step (f 1) reason r₁ r₂ × Step (f 2) source_url r₂ r₃)
          (λ r₁ r₂ r₃ s t. (r₂, s, t)) rows₁ rows₂ rows₃
          (rewrite_column-Zip reason (f 1) rows₁ rows₂ e₂)
          (rewrite_column-Zip source_url (f 2) rows₂ rows₃ e₃))

  rewrite_fingerprints-Zip :
      (rows rows' : List Fingerprint)
      → rewrite_fingerprints f rows ≡ ok rows'
      → Zip (RowSteps f) rows rows'
  unfolding rewrite_fingerprints
  rewrite_fingerprints-Zip rows rows' h =
      let (rows₁, e₁, h₁) = Result-bind _ _ rows' h in
      let (rows₂, e₂, h₂) = Result-bind _ _ rows' h₁ in row_steps rows rows₁ rows₂ rows' e₁ e₂ h₂

  pub rewrite_tables-Rewritten : (db db' : Db) → rewrite_tables f db ≡ ok db' → Rewritten f db db'
  unfolding rewrite_tables
  rewrite_tables-Rewritten db db' h =
      let (rows, e₁, h₁) = Result-bind _ _ db' h in
      let (hits, e₂, h₂) = Result-bind _ _ db' h₁ in
      let (flags, e₃, h₃) = Result-bind _ _ db' h₂ in
      let same : record db { fingerprints = rows; hits = hits; flags = flags } ≡ db' = cc in
      rw (← same) (record {
        rows = rewrite_fingerprints-Zip db.fingerprints rows e₁;
        hits = rewrite_column-Zip guild_id (f 3) db.hits hits e₂;
        flags = rewrite_column-Zip flag_reason (f 4) db.flags flags e₃;
        rest = refl;
      })
