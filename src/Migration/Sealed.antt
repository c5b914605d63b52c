-- ===== src/Migration/Sealed.antt =====
-- Both directions of alembic/versions/0002_privacy_hardening.py on tables whose secrets decrypt.
use fingerprint_hub.Prelude.{
  ℕ, ◌≡◌, ◌∙◌, refl, ap, Str, Option, none, some, List, map, Zip-right, map_identity, All, All-imp,
  All-map, ok,
}
use fingerprint_hub.Schema.{Db}
use fingerprint_hub.Encryption.Envelope.{Aead, Keyring}
use fingerprint_hub.Migration.{
  Column, source_guild_id, reason, source_url, guild_id, flag_reason, Nonces, encrypt_value,
  decrypt_value, rewrite_column, rewrite_fingerprints, rewrite_tables, upgrade, downgrade,
}
use fingerprint_hub.Migration.Values.{plaintext}
use fingerprint_hub.Migration.Columns.{rewrite_column-map}
use fingerprint_hub.Store.Secrets.{Every, EverySecret}
use fingerprint_hub.Migration.Rows.{
  IsSealed, Seals, RowSeals, HitSeals, FlagSeals, DbSeals, reopened, kept_row, opened_row,
}

module _ (a : Aead) (ring : Keyring) where
  Seals-IsSealed : (o o' : Option Str) → Seals a ring o o' → Every (IsSealed a ring) o'
  Seals-IsSealed none none s = tt
  Seals-IsSealed none (some e) s = absurd s
  Seals-IsSealed (some v) none s = absurd s
  Seals-IsSealed (some v) (some e) s = (plaintext a ring v, s)

  pub DbSeals-IsSealed : (db db' : Db) → DbSeals a ring db db' → EverySecret (IsSealed a ring) db'
  DbSeals-IsSealed db db' d = record {
    rows =
        Zip-right (RowSeals a ring)
          (λ s.
            Every (IsSealed a ring) s.source_guild_id
            × Every (IsSealed a ring) s.reason
            × Every (IsSealed a ring) s.source_url)
          (λ r r' s. (
            Seals-IsSealed r.source_guild_id r'.source_guild_id s.guild,
            Seals-IsSealed r.reason r'.reason s.reason,
            Seals-IsSealed r.source_url r'.source_url s.url,
          ))
          db.fingerprints db'.fingerprints d.rows;
    hits =
        Zip-right (HitSeals a ring) (λ s. Every (IsSealed a ring) s.guild_id)
          (λ h h' s. Seals-IsSealed h.guild_id h'.guild_id s.guild) db.hits db'.hits d.hits;
    flags =
        Zip-right (FlagSeals a ring) (λ s. Every (IsSealed a ring) s.reason)
          (λ f f' s. Seals-IsSealed f.reason f'.reason s.reason) db.flags db'.flags d.flags;
  }

  abbrev pub reopen : {A : Type 0} → Column A → A → A
  reopen c r = c.set (reopened a ring (c.value r)) r

  module _ {A : Type 0} (c : Column A) (set-value : (r : A) → c.set (c.value r) r ≡ r) where
    kept_column :
        (nonces : ℕ → List ℕ) (rows : List A)
        → All (λ r. Every (IsSealed a ring) (c.value r)) rows
        → rewrite_column (λ i. encrypt_value a ring (nonces i)) c rows ≡ ok rows
    kept_column nonces rows h =
        rewrite_column-map c (λ i. encrypt_value a ring (nonces i)) (λ r. r) rows
          (All-imp (λ r s i. kept_row a ring c set-value (nonces i) r s) rows h)
        ∙ ap ok (map_identity rows)

    opened_column :
        (rows : List A)
        → All (λ r. Every (IsSealed a ring) (c.value r)) rows
        → rewrite_column (λ i. decrypt_value a ring) c rows ≡ ok (map (reopen c) rows)
    opened_column rows h =
        rewrite_column-map c (λ i. decrypt_value a ring) (reopen c) rows
          (All-imp (λ r s i. opened_row a ring c set-value r s) rows h)

  pub upgrade_sealed :
      (nonces : Nonces) (db : Db)
      → EverySecret (IsSealed a ring) db
      → upgrade a ring nonces db ≡ ok db
  unfolding upgrade rewrite_tables rewrite_fingerprints
  upgrade_sealed nonces db s =
      let e₁ =
        kept_column source_guild_id (λ r. refl) (nonces 0) db.fingerprints
          (All-imp (λ r k. k.0) db.fingerprints s.rows) in
      let e₂ =
        kept_column reason (λ r. refl) (nonces 1) db.fingerprints
          (All-imp (λ r k. k.1) db.fingerprints s.rows) in
      let e₃ =
        kept_column source_url (λ r. refl) (nonces 2) db.fingerprints
          (All-imp (λ r k. k.2) db.fingerprints s.rows) in
      let e₄ = kept_column guild_id (λ r. refl) (nonces 3) db.hits s.hits in
      let e₅ = kept_column flag_reason (λ r. refl) (nonces 4) db.flags s.flags in
      rw (e₁, e₂, e₃, e₄, e₅) refl

  -- What `downgrade` makes of tables whose secrets decrypt.
  abbrev pub reopened_tables : Db → Db
  reopened_tables db = record db {
    fingerprints =
        map (reopen source_url)
          (map (reopen reason) (map (reopen source_guild_id) db.fingerprints));
    hits = map (reopen guild_id) db.hits;
    flags = map (reopen flag_reason) db.flags;
  }

  pub downgrade_sealed :
      (db : Db) → EverySecret (IsSealed a ring) db → downgrade a ring db ≡ ok (reopened_tables db)
  unfolding downgrade rewrite_tables rewrite_fingerprints
  downgrade_sealed db s =
      let rows₁ = map (reopen source_guild_id) db.fingerprints in
      let e₁ =
        opened_column source_guild_id (λ r. refl) db.fingerprints
          (All-imp (λ r k. k.0) db.fingerprints s.rows) in
      let e₂ =
        opened_column reason (λ r. refl) rows₁
          (All-map (λ r. Every (IsSealed a ring) r.reason) (λ r. Every (IsSealed a ring) r.reason)
            (reopen source_guild_id) (λ r k. k) db.fingerprints
            (All-imp (λ r k. k.1) db.fingerprints s.rows)) in
      let e₃ =
        opened_column source_url (λ r. refl) (map (reopen reason) rows₁)
          (All-map (λ r. Every (IsSealed a ring) r.source_url)
            (λ r. Every (IsSealed a ring) r.source_url) (reopen reason) (λ r k. k) rows₁
            (All-map (λ r. Every (IsSealed a ring) r.source_url)
              (λ r. Every (IsSealed a ring) r.source_url) (reopen source_guild_id) (λ r k. k)
              db.fingerprints (All-imp (λ r k. k.2) db.fingerprints s.rows))) in
      let e₄ = opened_column guild_id (λ r. refl) db.hits s.hits in
      let e₅ = opened_column flag_reason (λ r. refl) db.flags s.flags in
      rw (e₁, e₂, e₃, e₄, e₅) refl
