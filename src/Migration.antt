-- ===== src/Migration.antt =====
-- alembic/versions/0002_privacy_hardening.py: the columns with secrets are encrypted, and decrypted
-- again on the way back. A migration is one transaction: an exception leaves the tables as they were.
pub mod Values
pub mod Columns
pub mod Rows
pub mod Steps
pub mod Upgrade
pub mod Sealed
pub mod Reversal
pub mod Preserved
use fingerprint_hub.Prelude.{
  ℕ, zero, suc, Str, codes, Bool, true, false, Option, none, some, List, [], ◌∷◌, if◌then◌else◌,
  Result, ok, raise, Exc, ◌>>=◌,
}
use fingerprint_hub.Schema.{Fingerprint, Hit, Flag, Db}
use fingerprint_hub.Encryption.Envelope.{Aead, Keyring, starts_with, encrypt_text, decrypt_text}

-- One column that may be NULL, of the rows of a table.
pub record Column (A : Type 0) : Type 0 where
  pub value : A → Option Str
  -- `UPDATE … SET column = :value WHERE id = :id`, of the row with that id
  pub set : Option Str → A → A

abbrev pub source_guild_id : Column Fingerprint
source_guild_id = record {
  value = λ r. r.source_guild_id;
  set = λ v r. record r { source_guild_id = v };
}

abbrev pub reason : Column Fingerprint
reason = record { value = λ r. r.reason; set = λ v r. record r { reason = v } }

abbrev pub source_url : Column Fingerprint
source_url = record { value = λ r. r.source_url; set = λ v r. record r { source_url = v } }

abbrev pub guild_id : Column Hit
guild_id = record { value = λ h. h.guild_id; set = λ v h. record h { guild_id = v } }

abbrev pub flag_reason : Column Flag
flag_reason = record { value = λ f. f.reason; set = λ v f. record f { reason = v } }

-- The random nonces of a migration: of the column with a number, of the row with a number.
abbrev pub Nonces : Type 0
Nonces = ℕ → ℕ → List ℕ

-- `except FieldDecryptionError`
unfoldable pub is_decryption_error : Exc → Bool
is_decryption_error Exc.field_decryption_error = true
is_decryption_error _ = false

-- What `_rewrite_column` leaves in a value that is not NULL, with `encrypt` and without. A row that it
-- skips keeps its value.
unfoldable pub encrypt_value : Aead → Keyring → List ℕ → Str → Result (Option Str)
encrypt_value a ring nonce value =
    if starts_with (codes "enc:v1:") value
    then elim (decrypt_text a ring value) [
      | ok _ ↦ ok (some value)
      | raise e ↦ if is_decryption_error e then encrypt_text a ring nonce (some value) else raise e
    ]
    else encrypt_text a ring nonce (some value)

unfoldable pub decrypt_value : Aead → Keyring → Str → Result (Option Str)
decrypt_value a ring value =
    if starts_with (codes "enc:v1:") value
    then elim (decrypt_text a ring value) [
      | ok text ↦ ok (some text)
      | raise e ↦ if is_decryption_error e then ok (some value) else raise e
    ]
    else ok (some value)

-- One row, where `f` rewrites a value. `WHERE column IS NOT NULL` leaves out the others.
unfoldable pub rewrite_row : {A : Type 0} → (Str → Result (Option Str)) → Column A → A → Result A
rewrite_row f c r = elim (c.value r) [
  | none ↦ ok r
  | some value ↦ f value >>= (λ v. ok (c.set v r))
]

-- `_rewrite_column`, where `f` has the number of the row for its nonce.
unfoldable pub rewrite_column :
    {A : Type 0} → (ℕ → Str → Result (Option Str)) → Column A → List A → Result (List A)
unfolding rewrite_row
rewrite_column f c [] = ok []
rewrite_column f c (r ∷ rows) = do
  r' ← rewrite_row (f zero) c r
  rows' ← rewrite_column (λ i. f (suc i)) c rows
  ok (r' ∷ rows')

-- The five columns in their order, where `f` has the number of the column.
unfoldable pub rewrite_fingerprints :
    (ℕ → ℕ → Str → Result (Option Str)) → List Fingerprint → Result (List Fingerprint)
unfolding rewrite_column
rewrite_fingerprints f rows = do
  rows₁ ← rewrite_column (f 0) source_guild_id rows
  rows₂ ← rewrite_column (f 1) reason rows₁
  rewrite_column (f 2) source_url rows₂

unfoldable pub rewrite_tables : (ℕ → ℕ → Str → Result (Option Str)) → Db → Result Db
unfolding rewrite_fingerprints rewrite_column
rewrite_tables f db = do
  fingerprints ← rewrite_fingerprints f db.fingerprints
  hits ← rewrite_column (f 3) guild_id db.hits
  flags ← rewrite_column (f 4) flag_reason db.flags
  ok (record db { fingerprints = fingerprints; hits = hits; flags = flags })

unfoldable pub upgrade : Aead → Keyring → Nonces → Db → Result Db
unfolding rewrite_tables encrypt_value
upgrade a ring nonces = rewrite_tables (λ i j. encrypt_value a ring (nonces i j))

unfoldable pub downgrade : Aead → Keyring → Db → Result Db
unfolding rewrite_tables decrypt_value
downgrade a ring = rewrite_tables (λ i j. decrypt_value a ring)
