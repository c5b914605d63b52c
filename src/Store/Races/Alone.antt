-- ===== src/Store/Races/Alone.antt =====
-- What a call of `flag` does in a transaction that runs alone, from what its statements have seen.
use fingerprint_hub.Prelude.{
  ℕ, ◌≡◌, refl, Str, true, false, Option, none, some, Result, ok, raise, Exc,
}
use fingerprint_hub.Cipher.{Cipher}
use fingerprint_hub.Schema.{is_deleted, Fingerprint, Flag, Db}
use fingerprint_hub.Sql.{fetch_one}
use fingerprint_hub.Store.Keys.{has_id}
use fingerprint_hub.Store.Flags.{FlagResult, insert_flag, flaggers, settle_flags, record_flag, flag}
use fingerprint_hub.Store.Races.{Call, flag_of_call}

module _ (c : Cipher) (id threshold : ℕ) (calls : ℕ → Call) where
  -- The call as one transaction that runs alone.
  abbrev pub alone : ℕ → Db → Result (Option FlagResult) × Db
  alone t db =
      flag c (calls t).nonce id (calls t).consumer_id (calls t).reason (calls t).now_ms threshold db

  pub record IsInserted (t : ℕ) (fp : Fingerprint) (f : Flag) (db : Db) : Type 0 where
    pub row : fetch_one (has_id id) db.fingerprints ≡ some fp
    pub live : is_deleted fp.status ≡ false
    pub sealed : Option Str
    pub encrypted : c.encrypt (calls t).nonce (calls t).reason ≡ ok sealed
    pub own : f ≡ flag_of_call c id threshold calls t sealed

  pub alone_missing :
      (t : ℕ) (db : Db) → fetch_one (has_id id) db.fingerprints ≡ none → alone t db ≡ (ok none, db)
  unfolding flag
  alone_missing t db e = rw (e, flag) refl

  pub alone_deleted :
      (t : ℕ) (fp : Fingerprint) (db : Db)
      → fetch_one (has_id id) db.fingerprints ≡ some fp
      → is_deleted fp.status ≡ true
      → alone t db ≡ (ok none, db)
  unfolding flag
  alone_deleted t fp db e d = rw (e, flag, d) refl

  pub alone_refused :
      (t : ℕ) (fp : Fingerprint) (x : Exc) (db : Db)
      → fetch_one (has_id id) db.fingerprints ≡ some fp
      → is_deleted fp.status ≡ false
      → c.encrypt (calls t).nonce (calls t).reason ≡ raise x
      → alone t db ≡ (raise x, db)
  unfolding flag
  alone_refused t fp x db e d f = rw (e, flag, d, f) refl

  abbrev pub settled : ℕ → Fingerprint → Flag → ℕ → Db → FlagResult × Db
  settled t fp f n db =
      settle_flags id fp.status n (calls t).now_ms threshold
        (record db { flags = insert_flag f db.flags })

  pub alone_counted :
      (t n : ℕ) (fp : Fingerprint) (f : Flag) (db : Db)
      → IsInserted t fp f db
      → n ≡ flaggers id (insert_flag f db.flags)
      → alone t db ≡ (ok (some (settled t fp f n db).0), (settled t fp f n db).1)
  unfolding flag record_flag
  alone_counted t n fp f db k e = rw (e, k.own) (rw (k.row, flag, k.live, k.encrypted) refl)
