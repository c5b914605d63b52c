-- ===== src/Store/Flags/Branches.antt =====
-- The branches of `flag`, as equations.
use fingerprint_hub.Prelude.{
  ℕ, arith, ◌≡◌, refl, Str, Option, none, some, true, false, List, ◌⊎◌, Bool-cases, Option-cases,
  Result-cases, inl, inr, ok, raise, Exc,
}
use fingerprint_hub.Cipher.{Cipher}
use fingerprint_hub.Schema.{is_deleted, Fingerprint, Db}
use fingerprint_hub.Store.Keys.{has_id}
use fingerprint_hub.Store.Flags.{record_flag, flag}
use fingerprint_hub.Sql.{fetch_one}

module _ (c : Cipher) (nonce : List ℕ) (id consumer_id : ℕ) (reason : Option Str)
    (now_ms auto_hide_threshold : ℕ) (db : Db) where
  -- The row is missing or deleted.
  pub record IsMissing : Type 0 where
    pub result : flag c nonce id consumer_id reason now_ms auto_hide_threshold db ≡ (ok none, db)
    pub missing :
        (fp : Fingerprint)
        → fetch_one (has_id id) db.fingerprints ≡ some fp
        → is_deleted fp.status ≡ true

  -- The encryption of the reason raised.
  pub record IsRefused : Type 0 where
    pub exc : Exc
    pub refused : c.encrypt nonce reason ≡ raise exc
    pub result : flag c nonce id consumer_id reason now_ms auto_hide_threshold db ≡ (raise exc, db)

  -- The row is there, and the flag is recorded.
  pub record IsRecorded : Type 0 where
    pub row : Fingerprint
    pub sealed : Option Str
    pub found : fetch_one (has_id id) db.fingerprints ≡ some row
    pub live : is_deleted row.status ≡ false
    pub encrypted : c.encrypt nonce reason ≡ ok sealed
    pub result : flag c nonce id consumer_id reason now_ms auto_hide_threshold db ≡ (
      ok (some (record_flag id row.status consumer_id sealed now_ms auto_hide_threshold db).0),
      (record_flag id row.status consumer_id sealed now_ms auto_hide_threshold db).1,
    )

  pub flag_branches : IsMissing ⊎ (IsRefused ⊎ IsRecorded)
  unfolding flag
  flag_branches = elim (Option-cases (fetch_one (has_id id) db.fingerprints)) [
    | inl e ↦ inl (record { result = rw (e, flag) refl; missing = λ fp f. cc (e, f) })
    | inr (fp, e) ↦ elim (Bool-cases (is_deleted fp.status)) [
      | inl d ↦ inl (record { result = rw (e, flag, d) refl; missing = λ s f. ground arith })
      | inr d ↦ elim (Result-cases (c.encrypt nonce reason)) [
        | inl (x, f) ↦ inr (inl (record { exc = x; refused = f; result = rw (e, flag, d, f) refl }))
        | inr (g, f) ↦ inr (
            inr (record {
              row = fp;
              sealed = g;
              found = e;
              live = d;
              encrypted = f;
              result = rw (e, flag, d, f) refl;
            }))
      ]
    ]
  ]
