-- ===== src/Store/Hits/Branches.antt =====
-- The branches of `report_hit`, as equations.
use fingerprint_hub.Prelude.{
  ℕ, arith, ◌≡◌, refl, Str, Option, none, some, true, false, List, ◌⊎◌, Bool-cases, Option-cases,
  Result-cases, inl, inr, ok, raise, Exc,
}
use fingerprint_hub.Prelude.Int.{ℤ}
use fingerprint_hub.Cipher.{Cipher}
use fingerprint_hub.Schema.{is_deleted, Fingerprint, Db}
use fingerprint_hub.Store.Keys.{has_id}
use fingerprint_hub.Store.Hits.{record_hit, report_hit}
use fingerprint_hub.Sql.{fetch_one}

module _ (c : Cipher) (nonce : List ℕ) (id consumer_id : ℕ) (guild_id : Option Str)
    (distance : Option ℤ) (now_ms : ℕ) (db : Db) where
  -- The row is missing or deleted.
  pub record IsMissing : Type 0 where
    pub result : report_hit c nonce id consumer_id guild_id distance now_ms db ≡ (ok none, db)
    pub missing :
        (fp : Fingerprint)
        → fetch_one (has_id id) db.fingerprints ≡ some fp
        → is_deleted fp.status ≡ true

  -- The encryption of the location raised.
  pub record IsRefused : Type 0 where
    pub exc : Exc
    pub refused : c.encrypt nonce guild_id ≡ raise exc
    pub result : report_hit c nonce id consumer_id guild_id distance now_ms db ≡ (raise exc, db)

  -- The row is there, and the INSERT and the UPDATE run.
  pub record IsRecorded : Type 0 where
    pub row : Fingerprint
    pub guild : Option Str
    pub found : fetch_one (has_id id) db.fingerprints ≡ some row
    pub live : is_deleted row.status ≡ false
    pub encrypted : c.encrypt nonce guild_id ≡ ok guild
    pub result :
        report_hit c nonce id consumer_id guild_id distance now_ms db
        ≡ record_hit id consumer_id guild distance now_ms db

  pub report_hit_branches : IsMissing ⊎ (IsRefused ⊎ IsRecorded)
  unfolding report_hit
  report_hit_branches = elim (Option-cases (fetch_one (has_id id) db.fingerprints)) [
    | inl e ↦ inl (record { result = rw (e, report_hit) refl; missing = λ fp f. cc (e, f) })
    | inr (fp, e) ↦ elim (Bool-cases (is_deleted fp.status)) [
      | inl d ↦ inl (record { result = rw (e, report_hit, d) refl; missing = λ s f. ground arith })
      | inr d ↦ elim (Result-cases (c.encrypt nonce guild_id)) [
        | inl (x, f) ↦
            inr (inl (record { exc = x; refused = f; result = rw (e, report_hit, d, f) refl }))
        | inr (g, f) ↦ inr (
            inr (record {
              row = fp;
              guild = g;
              found = e;
              live = d;
              encrypted = f;
              result = rw (e, report_hit, d, f) refl;
            }))
      ]
    ]
  ]
