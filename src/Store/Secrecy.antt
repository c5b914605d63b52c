-- ===== src/Store/Secrecy.antt =====
-- What the operations write where a secret is expected, over any sequence of them.
use fingerprint_hub.Prelude.{ℕ, ◌≡◌, Str, Option, List, ok, Result-cases, inl, inr}
use fingerprint_hub.Prelude.Int.{ℤ}
use fingerprint_hub.Cipher.{Cipher}
use fingerprint_hub.Schema.{Db}
use fingerprint_hub.Store.Contribute.{
  Contribution, Nonces, encrypt_fields, select_existing, contribute,
}
use fingerprint_hub.Store.Contribute.Fields.{encrypt_fields-Encrypted}
use fingerprint_hub.Store.Hits.{report_hit}
use fingerprint_hub.Store.Hits.Branches.{report_hit_branches}
use fingerprint_hub.Store.Flags.{flag}
use fingerprint_hub.Store.Flags.Branches.{flag_branches}
use fingerprint_hub.Store.History.{
  Step, contributes, races, reports, flags, deletes, purges, Reach, here, next,
}
use fingerprint_hub.Store.Secrets.{
  Every, EverySecret, FieldSecrets, write-EverySecret, record_flag-EverySecret,
  record_hit-EverySecret, soft_delete-EverySecret, apply_retention-EverySecret,
}

-- A cipher whose encrypted values all have a property.
module _ (P : Str → Type 0) (c : Cipher)
    (seals : (nonce : List ℕ) (text out : Option Str)
      → c.encrypt nonce text ≡ ok out
      → Every P out) where
  encrypt_fields-FieldSecrets :
      (n : Nonces) (x y : Contribution) → encrypt_fields c n x ≡ ok y → FieldSecrets P y
  encrypt_fields-FieldSecrets n x y h =
      let e = encrypt_fields-Encrypted c n x y h in
      (
        seals n.source_guild_id x.source_guild_id y.source_guild_id e.source_guild_id,
        seals n.reason x.reason y.reason e.reason,
        seals n.source_url x.source_url y.source_url e.source_url,
      )

  contribute-EverySecret :
      (n : Nonces) (consumer_id : ℕ) (x : Contribution) (now_ms : ℕ) (db : Db)
      → EverySecret P db
      → EverySecret P (contribute c n consumer_id x now_ms db).1
  unfolding contribute
  contribute-EverySecret n consumer_id x now_ms db s = elim (Result-cases (encrypt_fields c n x)) [
    | inl (e, h) ↦ rw (h, contribute) s
    | inr (y, h) ↦
        rw (h, contribute)
          (write-EverySecret P (select_existing y.phash_hex consumer_id db) y consumer_id now_ms db
            (encrypt_fields-FieldSecrets n x y h) s)
  ]

  report_hit-EverySecret :
      (nonce : List ℕ) (id consumer_id : ℕ) (guild_id : Option Str) (distance : Option ℤ)
      (now_ms : ℕ) (db : Db)
      → EverySecret P db
      → EverySecret P (report_hit c nonce id consumer_id guild_id distance now_ms db).1
  report_hit-EverySecret nonce id consumer_id guild_id distance now_ms db s =
      elim (report_hit_branches c nonce id consumer_id guild_id distance now_ms db) [
        | inl m ↦ rw m.result s
        | inr (inl m) ↦ rw m.result s
        | inr (inr m) ↦ rw m.result (
            record_hit-EverySecret P id consumer_id m.guild distance now_ms db
              (seals nonce guild_id m.guild m.encrypted) s)
      ]

  flag-EverySecret :
      (nonce : List ℕ) (id consumer_id : ℕ) (reason : Option Str) (now_ms threshold : ℕ) (db : Db)
      → EverySecret P db
      → EverySecret P (flag c nonce id consumer_id reason now_ms threshold db).1
  flag-EverySecret nonce id consumer_id reason now_ms threshold db s =
      elim (flag_branches c nonce id consumer_id reason now_ms threshold db) [
        | inl m ↦ rw m.result s
        | inr (inl m) ↦ rw m.result s
        | inr (inr m) ↦ rw m.result (
            record_flag-EverySecret P id m.row.status consumer_id m.sealed now_ms threshold db
              (seals nonce reason m.sealed m.encrypted) s)
      ]

  pub Step-EverySecret : {db db' : Db} → Step c db db' → EverySecret P db → EverySecret P db'
  Step-EverySecret {db} (contributes n consumer_id x now_ms) s =
      contribute-EverySecret n consumer_id x now_ms db s
  Step-EverySecret {db} (races existing n consumer_id x y now_ms e) s =
      write-EverySecret P existing y consumer_id now_ms db (encrypt_fields-FieldSecrets n x y e) s
  Step-EverySecret {db} (reports nonce id consumer_id guild_id distance now_ms) s =
      report_hit-EverySecret nonce id consumer_id guild_id distance now_ms db s
  Step-EverySecret {db} (flags nonce id consumer_id reason now_ms threshold) s =
      flag-EverySecret nonce id consumer_id reason now_ms threshold db s
  Step-EverySecret {db} (deletes id now_ms) s = soft_delete-EverySecret P id now_ms db s
  Step-EverySecret {db} (purges now_ms p dry_run) s =
      apply_retention-EverySecret P now_ms p dry_run db s

  pub Reach-EverySecret : {db db' : Db} → Reach c db db' → EverySecret P db → EverySecret P db'
  Reach-EverySecret here s = s
  Reach-EverySecret (next r step) s = Step-EverySecret step (Reach-EverySecret r s)
