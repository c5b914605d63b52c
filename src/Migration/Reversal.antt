-- ===== src/Migration/Reversal.antt =====
-- A second upgrade of alembic/versions/0002_privacy_hardening.py, and the way back.
use fingerprint_hub.Prelude.{
  ℕ, ◌≡◌, ◌∙◌, refl, ap, Str, Option, none, some, List, map, Zip, map-map, Zip-map, Zip-All, All,
  ok,
}
use fingerprint_hub.Schema.{Fingerprint, Hit, Flag, Db}
use fingerprint_hub.Encryption.Utf8.RoundTrip.{IsChar}
use fingerprint_hub.Encryption.Envelope.{Aead, Keyring}
use fingerprint_hub.Encryption.Envelope.RoundTrip.{IsPlain}
use fingerprint_hub.Migration.{
  source_guild_id, reason, source_url, guild_id, flag_reason, Nonces, upgrade, downgrade,
}
use fingerprint_hub.Migration.Values.{IsNonce, plaintext, plaintext_legacy, opened}
use fingerprint_hub.Store.Secrets.{Every, EverySecret}
use fingerprint_hub.Migration.Rows.{
  IsLegacy, Seals, RowSeals, HitSeals, FlagSeals, DbSeals, reopened,
}
use fingerprint_hub.Migration.Upgrade.{upgrade-DbSeals}
use fingerprint_hub.Migration.Sealed.{
  DbSeals-IsSealed, reopen, upgrade_sealed, reopened_tables, downgrade_sealed,
}

module _ (a : Aead) (ring : Keyring) where
  Seals-reopened :
      (o o' : Option Str) → Every (IsLegacy a ring) o → Seals a ring o o' → reopened a ring o' ≡ o
  unfolding reopened
  Seals-reopened none none l s = refl
  Seals-reopened none (some e) l s = absurd s
  Seals-reopened (some v) none l s = absurd s
  Seals-reopened (some v) (some e) l s =
      ap some (opened a ring e (plaintext a ring v) s ∙ plaintext_legacy a ring v l.0 l.1)

  reopened_row :
      (r r' : Fingerprint)
      → Every (IsLegacy a ring) r.source_guild_id
        × Every (IsLegacy a ring) r.reason
        × Every (IsLegacy a ring) r.source_url
      → RowSeals a ring r r'
      → reopen a ring source_url (reopen a ring reason (reopen a ring source_guild_id r')) ≡ r
  reopened_row r r' l s =
      rw
        (
          Seals-reopened r.source_guild_id r'.source_guild_id l.0 s.guild,
          Seals-reopened r.reason r'.reason l.1 s.reason,
          Seals-reopened r.source_url r'.source_url l.2 s.url,
        )
        (ap {A = Fingerprint}
          (λ t. record t {
            source_guild_id = r.source_guild_id;
            reason = r.reason;
            source_url = r.source_url;
          })
          s.rest)

  reopened_hit :
      (h h' : Hit)
      → Every (IsLegacy a ring) h.guild_id
      → HitSeals a ring h h'
      → reopen a ring guild_id h' ≡ h
  reopened_hit h h' l s =
      rw (Seals-reopened h.guild_id h'.guild_id l s.guild)
        (ap {A = Hit} (λ t. record t { guild_id = h.guild_id }) s.rest)

  reopened_flag :
      (f f' : Flag)
      → Every (IsLegacy a ring) f.reason
      → FlagSeals a ring f f'
      → reopen a ring flag_reason f' ≡ f
  reopened_flag f f' l s =
      rw (Seals-reopened f.reason f'.reason l s.reason)
        (ap {A = Flag} (λ t. record t { reason = f.reason }) s.rest)

  reopened_rows :
      (rows rows' : List Fingerprint)
      → All
          (λ r.
            Every (IsLegacy a ring) r.source_guild_id
            × Every (IsLegacy a ring) r.reason
            × Every (IsLegacy a ring) r.source_url)
          rows
      → Zip (RowSeals a ring) rows rows'
      → map
          (reopen a ring source_url)
          (map (reopen a ring reason) (map (reopen a ring source_guild_id) rows'))
        ≡ rows
  reopened_rows rows rows' l z =
      rw (map-map, map-map)
        (Zip-map
          (λ r'. reopen a ring source_url (reopen a ring reason (reopen a ring source_guild_id r')))
          rows rows'
          (Zip-All
            (λ r.
              Every (IsLegacy a ring) r.source_guild_id
              × Every (IsLegacy a ring) r.reason
              × Every (IsLegacy a ring) r.source_url)
            (RowSeals a ring)
            (λ r r'.
              reopen a ring source_url (reopen a ring reason (reopen a ring source_guild_id r'))
              ≡ r)
            reopened_row rows rows' l z))

  reopened_tables-DbSeals :
      (db db' : Db)
      → EverySecret (IsLegacy a ring) db
      → DbSeals a ring db db'
      → reopened_tables a ring db' ≡ db
  reopened_tables-DbSeals db db' l s =
      rw
        (
          reopened_rows db.fingerprints db'.fingerprints l.rows s.rows,
          Zip-map (reopen a ring guild_id) db.hits db'.hits (
              Zip-All (λ h. Every (IsLegacy a ring) h.guild_id) (HitSeals a ring)
                (λ h h'. reopen a ring guild_id h' ≡ h) reopened_hit db.hits db'.hits l.hits
                s.hits),
          Zip-map (reopen a ring flag_reason) db.flags db'.flags (
              Zip-All (λ f. Every (IsLegacy a ring) f.reason) (FlagSeals a ring)
                (λ f f'. reopen a ring flag_reason f' ≡ f) reopened_flag db.flags db'.flags l.flags
                s.flags),
        )
        (ap {A = Db}
          (λ t. record t { fingerprints = db.fingerprints; hits = db.hits; flags = db.flags })
          s.rest)

  module _ (plain : All IsPlain ring.active_key_id) (nonces : Nonces)
      (drawn : (i j : ℕ) → IsNonce (nonces i j)) (db db' : Db) (chars : EverySecret (All IsChar) db)
      (h : upgrade a ring nonces db ≡ ok db') where
    -- After an upgrade of tables of valid texts, with nonces of twelve bytes under a keyring whose active
    -- id has no colon, another upgrade changes nothing, whatever its nonces are.
    pub upgrade_twice : (nonces' : Nonces) → upgrade a ring nonces' db' ≡ ok db'
    upgrade_twice nonces' =
        upgrade_sealed a ring nonces' db' (
          DbSeals-IsSealed a ring db db' (upgrade-DbSeals a ring plain nonces drawn db db' chars h))

    -- If besides no secret decrypts before that upgrade, `downgrade` brings the tables back as they were.
    pub downgrade-upgrade : EverySecret (IsLegacy a ring) db → downgrade a ring db' ≡ ok db
    downgrade-upgrade legacy =
        let s = upgrade-DbSeals a ring plain nonces drawn db db' chars h in
        downgrade_sealed a ring db' (DbSeals-IsSealed a ring db db' s)
        ∙ ap ok (reopened_tables-DbSeals db db' legacy s)
