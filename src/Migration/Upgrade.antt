-- ===== src/Migration/Upgrade.antt =====
-- The whole migration of alembic/versions/0002_privacy_hardening.py: what its upgrade leaves in the
-- tables.
use fingerprint_hub.Prelude.{ℕ, ◌≡◌, ◌∙◌, refl, ap, subst, Zip-All, All, ok}
use fingerprint_hub.Schema.{Fingerprint, Hit, Flag, Db}
use fingerprint_hub.Encryption.Utf8.RoundTrip.{IsChar}
use fingerprint_hub.Encryption.Envelope.{Aead, Keyring}
use fingerprint_hub.Encryption.Envelope.RoundTrip.{IsPlain}
use fingerprint_hub.Migration.{
  source_guild_id, reason, source_url, guild_id, flag_reason, Nonces, encrypt_value, upgrade,
}
use fingerprint_hub.Migration.Values.{IsNonce}
use fingerprint_hub.Store.Secrets.{Every, EverySecret}
use fingerprint_hub.Migration.Rows.{Seals, RowSeals, HitSeals, FlagSeals, DbSeals, sealed_row}
use fingerprint_hub.Migration.Steps.{Rewrite, Step, RowSteps, rewrite_tables-Rewritten}

module _ (a : Aead) (ring : Keyring) where
  abbrev encrypting : Nonces → ℕ → Rewrite
  encrypting nonces i j = encrypt_value a ring (nonces i j)

  module _ (plain : All IsPlain ring.active_key_id) (nonces : Nonces)
      (drawn : (i j : ℕ) → IsNonce (nonces i j)) where
    row_seals :
        (r r₃ : Fingerprint)
        → Every (All IsChar) r.source_guild_id
          × Every (All IsChar) r.reason
          × Every (All IsChar) r.source_url
        → RowSteps (encrypting nonces) r r₃
        → RowSeals a ring r r₃
    row_seals r r₃ (c₁, c₂, c₃) (r₁, r₂, (i, e₁), (j, e₂), (k, e₃)) =
        let (o₁, q₁, s₁) =
          sealed_row a ring source_guild_id (λ s. refl) plain (nonces 0 i) r r₁ (drawn 0 i) c₁ e₁ in
        let (o₂, q₂, s₂) =
          sealed_row a ring reason (λ s. refl) plain (nonces 1 j) r₁ r₂ (drawn 1 j) (rw q₁ c₂) e₂ in
        let (o₃, q₃, s₃) =
          sealed_row a ring source_url (λ s. refl) plain (nonces 2 k) r₂ r₃ (drawn 2 k)
            (rw (q₂, q₁) c₃) e₃ in
        let t₂ = subst (λ s. Seals a ring (reason.value s) o₂) q₁ s₂ in
        let t₃ =
          subst (λ s. Seals a ring (source_url.value s) o₃) (q₂ ∙ ap (reason.set o₂) q₁) s₃ in
        rw (q₃ ∙ ap (source_url.set o₃) (q₂ ∙ ap (reason.set o₂) q₁))
          (record { guild = s₁; reason = t₂; url = t₃; rest = refl })

    hit_seals :
        (h h' : Hit)
        → Every (All IsChar) h.guild_id
        → Step (encrypting nonces 3) guild_id h h'
        → HitSeals a ring h h'
    hit_seals h h' c (i, e) =
        let (o, q, s) =
          sealed_row a ring guild_id (λ s. refl) plain (nonces 3 i) h h' (drawn 3 i) c e in
        rw q (record { guild = s; rest = refl })

    flag_seals :
        (f f' : Flag)
        → Every (All IsChar) f.reason
        → Step (encrypting nonces 4) flag_reason f f'
        → FlagSeals a ring f f'
    flag_seals f f' c (i, e) =
        let (o, q, s) =
          sealed_row a ring flag_reason (λ s. refl) plain (nonces 4 i) f f' (drawn 4 i) c e in
        rw q (record { reason = s; rest = refl })

    -- An upgrade of tables of valid texts, with nonces of twelve bytes under a keyring whose active id has
    -- no colon, leaves in the place of every secret an envelope of what the secret stood for, and all
    -- else as it was.
    pub upgrade-DbSeals :
        (db db' : Db)
        → EverySecret (All IsChar) db
        → upgrade a ring nonces db ≡ ok db'
        → DbSeals a ring db db'
    upgrade-DbSeals db db' chars h =
        let r = rewrite_tables-Rewritten (encrypting nonces) db db' (unfold upgrade in h) in
        record {
          rows =
              Zip-All
                (λ s.
                  Every (All IsChar) s.source_guild_id
                  × Every (All IsChar) s.reason
                  × Every (All IsChar) s.source_url)
                (RowSteps (encrypting nonces)) (RowSeals a ring) row_seals db.fingerprints
                db'.fingerprints chars.rows r.rows;
          hits =
              Zip-All (λ s. Every (All IsChar) s.guild_id) (Step (encrypting nonces 3) guild_id)
                (HitSeals a ring) hit_seals db.hits db'.hits chars.hits r.hits;
          flags =
              Zip-All (λ s. Every (All IsChar) s.reason) (Step (encrypting nonces 4) flag_reason)
                (FlagSeals a ring) flag_seals db.flags db'.flags chars.flags r.flags;
          rest = r.rest;
        }
