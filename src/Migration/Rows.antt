-- ===== src/Migration/Rows.antt =====
-- A row that the migration of alembic/versions/0002_privacy_hardening.py rewrites, column by column.
use fingerprint_hub.Prelude.{
  ℕ, ◌≡◌, ◌∙◌, refl, sym, ap, subst, Str, Option, none, some, List, Zip, All, ok, raise, Exc, ◌>>=◌,
  Result-bind, Option-cases, inl, inr,
}
use fingerprint_hub.Schema.{Fingerprint, Hit, Flag, Db}
use fingerprint_hub.Encryption.Utf8.RoundTrip.{IsChar}
use fingerprint_hub.Encryption.Envelope.{Aead, Keyring, decrypt_text}
use fingerprint_hub.Encryption.Envelope.RoundTrip.{IsPlain}
use fingerprint_hub.Store.Secrets.{Every}
use fingerprint_hub.Migration.{Column, encrypt_value, decrypt_value, rewrite_row}
use fingerprint_hub.Migration.Values.{
  IsNonce, plaintext, opened, encrypt_value_sealed, decrypt_value_sealed, encrypt_value-plaintext,
}
use fingerprint_hub.Migration.Columns.{rewrite_row_null, rewrite_row_value}

module _ (a : Aead) (ring : Keyring) where
  -- The value decrypts.
  abbrev pub IsSealed : Str → Type 0
  IsSealed v = (text : Str) × (decrypt_text a ring v ≡ ok text)

  -- The value does not decrypt.
  abbrev pub IsLegacy : Str → Type 0
  IsLegacy v = (x : Exc) × (decrypt_text a ring v ≡ raise x)

  -- The second value is an envelope of what the first one stands for.
  abbrev pub Seals : Option Str → Option Str → Type 0
  Seals none none = Unit
  Seals none (some _) = ⊥
  Seals (some _) none = ⊥
  Seals (some v) (some e) = decrypt_text a ring e ≡ ok (plaintext a ring v)

  pub record RowSeals (r r' : Fingerprint) : Type 0 where
    pub guild : Seals r.source_guild_id r'.source_guild_id
    pub reason : Seals r.reason r'.reason
    pub url : Seals r.source_url r'.source_url
    pub rest : r' ≡ record r {
      source_guild_id = r'.source_guild_id;
      reason = r'.reason;
      source_url = r'.source_url;
    }

  pub record HitSeals (h h' : Hit) : Type 0 where
    pub guild : Seals h.guild_id h'.guild_id
    pub rest : h' ≡ record h { guild_id = h'.guild_id }

  pub record FlagSeals (f f' : Flag) : Type 0 where
    pub reason : Seals f.reason f'.reason
    pub rest : f' ≡ record f { reason = f'.reason }

  -- Row by row, the second database is the first one with its secrets encrypted.
  pub record DbSeals (db db' : Db) : Type 0 where
    pub rows : Zip RowSeals db.fingerprints db'.fingerprints
    pub hits : Zip HitSeals db.hits db'.hits
    pub flags : Zip FlagSeals db.flags db'.flags
    pub rest :
        db' ≡ record db { fingerprints = db'.fingerprints; hits = db'.hits; flags = db'.flags }

  -- What `downgrade` makes of a value that decrypts.
  unfoldable pub reopened : Option Str → Option Str
  unfolding plaintext
  reopened none = none
  reopened (some e) = some (plaintext a ring e)

  module _ {A : Type 0} (c : Column A) (set-value : (r : A) → c.set (c.value r) r ≡ r) where
    -- A row of a sealed column is left as it is.
    pub kept_row :
        (nonce : List ℕ) (r : A)
        → Every IsSealed (c.value r)
        → rewrite_row (encrypt_value a ring nonce) c r ≡ ok r
    kept_row nonce r h = elim (Option-cases (c.value r)) [
      | inl e ↦ rewrite_row_null c (encrypt_value a ring nonce) r e
      | inr (v, e) ↦
          let s : IsSealed v = subst (Every IsSealed) e h in
          rewrite_row_value c (encrypt_value a ring nonce) r v e
          ∙ ap (λ o. o >>= (λ w. ok (c.set w r))) (encrypt_value_sealed a ring nonce v s.0 s.1)
          ∙ ap ok (subst (λ w. c.set w r ≡ r) e (set-value r))
    ]

    reopened_value :
        (r : A) (v text : Str)
        → c.value r ≡ some v
        → decrypt_text a ring v ≡ ok text
        → some text ≡ reopened (c.value r)
    reopened_value r v text e d =
        unfold reopened in rw (e, reopened) (ap some (sym (opened a ring v text d)))

    pub opened_row :
        (r : A)
        → Every IsSealed (c.value r)
        → rewrite_row (decrypt_value a ring) c r ≡ ok (c.set (reopened (c.value r)) r)
    opened_row r h = elim (Option-cases (c.value r)) [
      | inl e ↦
          rewrite_row_null c (decrypt_value a ring) r e
          ∙ ap ok (sym (subst (λ w. c.set w r ≡ r) e (set-value r)))
          ∙ ap (λ w. ok (c.set w r)) (unfold reopened in rw (e, reopened) refl)
      | inr (v, e) ↦
          let s : IsSealed v = subst (Every IsSealed) e h in
          rewrite_row_value c (decrypt_value a ring) r v e
          ∙ ap (λ o. o >>= (λ w. ok (c.set w r))) (decrypt_value_sealed a ring v s.0 s.1)
          ∙ ap (λ w. ok (c.set w r)) (reopened_value r v s.0 e s.1)
    ]

    module _ (plain : All IsPlain ring.active_key_id) where
      pub sealed_row :
          (nonce : List ℕ) (r r' : A)
          → IsNonce nonce
          → Every (All IsChar) (c.value r)
          → rewrite_row (encrypt_value a ring nonce) c r ≡ ok r'
          → (o : Option Str) × (r' ≡ c.set o r) × Seals (c.value r) o
      sealed_row nonce r r' n chars h = elim (Option-cases (c.value r)) [
        | inl e ↦
            let k = sym (rewrite_row_null c (encrypt_value a ring nonce) r e) ∙ h in
            let same : r ≡ r' = cc in
            (none, sym same ∙ sym (subst (λ w. c.set w r ≡ r) e (set-value r)), rw (e, Seals) tt)
        | inr (v, e) ↦
            let (o, q, k) =
              Result-bind (encrypt_value a ring nonce v) (λ w. ok (c.set w r)) r'
                (sym (rewrite_row_value c (encrypt_value a ring nonce) r v e) ∙ h) in
            let (sealed, w, d) =
              encrypt_value-plaintext a ring plain nonce v o n (subst (Every (All IsChar)) e chars)
                q in
            (some sealed, cc, rw (e, Seals) d)
      ]
