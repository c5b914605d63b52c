-- ===== src/Migration/Values.antt =====
-- One value that the migration of alembic/versions/0002_privacy_hardening.py rewrites.
use fingerprint_hub.Prelude.{
  ℕ, ◌≡◌, ◌∙◌, refl, sym, ap, Str, codes, true, false, Option, some, List, length, All, ok, raise,
  Exc, Bool-cases, Result-cases, inl, inr,
}
use fingerprint_hub.Encryption.Base64.{IsByte}
use fingerprint_hub.Encryption.Utf8.RoundTrip.{IsChar}
use fingerprint_hub.Encryption.Envelope.{
  Aead, Keyring, nonce_bytes, starts_with, encrypt_text, decrypt_text,
}
use fingerprint_hub.Encryption.Envelope.RoundTrip.{IsPlain, decrypt_text-encrypt_text}
use fingerprint_hub.Migration.{is_decryption_error, encrypt_value, decrypt_value}

-- Twelve bytes.
abbrev pub IsNonce : List ℕ → Type 0
IsNonce nonce = (length nonce ≡ nonce_bytes) × All IsByte nonce

module _ (a : Aead) (ring : Keyring) where
  -- The text that a value stands for: what it decrypts to, or else itself.
  unfoldable pub plaintext : Str → Str
  plaintext value = elim (decrypt_text a ring value) [ ok text ↦ text | raise _ ↦ value ]

  pub opened : (value text : Str) → decrypt_text a ring value ≡ ok text → plaintext value ≡ text
  opened value text h = unfold plaintext in rw (h, plaintext) refl

  pub plaintext_legacy :
      (value : Str) (x : Exc) → decrypt_text a ring value ≡ raise x → plaintext value ≡ value
  plaintext_legacy value x h = unfold plaintext in rw (h, plaintext) refl

  no_prefix :
      (value : Str)
      → starts_with (codes "enc:v1:") value ≡ false
      → decrypt_text a ring value ≡ raise Exc.field_decryption_error
  no_prefix value e = unfold decrypt_text in rw (e, decrypt_text) refl

  has_prefix :
      (value text : Str)
      → decrypt_text a ring value ≡ ok text
      → starts_with (codes "enc:v1:") value ≡ true
  has_prefix value text h = elim (Bool-cases (starts_with (codes "enc:v1:") value)) [
    | inl e ↦ e
    | inr e ↦ let n = no_prefix value e in absurd cc
  ]

  pub encrypt_value_sealed :
      (nonce : List ℕ) (value text : Str)
      → decrypt_text a ring value ≡ ok text
      → encrypt_value a ring nonce value ≡ ok (some value)
  encrypt_value_sealed nonce value text h =
      unfold encrypt_value in rw (has_prefix value text h, h, encrypt_value) refl

  pub decrypt_value_sealed :
      (value text : Str)
      → decrypt_text a ring value ≡ ok text
      → decrypt_value a ring value ≡ ok (some text)
  decrypt_value_sealed value text h =
      unfold decrypt_value in rw (has_prefix value text h, h, decrypt_value) refl

  encrypt_value_legacy :
      (nonce : List ℕ) (value : Str) (x : Exc)
      → decrypt_text a ring value ≡ raise x
      → is_decryption_error x ≡ true
      → encrypt_value a ring nonce value ≡ encrypt_text a ring nonce (some value)
  encrypt_value_legacy nonce value x h d = elim (Bool-cases (starts_with (codes "enc:v1:") value)) [
    | inl e ↦ unfold encrypt_value in rw (e, h, d, encrypt_value) refl
    | inr e ↦ unfold encrypt_value in rw (e, encrypt_value) refl
  ]

  encrypt_value_raises :
      (nonce : List ℕ) (value : Str) (x : Exc)
      → decrypt_text a ring value ≡ raise x
      → is_decryption_error x ≡ false
      → encrypt_value a ring nonce value ≡ raise x
  encrypt_value_raises nonce value x h d = elim (Bool-cases (starts_with (codes "enc:v1:") value)) [
    | inl e ↦ unfold encrypt_value in rw (e, h, d, encrypt_value) refl
    | inr e ↦ absurd (unfold is_decryption_error in let n = no_prefix value e in cc)
  ]

  module _ (plain : All IsPlain ring.active_key_id) where
    -- A rewritten value is an envelope of what the value stood for.
    pub encrypt_value-plaintext :
        (nonce : List ℕ) (value : Str) (out : Option Str)
        → IsNonce nonce
        → All IsChar value
        → encrypt_value a ring nonce value ≡ ok out
        → (e : Str) × (out ≡ some e) × (decrypt_text a ring e ≡ ok (plaintext value))
    encrypt_value-plaintext nonce value out n chars h =
        elim (Result-cases (decrypt_text a ring value)) [
          | inr (text, d) ↦
              let k = sym h ∙ encrypt_value_sealed nonce value text d in
              (value, cc, d ∙ ap ok (sym (opened value text d)))
          | inl (x, d) ↦ elim (Bool-cases (is_decryption_error x)) [
            | inl i ↦
                let (e, same, o) =
                  decrypt_text-encrypt_text a ring nonce plain n.0 n.1 value out chars
                    (sym (encrypt_value_legacy nonce value x d i) ∙ h) in
                (e, same, o ∙ ap ok (sym (plaintext_legacy value x d)))
            | inr i ↦ absurd (let r = encrypt_value_raises nonce value x d i in cc)
          ]
        ]
