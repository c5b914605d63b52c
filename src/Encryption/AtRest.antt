-- ===== src/Encryption/AtRest.antt =====
-- What the store writes with the encryption of utils/field_encryption.py.
use fingerprint_hub.Prelude.{ℕ, ◌≡◌, refl, Str, codes, true, Option, none, some, List, ok}
use fingerprint_hub.Schema.{Db}
use fingerprint_hub.Api.Messages.{lookup}
use fingerprint_hub.Encryption.Envelope.{
  Aead, Keyring, envelope, encrypt_text, starts_with, field_cipher,
}
use fingerprint_hub.Encryption.Envelope.RoundTrip.{encrypt_text-Written}
use fingerprint_hub.Store.History.{Reach}
use fingerprint_hub.Store.Secrets.{Every, EverySecret}
use fingerprint_hub.Store.Secrecy.{Reach-EverySecret}

-- An envelope of what was sealed under the active key, which `is_encrypted_value` recognises.
pub record IsEnvelope (a : Aead) (ring : Keyring) (value : Str) : Type 0 where
  pub key : List ℕ
  pub nonce : List ℕ
  pub message : List ℕ
  pub configured : lookup ring.active_key_id ring.keys ≡ some key
  pub sealed : value ≡ envelope ring.active_key_id nonce (a.seal key nonce message)
  pub recognised : starts_with (codes "enc:v1:") value ≡ true

module _ (a : Aead) (ring : Keyring) where
  encrypt_text-IsEnvelope :
      (nonce : List ℕ) (text out : Option Str)
      → encrypt_text a ring nonce text ≡ ok out
      → Every (IsEnvelope a ring) out
  encrypt_text-IsEnvelope nonce none out h =
      let same : none ≡ out = unfold encrypt_text in cc in rw (← same) tt
  encrypt_text-IsEnvelope nonce (some text) out h =
      let w = encrypt_text-Written a ring nonce text out h in
      rw w.value (record {
        key = w.key;
        nonce = nonce;
        message = w.message;
        configured = w.configured;
        sealed = refl;
        recognised = unfold envelope starts_with in refl;
      })

  -- Any operations of the store, in any order and with any arguments, that start from tables whose
  -- secrets are all envelopes, sealed under the active key, lead to such tables: no secret is ever
  -- stored as a plain text.
  pub Reach-IsEnvelope :
      (db db' : Db)
      → Reach (field_cipher a ring) db db'
      → EverySecret (IsEnvelope a ring) db
      → EverySecret (IsEnvelope a ring) db'
  Reach-IsEnvelope db db' r s =
      Reach-EverySecret (IsEnvelope a ring) (field_cipher a ring)
        (λ nonce text out h. encrypt_text-IsEnvelope nonce text out (unfold field_cipher in h)) r s
