-- ===== src/Encryption/Envelope.antt =====
-- `encrypt_text`, `decrypt_text` and `decrypt_text_field`. AES-GCM comes from the cryptography
-- package: it seals bytes into bytes, and opens what it has sealed.
pub mod RoundTrip
use fingerprint_hub.Prelude.{
  ℕ, zero, suc, ◌≡◌, refl, Str, codes, str_eq, Bool, true, false, not, ◌&&◌, ◌==◌, Option, none,
  some, Result, ok, raise, Exc, ◌>>=◌, List, [], ◌∷◌, ◌++◌, length, if◌then◌else◌, All,
}
use fingerprint_hub.Encryption.Base64.{IsByte, b64encode, b64decode}
use fingerprint_hub.Encryption.Utf8 as utf8
use fingerprint_hub.Api.Messages.{lookup}
use fingerprint_hub.Cipher.{Cipher}

pub record Aead : Type 0 where
  -- key, nonce, plaintext
  pub seal : List ℕ → List ℕ → List ℕ → List ℕ
  -- key, nonce, ciphertext; none is InvalidTag
  pub unseal : List ℕ → List ℕ → List ℕ → Option (List ℕ)
  pub seal-IsByte : (key nonce plain : List ℕ) → All IsByte (seal key nonce plain)
  pub unseal-seal :
      (key nonce plain : List ℕ)
      → All IsByte plain
      → unseal key nonce (seal key nonce plain) ≡ some plain

pub record Keyring : Type 0 where
  pub keys : List (Str × List ℕ)
  pub active_key_id : Str

abbrev pub nonce_bytes : ℕ
nonce_bytes = 12

-- ":".join(("enc", "v1", key_id, …, …))
unfoldable pub envelope : Str → List ℕ → List ℕ → Str
envelope key_id nonce ciphertext =
    codes "enc:v1:" ++ (key_id ++ 58 ∷ (b64encode nonce ++ 58 ∷ b64encode ciphertext))

unfoldable pub seal_text : Aead → Str → List ℕ → List ℕ → Str → Result Str
unfolding envelope
seal_text a key_id key nonce text = do
  plain ← utf8.encode text
  ok (envelope key_id nonce (a.seal key nonce plain))

-- `encrypt_text` with the keyring of the environment and without `key_id`, as the service calls it
unfoldable pub encrypt_text : Aead → Keyring → List ℕ → Option Str → Result (Option Str)
unfolding seal_text
encrypt_text a ring nonce none = ok none
encrypt_text a ring nonce (some text) = elim (lookup ring.active_key_id ring.keys) [
  | none ↦ raise Exc.field_encryption_config_error
  | some key ↦ seal_text a ring.active_key_id key nonce text >>= (λ e. ok (some e))
]

-- `value.startswith(ENVELOPE_PREFIX)`
unfoldable pub starts_with : Str → Str → Bool
starts_with [] s = true
starts_with (p ∷ ps) [] = false
starts_with (p ∷ ps) (c ∷ s) = p == c && starts_with ps s

-- The text before the first colon, and the one after it.
unfoldable pub cut : Str → Str × Option Str
cut [] = ([], none)
cut (c ∷ s) = let (a, b) = cut s in if c == 58 then ([], some s) else (c ∷ a, b)

-- `text.split(":", n)`
unfoldable pub split : ℕ → Str → List Str
unfolding cut
split zero s = s ∷ []
split (suc n) s = elim (cut s).1 [ none ↦ s ∷ [] | some t ↦ (cut s).0 ∷ split n t ]

-- A `binascii.Error` in the envelope is a FieldDecryptionError.
unfoldable pub decode_part : Str → Result (List ℕ)
unfolding b64decode
decode_part s = elim (b64decode s) [
  | raise _ ↦ raise Exc.field_decryption_error
  | ok bytes ↦ ok bytes
]

unfoldable pub unseal_text : Aead → List ℕ → List ℕ → List ℕ → Result Str
unseal_text a key nonce ciphertext =
    if length nonce == nonce_bytes
    then elim (a.unseal key nonce ciphertext) [
      | none ↦ raise Exc.field_decryption_error
      | some plain ↦ utf8.decode plain
    ]
    else raise Exc.field_decryption_error

unfoldable pub open_parts : Aead → Keyring → List Str → Result Str
unfolding decode_part unseal_text
open_parts a ring (enc ∷ version ∷ key_id ∷ nonce ∷ ciphertext ∷ []) =
    if str_eq enc (codes "enc") && str_eq version (codes "v1")
    then elim (lookup key_id ring.keys) [
      | none ↦ raise Exc.field_decryption_error
      | some key ↦
          decode_part nonce >>= (λ n. decode_part ciphertext >>= (λ c. unseal_text a key n c))
    ]
    else raise Exc.field_decryption_error
open_parts a ring _ = raise Exc.field_decryption_error

-- `decrypt_text`, which is also `decrypt_text_field` of a value that is not NULL
unfoldable pub decrypt_text : Aead → Keyring → Str → Result Str
unfolding starts_with split open_parts
decrypt_text a ring value =
    if starts_with (codes "enc:v1:") value
    then open_parts a ring (split 4 value)
    else raise Exc.field_decryption_error

-- What the store and the handlers use, with the keyring of the environment.
unfoldable pub field_cipher : Aead → Keyring → Cipher
unfolding encrypt_text decrypt_text
field_cipher a ring = record { encrypt = encrypt_text a ring; decrypt = decrypt_text a ring }
