-- ===== src/Encryption/Environment.antt =====
-- The keyring of the environment, which utils/field_encryption.py loads once and keeps, and its
-- functions as their callers reach them, without a keyring of their own.
pub mod Cache
pub mod Rotation
pub mod Rekey
use fingerprint_hub.Prelude.{
  ℕ, Str, Env, codes, Bool, ◌&&◌, ◌==◌, Option, none, some, List, [], ◌∷◌, length, if◌then◌else◌,
  Result, ok, raise, Exc, ◌>>=◌,
}
use fingerprint_hub.Encryption.Envelope.{
  Aead, Keyring, starts_with, split, encrypt_text, decrypt_text,
}
use fingerprint_hub.Encryption.Keyring.{parse_keyring}

abbrev pub keys_env : Str
keys_env = codes "FINGERPRINTHUB_FIELD_ENCRYPTION_KEYS"

abbrev pub active_key_env : Str
active_key_env = codes "FINGERPRINTHUB_FIELD_ENCRYPTION_ACTIVE_KEY_ID"

-- The keyring that `lru_cache(maxsize=1)` has kept of `load_keyring_from_env`.
abbrev pub Cached : Type 0
Cached = Option Keyring

-- A call that raises leaves the cache empty.
unfoldable pub load_keyring_from_env : Env → Cached → Result Keyring × Cached
load_keyring_from_env env (some ring) = (ok ring, some ring)
load_keyring_from_env env none = elim (parse_keyring (env keys_env) (env active_key_env)) [
  | ok ring ↦ (ok ring, some ring)
  | raise e ↦ (raise e, none)
]

unfoldable pub clear_keyring_cache : Cached → Cached
clear_keyring_cache cached = none

-- `key_id or ring.active_key_id`, as the key that the ring encrypts under
unfoldable pub under_key : Option Str → Keyring → Keyring
under_key none ring = ring
under_key (some []) ring = ring
under_key (some (c ∷ key_id)) ring = record ring { active_key_id = c ∷ key_id }

-- `encrypt_text(plaintext, key_id=key_id)`. None is not encrypted, and loads no keyring.
unfoldable pub encrypt_now :
    Aead → Env → Option Str → List ℕ → Option Str → Cached → Result (Option Str) × Cached
unfolding load_keyring_from_env under_key
encrypt_now a env key_id nonce none cached = (ok none, cached)
encrypt_now a env key_id nonce (some text) cached =
    let (ring, cached') = load_keyring_from_env env cached in
    (ring >>= (λ r. encrypt_text a (under_key key_id r) nonce (some text)), cached')

-- The prefix and the five parts, which are looked at before a keyring is loaded.
unfoldable pub is_well_formed : Str → Bool
unfolding starts_with split
is_well_formed value = starts_with (codes "enc:v1:") value && length (split 4 value) == 5

-- `decrypt_text(envelope)`
unfoldable pub decrypt_now : Aead → Env → Str → Cached → Result Str × Cached
unfolding load_keyring_from_env is_well_formed
decrypt_now a env value cached =
    let (ring, cached') = load_keyring_from_env env cached in
    if is_well_formed value
    then (ring >>= (λ r. decrypt_text a r value), cached')
    else (raise Exc.field_decryption_error, cached)

-- `rekey_envelope`
unfoldable pub rekey_envelope :
    Aead → Env → Option Str → List ℕ → Str → Cached → Result (Option Str) × Cached
unfolding decrypt_now encrypt_now
rekey_envelope a env target_key_id nonce value cached =
    let (plaintext, cached') = decrypt_now a env value cached in
    elim plaintext [
      | raise e ↦ (raise e, cached')
      | ok text ↦ encrypt_now a env target_key_id nonce (some text) cached'
    ]
