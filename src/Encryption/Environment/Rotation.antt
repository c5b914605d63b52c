-- ===== src/Encryption/Environment/Rotation.antt =====
-- A change of the keys in the environment while the service keeps a keyring: `clear_keyring_cache` of
-- utils/field_encryption.py lets the new keys in.
use fingerprint_hub.Prelude.{
  ℕ, ◌≡◌, ◌∙◌, refl, sym, ap, Str, Env, none, some, Option, List, All, length, ok,
}
use fingerprint_hub.Api.Messages.{lookup}
use fingerprint_hub.Encryption.Base64.{IsByte}
use fingerprint_hub.Encryption.Utf8.RoundTrip.{IsChar}
use fingerprint_hub.Encryption.Envelope.{Aead, Keyring, nonce_bytes, encrypt_text, decrypt_text}
use fingerprint_hub.Encryption.Envelope.RoundTrip.{IsPlain, encrypt_text-Written}
use fingerprint_hub.Encryption.Keyring.Parsing.{parse_keyring-IsKeyring, plain_id}
use fingerprint_hub.Encryption.Environment.{
  keys_env, active_key_env, Cached, load_keyring_from_env, clear_keyring_cache, under_key,
  encrypt_now, decrypt_now,
}
use fingerprint_hub.Encryption.Environment.Cache.{Call, parsed, caches, IsCurrent, caches-IsCurrent}
use fingerprint_hub.Encryption.Environment.Rekey.{lookup-has_id, opens_elsewhere, opened_form}

-- The cache after the calls in the old environment.
abbrev pub cache_before : Aead → Env → List Call → Cached
cache_before a env before = caches a env before none

-- The cache after a call of `encrypt_text` there, `clear_keyring_cache`, and the calls in the new one.
abbrev pub cache_later : Aead → Env → Env → List Call → List Call → List ℕ → Str → Cached
cache_later a env env' before after nonce text =
    caches a env' after
      (clear_keyring_cache (encrypt_now a env none nonce (some text) (cache_before a env before)).1)

module _ (a : Aead) where
  loaded :
      (env : Env) (ring : Keyring) (cached : Cached)
      → IsCurrent a env cached
      → parsed env ≡ ok ring
      → load_keyring_from_env env cached ≡ (ok ring, some ring)
  unfolding load_keyring_from_env
  loaded env ring none h k = rw (k, load_keyring_from_env) refl
  loaded env ring (some other) h k = let same : other ≡ ring = cc in rw same refl

  encrypts_under :
      (env : Env) (ring : Keyring) (nonce : List ℕ) (text : Str) (cached : Cached)
      → load_keyring_from_env env cached ≡ (ok ring, some ring)
      → encrypt_now a env none nonce (some text) cached
        ≡ (encrypt_text a ring nonce (some text), some ring)
  unfolding encrypt_now under_key
  encrypts_under env ring nonce text cached h = rw h refl

  decrypts_under :
      (env : Env) (ring : Keyring) (value text : Str) (cached : Cached)
      → load_keyring_from_env env cached ≡ (ok ring, some ring)
      → decrypt_text a ring value ≡ ok text
      → decrypt_now a env value cached ≡ (ok text, some ring)
  unfolding decrypt_now
  decrypts_under env ring value text cached h d = rw (h, opened_form a ring value text d, d) refl

  module _ (env env' : Env) (ring ring' : Keyring) (old : parsed env ≡ ok ring)
      (new : parsed env' ≡ ok ring')
      (kept : lookup ring.active_key_id ring'.keys ≡ lookup ring.active_key_id ring.keys)
      (before after : List Call) where
    later-loaded :
        (nonce : List ℕ) (text : Str)
        → load_keyring_from_env env' (cache_later a env env' before after nonce text)
          ≡ (ok ring', some ring')
    later-loaded nonce text =
        loaded env' ring' (cache_later a env env' before after nonce text)
          (caches-IsCurrent a env' after
            (clear_keyring_cache
              (encrypt_now a env none nonce (some text) (cache_before a env before)).1)
            (unfold clear_keyring_cache in tt))
          new

    -- Where an environment with new keys takes the place of another, with `clear_keyring_cache` after the
    -- change, and keeps the key that was active before: after any calls in the old environment, any text
    -- that `encrypt_text` encrypts there with a nonce of twelve bytes is one that `decrypt_text` reads back
    -- in the new one, after any calls there; and what is encrypted there is encrypted under the new
    -- keyring.
    pub rotation-opens :
        (nonce nonce' : List ℕ) (text text' : Str) (out : Option Str)
        → length nonce ≡ nonce_bytes
        → All IsByte nonce
        → All IsChar text
        → (encrypt_now a env none nonce (some text) (cache_before a env before)).0 ≡ ok out
        → (e : Str) × (out ≡ some e)
          × (decrypt_now a env' e (cache_later a env env' before after nonce text)
              ≡ (ok text, some ring'))
          × (encrypt_now a env' none nonce'
                (some text')
                (cache_later a env env' before after nonce text)
              ≡ (encrypt_text a ring' nonce' (some text'), some ring'))
    rotation-opens nonce nonce' text text' out n b chars h =
        let first =
          loaded env ring (cache_before a env before) (caches-IsCurrent a env before none tt) old in
        let w : encrypt_text a ring nonce (some text) ≡ ok out =
          sym (ap (λ o. o.0) (encrypts_under env ring nonce text (cache_before a env before) first))
          ∙ h in
        let key = encrypt_text-Written a ring nonce text out w in
        let valid = parse_keyring-IsKeyring (env keys_env) (env active_key_env) ring old in
        let plain : All IsPlain ring.active_key_id =
          plain_id ring.active_key_id ring.keys valid.keys.each
            (lookup-has_id ring.active_key_id ring.keys key.key key.configured) in
        let (e, q, d) = opens_elsewhere a ring ring' nonce text out plain n b chars w kept in
        (
          e,
          q,
          decrypts_under env' ring' e text (cache_later a env env' before after nonce text)
              (later-loaded nonce text) d,
          encrypts_under env' ring' nonce' text' (cache_later a env env' before after nonce text)
              (later-loaded nonce text),
        )
