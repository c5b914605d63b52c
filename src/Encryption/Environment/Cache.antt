-- ===== src/Encryption/Environment/Cache.antt =====
-- What `load_keyring_from_env` keeps, over any calls of the module in one environment.
use fingerprint_hub.Prelude.{
  ℕ, ◌≡◌, refl, Str, Env, Option, none, some, List, [], ◌∷◌, Result, ok, Result-cases, Bool-cases,
  inl, inr,
}
use fingerprint_hub.Encryption.Envelope.{Aead, Keyring}
use fingerprint_hub.Encryption.Keyring.{parse_keyring}
use fingerprint_hub.Encryption.Environment.{
  keys_env, active_key_env, Cached, load_keyring_from_env, clear_keyring_cache, encrypt_now,
  is_well_formed, decrypt_now, rekey_envelope,
}

-- The calls of the module's functions that use the keyring of the environment.
pub data Call : Type 0 where
  -- the key id, the nonce and the text
  encrypts : Option Str → List ℕ → Option Str → Call
  decrypts : Str → Call
  -- the key id, the nonce and the envelope
  rekeys : Option Str → List ℕ → Str → Call
  clears : Call

-- The keyring that the environment asks for.
abbrev pub parsed : Env → Result Keyring
parsed env = parse_keyring (env keys_env) (env active_key_env)

module _ (a : Aead) (env : Env) where
  -- The cache after one call, and after a sequence of calls.
  unfoldable pub cache_after : Call → Cached → Cached
  unfolding encrypt_now decrypt_now rekey_envelope clear_keyring_cache
  cache_after (encrypts key_id nonce text) cached = (encrypt_now a env key_id nonce text cached).1
  cache_after (decrypts value) cached = (decrypt_now a env value cached).1
  cache_after (rekeys key_id nonce value) cached =
      (rekey_envelope a env key_id nonce value cached).1
  cache_after clears cached = clear_keyring_cache cached

  unfoldable pub caches : List Call → Cached → Cached
  unfolding cache_after
  caches [] cached = cached
  caches (call ∷ calls) cached = caches calls (cache_after call cached)

  -- The cache holds nothing, or what the environment has.
  abbrev pub IsCurrent : Cached → Type 0
  IsCurrent none = Unit
  IsCurrent (some ring) = parsed env ≡ ok ring

  pub load_keyring-IsCurrent :
      (cached : Cached)
      → IsCurrent cached
      → ((load_keyring_from_env env cached).0 ≡ parsed env)
        × IsCurrent (load_keyring_from_env env cached).1
  unfolding load_keyring_from_env
  load_keyring-IsCurrent (some ring) h = (cc, h)
  load_keyring-IsCurrent none h = elim (Result-cases (parsed env)) [
    | inl (x, e) ↦ rw (e, load_keyring_from_env) (refl, tt)
    | inr (ring, e) ↦ rw (e, load_keyring_from_env) (refl, e)
  ]

  encrypt_now-IsCurrent :
      (key_id : Option Str) (nonce : List ℕ) (text : Option Str) (cached : Cached)
      → IsCurrent cached
      → IsCurrent (encrypt_now a env key_id nonce text cached).1
  unfolding encrypt_now
  encrypt_now-IsCurrent key_id nonce none cached h = h
  encrypt_now-IsCurrent key_id nonce (some text) cached h = (load_keyring-IsCurrent cached h).1

  decrypt_now-IsCurrent :
      (value : Str) (cached : Cached)
      → IsCurrent cached
      → IsCurrent (decrypt_now a env value cached).1
  unfolding decrypt_now
  decrypt_now-IsCurrent value cached h = elim (Bool-cases (is_well_formed value)) [
    | inl w ↦ rw (w, decrypt_now) (load_keyring-IsCurrent cached h).1
    | inr w ↦ rw (w, decrypt_now) h
  ]

  cache_after-IsCurrent :
      (call : Call) (cached : Cached) → IsCurrent cached → IsCurrent (cache_after call cached)
  unfolding cache_after clear_keyring_cache
  cache_after-IsCurrent (encrypts key_id nonce text) cached h =
      encrypt_now-IsCurrent key_id nonce text cached h
  cache_after-IsCurrent (decrypts value) cached h = decrypt_now-IsCurrent value cached h
  cache_after-IsCurrent (rekeys key_id nonce value) cached h =
      let k = decrypt_now-IsCurrent value cached h in
      let later = (decrypt_now a env value cached).1 in
      elim (Result-cases (decrypt_now a env value cached).0) [
        | inl (x, d) ↦ unfold rekey_envelope in rw (d, rekey_envelope) k
        | inr (text, d) ↦
            unfold rekey_envelope in
            rw (d, rekey_envelope) (encrypt_now-IsCurrent key_id nonce (some text) later k)
      ]
  cache_after-IsCurrent clears cached h = tt

  pub caches-IsCurrent :
      (calls : List Call) (cached : Cached) → IsCurrent cached → IsCurrent (caches calls cached)
  unfolding caches
  caches-IsCurrent [] cached h = h
  caches-IsCurrent (call ∷ calls) cached h =
      caches-IsCurrent calls (cache_after call cached) (cache_after-IsCurrent call cached h)
