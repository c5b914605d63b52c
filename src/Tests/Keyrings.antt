-- ===== src/Tests/Keyrings.antt =====
-- Keyrings of the environment: calls that share a keyring, and a change of keys.
use fingerprint_hub.Prelude.{
  ℕ, ◌≡◌, refl, Str, Env, codes, str_eq, none, some, List, [], ◌∷◌, ok, if◌then◌else◌, arith,
}
use fingerprint_hub.Encryption.Base64.{b64encode, sextet}
use fingerprint_hub.Encryption.Envelope.{Keyring, envelope, encrypt_text, decrypt_text, seal_text}
use fingerprint_hub.Encryption.Utf8.{encode, encode_char, decode, read_byte}
use fingerprint_hub.Encryption.Keyring.{parse_keyring}
use fingerprint_hub.Encryption.Keyring.Parsing.{IsKeyring, parse_keyring-IsKeyring}
use fingerprint_hub.Encryption.Environment.{
  keys_env, active_key_env, load_keyring_from_env, encrypt_now, decrypt_now, rekey_envelope,
}
use fingerprint_hub.Encryption.Environment.Cache.{Call, decrypts, rekeys, clears, caches, parsed}
use fingerprint_hub.Encryption.Environment.Rotation.{cache_later, rotation-opens}
use fingerprint_hub.Encryption.Environment.Rekey.{rekey_envelope-opens}
use fingerprint_hub.Api.Messages.{lookup}
use fingerprint_hub.Tests.Secrets.{open_box, nonce, nonce_bytes-All}

-- 31 zeros and the given byte
abbrev key : ℕ → List ℕ
key last =
    0 ∷ 0 ∷ 0 ∷ 0 ∷ 0 ∷ 0 ∷ 0 ∷ 0 ∷ 0 ∷ 0 ∷ 0 ∷ 0 ∷ 0 ∷ 0 ∷ 0 ∷ 0 ∷ 0 ∷ 0 ∷ 0 ∷ 0 ∷ 0 ∷ 0 ∷ 0 ∷ 0
    ∷ 0 ∷ 0 ∷ 0 ∷ 0 ∷ 0 ∷ 0 ∷ 0 ∷ last ∷ []

abbrev two_keys : Keyring
two_keys = record {
  keys = (codes "k1", key 0) ∷ (codes "k2", key 1) ∷ [];
  active_key_id = codes "k1";
}

abbrev raw_keys : Str
raw_keys =
    codes
      "k1:AAAAAAAAAAAAAAAAAAAAAAAAAAAAAAAAAAAAAAAAAAA=,k2:AAAAAAAAAAAAAAAAAAAAAAAAAAAAAAAAAAAAAAAAAAE="

abbrev env : Env
env name =
    if str_eq name keys_env
    then some raw_keys
    else if str_eq name active_key_env
    then some (codes "k1")
    else none

two_keys-IsKeyring : IsKeyring two_keys
unfolding parse_keyring sextet
two_keys-IsKeyring = parse_keyring-IsKeyring (some raw_keys) (some (codes "k1")) two_keys refl

abbrev new_key : Keyring
new_key = record { keys = (codes "k2", key 1) ∷ []; active_key_id = codes "k2" }

rekey_envelope-opens_example :
    (e : Str) × (some (envelope (codes "k2") nonce (codes "hi")) ≡ some e)
    × (decrypt_text open_box new_key e ≡ ok (codes "hi"))
unfolding rekey_envelope decrypt_text encrypt_text seal_text encode encode_char lookup str_eq
    b64encode sextet decode read_byte
rekey_envelope-opens_example =
    rekey_envelope-opens open_box env two_keys two_keys-IsKeyring (some (codes "k2")) nonce
      (envelope (codes "k1") nonce (codes "hi")) (codes "hi")
      (some (envelope (codes "k2") nonce (codes "hi"))) new_key refl nonce_bytes-All
      (omega arith, (omega arith, tt)) refl refl refl

-- The same keys, of which the other one is active.
abbrev rotated_keys : Keyring
rotated_keys = record two_keys { active_key_id = codes "k2" }

abbrev rotated : Env
rotated name =
    if str_eq name keys_env
    then some raw_keys
    else if str_eq name active_key_env
    then some (codes "k2")
    else none

env-two_keys : parsed env ≡ ok two_keys
unfolding parse_keyring sextet str_eq
env-two_keys = refl

rotated-rotated_keys : parsed rotated ≡ ok rotated_keys
unfolding parse_keyring sextet str_eq
rotated-rotated_keys = refl

abbrev before : List Call
before = decrypts (codes "hi") ∷ clears ∷ []

abbrev after : List Call
after = rekeys (some (codes "k2")) nonce (envelope (codes "k1") nonce (codes "hi")) ∷ []

rotation-opens_example :
    (e : Str) × (some (envelope (codes "k1") nonce (codes "hi")) ≡ some e)
    × (decrypt_now open_box rotated e
          (cache_later open_box env rotated before after nonce (codes "hi"))
        ≡ (ok (codes "hi"), some rotated_keys))
    × (encrypt_now open_box rotated none nonce
          (some (codes "yo"))
          (cache_later open_box env rotated before after nonce (codes "hi"))
        ≡ (encrypt_text open_box rotated_keys nonce (some (codes "yo")), some rotated_keys))
unfolding caches encrypt_now encrypt_text seal_text encode encode_char lookup str_eq b64encode
    sextet parse_keyring load_keyring_from_env
rotation-opens_example =
    rotation-opens open_box env rotated two_keys rotated_keys env-two_keys rotated-rotated_keys refl
      before after nonce nonce (codes "hi") (codes "yo")
      (some (envelope (codes "k1") nonce (codes "hi"))) refl nonce_bytes-All
      (omega arith, (omega arith, tt)) refl
