-- ===== src/Tests/Secrets.antt =====
-- A field that is encrypted and read back.
use fingerprint_hub.Prelude.{
  ℕ, ◌≡◌, refl, Str, codes, some, List, [], ◌∷◌, map, ok, All, arith, Bool, true, ltb, ◌&&◌,
}
use Prim.Native.Nat.{◌%◌}
use fingerprint_hub.Encryption.Base64.{IsByte}
use fingerprint_hub.Encryption.Envelope.{
  Aead, Keyring, encrypt_text, decrypt_text, envelope, seal_text,
}
use fingerprint_hub.Encryption.Envelope.RoundTrip.{decrypt_text-encrypt_text}
use fingerprint_hub.Encryption.Utf8.{encode, encode_char}
use fingerprint_hub.Api.Messages.{lookup}
use fingerprint_hub.Prelude.{str_eq}

-- An encryption that keeps the bytes as they are meets what is asked of AES-GCM.
pub clipped : (bytes : List ℕ) → All IsByte (map (λ b. b % 256) bytes)
clipped [] = tt
clipped (b ∷ bytes) = (omega arith, clipped bytes)

pub unclipped : (bytes : List ℕ) → All IsByte bytes → some (map (λ b. b % 256) bytes) ≡ some bytes
unclipped [] h = refl
unclipped (b ∷ bytes) h = ground (arith, h.0, unclipped bytes h.1)

abbrev pub open_box : Aead
open_box = record {
  seal = λ key nonce plain. map (λ b. b % 256) plain;
  unseal = λ key nonce sealed. some sealed;
  seal-IsByte = λ key nonce plain. clipped plain;
  unseal-seal = λ key nonce plain h. unclipped plain h;
}

abbrev pub ring : Keyring
ring = record { keys = (codes "k1", 1 ∷ []) ∷ []; active_key_id = codes "k1" }

abbrev pub nonce : List ℕ
nonce = 1 ∷ 2 ∷ 3 ∷ 4 ∷ 5 ∷ 6 ∷ 7 ∷ 8 ∷ 9 ∷ 10 ∷ 11 ∷ 12 ∷ []

-- Bytes, told from a list by computation.
unfoldable pub are_bytes : List ℕ → Bool
are_bytes [] = true
are_bytes (b ∷ bytes) = ltb b 256 && are_bytes bytes

pub are_bytes-All : (bytes : List ℕ) → are_bytes bytes ≡ true → All IsByte bytes
unfolding are_bytes
are_bytes-All [] h = tt
are_bytes-All (b ∷ bytes) h = (ground arith, are_bytes-All bytes (ground arith))

pub nonce_bytes-All : All IsByte nonce
unfolding are_bytes
nonce_bytes-All = are_bytes-All nonce refl

abbrev note : Str
note = codes "hi €"

abbrev sealed_note : Str
sealed_note = envelope (codes "k1") nonce (104 ∷ 105 ∷ 32 ∷ 226 ∷ 130 ∷ 172 ∷ [])

decrypt_text-encrypt_text_example :
    (value : Str) × (some sealed_note ≡ some value) × (decrypt_text open_box ring value ≡ ok note)
unfolding encrypt_text seal_text encode encode_char lookup str_eq
decrypt_text-encrypt_text_example =
    decrypt_text-encrypt_text open_box ring nonce (refl, (refl, tt)) refl nonce_bytes-All note
      (some sealed_note) (omega arith, (omega arith, (omega arith, (omega arith, tt)))) refl
