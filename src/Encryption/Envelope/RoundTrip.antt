-- ===== src/Encryption/Envelope/RoundTrip.antt =====
-- What `encrypt_text` makes of a text, `decrypt_text` reads back.
use Prim.Native.Nat.{◌/◌, ◌%◌}
use fingerprint_hub.Prelude.{
  ℕ, suc, ◌+◌, ◌*◌, ◌<◌, ◌≡◌, ◌∙◌, refl, sym, ap, Str, codes, str_eq, true, false, ◌==◌, Option,
  none, some, ok, raise, Exc, List, [], ◌∷◌, ◌++◌, length, All, arith, Option-cases, Result-cases,
  inl, inr,
}
use fingerprint_hub.Encryption.Base64.{IsByte, symbol, b64encode, b64decode-b64encode}
use fingerprint_hub.Encryption.Utf8 as utf8
use fingerprint_hub.Encryption.Utf8.RoundTrip.{IsChar, decode-encode, encode-IsByte}
use fingerprint_hub.Encryption.Envelope.{
  Aead, Keyring, nonce_bytes, envelope, seal_text, encrypt_text, starts_with, cut, split,
  decode_part, unseal_text, open_parts, decrypt_text,
}
use fingerprint_hub.Api.Messages.{lookup}

abbrev pub IsPlain : ℕ → Type 0
IsPlain c = (c == 58) ≡ false

pub cut-join : (a t : Str) → All IsPlain a → cut (a ++ 58 ∷ t) ≡ (a, some t)
unfolding cut
cut-join [] t h = refl
cut-join (c ∷ a) t h = rw (h.0, cut-join a t h.1) refl

split-join : (n : ℕ) (a t : Str) → All IsPlain a → split (suc n) (a ++ 58 ∷ t) ≡ a ∷ split n t
unfolding split
split-join n a t h = rw (cut-join a t h, split) (ap (λ p. p.0 ∷ split n t) (cut-join a t h))

symbol-IsPlain : (n : ℕ) → n < 64 → IsPlain (symbol n)
unfolding symbol
symbol-IsPlain n h = ground arith

-- What holds of the 64 characters and of the padding holds of every character of the encoding.
pub b64encode-All :
    (P : ℕ → Type 0)
    → ((n : ℕ) → n < 64 → P (symbol n))
    → P 61
    → (bytes : List ℕ) → All IsByte bytes
    → All P (b64encode bytes)
unfolding b64encode
b64encode-All P s p [] h = tt
b64encode-All P s p (a ∷ []) h =
    (s (a / 4) (omega (arith, h.0)), (s (a % 4 * 16) (omega arith), (p, (p, tt))))
b64encode-All P s p (a ∷ b ∷ []) h = (
  s (a / 4) (omega (arith, h.0)),
  (s (a % 4 * 16 + b / 16) (omega (arith, h.1.0)), (s (b % 16 * 4) (omega arith), (p, tt))),
)
b64encode-All P s p (a ∷ b ∷ c ∷ rest) h = (
  s (a / 4) (omega (arith, h.0)),
  (
    s (a % 4 * 16 + b / 16) (omega (arith, h.1.0)),
    (
      s (b % 16 * 4 + c / 64) (omega (arith, h.1.1.0)),
      (s (c % 64) (omega arith), b64encode-All P s p rest h.1.1.1),
    ),
  ),
)

b64encode-IsPlain : (bytes : List ℕ) → All IsByte bytes → All IsPlain (b64encode bytes)
b64encode-IsPlain = b64encode-All IsPlain symbol-IsPlain refl

decode_part-b64encode :
    (bytes : List ℕ) → All IsByte bytes → decode_part (b64encode bytes) ≡ ok bytes
decode_part-b64encode bytes h =
    unfold decode_part in rw (b64decode-b64encode bytes h, decode_part) refl

module _ (key_id : Str) (nonce ciphertext : List ℕ) (plain : All IsPlain key_id)
    (h : All IsByte nonce) where
  split-envelope :
      split 4 (envelope key_id nonce ciphertext)
      ≡ codes "enc" ∷ codes "v1" ∷ key_id ∷ b64encode nonce ∷ b64encode ciphertext ∷ []
  unfolding envelope
  split-envelope =
      split-join 3 (codes "enc")
        (codes "v1" ++ 58 ∷ (key_id ++ 58 ∷ (b64encode nonce ++ 58 ∷ b64encode ciphertext)))
        (refl, (refl, (refl, tt)))
      ∙ ap (◌∷◌ (codes "enc")) (
          split-join 2 (codes "v1") (key_id ++ 58 ∷ (b64encode nonce ++ 58 ∷ b64encode ciphertext))
            (refl, (refl, tt))
          ∙ ap (◌∷◌ (codes "v1")) (
              split-join 1 key_id (b64encode nonce ++ 58 ∷ b64encode ciphertext) plain
              ∙ ap (◌∷◌ key_id) (
                  split-join 0 (b64encode nonce) (b64encode ciphertext) (b64encode-IsPlain nonce h)
                  ∙ unfold split in refl)))

  starts-envelope : starts_with (codes "enc:v1:") (envelope key_id nonce ciphertext) ≡ true
  unfolding envelope starts_with
  starts-envelope = refl

-- How a text was encrypted, if it was.
pub record Written (a : Aead) (ring : Keyring) (nonce : List ℕ) (text : Str) (out : Option Str)
    : Type 0 where
  pub key : List ℕ
  pub message : List ℕ
  pub configured : lookup ring.active_key_id ring.keys ≡ some key
  pub encoded : utf8.encode text ≡ ok message
  pub value : out ≡ some (envelope ring.active_key_id nonce (a.seal key nonce message))

pub encrypt_text-Written :
    (a : Aead) (ring : Keyring) (nonce : List ℕ) (text : Str) (out : Option Str)
    → encrypt_text a ring nonce (some text) ≡ ok out
    → Written a ring nonce text out
encrypt_text-Written a ring nonce text out h =
    elim (Option-cases (lookup ring.active_key_id ring.keys)) [
      | inl k ↦ absurd (let r = no_key k in cc)
      | inr (key, k) ↦ elim (Result-cases (utf8.encode text)) [
        | inl (x, e) ↦ absurd (let r = no_bytes key x k e in cc)
        | inr (message, e) ↦ record {
          key = key;
          message = message;
          configured = k;
          encoded = e;
          value = let w = sym h ∙ written key message k e in cc;
        }
      ]
    ]
  where
    no_key :
        lookup ring.active_key_id ring.keys ≡ none
        → encrypt_text a ring nonce (some text) ≡ raise Exc.field_encryption_config_error
    no_key k = unfold encrypt_text in rw (k, encrypt_text) refl

    no_bytes :
        (key : List ℕ) (x : Exc)
        → lookup ring.active_key_id ring.keys ≡ some key
        → utf8.encode text ≡ raise x
        → encrypt_text a ring nonce (some text) ≡ raise x
    no_bytes key x k e = unfold encrypt_text in rw (k, e, encrypt_text, seal_text) refl

    written :
        (key message : List ℕ)
        → lookup ring.active_key_id ring.keys ≡ some key
        → utf8.encode text ≡ ok message
        → encrypt_text a ring nonce (some text)
          ≡ ok (some (envelope ring.active_key_id nonce (a.seal key nonce message)))
    written key message k e = unfold encrypt_text in rw (k, e, encrypt_text, seal_text) refl

-- A keyring under which texts are encrypted: the active id has no colon, as `parse_keyring` sees to.
module _ (a : Aead) (ring : Keyring) (nonce : List ℕ) (plain : All IsPlain ring.active_key_id)
    (twelve : length nonce ≡ nonce_bytes) (bytes : All IsByte nonce) where
  unsealed :
      (key message : List ℕ) (text : Str)
      → All IsByte message
      → utf8.decode message ≡ ok text
      → unseal_text a key nonce (a.seal key nonce message) ≡ ok text
  unsealed key message text m d =
      unfold unseal_text in rw (twelve, a.unseal-seal key nonce message m, unseal_text) d

  open_sealed :
      (key message : List ℕ) (text : Str)
      → lookup ring.active_key_id ring.keys ≡ some key
      → All IsByte message
      → utf8.decode message ≡ ok text
      → decrypt_text a ring (envelope ring.active_key_id nonce (a.seal key nonce message)) ≡ ok text
  open_sealed key message text k m d =
      let sealed = a.seal key nonce message in
      let byte = a.seal-IsByte key nonce message in
      opened (envelope ring.active_key_id nonce sealed)
        (starts-envelope ring.active_key_id nonce sealed plain bytes)
      ∙ ap (open_parts a ring) (split-envelope ring.active_key_id nonce sealed plain bytes)
      ∙ unfold open_parts str_eq in
        rw (k, decode_part-b64encode nonce bytes, decode_part-b64encode sealed byte, open_parts)
          (unsealed key message text m d)
    where
      opened :
          (value : Str)
          → starts_with (codes "enc:v1:") value ≡ true
          → decrypt_text a ring value ≡ open_parts a ring (split 4 value)
      opened value e = unfold decrypt_text in rw (e, decrypt_text) refl

  -- A text that `encrypt_text` encrypts, with a nonce of twelve bytes under a keyring whose active id
  -- has no colon, is an envelope, which `decrypt_text` reads back as the text.
  pub decrypt_text-encrypt_text :
      (text : Str) (out : Option Str)
      → All IsChar text
      → encrypt_text a ring nonce (some text) ≡ ok out
      → (value : Str) × (out ≡ some value) × (decrypt_text a ring value ≡ ok text)
  decrypt_text-encrypt_text text out chars h =
      let w = encrypt_text-Written a ring nonce text out h in
      (
        envelope ring.active_key_id nonce (a.seal w.key nonce w.message),
        w.value,
        open_sealed w.key w.message text w.configured (encode-IsByte text w.message chars w.encoded)
            (decode-encode text w.message chars w.encoded),
      )
