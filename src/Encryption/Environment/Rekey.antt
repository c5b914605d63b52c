-- ===== src/Encryption/Environment/Rekey.antt =====
-- What `rekey_envelope` of utils/field_encryption.py makes of an envelope.
use fingerprint_hub.Prelude.{
  ℕ, ◌≡◌, ◌∙◌, refl, sym, ap, Str, Env, codes, ◌==◌, str_eq, true, false, Option, none, some, List,
  [], ◌∷◌, All, Result, ok, raise, Exc, Bool-cases, inl, inr, length,
}
use fingerprint_hub.Sql.{exists}
use fingerprint_hub.Api.Messages.{lookup}
use fingerprint_hub.Encryption.Base64.{IsByte}
use fingerprint_hub.Encryption.Utf8.RoundTrip.{IsChar}
use fingerprint_hub.Encryption.Envelope.{
  Aead, Keyring, nonce_bytes, starts_with, split, open_parts, encrypt_text, decrypt_text,
}
use fingerprint_hub.Encryption.Envelope.RoundTrip.{
  IsPlain, encrypt_text-Written, decrypt_text-encrypt_text,
}
use fingerprint_hub.Encryption.Keyring.{Keys, has_id}
use fingerprint_hub.Encryption.Keyring.Parsing.{IsKeyring, plain_id}
use fingerprint_hub.Encryption.Environment.{
  load_keyring_from_env, under_key, encrypt_now, is_well_formed, decrypt_now, rekey_envelope,
}

lookup_skip :
    (id : Str) (k : Str × List ℕ) (keys : Keys)
    → str_eq k.0 id ≡ false
    → lookup id (k ∷ keys) ≡ lookup id keys
lookup_skip id k keys e = unfold lookup in rw (e, lookup) refl

pub lookup-has_id :
    (id : Str) (keys : Keys) (key : List ℕ) → lookup id keys ≡ some key → has_id id keys ≡ true
unfolding lookup has_id exists
lookup-has_id id [] key h = cc
lookup-has_id id (k ∷ keys) key h = elim (Bool-cases (str_eq k.0 id)) [
  | inl e ↦ rw e refl
  | inr e ↦ rw e (lookup-has_id id keys key (sym (lookup_skip id k keys e) ∙ h))
]

under_key-keys : (key_id : Option Str) (ring : Keyring) → (under_key key_id ring).keys ≡ ring.keys
unfolding under_key
under_key-keys none ring = refl
under_key-keys (some []) ring = refl
under_key-keys (some (c ∷ key_id)) ring = refl

module _ (a : Aead) where
  -- Only the keys of a keyring matter to what it opens.
  open_parts-keys :
      (keys : Keys) (id id' : Str) (parts : List Str)
      → open_parts a (record { keys = keys; active_key_id = id }) parts
        ≡ open_parts a (record { keys = keys; active_key_id = id' }) parts
  unfolding open_parts
  open_parts-keys keys id id' [] = refl
  open_parts-keys keys id id' (p ∷ []) = refl
  open_parts-keys keys id id' (p ∷ q ∷ []) = refl
  open_parts-keys keys id id' (p ∷ q ∷ r ∷ []) = refl
  open_parts-keys keys id id' (p ∷ q ∷ r ∷ s ∷ []) = refl
  open_parts-keys keys id id' (p ∷ q ∷ r ∷ s ∷ t ∷ []) = refl
  open_parts-keys keys id id' (p ∷ q ∷ r ∷ s ∷ t ∷ u ∷ us) = refl

  decrypt_text-keys :
      (keys : Keys) (id id' value : Str)
      → decrypt_text a (record { keys = keys; active_key_id = id }) value
        ≡ decrypt_text a (record { keys = keys; active_key_id = id' }) value
  unfolding decrypt_text
  decrypt_text-keys keys id id' value = rw (open_parts-keys keys id id' (split 4 value)) refl

  -- An envelope opens under every keyring that has the key which it was written under.
  pub opens_elsewhere :
      (ring other : Keyring) (nonce : List ℕ) (text : Str) (out : Option Str)
      → All IsPlain ring.active_key_id
      → length nonce ≡ nonce_bytes
      → All IsByte nonce
      → All IsChar text
      → encrypt_text a ring nonce (some text) ≡ ok out
      → lookup ring.active_key_id other.keys ≡ lookup ring.active_key_id ring.keys
      → (e : Str) × (out ≡ some e) × (decrypt_text a other e ≡ ok text)
  opens_elsewhere ring other nonce text out plain n b chars h same =
      let moved : Keyring = record { keys = other.keys; active_key_id = ring.active_key_id } in
      let (e, q, d) =
        decrypt_text-encrypt_text a moved nonce plain n b text out chars
          (unfold encrypt_text in rw (same, encrypt_text) h) in
      (e, q, decrypt_text-keys other.keys other.active_key_id ring.active_key_id e ∙ d)

  open_parts-five :
      (ring : Keyring) (parts : List Str) (text : Str)
      → open_parts a ring parts ≡ ok text
      → (length parts == 5) ≡ true
  unfolding open_parts
  open_parts-five ring [] text h = cc
  open_parts-five ring (p ∷ []) text h = cc
  open_parts-five ring (p ∷ q ∷ []) text h = cc
  open_parts-five ring (p ∷ q ∷ r ∷ []) text h = cc
  open_parts-five ring (p ∷ q ∷ r ∷ s ∷ []) text h = cc
  open_parts-five ring (p ∷ q ∷ r ∷ s ∷ t ∷ []) text h = refl
  open_parts-five ring (p ∷ q ∷ r ∷ s ∷ t ∷ u ∷ us) text h = cc

  pub opened_form :
      (ring : Keyring) (value text : Str)
      → decrypt_text a ring value ≡ ok text
      → is_well_formed value ≡ true
  opened_form ring value text h = elim (Bool-cases (starts_with (codes "enc:v1:") value)) [
    | inl e ↦
        let parts : (length (split 4 value) == 5) ≡ true =
          open_parts-five ring (split 4 value) text (sym (began e) ∙ h) in
        unfold is_well_formed in rw (e, parts) refl
    | inr e ↦ absurd (let r = not_begun e in cc)
  ]
    where
      began :
          starts_with (codes "enc:v1:") value ≡ true
          → decrypt_text a ring value ≡ open_parts a ring (split 4 value)
      began e = unfold decrypt_text in rw (e, decrypt_text) refl

      not_begun :
          starts_with (codes "enc:v1:") value ≡ false
          → decrypt_text a ring value ≡ raise Exc.field_decryption_error
      not_begun e = unfold decrypt_text in rw (e, decrypt_text) refl

  module _ (env : Env) (ring : Keyring) (valid : IsKeyring ring) (target_key_id : Option Str)
      (nonce : List ℕ) (value : Str) where
    abbrev target : Keyring
    target = under_key target_key_id ring

    abbrev rekeyed : Result (Option Str)
    rekeyed = (rekey_envelope a env target_key_id nonce value (some ring)).0

    target-plain :
        (key : List ℕ)
        → lookup target.active_key_id target.keys ≡ some key
        → All IsPlain target.active_key_id
    target-plain key e = plain_id target.active_key_id ring.keys valid.keys.each (
        lookup-has_id target.active_key_id ring.keys key
          (ap (lookup target.active_key_id) (sym (under_key-keys target_key_id ring)) ∙ e))

    reads :
        (text : Str)
        → decrypt_text a ring value ≡ ok text
        → decrypt_now a env value (some ring) ≡ (ok text, some ring)
    unfolding decrypt_now load_keyring_from_env
    reads text d = rw (opened_form ring value text d, d, decrypt_now) refl

    run :
        (text : Str)
        → decrypt_text a ring value ≡ ok text
        → rekeyed ≡ encrypt_text a target nonce (some text)
    unfolding rekey_envelope encrypt_now load_keyring_from_env
    run text d = rw (reads text d, rekey_envelope) (rw (reads text d) refl)

    -- Where `rekey_envelope` under a keyring that `parse_keyring` accepts, with a nonce of twelve bytes,
    -- reads a text of an envelope and returns, the new envelope opens to the same text under every keyring
    -- that has the target key, whether it has the old one or not.
    pub rekey_envelope-opens :
        (text : Str) (out : Option Str) (other : Keyring)
        → length nonce ≡ nonce_bytes
        → All IsByte nonce
        → All IsChar text
        → decrypt_text a ring value ≡ ok text
        → rekeyed ≡ ok out
        → lookup target.active_key_id other.keys ≡ lookup target.active_key_id target.keys
        → (e : Str) × (out ≡ some e) × (decrypt_text a other e ≡ ok text)
    rekey_envelope-opens text out other n b chars d h same =
        let w = sym (run text d) ∙ h in
        let key = encrypt_text-Written a target nonce text out w in
        opens_elsewhere target other nonce text out (target-plain key.key key.configured) n b chars
          w same
