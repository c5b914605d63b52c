-- ===== src/Encryption/Keyring/Parsing.antt =====
-- What a keyring has that `parse_keyring` returns.
use fingerprint_hub.Prelude.{
  ℕ, ◌≡◌, ◌∙◌, refl, sym, subst, Str, str_eq, str_eq_iff, Bool, true, false, not, ◌&&◌, ◌||◌, ◌==◌,
  Option, none, some, Result, ok, raise, Exc, List, [], ◌∷◌, ◌++◌, length, All, All-and, All-imp,
  All-append, Pairwise, Pairwise-snoc, arith, Bool-cases, Option-cases, Result-cases, inl, inr,
}
use fingerprint_hub.Sql.{exists}
use fingerprint_hub.Sql.Rows.{not_exists_all}
use fingerprint_hub.Api.Values.{is_blank, strip}
use fingerprint_hub.Encryption.Base64.{b64decode}
use fingerprint_hub.Encryption.Envelope.{Keyring, cut}
use fingerprint_hub.Encryption.Keyring.{
  is_id_char, all_id_chars, is_key_id, key_bytes, split_commas, Keys, decode_key, has_id,
  has_material, add_key, read_entry, read_entries, read_keyring, parse_keyring,
}
use fingerprint_hub.Encryption.Envelope.RoundTrip.{IsPlain}

-- What the loop keeps true of the keys.
pub record KeyOk (k : Str × List ℕ) : Type 0 where
  pub id : is_key_id k.0 ≡ true
  pub size : length k.1 ≡ key_bytes

pub record KeysDiffer (a b : Str × List ℕ) : Type 0 where
  pub ids : str_eq a.0 b.0 ≡ false
  pub materials : str_eq a.1 b.1 ≡ false

pub record HasKeys (keys : Keys) : Type 0 where
  pub each : All KeyOk keys
  pub distinct : Pairwise KeysDiffer keys

-- An outcome that is refused is not accepted.
refused : {A : Type 0} {a : A} {x : Exc} {r : Result A} → r ≡ ok a → r ≡ raise x → ⊥
refused h k = cc

decode_key-size : (raw : Str) (key : List ℕ) → decode_key raw ≡ ok key → length key ≡ key_bytes
decode_key-size raw key h = elim (Result-cases (b64decode raw)) [
  | inl (x, e) ↦ absurd (
      refused {x = Exc.field_encryption_config_error} h
        (unfold decode_key in rw (e, decode_key) refl))
  | inr (k, e) ↦ elim (Bool-cases (length k == key_bytes)) [
    | inl f ↦
        let out : decode_key raw ≡ ok k = unfold decode_key in rw (e, f, decode_key) refl in
        let same : k ≡ key = cc in rw (← same) (ground (arith, f))
    | inr f ↦ absurd (
        refused {x = Exc.field_encryption_config_error} h
          (unfold decode_key in rw (e, f, decode_key) refl))
  ]
]

module _ (keys : Keys) (id raw : Str) where
  abbrev fresh_id : Bool
  fresh_id = is_key_id id && not (has_id id keys)

  bad_id : fresh_id ≡ false → add_key keys id raw ≡ raise Exc.field_encryption_config_error
  bad_id e = unfold add_key in rw (e, add_key) refl

  bad_key : (x : Exc) → fresh_id ≡ true → decode_key raw ≡ raise x → add_key keys id raw ≡ raise x
  bad_key x e f = unfold add_key in rw (e, f, add_key) refl

  bad_material :
      (key : List ℕ)
      → fresh_id ≡ true
      → decode_key raw ≡ ok key
      → has_material key keys ≡ true
      → add_key keys id raw ≡ raise Exc.field_encryption_config_error
  bad_material key e f g = unfold add_key in rw (e, f, g, add_key) refl

  good_key :
      (key : List ℕ)
      → fresh_id ≡ true
      → decode_key raw ≡ ok key
      → has_material key keys ≡ false
      → add_key keys id raw ≡ ok (keys ++ (id, key) ∷ [])
  good_key key e f g = unfold add_key in rw (e, f, g, add_key) refl

  extended :
      (key : List ℕ)
      → HasKeys keys
      → fresh_id ≡ true
      → decode_key raw ≡ ok key
      → has_material key keys ≡ false
      → HasKeys (keys ++ (id, key) ∷ [])
  extended key v e f g = record {
    each =
        All-append KeyOk keys ((id, key) ∷ []) v.each
          (record { id = ground (arith, e); size = decode_key-size raw key f }, tt);
    distinct =
        Pairwise-snoc KeysDiffer keys (id, key) v.distinct
          (All-imp (λ k h. record { ids = h.0; materials = h.1 }) keys
            (All-and (λ k. str_eq k.0 id ≡ false) (λ k. str_eq k.1 key ≡ false) keys
              (not_exists_all (λ k. str_eq k.0 id) keys (unfold has_id in ground (arith, e)))
              (not_exists_all (λ k. str_eq k.1 key) keys (unfold has_material in g))));
  }

  add_key-HasKeys : (keys' : Keys) → HasKeys keys → add_key keys id raw ≡ ok keys' → HasKeys keys'
  add_key-HasKeys keys' v h = elim (Bool-cases fresh_id) [
    | inl e ↦ elim (Result-cases (decode_key raw)) [
      | inl (x, f) ↦ absurd (refused h (bad_key x e f))
      | inr (key, f) ↦ elim (Bool-cases (has_material key keys)) [
        | inl g ↦ absurd (refused h (bad_material key e f g))
        | inr g ↦
            let out = good_key key e f g in
            let same : keys ++ (id, key) ∷ [] ≡ keys' = cc in rw (← same) (extended key v e f g)
      ]
    ]
    | inr e ↦ absurd (refused h (bad_id e))
  ]

read_entry-HasKeys :
    (keys keys' : Keys) (raw : Str) → HasKeys keys → read_entry keys raw ≡ ok keys' → HasKeys keys'
read_entry-HasKeys keys keys' raw v h = elim (Option-cases (cut (strip raw)).1) [
  | inl e ↦ absurd (
      refused {x = Exc.field_encryption_config_error} h
        (unfold read_entry in rw (e, read_entry) refl))
  | inr (rest, e) ↦
      add_key-HasKeys keys (strip (cut (strip raw)).0) (strip rest) keys' v
        (sym (entered rest e) ∙ h)
]
  where
    entered :
        (rest : Str)
        → (cut (strip raw)).1 ≡ some rest
        → read_entry keys raw ≡ add_key keys (strip (cut (strip raw)).0) (strip rest)
    entered rest e = unfold read_entry in rw (e, read_entry) refl

read_entries-HasKeys :
    (keys keys' : Keys) (raws : List Str)
    → HasKeys keys
    → read_entries keys raws ≡ ok keys'
    → HasKeys keys'
read_entries-HasKeys keys keys' [] v h =
    let same : keys ≡ keys' = unfold read_entries in cc in rw (← same) v
read_entries-HasKeys keys keys' (raw ∷ raws) v h = elim (Result-cases (read_entry keys raw)) [
  | inl (x, e) ↦ absurd (refused {x = x} h (unfold read_entries in rw (e, read_entries) refl))
  | inr (next, e) ↦
      read_entries-HasKeys next keys' raws (read_entry-HasKeys keys next raw v e)
        (sym (went next e) ∙ h)
]
  where
    went :
        (next : Keys)
        → read_entry keys raw ≡ ok next
        → read_entries keys (raw ∷ raws) ≡ read_entries next raws
    went next e = unfold read_entries in rw (e, read_entries) refl

pub id_chars-IsPlain : (s : Str) → all_id_chars s ≡ true → All IsPlain s
unfolding all_id_chars is_id_char
id_chars-IsPlain [] h = tt
id_chars-IsPlain (c ∷ s) h = (ground arith, id_chars-IsPlain s (ground arith))

-- A keyring that the service may use.
pub record IsKeyring (ring : Keyring) : Type 0 where
  pub keys : HasKeys ring.keys
  pub active : has_id ring.active_key_id ring.keys ≡ true
  pub plain : All IsPlain ring.active_key_id

pub plain_id : (id : Str) (keys : Keys) → All KeyOk keys → has_id id keys ≡ true → All IsPlain id
unfolding has_id exists
plain_id id [] v h = absurd cc
plain_id id (k ∷ keys) v h = elim (Bool-cases (str_eq k.0 id)) [
  | inl e ↦
      let same : k.0 ≡ id = (str_eq_iff k.0 id).0 e in
      subst (All IsPlain) same
        (id_chars-IsPlain k.0 (let i = v.0.id in unfold is_key_id in ground (arith, i)))
  | inr e ↦ plain_id id keys v.1 (ground (arith, e))
]

read_keyring-IsKeyring :
    (raw active : Str) (ring : Keyring) → read_keyring raw active ≡ ok ring → IsKeyring ring
read_keyring-IsKeyring raw active ring h =
    elim (Result-cases (read_entries [] (split_commas raw))) [
      | inl (x, e) ↦ absurd (refused {x = x} h (unfold read_keyring in rw (e, read_keyring) refl))
      | inr (keys, e) ↦ elim (Bool-cases (has_id active keys)) [
        | inl f ↦
            let v =
              read_entries-HasKeys [] keys (split_commas raw) (record { each = tt; distinct = tt })
                e in
            let out = ready keys e f in
            let same : record { keys = keys; active_key_id = active } ≡ ring = cc in
            rw (← same) (record { keys = v; active = f; plain = plain_id active keys v.each f })
        | inr f ↦ absurd (
            refused {x = Exc.field_encryption_config_error} h
              (unfold read_keyring in rw (e, f, read_keyring) refl))
      ]
    ]
  where
    ready :
        (keys : Keys)
        → read_entries [] (split_commas raw) ≡ ok keys
        → has_id active keys ≡ true
        → read_keyring raw active ≡ ok (record { keys = keys; active_key_id = active })
    ready keys e f = unfold read_keyring in rw (e, f, read_keyring) refl

-- If `parse_keyring` returns a keyring, its ids and its key material are distinct, every id matches the
-- pattern of ids, every key has 32 bytes, and the active id is one of them, without a colon.
pub parse_keyring-IsKeyring :
    (raw_keys active : Option Str) (ring : Keyring)
    → parse_keyring raw_keys active ≡ ok ring
    → IsKeyring ring
parse_keyring-IsKeyring none active ring h = absurd (unfold parse_keyring in cc)
parse_keyring-IsKeyring (some raw) none ring h = absurd (unfold parse_keyring in cc)
parse_keyring-IsKeyring (some raw) (some active) ring h =
    elim (Bool-cases (is_blank (some raw) || is_blank (some active))) [
      | inl e ↦ absurd (
          refused {x = Exc.field_encryption_config_error} h
            (unfold parse_keyring in rw (e, parse_keyring) refl))
      | inr e ↦ read_keyring-IsKeyring raw (strip active) ring (sym (going e) ∙ h)
    ]
  where
    going :
        (is_blank (some raw) || is_blank (some active)) ≡ false
        → parse_keyring (some raw) (some active) ≡ read_keyring raw (strip active)
    going e = unfold parse_keyring in rw (e, parse_keyring) refl
