-- ===== src/Encryption/Keyring.antt =====
-- `parse_keyring`. Each refusal is a FieldEncryptionConfigError.
pub mod Parsing
pub mod Entry
use fingerprint_hub.Prelude.{
  ℕ, ◌≡◌, ◌≤◌, ◌∙◌, refl, sym, ap, subst, Str, str_eq, Bool, true, false, not, ◌&&◌, ◌||◌, ◌==◌,
  Option, none, some, Result, ok, raise, Exc, ◌>>=◌, List, [], ◌∷◌, ◌++◌, length, leb,
  if◌then◌else◌, All, All-imp, All-append, Pairwise, Pairwise-snoc, arith, Bool-cases, Option-cases,
  Result-cases, inl, inr,
}
use fingerprint_hub.Sql.{exists}
use fingerprint_hub.Sql.Rows.{not_exists_all}
use fingerprint_hub.Api.Values.{strip, is_blank}
use fingerprint_hub.Api.Messages.{lookup}
use fingerprint_hub.Encryption.Base64.{b64encode, b64decode}
use fingerprint_hub.Encryption.Envelope.{Keyring, cut}

-- [A-Za-z0-9_.-]
unfoldable pub is_id_char : ℕ → Bool
is_id_char c =
    (leb 65 c && leb c 90)
    || (leb 97 c && leb c 122)
    || (leb 48 c && leb c 57)
    || c == 95
    || c == 46
    || c == 45

unfoldable pub all_id_chars : Str → Bool
unfolding is_id_char
all_id_chars [] = true
all_id_chars (c ∷ s) = is_id_char c && all_id_chars s

-- `_KEY_ID_RE.fullmatch(key_id)`
unfoldable pub is_key_id : Str → Bool
unfolding all_id_chars
is_key_id s = all_id_chars s && (leb 1 (length s) && leb (length s) 64)

abbrev pub key_bytes : ℕ
key_bytes = 32

unfoldable pub prepend : ℕ → List Str → List Str
prepend c [] = (c ∷ []) ∷ []
prepend c (part ∷ parts) = (c ∷ part) ∷ parts

-- `raw_keys.split(",")`
unfoldable pub split_commas : Str → List Str
unfolding prepend
split_commas [] = [] ∷ []
split_commas (c ∷ s) = let rest = split_commas s in if c == 44 then [] ∷ rest else prepend c rest

abbrev pub Keys : Type 0
Keys = List (Str × List ℕ)

abbrev pub refusal {ℓ} : {A : Type ℓ} → Result A
refusal = raise Exc.field_encryption_config_error

-- `_decode_base64_key`
unfoldable pub decode_key : Str → Result (List ℕ)
unfolding b64decode
decode_key raw = elim (b64decode raw) [
  | raise _ ↦ refusal
  | ok key ↦ if length key == key_bytes then ok key else refusal
]

-- `key_id in keys`, and `decoded_key in key_material_ids`
unfoldable pub has_id : Str → Keys → Bool
unfolding exists str_eq
has_id id keys = exists (λ k. str_eq k.0 id) keys

unfoldable pub has_material : List ℕ → Keys → Bool
unfolding exists str_eq
has_material key keys = exists (λ k. str_eq k.1 key) keys

unfoldable pub add_key : Keys → Str → Str → Result Keys
unfolding is_key_id has_id has_material decode_key
add_key keys id raw =
    if is_key_id id && not (has_id id keys)
    then elim (decode_key raw) [
      | raise e ↦ raise e
      | ok key ↦ if has_material key keys then refusal else ok (keys ++ (id, key) ∷ [])
    ]
    else refusal

-- One round of the loop. An entry that is empty or has no colon is refused.
unfoldable pub read_entry : Keys → Str → Result Keys
unfolding strip cut add_key
read_entry keys raw = elim (cut (strip raw)).1 [
  | none ↦ refusal
  | some rest ↦ add_key keys (strip (cut (strip raw)).0) (strip rest)
]

unfoldable pub read_entries : Keys → List Str → Result Keys
unfolding read_entry
read_entries keys [] = ok keys
read_entries keys (raw ∷ raws) = elim (read_entry keys raw) [
  | raise e ↦ raise e
  | ok keys' ↦ read_entries keys' raws
]

-- From the two checks on.
unfoldable pub read_keyring : Str → Str → Result Keyring
unfolding read_entries split_commas has_id
read_keyring raw_keys active = elim (read_entries [] (split_commas raw_keys)) [
  | raise e ↦ raise e
  | ok keys ↦
      if has_id active keys then ok (record { keys = keys; active_key_id = active }) else refusal
]

unfoldable pub parse_keyring : Option Str → Option Str → Result Keyring
unfolding read_keyring strip is_blank
parse_keyring (some raw_keys) (some active) =
    if is_blank (some raw_keys) || is_blank (some active)
    then refusal
    else read_keyring raw_keys (strip active)
parse_keyring _ _ = refusal

-- `generate_key_entry`, with the random bytes of the key
unfoldable pub generate_key_entry : Str → List ℕ → Result Str
unfolding is_key_id b64encode
generate_key_entry key_id key =
    if is_key_id key_id then ok (key_id ++ 58 ∷ b64encode key) else refusal
