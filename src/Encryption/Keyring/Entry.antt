-- ===== src/Encryption/Keyring/Entry.antt =====
-- An entry that `generate_key_entry` makes, read back by `parse_keyring`.
use fingerprint_hub.Prelude.{
  ℕ, ◌<◌, ◌≤◌, ◌≡◌, ◌∙◌, refl, sym, ap, Str, str_eq_refl, ◌||◌, Bool, true, false, ◌==◌, some, ok,
  raise, Exc, List, [], ◌∷◌, ◌++◌, length, length-append, All, All-imp, All-append, All-reverse,
  arith, Bool-cases, inl, inr,
}
use mathlib.Core.List.{reverse, reverse-reverse}
use fingerprint_hub.Sql.{exists}
use fingerprint_hub.Api.Values.{is_blank, strip, strip_by, skip, is_space, in_ranges}
use fingerprint_hub.Encryption.Base64.{IsByte, symbol, b64encode, b64decode-b64encode}
use fingerprint_hub.Encryption.Envelope.{Keyring, cut}
use fingerprint_hub.Encryption.Envelope.RoundTrip.{b64encode-All, cut-join}
use fingerprint_hub.Encryption.Keyring.{
  is_id_char, all_id_chars, is_key_id, key_bytes, prepend, split_commas, decode_key, has_id,
  has_material, add_key, read_entry, read_entries, read_keyring, parse_keyring, generate_key_entry,
}
use fingerprint_hub.Encryption.Keyring.Parsing.{id_chars-IsPlain}

-- Neither a space nor a comma.
abbrev IsPrinted : ℕ → Type 0
IsPrinted c = (is_space c ≡ false) × ((c == 44) ≡ false)

id_char-IsPrinted : (c : ℕ) → is_id_char c ≡ true → IsPrinted c
unfolding is_id_char is_space in_ranges
id_char-IsPrinted c h = (ground arith, ground arith)

symbol_bounds : (n : ℕ) → n < 64 → (43 ≤ symbol n) × (symbol n ≤ 122) × ((symbol n == 44) ≡ false)
unfolding symbol
symbol_bounds n h = (ground arith, ground arith, ground arith)

bounds-IsPrinted : (c : ℕ) → 43 ≤ c → c ≤ 122 → (c == 44) ≡ false → IsPrinted c
unfolding is_space in_ranges
bounds-IsPrinted c lo hi e = (ground arith, e)

symbol-IsPrinted : (n : ℕ) → n < 64 → IsPrinted (symbol n)
symbol-IsPrinted n h = let (lo, hi, e) = symbol_bounds n h in bounds-IsPrinted (symbol n) lo hi e

id_chars-IsPrinted : (s : Str) → all_id_chars s ≡ true → All IsPrinted s
unfolding all_id_chars
id_chars-IsPrinted [] h = tt
id_chars-IsPrinted (c ∷ s) h =
    (id_char-IsPrinted c (ground arith), id_chars-IsPrinted s (ground arith))

skip_nothing : (p : ℕ → Bool) (s : Str) → All (λ c. p c ≡ false) s → skip p s ≡ s
unfolding skip
skip_nothing p [] h = refl
skip_nothing p (c ∷ s) h = rw h.0 refl

strip_printed : (s : Str) → All IsPrinted s → strip s ≡ s
unfolding strip strip_by
strip_printed s h =
    let spaceless = All-imp {Q = λ c. is_space c ≡ false} (λ c k. k.0) s h in
    rw
      (
        skip_nothing is_space s spaceless,
        skip_nothing is_space (reverse s) (All-reverse (λ c. is_space c ≡ false) s spaceless),
      )
      (reverse-reverse s)

split_commas_none : (s : Str) → All IsPrinted s → split_commas s ≡ s ∷ []
unfolding split_commas prepend
split_commas_none [] h = refl
split_commas_none (c ∷ s) h = let rest = split_commas_none s h.1 in rw (h.0.1, rest) refl

module _ (key_id : Str) (key : List ℕ) (named : is_key_id key_id ≡ true)
    (size : length key ≡ key_bytes) (bytes : All IsByte key) where
  abbrev entry : Str
  entry = key_id ++ 58 ∷ b64encode key

  abbrev only_key : Keyring
  only_key = record { keys = (key_id, key) ∷ []; active_key_id = key_id }

  ids : all_id_chars key_id ≡ true
  unfolding is_key_id
  ids = ground (arith, named)

  entry-IsPrinted : All IsPrinted entry
  entry-IsPrinted =
      All-append IsPrinted key_id (58 ∷ b64encode key) (id_chars-IsPrinted key_id ids) (
        bounds-IsPrinted 58 (omega arith) (omega arith) refl,
        b64encode-All IsPrinted symbol-IsPrinted
            (bounds-IsPrinted 61 (omega arith) (omega arith) refl) key bytes,
      )

  key_id_stripped : strip key_id ≡ key_id
  key_id_stripped = strip_printed key_id (id_chars-IsPrinted key_id ids)

  key_stripped : strip (b64encode key) ≡ b64encode key
  key_stripped = strip_printed (b64encode key) (
      b64encode-All IsPrinted symbol-IsPrinted
        (bounds-IsPrinted 61 (omega arith) (omega arith) refl) key bytes)

  decoded : decode_key (b64encode key) ≡ ok key
  decoded =
      let full : (length key == key_bytes) ≡ true = ground (arith, size) in
      unfold decode_key in rw (b64decode-b64encode key bytes, full, decode_key) refl

  added : add_key [] key_id (b64encode key) ≡ ok ((key_id, key) ∷ [])
  unfolding has_id has_material exists
  added = unfold add_key in rw (named, decoded, add_key) refl

  divided : cut (strip entry) ≡ (key_id, some (b64encode key))
  divided =
      ap cut (strip_printed entry entry-IsPrinted)
      ∙ cut-join key_id (b64encode key) (id_chars-IsPlain key_id ids)

  entered : read_entry [] entry ≡ add_key [] (strip (cut (strip entry)).0) (strip (b64encode key))
  entered =
      let rest : (cut (strip entry)).1 ≡ some (b64encode key) = ap (λ p. p.1) divided in
      unfold read_entry in rw (rest, read_entry) refl

  entry_read : read_entry [] entry ≡ ok ((key_id, key) ∷ [])
  entry_read =
      entered
      ∙ ap (λ p. add_key [] (strip p.0) (strip (b64encode key))) divided
      ∙ ap (λ id. add_key [] id (strip (b64encode key))) key_id_stripped
      ∙ ap (add_key [] key_id) key_stripped
      ∙ added

  not_blank : (is_blank (some entry) || is_blank (some key_id)) ≡ false
  unfolding is_blank is_key_id
  not_blank =
      rw (strip_printed entry entry-IsPrinted, key_id_stripped)
        (ground (arith, named, length-append key_id (58 ∷ b64encode key)))

  active_there : has_id key_id ((key_id, key) ∷ []) ≡ true
  unfolding has_id exists
  active_there = rw (str_eq_refl key_id) refl

  entries_read : read_entries [] (entry ∷ []) ≡ ok ((key_id, key) ∷ [])
  unfolding read_entries
  entries_read = rw (entry_read, read_entries) refl

  ready : read_keyring entry key_id ≡ ok only_key
  ready =
      unfold read_keyring in
      rw (split_commas_none entry entry-IsPrinted, entries_read, active_there, read_keyring) refl

  going : parse_keyring (some entry) (some key_id) ≡ read_keyring entry (strip key_id)
  going = unfold parse_keyring in rw (not_blank, parse_keyring) refl

  parsed : parse_keyring (some entry) (some key_id) ≡ ok only_key
  parsed = going ∙ ap (read_keyring entry) key_id_stripped ∙ ready

-- The entry that `generate_key_entry` makes of an id and of 32 bytes is, with the id as the active one,
-- a keyring that `parse_keyring` accepts: it holds that key alone.
pub parse_keyring-generate_key_entry :
    (key_id : Str) (key : List ℕ) (e : Str)
    → length key ≡ key_bytes
    → All IsByte key
    → generate_key_entry key_id key ≡ ok e
    → parse_keyring (some e) (some key_id)
      ≡ ok (record { keys = (key_id, key) ∷ []; active_key_id = key_id })
parse_keyring-generate_key_entry key_id key e size bytes h = elim (Bool-cases (is_key_id key_id)) [
  | inl k ↦
      let made = sym h ∙ named k in
      let same : e ≡ key_id ++ 58 ∷ b64encode key = cc in rw same (parsed key_id key k size bytes)
  | inr k ↦ absurd (let r = unnamed k in cc)
]
  where
    named :
        is_key_id key_id ≡ true → generate_key_entry key_id key ≡ ok (key_id ++ 58 ∷ b64encode key)
    named k = unfold generate_key_entry in rw (k, generate_key_entry) refl

    unnamed :
        is_key_id key_id ≡ false
        → generate_key_entry key_id key ≡ raise Exc.field_encryption_config_error
    unnamed k = unfold generate_key_entry in rw (k, generate_key_entry) refl
