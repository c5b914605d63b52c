-- ===== src/Encryption/Utf8/RoundTrip.antt =====
-- What was encoded decodes to itself.
use Prim.Native.Nat.{◌/◌, ◌%◌}
use fingerprint_hub.Prelude.{
  ℕ, ◌+◌, ◌<◌, ◌≡◌, ◌∙◌, refl, sym, Str, true, false, ok, raise, Exc, List, [], ◌∷◌, ◌++◌, ltb,
  arith, All, All-append, Bool-cases, inl, inr, Result-cases,
}
use fingerprint_hub.Encryption.Base64.{IsByte}
use fingerprint_hub.Encryption.Utf8.Sequences.{one_byte, two_bytes, three_bytes, four_bytes}
use fingerprint_hub.Encryption.Utf8.{is_surrogate, encode_char, encode, start, decode_from, decode}

-- A code point of Python's `str`.
abbrev pub IsChar : ℕ → Type 0
IsChar c = c < 1114112

module _ (c : ℕ) (rest : List ℕ) (text : Str) (k : decode_from (start []) rest ≡ ok text) where
  char_bytes :
      (bytes : List ℕ)
      → IsChar c
      → encode_char c ≡ ok bytes
      → decode_from (start []) (bytes ++ rest) ≡ ok (c ∷ text)
  char_bytes bytes h e = elim (Bool-cases (ltb c 128)) [
    | inl p ↦
        from (c ∷ []) (unfold encode_char in rw p refl) (one_byte c rest text k (ground arith))
    | inr p ↦ elim (Bool-cases (ltb c 2048)) [
      | inl q ↦
          from ((192 + c / 64) ∷ (128 + c % 64) ∷ []) (unfold encode_char in rw (p, q) refl)
            (two_bytes c rest text k (ground arith) (ground arith))
      | inr q ↦ elim (Bool-cases (is_surrogate c)) [
        | inl s ↦ absurd (lone (sym e ∙ surrogate p q s))
        | inr s ↦ elim (Bool-cases (ltb c 65536)) [
          | inl u ↦
              from ((224 + c / 4096) ∷ (128 + c / 64 % 64) ∷ (128 + c % 64) ∷ [])
                (unfold encode_char in rw (p, q, s, u) refl)
                (three_bytes c rest text k (ground arith) (ground arith) s)
          | inr u ↦
              from
                ((240 + c / 262144)
                  ∷ (128 + c / 4096 % 64)
                  ∷ (128 + c / 64 % 64)
                  ∷ (128 + c % 64)
                  ∷ [])
                (unfold encode_char in rw (p, q, s, u) refl)
                (four_bytes c rest text k (ground arith) h)
        ]
      ]
    ]
  ]
    where
      from :
          (bs : List ℕ)
          → encode_char c ≡ ok bs
          → decode_from (start []) (bs ++ rest) ≡ ok (c ∷ text)
          → decode_from (start []) (bytes ++ rest) ≡ ok (c ∷ text)
      from bs f d = let same : bytes ≡ bs = cc in rw same d

      lone : ok bytes ≡ raise Exc.unicode_encode_error → ⊥
      lone k = cc

      surrogate :
          ltb c 128 ≡ false
          → ltb c 2048 ≡ false
          → is_surrogate c ≡ true
          → encode_char c ≡ raise Exc.unicode_encode_error
      surrogate p q s = unfold encode_char in rw (p, q, s) refl

module _ (c : ℕ) (text : Str) where
  no_char : (x : Exc) → encode_char c ≡ raise x → encode (c ∷ text) ≡ raise x
  no_char x f = unfold encode in rw (f, encode) refl

  no_rest :
      (first : List ℕ) (x : Exc)
      → encode_char c ≡ ok first
      → encode text ≡ raise x
      → encode (c ∷ text) ≡ raise x
  no_rest first x f g = unfold encode in rw (f, g, encode) refl

  both :
      (first rest : List ℕ)
      → encode_char c ≡ ok first
      → encode text ≡ ok rest
      → encode (c ∷ text) ≡ ok (first ++ rest)
  both first rest f g = unfold encode in rw (f, g, encode) refl

decode_from-encode :
    (text : Str) (bytes : List ℕ)
    → All IsChar text
    → encode text ≡ ok bytes
    → decode_from (start []) bytes ≡ ok text
decode_from-encode [] bytes h e =
    let same : [] ≡ bytes = unfold encode in cc in unfold decode_from in rw (← same) refl
decode_from-encode (c ∷ text) bytes h e = elim (Result-cases (encode_char c)) [
  | inl (x, f) ↦ absurd (never x (sym e ∙ no_char c text x f))
  | inr (first, f) ↦ elim (Result-cases (encode text)) [
    | inl (x, g) ↦ absurd (never x (sym e ∙ no_rest c text first x f g))
    | inr (rest, g) ↦
        let whole : ok bytes ≡ ok (first ++ rest) = sym e ∙ both c text first rest f g in
        let same : bytes ≡ first ++ rest = cc in
        rw same (char_bytes c rest text (decode_from-encode text rest h.1 g) first h.0 f)
  ]
]
  where
    never : (x : Exc) → ok bytes ≡ raise x → ⊥
    never x k = cc

-- What `encode` makes of a text decodes to that text.
pub decode-encode :
    (text : Str) (bytes : List ℕ)
    → All IsChar text
    → encode text ≡ ok bytes
    → decode bytes ≡ ok text
decode-encode text bytes h e = unfold decode in decode_from-encode text bytes h e

-- `encode` makes bytes.
encode_char-IsByte :
    (c : ℕ) (bytes : List ℕ) → IsChar c → encode_char c ≡ ok bytes → All IsByte bytes
encode_char-IsByte c bytes h e = elim (Bool-cases (ltb c 128)) [
  | inl p ↦ from (c ∷ []) (unfold encode_char in rw p refl) (ground arith, tt)
  | inr p ↦ elim (Bool-cases (ltb c 2048)) [
    | inl q ↦
        from ((192 + c / 64) ∷ (128 + c % 64) ∷ []) (unfold encode_char in rw (p, q) refl)
          (ground arith, (omega arith, tt))
    | inr q ↦ elim (Bool-cases (is_surrogate c)) [
      | inl s ↦ absurd (lone (sym e ∙ surrogate p q s))
      | inr s ↦ elim (Bool-cases (ltb c 65536)) [
        | inl u ↦
            from ((224 + c / 4096) ∷ (128 + c / 64 % 64) ∷ (128 + c % 64) ∷ [])
              (unfold encode_char in rw (p, q, s, u) refl)
              (ground arith, (omega arith, (omega arith, tt)))
        | inr u ↦
            from
              ((240 + c / 262144)
                ∷ (128 + c / 4096 % 64)
                ∷ (128 + c / 64 % 64)
                ∷ (128 + c % 64)
                ∷ [])
              (unfold encode_char in rw (p, q, s, u) refl)
              (omega arith, (omega arith, (omega arith, (omega arith, tt))))
      ]
    ]
  ]
]
  where
    from : (bs : List ℕ) → encode_char c ≡ ok bs → All IsByte bs → All IsByte bytes
    from bs f d = let same : bytes ≡ bs = cc in rw same d

    lone : ok bytes ≡ raise Exc.unicode_encode_error → ⊥
    lone k = cc

    surrogate :
        ltb c 128 ≡ false
        → ltb c 2048 ≡ false
        → is_surrogate c ≡ true
        → encode_char c ≡ raise Exc.unicode_encode_error
    surrogate p q s = unfold encode_char in rw (p, q, s) refl

pub encode-IsByte :
    (text : Str) (bytes : List ℕ) → All IsChar text → encode text ≡ ok bytes → All IsByte bytes
encode-IsByte [] bytes h e = let same : [] ≡ bytes = unfold encode in cc in rw (← same) tt
encode-IsByte (c ∷ text) bytes h e = elim (Result-cases (encode_char c)) [
  | inl (x, f) ↦ absurd (never x (sym e ∙ no_char c text x f))
  | inr (first, f) ↦ elim (Result-cases (encode text)) [
    | inl (x, g) ↦ absurd (never x (sym e ∙ no_rest c text first x f g))
    | inr (rest, g) ↦
        let whole : ok bytes ≡ ok (first ++ rest) = sym e ∙ both c text first rest f g in
        let same : bytes ≡ first ++ rest = cc in
        rw same (
          All-append IsByte first rest (encode_char-IsByte c first h.0 f)
            (encode-IsByte text rest h.1 g))
  ]
]
  where
    never : (x : Exc) → ok bytes ≡ raise x → ⊥
    never x k = cc
