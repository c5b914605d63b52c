-- ===== src/Encryption/Base64.antt =====
-- Base64 as `base64.b64encode` writes it and `base64.b64decode(…, validate=True)` reads it.
use Prim.Native.Nat.{◌/◌, ◌%◌}
use fingerprint_hub.Prelude.{
  ℕ, ◌+◌, ◌-◌, ◌*◌, ◌<◌, ◌≡◌, refl, Str, false, ◌&&◌, Option, none, some, Result, ok, raise, Exc,
  ◌>>=◌, ◌++◌, List, [], ◌∷◌, ◌∙◌, ap, sym, leb, ltb, ◌==◌, if◌then◌else◌, arith, All,
}

-- the character of six bits
unfoldable pub symbol : ℕ → ℕ
symbol n =
    if ltb n 26
    then 65 + n
    else if ltb n 52
    then 97 + (n - 26)
    else if ltb n 62
    then 48 + (n - 52)
    else if n == 62
    then 43
    else 47

unfoldable pub sextet : ℕ → Option ℕ
sextet c =
    if leb 65 c && leb c 90
    then some (c - 65)
    else if leb 97 c && leb c 122
    then some (c - 97 + 26)
    else if leb 48 c && leb c 57
    then some (c - 48 + 52)
    else if c == 43
    then some 62
    else if c == 47
    then some 63
    else none

pub sextet-symbol : (n : ℕ) → n < 64 → sextet (symbol n) ≡ some n
unfolding sextet symbol
sextet-symbol n h = ground arith

symbol-pad : (n : ℕ) → n < 64 → (symbol n == 61) ≡ false
unfolding symbol
symbol-pad n h = ground arith

unfoldable pub b64encode : List ℕ → Str
unfolding symbol
b64encode [] = []
b64encode (a ∷ []) = symbol (a / 4) ∷ symbol (a % 4 * 16) ∷ 61 ∷ 61 ∷ []
b64encode (a ∷ b ∷ []) =
    symbol (a / 4) ∷ symbol (a % 4 * 16 + b / 16) ∷ symbol (b % 16 * 4) ∷ 61 ∷ []
b64encode (a ∷ b ∷ c ∷ rest) =
    symbol (a / 4)
    ∷ symbol (a % 4 * 16 + b / 16)
    ∷ symbol (b % 16 * 4 + c / 64)
    ∷ symbol (c % 64)
    ∷ b64encode rest

-- One sextet, where a character outside the alphabet is a `binascii.Error`, a ValueError.
unfoldable pub read_sextet : ℕ → Result ℕ
read_sextet c = elim (sextet c) [ none ↦ raise Exc.value_error | some n ↦ ok n ]

unfoldable pub four : ℕ → ℕ → ℕ → ℕ → Result (List ℕ)
unfolding read_sextet
four a b c d = do
  x ← read_sextet a
  y ← read_sextet b
  z ← read_sextet c
  w ← read_sextet d
  ok ((x * 4 + y / 16) ∷ (y % 16 * 16 + z / 4) ∷ (z % 4 * 64 + w) ∷ [])

unfoldable pub three : ℕ → ℕ → ℕ → Result (List ℕ)
unfolding read_sextet
three a b c = do
  x ← read_sextet a
  y ← read_sextet b
  z ← read_sextet c
  ok ((x * 4 + y / 16) ∷ (y % 16 * 16 + z / 4) ∷ [])

unfoldable pub two : ℕ → ℕ → Result (List ℕ)
unfolding read_sextet
two a b = do x ← read_sextet a; y ← read_sextet b; ok ((x * 4 + y / 16) ∷ [])

-- The last four characters may end in padding.
unfoldable pub last_four : ℕ → ℕ → ℕ → ℕ → Result (List ℕ)
unfolding two three four
last_four a b c d = if d == 61 then if c == 61 then two a b else three a b c else four a b c d

unfoldable pub b64decode : Str → Result (List ℕ)
unfolding last_four four
b64decode [] = ok []
b64decode (a ∷ b ∷ c ∷ d ∷ []) = last_four a b c d
b64decode (a ∷ b ∷ c ∷ d ∷ e ∷ s) = do
  first ← four a b c d
  rest ← b64decode (e ∷ s)
  ok (first ++ rest)
b64decode _ = raise Exc.value_error

read_sextet-symbol : (n : ℕ) → n < 64 → read_sextet (symbol n) ≡ ok n
read_sextet-symbol n h = unfold read_sextet in rw (sextet-symbol n h, read_sextet) refl

four-symbol :
    (x y z w : ℕ)
    → x < 64
    → y < 64
    → z < 64
    → w < 64
    → four (symbol x) (symbol y) (symbol z) (symbol w)
      ≡ ok ((x * 4 + y / 16) ∷ (y % 16 * 16 + z / 4) ∷ (z % 4 * 64 + w) ∷ [])
unfolding four
four-symbol x y z w hx hy hz hw =
    rw
      (
        read_sextet-symbol x hx,
        read_sextet-symbol y hy,
        read_sextet-symbol z hz,
        read_sextet-symbol w hw,
      )
      refl

three-symbol :
    (x y z : ℕ)
    → x < 64
    → y < 64
    → z < 64
    → three (symbol x) (symbol y) (symbol z) ≡ ok ((x * 4 + y / 16) ∷ (y % 16 * 16 + z / 4) ∷ [])
unfolding three
three-symbol x y z hx hy hz =
    rw (read_sextet-symbol x hx, read_sextet-symbol y hy, read_sextet-symbol z hz) refl

two-symbol : (x y : ℕ) → x < 64 → y < 64 → two (symbol x) (symbol y) ≡ ok ((x * 4 + y / 16) ∷ [])
unfolding two
two-symbol x y hx hy = rw (read_sextet-symbol x hx, read_sextet-symbol y hy) refl

abbrev pub IsByte : ℕ → Type 0
IsByte b = b < 256

triple :
    (a b c : ℕ)
    → IsByte a
    → IsByte b
    → IsByte c
    → four
        (symbol (a / 4))
        (symbol (a % 4 * 16 + b / 16))
        (symbol (b % 16 * 4 + c / 64))
        (symbol (c % 64))
      ≡ ok (a ∷ b ∷ c ∷ [])
triple a b c ha hb hc =
    four-symbol (a / 4) (a % 4 * 16 + b / 16) (b % 16 * 4 + c / 64) (c % 64) (omega arith)
      (omega arith) (omega arith) (omega arith)
    ∙ ground arith

-- The encoding of some bytes is some characters.
encoded : (a : ℕ) (rest : List ℕ) → (c : ℕ) × (s : Str) × (b64encode (a ∷ rest) ≡ c ∷ s)
unfolding b64encode
encoded a [] = (symbol (a / 4), _, refl)
encoded a (b ∷ []) = (symbol (a / 4), _, refl)
encoded a (b ∷ c ∷ rest) = (symbol (a / 4), _, refl)

module _ (x y : ℕ) where
  b64decode-two : b64decode (x ∷ y ∷ 61 ∷ 61 ∷ []) ≡ two x y
  unfolding b64decode last_four
  b64decode-two = refl

  b64decode-three : (z : ℕ) → (z == 61) ≡ false → b64decode (x ∷ y ∷ z ∷ 61 ∷ []) ≡ three x y z
  unfolding b64decode last_four
  b64decode-three z h = rw h refl

  b64decode-four : (z w : ℕ) → (w == 61) ≡ false → b64decode (x ∷ y ∷ z ∷ w ∷ []) ≡ four x y z w
  unfolding b64decode last_four
  b64decode-four z w h = rw h refl

  b64decode_more :
      (z w e : ℕ) (s : Str) (bytes more : List ℕ)
      → four x y z w ≡ ok bytes
      → b64decode (e ∷ s) ≡ ok more
      → b64decode (x ∷ y ∷ z ∷ w ∷ e ∷ s) ≡ ok (bytes ++ more)
  b64decode_more z w e s bytes more h k = unfold b64decode in rw (h, k, b64decode) refl

-- What was encoded from bytes decodes to them.
pub b64decode-b64encode :
    (bytes : List ℕ) → All IsByte bytes → b64decode (b64encode bytes) ≡ ok bytes
unfolding b64encode
b64decode-b64encode [] h = unfold b64decode in refl
b64decode-b64encode (a ∷ []) h =
    b64decode-two (symbol (a / 4)) (symbol (a % 4 * 16))
    ∙ two-symbol (a / 4) (a % 4 * 16) (omega (arith, h.0)) (omega arith)
    ∙ ground (arith, h.0)
b64decode-b64encode (a ∷ b ∷ []) h =
    b64decode-three (symbol (a / 4)) (symbol (a % 4 * 16 + b / 16)) (symbol (b % 16 * 4))
      (symbol-pad (b % 16 * 4) (omega arith))
    ∙ three-symbol (a / 4) (a % 4 * 16 + b / 16) (b % 16 * 4) (omega (arith, h.0))
        (omega (arith, h.1.0)) (omega arith)
    ∙ ground (arith, h.0, h.1.0)
b64decode-b64encode (a ∷ b ∷ c ∷ []) h =
    b64decode-four (symbol (a / 4)) (symbol (a % 4 * 16 + b / 16)) (symbol (b % 16 * 4 + c / 64))
      (symbol (c % 64)) (symbol-pad (c % 64) (omega arith))
    ∙ triple a b c h.0 h.1.0 h.1.1.0
b64decode-b64encode (a ∷ b ∷ c ∷ d ∷ rest) h =
    let (e, s, k) = encoded d rest in
    let next = b64decode-b64encode (d ∷ rest) h.1.1.1 in
    ap
      (λ t. b64decode (
        symbol (a / 4)
        ∷ symbol (a % 4 * 16 + b / 16)
        ∷ symbol (b % 16 * 4 + c / 64)
        ∷ symbol (c % 64)
        ∷ t))
      k
    ∙ b64decode_more (symbol (a / 4)) (symbol (a % 4 * 16 + b / 16)) (symbol (b % 16 * 4 + c / 64))
        (symbol (c % 64)) e s (a ∷ b ∷ c ∷ []) (d ∷ rest) (triple a b c h.0 h.1.0 h.1.1.0)
        (ap b64decode (sym k) ∙ next)
