-- ===== src/Api/Values.antt =====
-- Texts as the handlers read them: `strip`, `lower`, `int`, and the pattern of a perceptual hash.
use fingerprint_hub.Prelude.{
  ℕ, zero, suc, ◌+◌, ◌-◌, ◌*◌, Str, Bool, true, false, not, ◌&&◌, ◌||◌, Option, none, some, List,
  [], ◌∷◌, map, length, leb, ◌==◌, if◌then◌else◌,
}
use fingerprint_hub.Prelude.Int.{ℤ, pos, negsuc}
use mathlib.Core.List.{reverse}

-- `str.isspace`, of one code point
abbrev pub spaces : List (ℕ × ℕ)
spaces =
    (9, 13)
    ∷ (28, 32)
    ∷ (133, 133)
    ∷ (160, 160)
    ∷ (5760, 5760)
    ∷ (8192, 8202)
    ∷ (8232, 8233)
    ∷ (8239, 8239)
    ∷ (8287, 8287)
    ∷ (12288, 12288)
    ∷ []

unfoldable pub in_ranges : ℕ → List (ℕ × ℕ) → Bool
in_ranges c [] = false
in_ranges c ((lo, hi) ∷ ranges) = (leb lo c && leb c hi) || in_ranges c ranges

unfoldable pub is_space : ℕ → Bool
unfolding in_ranges
is_space c = in_ranges c spaces

unfoldable pub skip : (ℕ → Bool) → Str → Str
skip p [] = []
skip p (c ∷ s) = let rest = skip p s in if p c then rest else c ∷ s

unfoldable pub strip_by : (ℕ → Bool) → Str → Str
unfolding skip
strip_by p s = reverse (skip p (reverse (skip p s)))

unfoldable pub strip : Str → Str
unfolding strip_by is_space
strip = strip_by is_space

-- `str.lower`, of the letters A to Z. The service compares its result with ASCII texts without a k,
-- and no other letter has a lower case form within ASCII except U+212A, whose form is k, and U+0130,
-- whose form has a second code point outside ASCII.
unfoldable pub lower : Str → Str
lower = map (λ c. if leb 65 c && leb c 90 then c + 32 else c)

-- the zeros of Unicode's decimal digits
abbrev pub zeros : List ℕ
zeros =
    48 ∷ 1632 ∷ 1776 ∷ 1984 ∷ 2406 ∷ 2534 ∷ 2662 ∷ 2790 ∷ 2918 ∷ 3046 ∷ 3174 ∷ 3302 ∷ 3430 ∷ 3558
    ∷ 3664 ∷ 3792 ∷ 3872 ∷ 4160 ∷ 4240 ∷ 6112 ∷ 6160 ∷ 6470 ∷ 6608 ∷ 6784 ∷ 6800 ∷ 6992 ∷ 7088
    ∷ 7232 ∷ 7248 ∷ 42528 ∷ 43216 ∷ 43264 ∷ 43472 ∷ 43504 ∷ 43600 ∷ 44016 ∷ 65296 ∷ 66720 ∷ 68912
    ∷ 69734 ∷ 69872 ∷ 69942 ∷ 70096 ∷ 70384 ∷ 70736 ∷ 70864 ∷ 71248 ∷ 71360 ∷ 71472 ∷ 71904 ∷ 72016
    ∷ 72784 ∷ 73040 ∷ 73120 ∷ 92768 ∷ 92864 ∷ 93008 ∷ 120782 ∷ 120792 ∷ 120802 ∷ 120812 ∷ 120822
    ∷ 123200 ∷ 123632 ∷ 125264 ∷ 130032 ∷ []

unfoldable pub digit_from : List ℕ → ℕ → Option ℕ
digit_from [] c = none
digit_from (z ∷ zs) c =
    let rest = digit_from zs c in if leb z c && leb c (z + 9) then some (c - z) else rest

unfoldable pub digit : ℕ → Option ℕ
unfolding digit_from
digit = digit_from zeros

-- Digits with single underscores between them. The limit counts the digits down, and the flag says
-- whether a digit was just read.
unfoldable pub digits : ℕ → Bool → ℕ → Str → Option ℕ
unfolding digit
digits limit false value [] = none
digits limit true value [] = some value
digits limit after value (c ∷ s) = elim (digit c) [
  | some d ↦ elim limit [ zero ↦ none | suc n ↦ digits n true (value * 10 + d) s ]
  | none ↦ elim (after && c == 95) [ true ↦ digits limit false value s | false ↦ none ]
]

-- `sys.get_int_max_str_digits()`
abbrev pub max_str_digits : ℕ
max_str_digits = 4300

abbrev negated : ℕ → ℤ
negated n = elim n [ zero ↦ pos 0 | suc m ↦ negsuc m ]

unfoldable pub signed : Str → Option ℤ
unfolding digits
signed [] = none
signed (c ∷ s) =
    if c == 45
    then elim (digits max_str_digits false 0 s) [ none ↦ none | some n ↦ some (negated n) ]
    else if c == 43
    then elim (digits max_str_digits false 0 s) [ none ↦ none | some n ↦ some (pos n) ]
    else elim (digits max_str_digits false 0 (c ∷ s)) [ none ↦ none | some n ↦ some (pos n) ]

-- the spaces that `int` drops at either end
unfoldable pub is_int_space : ℕ → Bool
unfolding is_space
is_int_space c = is_space c && not (leb 28 c && leb c 31)

-- `int(text)`, where none is the ValueError
unfoldable pub int : Str → Option ℤ
unfolding signed strip_by is_int_space
int s = signed (strip_by is_int_space s)

-- [0-9a-f]
unfoldable pub is_hex : ℕ → Bool
is_hex c = (leb 48 c && leb c 57) || (leb 97 c && leb c 102)

unfoldable pub all_hex : Str → Bool
unfolding is_hex
all_hex [] = true
all_hex (c ∷ s) = is_hex c && all_hex s

-- `_PHASH_RE`, whose `$` also matches before a newline at the end
unfoldable pub matches_phash : ℕ → Str → Bool
unfolding is_hex
matches_phash zero [] = true
matches_phash zero (c ∷ []) = c == 10
matches_phash zero (c ∷ d ∷ s) = false
matches_phash (suc n) [] = false
matches_phash (suc n) (c ∷ s) = is_hex c && matches_phash n s

-- `text.strip() or None`
unfoldable pub nonempty : Str → Option Str
nonempty [] = none
nonempty (c ∷ s) = some (c ∷ s)

-- `value is None or not value.strip()`
unfoldable pub is_blank : Option Str → Bool
unfolding strip
is_blank none = true
is_blank (some s) = length (strip s) == 0
