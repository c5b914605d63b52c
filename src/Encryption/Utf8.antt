-- ===== src/Encryption/Utf8.antt =====
-- `str.encode("utf-8")` and `bytes.decode("utf-8")`, both strict.
mod Sequences
pub mod RoundTrip
use Prim.Native.Nat.{◌/◌, ◌%◌}
use fingerprint_hub.Prelude.{
  ℕ, zero, suc, ◌+◌, ◌-◌, ◌*◌, ◌<◌, ◌≤◌, ◌≡◌, ◌∙◌, refl, sym, ap, Str, Bool, true, false, not, ◌&&◌,
  Result, ok, raise, Exc, ◌>>=◌, List, [], ◌∷◌, ◌++◌, leb, ltb, if◌then◌else◌, arith, All,
  Bool-cases, inl, inr, ◌⊎◌, Result-cases,
}
use fingerprint_hub.Encryption.Base64.{IsByte}

unfoldable pub is_surrogate : ℕ → Bool
is_surrogate c = leb 55296 c && leb c 57343

unfoldable pub encode_char : ℕ → Result (List ℕ)
unfolding is_surrogate
encode_char c =
    if ltb c 128
    then ok (c ∷ [])
    else if ltb c 2048
    then ok ((192 + c / 64) ∷ (128 + c % 64) ∷ [])
    else if is_surrogate c
    then raise Exc.unicode_encode_error
    else if ltb c 65536
    then ok ((224 + c / 4096) ∷ (128 + c / 64 % 64) ∷ (128 + c % 64) ∷ [])
    else ok ((240 + c / 262144) ∷ (128 + c / 4096 % 64) ∷ (128 + c / 64 % 64) ∷ (128 + c % 64) ∷ [])

unfoldable pub encode : Str → Result (List ℕ)
encode [] = ok []
encode (c ∷ s) = do first ← encode_char c; rest ← encode s; ok (first ++ rest)

-- Between two bytes: how many continuation bytes are due, the least code point that this length may
-- stand for, and the bits so far. `emitted` is the character that the last byte completed.
pub record State : Type 0 where
  pub emitted : Str
  pub due : ℕ
  pub low : ℕ
  pub bits : ℕ

abbrev start : Str → State
start emitted = record { emitted = emitted; due = 0; low = 0; bits = 0 }

abbrev wait : ℕ → ℕ → ℕ → State
wait due low bits = record { emitted = []; due = due; low = low; bits = bits }

unfoldable pub lead : ℕ → Result State
lead b =
    if ltb b 128
    then ok (start (b ∷ []))
    else if leb 194 b && leb b 223
    then ok (wait 1 128 (b - 192))
    else if leb 224 b && leb b 239
    then ok (wait 2 2048 (b - 224))
    else if leb 240 b && leb b 244
    then ok (wait 3 65536 (b - 240))
    else raise Exc.unicode_decode_error

unfoldable pub continued : ℕ → ℕ → ℕ → Result State
unfolding is_surrogate
continued zero low bits =
    if leb low bits && (ltb bits 1114112 && not (is_surrogate bits))
    then ok (start (bits ∷ []))
    else raise Exc.unicode_decode_error
continued (suc due) low bits = ok (wait (suc due) low bits)

unfoldable pub read_byte : State → ℕ → Result State
unfolding lead continued
read_byte s b = elim s.due [
  | zero ↦ lead b
  | suc due ↦
      if leb 128 b && leb b 191
      then continued due s.low (s.bits * 64 + (b - 128))
      else raise Exc.unicode_decode_error
]

unfoldable pub decode_from : State → List ℕ → Result Str
decode_from s [] = elim s.due [ zero ↦ ok [] | suc _ ↦ raise Exc.unicode_decode_error ]
decode_from s (b ∷ bytes) = do
  next ← read_byte s b
  rest ← decode_from next bytes
  ok (next.emitted ++ rest)

unfoldable pub decode : List ℕ → Result Str
unfolding decode_from
decode = decode_from (start [])
