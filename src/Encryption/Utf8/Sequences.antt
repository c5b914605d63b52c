-- ===== src/Encryption/Utf8/Sequences.antt =====
-- How the bytes of one character are read.
use Prim.Native.Nat.{◌/◌, ◌%◌}
use fingerprint_hub.Prelude.{
  ℕ, suc, ◌+◌, ◌-◌, ◌*◌, ◌<◌, ◌≤◌, ◌≡◌, ◌∙◌, refl, Str, true, false, ◌&&◌, ok, List, [], ◌∷◌, ◌++◌,
  leb, ltb, arith,
}
use fingerprint_hub.Encryption.Utf8.{
  is_surrogate, State, start, wait, lead, continued, read_byte, decode_from,
}

-- Reading one byte that is expected.
decode-step :
    (s t : State) (b : ℕ) (bytes : List ℕ) (text : Str)
    → read_byte s b ≡ ok t
    → decode_from t bytes ≡ ok text
    → decode_from s (b ∷ bytes) ≡ ok (t.emitted ++ text)
decode-step s t b bytes text h k = unfold decode_from in rw (h, k, decode_from) refl

-- The emitted character of a state does not matter to what is read next.
decode_emitted :
    (e : Str) (bytes : List ℕ) → decode_from (start e) bytes ≡ decode_from (start []) bytes
unfolding decode_from read_byte
decode_emitted e [] = refl
decode_emitted e (b ∷ bytes) = refl

lead-ascii : (c : ℕ) → c < 128 → lead c ≡ ok (start (c ∷ []))
unfolding lead
lead-ascii c h = ground arith

lead-two : (x : ℕ) → 2 ≤ x → x < 32 → lead (192 + x) ≡ ok (wait 1 128 x)
unfolding lead
lead-two x l h = ground arith

lead-three : (x : ℕ) → x < 16 → lead (224 + x) ≡ ok (wait 2 2048 x)
unfolding lead
lead-three x h = ground arith

lead-four : (x : ℕ) → x < 5 → lead (240 + x) ≡ ok (wait 3 65536 x)
unfolding lead
lead-four x h = ground arith

read-more :
    (n low bits x : ℕ)
    → x < 64
    → read_byte (wait (suc n) low bits) (128 + x) ≡ continued n low (bits * 64 + x)
unfolding read_byte
read-more n low bits x h =
    let inside : (leb 128 (128 + x) && leb (128 + x) 191) ≡ true = ground arith in
    let value : bits * 64 + (128 + x - 128) ≡ bits * 64 + x = omega arith in rw (inside, value) refl

continued-last :
    (low bits : ℕ)
    → low ≤ bits
    → bits < 1114112
    → is_surrogate bits ≡ false
    → continued 0 low bits ≡ ok (start (bits ∷ []))
unfolding continued
continued-last low bits l h s =
    let least : leb low bits ≡ true = ground arith in
    let most : ltb bits 1114112 ≡ true = ground arith in rw (least, most, s) refl

module _ (c : ℕ) (rest : List ℕ) (text : Str) (k : decode_from (start []) rest ≡ ok text) where
  after_char : decode_from (start (c ∷ [])) rest ≡ ok text
  after_char = decode_emitted (c ∷ []) rest ∙ k

  pub one_byte : c < 128 → decode_from (start []) (c ∷ rest) ≡ ok (c ∷ text)
  one_byte h =
      decode-step (start []) (start (c ∷ [])) c rest text (unfold read_byte in lead-ascii c h)
        after_char

  last_byte :
      (low bits x : ℕ)
      → x < 64
      → bits * 64 + x ≡ c
      → low ≤ c
      → c < 1114112
      → is_surrogate c ≡ false
      → decode_from (wait 1 low bits) ((128 + x) ∷ rest) ≡ ok (c ∷ text)
  last_byte low bits x h e l m s =
      decode-step (wait 1 low bits) (start (c ∷ [])) (128 + x) rest text
        (read-more 0 low bits x h ∙ rw e (continued-last low c l m s)) after_char

  middle_byte :
      (due low bits x : ℕ) (bytes : List ℕ)
      → x < 64
      → decode_from (wait (suc due) low (bits * 64 + x)) bytes ≡ ok (c ∷ text)
      → decode_from (wait (suc (suc due)) low bits) ((128 + x) ∷ bytes) ≡ ok (c ∷ text)
  middle_byte due low bits x bytes h d =
      decode-step (wait (suc (suc due)) low bits) (wait (suc due) low (bits * 64 + x)) (128 + x)
        bytes (c ∷ text) (read-more (suc due) low bits x h ∙ unfold continued in refl) d

  pub two_bytes :
      128 ≤ c
      → c < 2048
      → decode_from (start []) ((192 + c / 64) ∷ (128 + c % 64) ∷ rest) ≡ ok (c ∷ text)
  two_bytes l h =
      decode-step (start []) (wait 1 128 (c / 64)) (192 + c / 64) ((128 + c % 64) ∷ rest) (c ∷ text)
        (unfold read_byte in lead-two (c / 64) (omega arith) (omega arith))
        (last_byte 128 (c / 64) (c % 64) (omega arith) (omega arith) l (omega arith)
          (unfold is_surrogate in ground arith))

  pub three_bytes :
      2048 ≤ c
      → c < 65536
      → is_surrogate c ≡ false
      → decode_from (start []) ((224 + c / 4096) ∷ (128 + c / 64 % 64) ∷ (128 + c % 64) ∷ rest)
        ≡ ok (c ∷ text)
  three_bytes l h s =
      decode-step (start []) (wait 2 2048 (c / 4096)) (224 + c / 4096)
        ((128 + c / 64 % 64) ∷ (128 + c % 64) ∷ rest) (c ∷ text)
        (unfold read_byte in lead-three (c / 4096) (omega arith))
        (middle_byte 0 2048 (c / 4096) (c / 64 % 64) ((128 + c % 64) ∷ rest) (omega arith) (
          last_byte 2048 (c / 4096 * 64 + c / 64 % 64) (c % 64) (omega arith) (omega arith) l
            (omega arith) s))

  pub four_bytes :
      65536 ≤ c
      → c < 1114112
      → decode_from
          (start [])
          ((240 + c / 262144) ∷ (128 + c / 4096 % 64) ∷ (128 + c / 64 % 64) ∷ (128 + c % 64) ∷ rest)
        ≡ ok (c ∷ text)
  four_bytes l h =
      decode-step (start []) (wait 3 65536 (c / 262144)) (240 + c / 262144)
        ((128 + c / 4096 % 64) ∷ (128 + c / 64 % 64) ∷ (128 + c % 64) ∷ rest) (c ∷ text)
        (unfold read_byte in lead-four (c / 262144) (omega arith))
        (middle_byte 1 65536 (c / 262144) (c / 4096 % 64)
          ((128 + c / 64 % 64) ∷ (128 + c % 64) ∷ rest) (omega arith)
          (middle_byte 0 65536 (c / 262144 * 64 + c / 4096 % 64) (c / 64 % 64)
            ((128 + c % 64) ∷ rest) (omega arith)
            (last_byte 65536 ((c / 262144 * 64 + c / 4096 % 64) * 64 + c / 64 % 64) (c % 64)
              (omega arith) (omega arith) l h (unfold is_surrogate in ground arith))))
