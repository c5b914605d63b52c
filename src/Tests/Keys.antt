-- ===== src/Tests/Keys.antt =====
-- A keyring of one key.
use fingerprint_hub.Prelude.{refl, codes, some, [], ◌∷◌, List, ℕ}
use fingerprint_hub.Encryption.Base64.{sextet}
use fingerprint_hub.Encryption.Envelope.{Keyring}
use fingerprint_hub.Encryption.Keyring.{parse_keyring}
use fingerprint_hub.Encryption.Keyring.Parsing.{IsKeyring, parse_keyring-IsKeyring}

abbrev zeros : List ℕ
zeros =
    0 ∷ 0 ∷ 0 ∷ 0 ∷ 0 ∷ 0 ∷ 0 ∷ 0 ∷ 0 ∷ 0 ∷ 0 ∷ 0 ∷ 0 ∷ 0 ∷ 0 ∷ 0 ∷ 0 ∷ 0 ∷ 0 ∷ 0 ∷ 0 ∷ 0 ∷ 0 ∷ 0
    ∷ 0 ∷ 0 ∷ 0 ∷ 0 ∷ 0 ∷ 0 ∷ 0 ∷ 0 ∷ []

abbrev one_key : Keyring
one_key = record { keys = (codes "k1", zeros) ∷ []; active_key_id = codes "k1" }

parse_keyring-IsKeyring_example : IsKeyring one_key
unfolding parse_keyring sextet
parse_keyring-IsKeyring_example =
    parse_keyring-IsKeyring (some (codes " k1: AAAAAAAAAAAAAAAAAAAAAAAAAAAAAAAAAAAAAAAAAAA= "))
      (some (codes "k1")) one_key refl
