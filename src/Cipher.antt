-- ===== src/Cipher.antt =====
-- What the store and the handlers call of utils/field_encryption.py: `encrypt_text` under the
-- keyring of the environment, with the random nonce of the call as an argument, and
-- `decrypt_text_field` of a value that is not NULL.
use fingerprint_hub.Prelude.{ℕ, Str, Option, List, Result}

pub record Cipher : Type 0 where
  pub encrypt : List ℕ → Option Str → Result (Option Str)
  pub decrypt : Str → Result Str
