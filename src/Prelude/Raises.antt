-- ===== src/Prelude/Raises.antt =====
-- Python code that may raise: a value, or the exception that leaves the call.
use mathlib.Core.Path.{◌≡◌, refl}
use mathlib.Core.List.{List}
use Prim.Native.Nat.{ℕ}
use mathlib.Core.Logic.{◌⊎◌, inl, inr}

pub data Exc : Type 0 where
  field_encryption_config_error : Exc
  field_decryption_error : Exc
  unicode_encode_error : Exc
  unicode_decode_error : Exc
  value_error : Exc
  type_error : Exc
  overflow_error : Exc
  unique_violation : Exc
  numeric_value_out_of_range : Exc
  operational_error : Exc
  runtime_error : Exc
  -- `web.HTTPForbidden`, for a missing scope
  http_forbidden : List ℕ → Exc

pub data Result {ℓ} (A : Type ℓ) : Type ℓ where
  ok : A → Result A
  raise : Exc → Result A

infixl 5 ◌>>=◌
abbrev pub ◌>>=◌ {ℓ κ} : {A : Type ℓ} {B : Type κ} → Result A → (A → Result B) → Result B
ok a >>= f = f a
raise e >>= f = raise e

pub Result-cases {ℓ} :
    {A : Type ℓ} (r : Result A) → ((e : Exc) × (r ≡ raise e)) ⊎ ((a : A) × (r ≡ ok a))
Result-cases (ok a) = inr (a, refl)
Result-cases (raise e) = inl (e, refl)

-- What comes of a chain has come of its first step.
pub Result-bind {ℓ κ} :
    {A : Type ℓ} {B : Type κ} (r : Result A) (f : A → Result B) (b : B)
    → (r >>= f) ≡ ok b
    → (a : A) × (r ≡ ok a) × (f a ≡ ok b)
Result-bind (ok a) f b h = (a, refl, h)
Result-bind (raise e) f b h = absurd cc
