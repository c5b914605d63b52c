-- ===== src/Store/Contribute/Fields.antt =====
-- What `contribute` of api/fingerprint_store.py encrypts.
use fingerprint_hub.Prelude.{◌≡◌, refl, Str, Option, ok, ◌>>=◌, Result-bind}
use fingerprint_hub.Cipher.{Cipher}
use fingerprint_hub.Store.Contribute.{Contribution, Nonces, encrypt_fields}

-- The three fields come of three calls, and the others are as they were.
pub record Encrypted (c : Cipher) (n : Nonces) (x y : Contribution) : Type 0 where
  pub reason : c.encrypt n.reason x.reason ≡ ok y.reason
  pub source_url : c.encrypt n.source_url x.source_url ≡ ok y.source_url
  pub source_guild_id : c.encrypt n.source_guild_id x.source_guild_id ≡ ok y.source_guild_id
  pub rest : y ≡ record x {
    source_guild_id = y.source_guild_id;
    reason = y.reason;
    source_url = y.source_url;
  }

abbrev with_fields : Contribution → Option Str → Option Str → Option Str → Contribution
with_fields x reason source_url source_guild_id = record x {
  source_guild_id = source_guild_id;
  reason = reason;
  source_url = source_url;
}

pub encrypt_fields-Encrypted :
    (c : Cipher) (n : Nonces) (x y : Contribution) → encrypt_fields c n x ≡ ok y → Encrypted c n x y
unfolding encrypt_fields
encrypt_fields-Encrypted c n x y h =
    let (reason, e₁, h₁) =
      Result-bind (c.encrypt n.reason x.reason)
        (λ r. c.encrypt n.source_url x.source_url >>= (λ u.
          c.encrypt n.source_guild_id x.source_guild_id >>= (λ g. ok (with_fields x r u g))))
        y h in
    let (url, e₂, h₂) =
      Result-bind (c.encrypt n.source_url x.source_url)
        (λ u.
          c.encrypt n.source_guild_id x.source_guild_id >>= (λ g. ok (with_fields x reason u g)))
        y h₁ in
    let (guild, e₃, h₃) =
      Result-bind (c.encrypt n.source_guild_id x.source_guild_id)
        (λ g. ok (with_fields x reason url g)) y h₂ in
    let same : with_fields x reason url guild ≡ y = cc in
    rw (← same) (record { reason = e₁; source_url = e₂; source_guild_id = e₃; rest = refl })
