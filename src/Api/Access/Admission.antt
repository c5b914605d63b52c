-- ===== src/Api/Access/Admission.antt =====
-- Which requests the middleware lets through to a handler.
use fingerprint_hub.Prelude.{
  if◌then◌else◌, subst, ℕ, ◌≡◌, refl, sym, ap, ◌∙◌, Str, codes, Option, none, some, Bool, true,
  false, [], ◌∷◌, Bool-cases, Option-cases, inl, inr,
}
use fingerprint_hub.Prelude.Int.{ℤ}
use fingerprint_hub.Schema.{Consumer, Db}
use fingerprint_hub.Consumers.{find_by_key_hash}
use fingerprint_hub.Api.Messages.{Reply, failure}
use fingerprint_hub.Api.Access.{
  Arrival, Gate, Decision, denied, admitted, unauthenticated, rate_limited, admit, authenticate,
}

-- A request that is let through under the name of a consumer.
pub record IsAdmitted (digest : Str → Str) (limit : ℤ) (a : Arrival) (g : Gate) (db : Db)
    (k : Consumer) : Type 0 where
  pub key : Str
  pub given : a.api_key ≡ some key
  pub closed : a.is_public ≡ false
  pub found : find_by_key_hash (digest key) db ≡ some k
  pub enabled : k.enabled ≡ true
  pub unlimited : (rate_limited limit a.now (g.request_times k.id)).0 ≡ false

apart : {r : Reply} {k : Consumer} → denied r ≡ admitted k → ⊥
apart e = cc

module _ (digest : Str → Str) (limit : ℤ) (a : Arrival) (g : Gate) (db : Db) (k : Consumer) where
  admit-limit :
      (consumer : Consumer)
      → (admit limit consumer a g db).0 ≡ admitted k
      → (consumer ≡ k) × ((rate_limited limit a.now (g.request_times consumer.id)).0 ≡ false)
  admit-limit consumer h =
      elim (Bool-cases (rate_limited limit a.now (g.request_times consumer.id)).0) [
        | inl e ↦ absurd (apart (sym (over e) ∙ h))
        | inr e ↦ (let s = sym (under e) ∙ h in cc, e)
      ]
    where
      over :
          (rate_limited limit a.now (g.request_times consumer.id)).0 ≡ true
          → (admit limit consumer a g db).0 ≡ denied (failure 429 (codes "rate limit exceeded"))
      over e = unfold admit in rw (e, admit) refl

      under :
          (rate_limited limit a.now (g.request_times consumer.id)).0 ≡ false
          → (admit limit consumer a g db).0 ≡ admitted consumer
      under e = unfold admit in rw (e, admit) refl

  abbrev enabled_only : Bool → Consumer → Decision × Gate × Db
  enabled_only b consumer =
      if b
      then admit limit consumer a g db
      else (denied (failure 401 (codes "invalid or disabled API key")), g, db)

  -- What follows the look-up of the key.
  abbrev looked_up : Option Consumer → Decision × Gate × Db
  looked_up o = elim o [
    | none ↦ (denied (failure 401 (codes "invalid or disabled API key")), g, db)
    | some consumer ↦ enabled_only consumer.enabled consumer
  ]

  abbrev decision : Decision
  decision = (authenticate digest limit a g db).0

  public_decision : a.is_public ≡ true → decision ≡ unauthenticated
  public_decision e = unfold authenticate in rw (e, authenticate) refl

  module _ (e : a.is_public ≡ false) where
    keyless_decision :
        a.api_key ≡ none → decision ≡ denied (failure 401 (codes "missing X-API-Key"))
    keyless_decision f = unfold authenticate in rw (e, f, authenticate) refl

    empty_decision :
        a.api_key ≡ some [] → decision ≡ denied (failure 401 (codes "missing X-API-Key"))
    empty_decision f = unfold authenticate in rw (e, f, authenticate) refl

    module _ (c : ℕ) (key : Str) (f : a.api_key ≡ some (c ∷ key)) where
      keyed_decision : decision ≡ (looked_up (find_by_key_hash (digest (c ∷ key)) db)).0
      keyed_decision = unfold authenticate in rw (e, f, authenticate) refl

      unknown_decision :
          find_by_key_hash (digest (c ∷ key)) db ≡ none
          → decision ≡ denied (failure 401 (codes "invalid or disabled API key"))
      unknown_decision n = keyed_decision ∙ ap (λ o. (looked_up o).0) n

      known_decision :
          (consumer : Consumer)
          → find_by_key_hash (digest (c ∷ key)) db ≡ some consumer
          → decision ≡ (enabled_only consumer.enabled consumer).0
      known_decision consumer n = keyed_decision ∙ ap (λ o. (looked_up o).0) n

      known-IsAdmitted :
          (consumer : Consumer)
          → find_by_key_hash (digest (c ∷ key)) db ≡ some consumer
          → decision ≡ admitted k
          → IsAdmitted digest limit a g db k
      known-IsAdmitted consumer n h = elim (Bool-cases consumer.enabled) [
        | inl on ↦
            let (same, free) = admit-limit consumer (
              sym (ap (λ b. (enabled_only b consumer).0) on)
              ∙ sym (known_decision consumer n)
              ∙ h) in
            record {
              key = c ∷ key;
              given = f;
              closed = e;
              found = n ∙ ap some same;
              enabled = sym (ap (λ x. x.enabled) same) ∙ on;
              unlimited =
                  subst (λ x. (rate_limited limit a.now (g.request_times x.id)).0 ≡ false) same
                    free;
            }
        | inr off ↦ absurd (
            apart (
              sym (ap (λ b. (enabled_only b consumer).0) off)
              ∙ sym (known_decision consumer n)
              ∙ h))
      ]

  -- Only a request with a key reaches a handler under a consumer: the digest of the key finds the
  -- consumer, which is enabled and has not used up its rate limit.
  pub authenticate-IsAdmitted :
      (authenticate digest limit a g db).0 ≡ admitted k → IsAdmitted digest limit a g db k
  authenticate-IsAdmitted h = elim (Bool-cases a.is_public) [
    | inl e ↦ absurd (public_apart (sym (public_decision e) ∙ h))
    | inr e ↦ elim (Option-cases a.api_key) [
      | inl f ↦ absurd (apart (sym (keyless_decision e f) ∙ h))
      | inr ([], f) ↦ absurd (apart (sym (empty_decision e f) ∙ h))
      | inr (c ∷ key, f) ↦ elim (Option-cases (find_by_key_hash (digest (c ∷ key)) db)) [
        | inl n ↦ absurd (apart (sym (unknown_decision e c key f n) ∙ h))
        | inr (consumer, n) ↦ known-IsAdmitted e c key f consumer n h
      ]
    ]
  ]
    where
      public_apart : unauthenticated ≡ admitted k → ⊥
      public_apart e = cc
