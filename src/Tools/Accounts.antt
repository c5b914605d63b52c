-- ===== src/Tools/Accounts.antt =====
-- A key that tools/create_consumer.py prints lets its requests into the service.
use fingerprint_hub.Prelude.{
  ℕ, ◌≡◌, ◌∙◌, refl, sym, ap, Str, Env, codes, str_in, true, false, Option, some, List, [], ◌∷◌,
  ◌++◌, All, Result, ok, raise, Exc, Bool-cases, Result-cases, inl, inr, arith, if◌then◌else◌,
}
use fingerprint_hub.Prelude.Int.{ℤ, pos, negsuc, leb_ℤ}
use fingerprint_hub.Schema.{Consumer, Db}
use fingerprint_hub.Consumers.{
  generate_api_key, find_by_key_hash, valid_scopes, is_nonempty, invalid_scopes, with_key,
  insert_consumer, create_consumer,
}
use fingerprint_hub.Consumers.Uniqueness.{create_consumer-find}
use fingerprint_hub.Api.Access.{
  Gate, Arrival, Decision, admitted, denied, drop_old, rate_limited, admit, authenticate,
}
use fingerprint_hub.Api.Messages.{failure}
use fingerprint_hub.Postgres.{PostgresSettings, PoolManager, postgres_config, get_pool}
use fingerprint_hub.Tools.{
  Exit, status, uncaught, printed, scopes_of, is_caught, report_created, create_consumer_main,
}

-- A known key of an enabled consumer that has sent nothing yet.
module _ (hash_api_key : Str → Str) (limit : ℤ) (a : Arrival) (g : Gate) (db : Db) (c : Consumer)
    (k : ℕ) (key : Str) (private_path : a.is_public ≡ false) (sent : a.api_key ≡ some (k ∷ key))
    (found : find_by_key_hash (hash_api_key (k ∷ key)) db ≡ some c) (enabled : c.enabled ≡ true)
    (unused : g.request_times c.id ≡ []) (allowed : leb_ℤ (pos 1) limit ≡ true) where
  not_limited : leb_ℤ limit (pos 0) ≡ false
  not_limited = above limit allowed
    where
      above : (z : ℤ) → leb_ℤ (pos 1) z ≡ true → leb_ℤ z (pos 0) ≡ false
      above (pos n) h = ground arith
      above (negsuc n) h = ground arith

  admit-admitted : (admit limit c a g db).0 ≡ admitted c
  unfolding admit rate_limited drop_old
  admit-admitted = rw (unused, not_limited) refl

  authenticate-admitted : (authenticate hash_api_key limit a g db).0 ≡ admitted c
  authenticate-admitted =
      known
      ∙ ap (λ b. (if b then admit limit c a g db else (refusal, g, db)).0) enabled
      ∙ admit-admitted
    where
      refusal : Decision
      refusal = denied (failure 401 (codes "invalid or disabled API key"))

      known :
          (authenticate hash_api_key limit a g db).0
          ≡ (if c.enabled then admit limit c a g db else (refusal, g, db)).0
      known = unfold authenticate in rw (private_path, sent, found, authenticate) refl

not_printed : (e : Exc) (created : ℕ × Str) → report_created (raise e) ≡ printed created → ⊥
not_printed e created h = elim (Bool-cases (is_caught e)) [
  | inl f ↦ (let r = caught f in cc)
  | inr f ↦ (let r = thrown f in cc)
]
  where
    caught : is_caught e ≡ true → report_created (raise e) ≡ status 2
    caught f = unfold report_created in rw f refl

    thrown : is_caught e ≡ false → report_created (raise e) ≡ uncaught e
    thrown f = unfold report_created in rw f refl

create_consumer-key :
    (hash_api_key : Str → Str) (token name : Str) (scopes : List Str) (now_ms : ℕ) (db : Db)
    (id : ℕ) (raw_key : Str)
    → (create_consumer hash_api_key token name scopes now_ms db).0 ≡ ok (id, raw_key)
    → raw_key ≡ generate_api_key token
unfolding create_consumer
create_consumer-key hash_api_key token name scopes now_ms db id raw_key h =
    elim (Bool-cases (is_nonempty (invalid_scopes scopes))) [
      | inl e ↦ absurd (ground arith)
      | inr e ↦
          elim (Result-cases
            (insert_consumer name (hash_api_key (generate_api_key token)) scopes now_ms db).0) [
              | inl (x, f) ↦ absurd (unfold with_key in ground arith)
              | inr (i, f) ↦ unfold with_key in ground arith
            ]
    ]

module _ (refuses : PostgresSettings → Option Exc) (env : Env) (hash_api_key : Str → Str)
    (token name : Str) (scopes : Option Str) (now_ms : ℕ) (m : PoolManager) (db : Db) where
  abbrev created : Exit (ℕ × Str) × PoolManager × Db
  created = create_consumer_main refuses env hash_api_key token name scopes now_ms m db

  abbrev inserted : Result (ℕ × Str) × Db
  inserted = create_consumer hash_api_key token name (scopes_of scopes) now_ms db

  printed_inserted :
      (id : ℕ) (key : Str)
      → created.0 ≡ printed (id, key)
      → (inserted.0 ≡ ok (id, key)) × (created.2 ≡ inserted.1)
  printed_inserted id key h = elim (Result-cases (get_pool refuses env postgres_config m).0) [
    | inl (x, e) ↦ absurd (let r = failed x e in cc)
    | inr (p, e) ↦
        let r = went p e in
        elim (Result-cases inserted.0) [
          | inl (x, f) ↦
              absurd
                (not_printed x (id, key) (ap report_created (sym f) ∙ sym (ap (λ o. o.0) r) ∙ h))
          | inr (made, f) ↦
              let out : report_created inserted.0 ≡ printed made =
                unfold report_created in ap report_created f in
              let q : printed made ≡ printed (id, key) = sym out ∙ sym (ap (λ o. o.0) r) ∙ h in
              (cc, ap (λ o. o.2) r)
        ]
  ]
    where
      failed :
          (x : Exc) → (get_pool refuses env postgres_config m).0 ≡ raise x → created.0 ≡ uncaught x
      failed x e = unfold create_consumer_main in rw (e, create_consumer_main) refl

      went :
          (p : ℕ)
          → (get_pool refuses env postgres_config m).0 ≡ ok p
          → created
            ≡ (report_created inserted.0, (get_pool refuses env postgres_config m).1, inserted.1)
      went p e = unfold create_consumer_main in rw (e, create_consumer_main) refl

  -- Where tools/create_consumer.py prints a key, a request with it to a path that is not public, from a
  -- consumer that has sent nothing yet, under a rate limit of at least one, reaches its handler, as a
  -- consumer of the printed id, the given name and the scopes of the option, all of which are valid.
  pub create_consumer_main-admitted :
      (id : ℕ) (key : Str) (limit : ℤ) (a : Arrival) (g : Gate)
      → created.0 ≡ printed (id, key)
      → a.is_public ≡ false
      → a.api_key ≡ some key
      → g.request_times id ≡ []
      → leb_ℤ (pos 1) limit ≡ true
      → (c : Consumer) × ((authenticate hash_api_key limit a g created.2).0 ≡ admitted c)
        × (c.id ≡ id)
        × (c.name ≡ name)
        × (c.scopes ≡ scopes_of scopes)
        × All (λ s. str_in s valid_scopes ≡ true) (scopes_of scopes)
  create_consumer_main-admitted id key limit a g h private_path sent unused allowed =
      let (made, after) = printed_inserted id key h in
      let (c, found, enabled, same_id, same_name, same_scopes, valid) =
        create_consumer-find hash_api_key token name (scopes_of scopes) now_ms db id key made in
      let k =
        create_consumer-key hash_api_key token name (scopes_of scopes) now_ms db id key made in
      let whole : key ≡ 102 ∷ (codes "ph_" ++ token) = unfold generate_api_key in k in
      let stored : find_by_key_hash (hash_api_key (102 ∷ (codes "ph_" ++ token))) created.2
          ≡ some c =
        ap (λ s. find_by_key_hash (hash_api_key s) created.2) (sym whole)
        ∙ ap (find_by_key_hash (hash_api_key key)) after
        ∙ found in
      (
        c,
        authenticate-admitted hash_api_key limit a g created.2 c 102 (codes "ph_" ++ token)
            private_path (sent ∙ ap some whole) stored enabled (ap g.request_times same_id ∙ unused)
            allowed,
        same_id,
        same_name,
        same_scopes,
        valid,
      )
