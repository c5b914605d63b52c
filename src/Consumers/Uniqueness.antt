-- ===== src/Consumers/Uniqueness.antt =====
-- The constraints of the table of consumers, and what a created key is good for.
use fingerprint_hub.Prelude.{
  ℕ, ◌+◌, ◌<◌, ◌≡◌, ◌≢◌, refl, sym, ◌∙◌, Str, str_eq_iff, str_eq_refl, Result-cases, str_in, Bool,
  true, false, ◌||◌, ◌==◌, none, some, List, [], ◌∷◌, arith, All, All-imp, All-and, All-append,
  Pairwise, Pairwise-snoc, Pairwise-map, Bool-cases, inl, inr, if◌then◌else◌, Result, ok,
}
use fingerprint_hub.Schema.{Consumer, Db}
use fingerprint_hub.Consumers.{
  valid_scopes, generate_api_key, has_key_hash, has_name, find_by_key_hash, seen, touch_last_seen,
  invalid_scopes, is_nonempty, new_consumer, insert_consumer, create_consumer, with_key,
}
use fingerprint_hub.Sql.{fetch_one, exists}
use fingerprint_hub.Sql.Rows.{
  not_exists, not_exists_all, fetch_one-append_none, fetch_one-none, All-update,
}

-- PRIMARY KEY and the two unique constraints
pub record ConsumersDiffer (a b : Consumer) : Type 0 where
  pub ids : a.id ≢ b.id
  pub names : has_name a.name b ≡ false
  pub hashes : has_key_hash a.api_key_hash b ≡ false

-- `chk_consumers_scopes`, and the sequence ahead of the ids
pub record ConsumerOk (next : ℕ) (c : Consumer) : Type 0 where
  pub id_below : c.id < next
  pub scopes : All (λ s. str_in s valid_scopes ≡ true) c.scopes

pub record HasConsumers (db : Db) : Type 0 where
  pub rows : All (ConsumerOk db.next_consumer_id) db.consumers
  pub distinct_rows : Pairwise ConsumersDiffer db.consumers

no_invalid :
    (scopes : List Str)
    → is_nonempty (invalid_scopes scopes) ≡ false
    → All (λ s. str_in s valid_scopes ≡ true) scopes
unfolding invalid_scopes is_nonempty
no_invalid [] h = tt
no_invalid (s ∷ scopes) h = elim (Bool-cases (str_in s valid_scopes)) [
  | inl e ↦ (e, no_invalid scopes (unfold str_in in ground arith))
  | inr e ↦ absurd (unfold str_in in ground arith)
]

module _ (name key_hash : Str) (scopes : List Str) (now_ms : ℕ) (db : Db) where
  abbrev is_taken : Consumer → Bool
  is_taken c = has_name name c || has_key_hash key_hash c

  insert_consumer-HasConsumers :
      All (λ s. str_in s valid_scopes ≡ true) scopes
      → HasConsumers db
      → HasConsumers (insert_consumer name key_hash scopes now_ms db).1
  unfolding insert_consumer
  insert_consumer-HasConsumers allowed v = elim (Bool-cases (exists is_taken db.consumers)) [
    | inl e ↦ rw e (record { rows = older; distinct_rows = v.distinct_rows })
    | inr e ↦ rw e (record {
      rows =
          All-append (ConsumerOk (db.next_consumer_id + 1)) db.consumers (row ∷ []) older
            (record { id_below = omega arith; scopes = allowed }, tt);
      distinct_rows = Pairwise-snoc ConsumersDiffer db.consumers row v.distinct_rows (
          All-imp (λ c h. apart c h.0 h.1) db.consumers
            (All-and (λ c. is_taken c ≡ false) (ConsumerOk db.next_consumer_id) db.consumers
              (not_exists_all is_taken db.consumers e) v.rows));
    })
  ]
    where
      row : Consumer
      row = new_consumer name key_hash scopes now_ms db

      older : All (ConsumerOk (db.next_consumer_id + 1)) db.consumers
      older =
          All-imp (λ c k. record { id_below = omega (arith, k.id_below); scopes = k.scopes })
            db.consumers v.rows

      apart :
          (c : Consumer)
          → is_taken c ≡ false
          → ConsumerOk db.next_consumer_id c
          → ConsumersDiffer c row
      apart c e k =
          unfold new_consumer has_name has_key_hash in
          record {
            ids = omega (arith, k.id_below);
            names = ground (arith, str_eq_iff name c.name, str_eq_iff c.name name);
            hashes =
                ground
                  (arith, str_eq_iff key_hash c.api_key_hash, str_eq_iff c.api_key_hash key_hash);
          }

  insert_consumer-find :
      (id : ℕ)
      → (insert_consumer name key_hash scopes now_ms db).0 ≡ ok id
      → find_by_key_hash key_hash (insert_consumer name key_hash scopes now_ms db).1
          ≡ some (new_consumer name key_hash scopes now_ms db)
        × (id ≡ db.next_consumer_id)
  unfolding insert_consumer find_by_key_hash
  insert_consumer-find id h = elim (Bool-cases (exists is_taken db.consumers)) [
    | inl e ↦ absurd (ground arith)
    | inr e ↦ (
      rw e (
          fetch_one-append_none (has_key_hash key_hash) db.consumers (row ∷ []) (absent e) ∙ found),
      ground arith,
    )
  ]
    where
      row : Consumer
      row = new_consumer name key_hash scopes now_ms db

      absent :
          exists is_taken db.consumers ≡ false
          → fetch_one (has_key_hash key_hash) db.consumers ≡ none
      absent e = fetch_one-none (has_key_hash key_hash) db.consumers (
          not_exists (has_key_hash key_hash) db.consumers
            (All-imp (λ c h. ground arith) db.consumers (not_exists_all is_taken db.consumers e)))

      found : fetch_one (has_key_hash key_hash) (row ∷ []) ≡ some row
      found = unfold has_key_hash fetch_one new_consumer in ground (arith, str_eq_refl key_hash)

module _ (hash_api_key : Str → Str) (token name : Str) (scopes : List Str) (now_ms : ℕ)
    (db : Db) where
  -- `create_consumer` keeps the constraints of the table on every branch: unique ids, names and
  -- key hashes, and no scope but the three.
  pub create_consumer-HasConsumers :
      HasConsumers db → HasConsumers (create_consumer hash_api_key token name scopes now_ms db).1
  unfolding create_consumer
  create_consumer-HasConsumers v = elim (Bool-cases (is_nonempty (invalid_scopes scopes))) [
    | inl e ↦ rw e v
    | inr e ↦ rw e (
        insert_consumer-HasConsumers name (hash_api_key (generate_api_key token)) scopes now_ms db
          (no_invalid scopes e) v)
  ]

module _ (hash_api_key : Str → Str) (token name : Str) (scopes : List Str) (now_ms : ℕ)
    (db : Db) where
  -- If `create_consumer` returns a key, the hash of that key finds the new consumer: enabled, under
  -- the returned id, the given name and exactly the given scopes; and those are valid scopes.
  pub create_consumer-find :
      (id : ℕ) (raw_key : Str)
      → (create_consumer hash_api_key token name scopes now_ms db).0 ≡ ok (id, raw_key)
      → (c : Consumer) × (find_by_key_hash
            (hash_api_key raw_key)
            (create_consumer hash_api_key token name scopes now_ms db).1
          ≡ some c)
        × (c.enabled ≡ true)
        × (c.id ≡ id)
        × (c.name ≡ name)
        × (c.scopes ≡ scopes)
        × All (λ s. str_in s valid_scopes ≡ true) scopes
  unfolding create_consumer
  create_consumer-find id raw_key h = elim (Bool-cases (is_nonempty (invalid_scopes scopes))) [
    | inl e ↦ absurd (ground arith)
    | inr e ↦ elim (Result-cases inserted.0) [
      | inl (x, f) ↦ absurd (unfold with_key in ground arith)
      | inr (i, f) ↦
          let k : generate_api_key token ≡ raw_key = unfold with_key in ground arith in
          let j : i ≡ id = unfold with_key in ground arith in
          let (found, own) =
            insert_consumer-find name (hash_api_key (generate_api_key token)) scopes now_ms db i
              f in
          (
            new_consumer name (hash_api_key (generate_api_key token)) scopes now_ms db,
            rw (← k, e) found,
            unfold new_consumer in refl,
            unfold new_consumer in (sym own ∙ j),
            unfold new_consumer in refl,
            unfold new_consumer in refl,
            no_invalid scopes e,
          )
    ]
  ]
    where
      inserted : Result ℕ × Db
      inserted = insert_consumer name (hash_api_key (generate_api_key token)) scopes now_ms db

-- The throttled update of `last_seen_at_ms` keeps them too.
pub touch_last_seen-HasConsumers :
    (consumer_id now_ms : ℕ) (db : Db)
    → HasConsumers db
    → HasConsumers (touch_last_seen consumer_id now_ms db)
unfolding touch_last_seen
touch_last_seen-HasConsumers consumer_id now_ms db v = record {
  rows =
      All-update (ConsumerOk db.next_consumer_id) (ConsumerOk db.next_consumer_id)
        (λ c. c.id == consumer_id) (seen now_ms)
        (λ c _ k. unfold seen in record { id_below = k.id_below; scopes = k.scopes }) (λ c _ k. k)
        db.consumers v.rows;
  distinct_rows =
      Pairwise-map (λ c. Unit {0}) ConsumersDiffer ConsumersDiffer
        (λ c. if c.id == consumer_id then seen now_ms c else c) (λ a b _ _ h. apart a b h)
        db.consumers (All-imp (λ c _. tt) db.consumers v.rows) v.distinct_rows;
}
  where
    apart :
        (a b : Consumer)
        → ConsumersDiffer a b
        → ConsumersDiffer
            (if a.id == consumer_id then seen now_ms a else a)
            (if b.id == consumer_id then seen now_ms b else b)
    apart a b h =
        unfold seen has_name has_key_hash in
        record {
          ids = ground (arith, h.ids);
          names = ground (arith, h.names);
          hashes = ground (arith, h.hashes);
        }
