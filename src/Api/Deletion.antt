-- ===== src/Api/Deletion.antt =====
-- Every way in which `delete_fingerprint` of api/fingerprints.py ends, told from the request and the
-- tables.
use fingerprint_hub.Prelude.{
  ℕ, ◌+◌, ◌≡◌, refl, ap, codes, some, none, true, false, not, ◌==◌, arith, Bool-cases, Option-cases,
  inl, inr, ◌⊎◌, ok, raise, Exc, Result,
}
use fingerprint_hub.Prelude.Int.{ℤ, pos, negsuc}
use fingerprint_hub.Schema.{deleted, is_deleted, Consumer, Fingerprint, Db}
use fingerprint_hub.Sql.{fetch_one, select}
use fingerprint_hub.Sql.Kept.{select-kept}
use fingerprint_hub.Store.Keys.{has_id}
use fingerprint_hub.Store.Browse as browse
use fingerprint_hub.Store.Delete.{is_live, tombstone, soft_delete}
use fingerprint_hub.Store.Effects.Deleting.{soft_delete-found}
use fingerprint_hub.Api.Messages.{Request, Reply, failure, no_content}
use fingerprint_hub.Api.Access.{has_scope, require_scope}
use fingerprint_hub.Api.Reading.{path_id, get_row, get_live}
use fingerprint_hub.Api.Writing.{
  may_delete, delete_at, delete_found, delete_row, delete_fingerprint,
}

-- The row has become a tombstone with the next `sync_seq`, and all else is as it was.
pub record Tombstoned (id now_ms : ℕ) (r : Fingerprint) (db db' : Db) : Type 0 where
  pub row :
      fetch_one (has_id id) db'.fingerprints
      ≡ some (record r { sync_seq = db.next_sync_seq; updated_at_ms = now_ms; status = deleted })
  pub others :
      select (λ s. not (s.id == id)) db'.fingerprints
      ≡ select (λ s. not (s.id == id)) db.fingerprints
  pub rest :
      db' ≡ record db { fingerprints = db'.fingerprints; next_sync_seq = db.next_sync_seq + 1 }

-- The request asks for a row that is there and not deleted.
pub record Found (request : Request) (db : Db) (id : ℕ) (r : Fingerprint) : Type 0 where
  pub asked : path_id request.id ≡ some (pos id)
  pub found : fetch_one (has_id id) db.fingerprints ≡ some r
  pub live : is_deleted r.status ≡ false

-- The answer and the tables after it, for each kind of request.
pub data DeleteOutcome (now_ms : ℕ) (request : Request) (db : Db) : Result Reply × Db → Type 0 where
  unscoped :
      has_scope (codes "write") request.consumer ≡ false
      → DeleteOutcome now_ms request db (raise (Exc.http_forbidden (codes "write")), db)
  invalid :
      has_scope (codes "write") request.consumer ≡ true
      → path_id request.id ≡ none
      → DeleteOutcome now_ms request db (ok (failure 400 (codes "invalid fingerprint id")), db)
  missing :
      (id : ℤ)
      → has_scope (codes "write") request.consumer ≡ true
      → path_id request.id ≡ some id
      → ((n : ℕ) (r : Fingerprint) → Found request db n r → ⊥)
      → DeleteOutcome now_ms request db (ok (failure 404 (codes "fingerprint not found")), db)
  denied :
      (id : ℕ) (r : Fingerprint)
      → has_scope (codes "write") request.consumer ≡ true
      → Found request db id r
      → (r.consumer_id == request.consumer.id) ≡ false
      → has_scope (codes "admin") request.consumer ≡ false
      → DeleteOutcome now_ms request db (
        ok (
            failure 403
              (codes "only the owning consumer or an admin may delete; use /flag instead")),
        db,
      )
  removed :
      (id : ℕ) (r : Fingerprint) (db' : Db)
      → has_scope (codes "write") request.consumer ≡ true
      → Found request db id r
      → (r.consumer_id ≡ request.consumer.id) ⊎ (has_scope (codes "admin") request.consumer ≡ true)
      → Tombstoned id now_ms r db db'
      → DeleteOutcome now_ms request db (ok no_content, db')

soft_delete-Tombstoned :
    (id now_ms : ℕ) (r : Fingerprint) (db : Db)
    → fetch_one (has_id id) db.fingerprints ≡ some r
    → is_deleted r.status ≡ false
    → Tombstoned id now_ms r db (soft_delete id now_ms db).1
unfolding soft_delete
soft_delete-Tombstoned id now_ms r db h live =
    let (there, row, next) = soft_delete-found id now_ms db r h live in
    record {
      row = row;
      others =
          select-kept (λ s. not (s.id == id)) (is_live id) (tombstone now_ms db.next_sync_seq)
            db.fingerprints (λ s e. unfold is_live has_id in ground (arith, e))
            (λ s. unfold tombstone in refl);
      rest =
          ap
            (λ n. record db {
              fingerprints = (soft_delete id now_ms db).1.fingerprints;
              next_sync_seq = n;
            })
            next;
    }

live_found :
    (id : ℤ) (db : Db) (r : Fingerprint)
    → get_live id db ≡ some r
    → (n : ℕ) × (id ≡ pos n)
      × (fetch_one (has_id n) db.fingerprints ≡ some r)
      × (is_deleted r.status ≡ false)
unfolding get_live get_row
live_found (negsuc n) db r h = absurd cc
live_found (pos n) db r h = elim (Option-cases (fetch_one (has_id n) db.fingerprints)) [
  | inl e ↦ absurd (unfold browse.get in ground arith)
  | inr (s, e) ↦ elim (Bool-cases (is_deleted s.status)) [
    | inl f ↦ absurd (unfold browse.get in ground arith)
    | inr f ↦
        let same : s ≡ r = unfold browse.get in ground arith in
        (n, refl, rw (← same) e, rw (← same) f)
  ]
]

live_of_found :
    (n : ℕ) (db : Db) (r : Fingerprint)
    → fetch_one (has_id n) db.fingerprints ≡ some r
    → is_deleted r.status ≡ false
    → get_live (pos n) db ≡ some r
unfolding get_live get_row
live_of_found n db r e f = unfold browse.get in ground (arith, e, f)

may_delete-cases :
    (consumer : Consumer) (r : Fingerprint)
    → may_delete consumer r ≡ true
    → (r.consumer_id ≡ consumer.id) ⊎ (has_scope (codes "admin") consumer ≡ true)
unfolding may_delete
may_delete-cases consumer r h = elim (Bool-cases (r.consumer_id == consumer.id)) [
  | inl e ↦ inl (ground arith)
  | inr e ↦ inr (ground arith)
]

may_not :
    (consumer : Consumer) (r : Fingerprint)
    → may_delete consumer r ≡ false
    → ((r.consumer_id == consumer.id) ≡ false) × (has_scope (codes "admin") consumer ≡ false)
unfolding may_delete
may_not consumer r h = elim (Bool-cases (r.consumer_id == consumer.id)) [
  | inl e ↦ absurd (ground (arith, h, e))
  | inr e ↦ (e, ground (arith, h, e))
]

module _ (now_ms : ℕ) (request : Request) (db : Db) where
  reached :
      (p : Reply × Db)
      → has_scope (codes "write") request.consumer ≡ true
      → delete_row now_ms request db ≡ p
      → delete_fingerprint now_ms request db ≡ (ok p.0, p.1)
  reached p e h = unfold delete_fingerprint require_scope in rw (e, h, delete_fingerprint) refl

  found_row :
      (id : ℤ) (r : Fingerprint)
      → has_scope (codes "write") request.consumer ≡ true
      → path_id request.id ≡ some id
      → get_live id db ≡ some r
      → DeleteOutcome now_ms request db (delete_fingerprint now_ms request db)
  found_row id r e f g =
      let (n, i, found, live) = live_found id db r g in
      let there : Found request db n r = record {
        asked = rw (f, i) refl;
        found = found;
        live = live;
      } in
      elim (Bool-cases (may_delete request.consumer r)) [
        | inl m ↦
            rw
              (reached (no_content, (soft_delete n now_ms db).1) e
                (unfold delete_row in rw (f, g, m, delete_row, delete_found, i, delete_at) refl))
              (removed n r (soft_delete n now_ms db).1 e there
                (may_delete-cases request.consumer r m)
                (soft_delete-Tombstoned n now_ms r db found live))
        | inr m ↦
            let (own, admin) = may_not request.consumer r m in
            rw
              (reached
                (
                  failure 403
                      (codes "only the owning consumer or an admin may delete; use /flag instead"),
                  db,
                )
                e (unfold delete_row in rw (f, g, m, delete_row, delete_found) refl))
              (denied n r e there own admin)
      ]

  -- Every call of the handler of DELETE ends in one of five ways. Without the scope "write" it is
  -- refused; without an id in the path it answers 400; where no row of that id is there and not
  -- deleted, 404; where there is one of another consumer, and the caller has not the scope "admin",
  -- 403: then no table changes. Otherwise it answers 204, and the row has become a tombstone with the
  -- next `sync_seq`, the sequence has advanced, and all else is as it was.
  pub delete_fingerprint-DeleteOutcome :
      DeleteOutcome now_ms request db (delete_fingerprint now_ms request db)
  delete_fingerprint-DeleteOutcome =
      elim (Bool-cases (has_scope (codes "write") request.consumer)) [
        | inr e ↦
            unfold delete_fingerprint require_scope in
            rw (e, delete_fingerprint, require_scope) (unscoped e)
        | inl e ↦ elim (Option-cases (path_id request.id)) [
          | inl f ↦
              rw
                (reached (failure 400 (codes "invalid fingerprint id"), db) e
                  (unfold delete_row in rw (f, delete_row) refl))
                (invalid e f)
          | inr (id, f) ↦ elim (Option-cases (get_live id db)) [
            | inr (r, g) ↦ found_row id r e f g
            | inl g ↦
                rw
                  (reached (failure 404 (codes "fingerprint not found"), db) e
                    (unfold delete_row in rw (f, g, delete_row) refl))
                  (missing id e f (λ n r k.
                    let same : id ≡ pos n = let a = k.asked in cc in
                    let live = live_of_found n db r k.found k.live in
                    let none_live : get_live (pos n) db ≡ none = rw (← same) g in cc))
          ]
        ]
      ]
