-- ===== src/Store/Freshness.antt =====
-- `sync_seq` moves with the content: what a peer can see of a row changes only together with a
-- new `sync_seq`, from beyond every number that the sequence had given before.
pub mod Operations
use fingerprint_hub.Prelude.{
  ℕ, subst, ◌≤◌, ◌≡◌, ◌≢◌, refl, sym, ◌∙◌, ap, ◌⊎◌, inl, inr, Bool, true, false, some, List, [],
  ◌∷◌, ◌++◌, arith, All, All-imp, All-and, All-append, Pairwise, Bool-cases, if◌then◌else◌,
}
use native.Mathlib.Nat.{le_trans}
use fingerprint_hub.Schema.{Fingerprint, Db}
use fingerprint_hub.Store.Keys.{has_id}
use fingerprint_hub.Store.Feed.{sync_columns}
use fingerprint_hub.Store.Validity.{IsValid, Differ}
use fingerprint_hub.Sql.{fetch_one, exists, update, select}
use fingerprint_hub.Store.Validity.Updates.{has_id-eq}
use fingerprint_hub.Sql.Rows.{fetch_one_holds, All-update, All-select, fetch_one-All}

-- The row was there before, and a peer sees no difference.
pub record WasThere (old : List Fingerprint) (r : Fingerprint) : Type 0 where
  pub row : Fingerprint
  pub found : fetch_one (has_id r.id) old ≡ some row
  pub columns : sync_columns row ≡ sync_columns r
  pub owner : row.consumer_id ≡ r.consumer_id

-- There was a row of that id before, under the same owner.
pub record WasOwned (old : List Fingerprint) (r : Fingerprint) : Type 0 where
  pub row : Fingerprint
  pub found : fetch_one (has_id r.id) old ≡ some row
  pub owner : row.consumer_id ≡ r.consumer_id

-- Both the id and `sync_seq` are new.
pub record IsNew (db : Db) (r : Fingerprint) : Type 0 where
  pub new_seq : db.next_sync_seq ≤ r.sync_seq
  pub new_id : db.next_fingerprint_id ≤ r.id

-- The row has a new `sync_seq`.
pub record IsRenumbered (db : Db) (r : Fingerprint) : Type 0 where
  pub new_seq : db.next_sync_seq ≤ r.sync_seq
  pub owned : WasOwned db.fingerprints r

abbrev pub IsFresh : Db → Fingerprint → Type 0
IsFresh db r = IsNew db r ⊎ (IsRenumbered db r ⊎ WasThere db.fingerprints r)

-- From the first database to the second the sequences did not fall, and every row of the second
-- is new, or has a `sync_seq` that is new to the first, or was in the first as it is.
pub record Follows (db db' : Db) : Type 0 where
  pub seq_grows : db.next_sync_seq ≤ db'.next_sync_seq
  pub id_grows : db.next_fingerprint_id ≤ db'.next_fingerprint_id
  pub rows : All (IsFresh db) db'.fingerprints

pub find_self :
    (rows : List Fingerprint)
    → Pairwise Differ rows
    → All (λ r. fetch_one (has_id r.id) rows ≡ some r) rows
unfolding fetch_one has_id
find_self [] d = tt
find_self (x ∷ rows) d = (
  ground arith,
  All-imp (λ r h. ground (arith, h.0, h.1.ids)) rows
      (All-and (λ r. fetch_one (has_id r.id) rows ≡ some r) (Differ x) rows (find_self rows d.1)
        d.0),
)

pub all_there : (db : Db) → IsValid db → All (WasThere db.fingerprints) db.fingerprints
all_there db v =
    All-imp (λ r h. record { row = r; found = h; columns = refl; owner = refl }) db.fingerprints
      (find_self db.fingerprints v.distinct_rows)

pub still_there : (db : Db) → IsValid db → All (IsFresh db) db.fingerprints
still_there db v = All-imp (λ r h. inr (inr h)) db.fingerprints (all_there db v)

pub Follows-refl : (db : Db) → IsValid db → Follows db db
Follows-refl db v = record {
  seq_grows = omega arith;
  id_grows = omega arith;
  rows = still_there db v;
}

same_id : (r s : Fingerprint) → sync_columns r ≡ sync_columns s → r.id ≡ s.id
unfolding sync_columns
same_id r s h = ground arith

same_seq : (r s : Fingerprint) → sync_columns r ≡ sync_columns s → r.sync_seq ≡ s.sync_seq
unfolding sync_columns
same_seq r s h = ground arith

pub found-id :
    (k : ℕ) (rows : List Fingerprint) (r : Fingerprint)
    → fetch_one (has_id k) rows ≡ some r
    → r.id ≡ k
found-id k rows r h = has_id-eq k r (fetch_one_holds (has_id k) rows r h)

-- What a row of `b` was in `a`, seen from a row of the same id and owner.
earlier_owner :
    (a b : Db) (r : Fingerprint)
    → (w : WasOwned b.fingerprints r) → IsFresh a w.row
    → a.next_sync_seq ≤ r.sync_seq
    → IsFresh a r
earlier_owner a b r w (inl u) le = inl (record {
  new_seq = le;
  new_id = omega (arith, u.new_id, found-id r.id b.fingerprints w.row w.found);
})
earlier_owner a b r w (inr (inl u)) le = inr (
    inl (record {
      new_seq = le;
      owned = record {
        row = u.owned.row;
        found =
            subst (λ i. fetch_one (has_id i) a.fingerprints ≡ some u.owned.row)
              (found-id r.id b.fingerprints w.row w.found) u.owned.found;
        owner = u.owned.owner ∙ w.owner;
      };
    }))
earlier_owner a b r w (inr (inr u)) le = inr (
    inl (record {
      new_seq = le;
      owned = record {
        row = u.row;
        found =
            subst (λ i. fetch_one (has_id i) a.fingerprints ≡ some u.row)
              (found-id r.id b.fingerprints w.row w.found) u.found;
        owner = u.owner ∙ w.owner;
      };
    }))

earlier_row :
    (a b : Db) (r : Fingerprint) (w : WasThere b.fingerprints r) → IsFresh a w.row → IsFresh a r
earlier_row a b r w (inl u) = inl (record {
  new_seq = omega (arith, u.new_seq, same_seq w.row r w.columns);
  new_id = omega (arith, u.new_id, same_id w.row r w.columns);
})
earlier_row a b r w (inr (inl u)) = inr (
    inl (record {
      new_seq = omega (arith, u.new_seq, same_seq w.row r w.columns);
      owned = record {
        row = u.owned.row;
        found =
            subst (λ i. fetch_one (has_id i) a.fingerprints ≡ some u.owned.row)
              (same_id w.row r w.columns) u.owned.found;
        owner = u.owned.owner ∙ w.owner;
      };
    }))
earlier_row a b r w (inr (inr u)) = inr (
    inr (record {
      row = u.row;
      found =
          subst (λ i. fetch_one (has_id i) a.fingerprints ≡ some u.row) (same_id w.row r w.columns)
            u.found;
      columns = u.columns ∙ w.columns;
      owner = u.owner ∙ w.owner;
    }))

pub Follows-trans : (a b c : Db) → Follows a b → Follows b c → Follows a c
Follows-trans a b c f g = record {
  seq_grows = le_trans f.seq_grows g.seq_grows;
  id_grows = le_trans f.id_grows g.id_grows;
  rows = All-imp (λ r h. earlier r h) c.fingerprints g.rows;
}
  where
    earlier : (r : Fingerprint) → IsFresh b r → IsFresh a r
    earlier r (inl h) =
        inl (record {
          new_seq = le_trans f.seq_grows h.new_seq;
          new_id = le_trans f.id_grows h.new_id;
        })
    earlier r (inr (inl h)) =
        earlier_owner a b r h.owned
          (fetch_one-All (IsFresh a) (has_id r.id) b.fingerprints h.owned.found f.rows)
          (le_trans f.seq_grows h.new_seq)
    earlier r (inr (inr w)) =
        earlier_row a b r w (fetch_one-All (IsFresh a) (has_id r.id) b.fingerprints w.found f.rows)
