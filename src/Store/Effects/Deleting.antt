-- ===== src/Store/Effects/Deleting.antt =====
-- `soft_delete`: the row, the answer, and a second call.
use fingerprint_hub.Prelude.{
  ℕ, ◌+◌, ◌∙◌, ◌≡◌, refl, some, Bool, true, false, List, [], ◌∷◌, arith, Bool-cases, inl, inr,
}
use fingerprint_hub.Schema.{deleted, is_deleted, Fingerprint, Db}
use fingerprint_hub.Store.Keys.{has_id}
use fingerprint_hub.Store.Delete.{is_live, tombstone, soft_delete}
use fingerprint_hub.Sql.{fetch_one, exists, update}
use fingerprint_hub.Sql.Rows.{fetch_one-update, fetch_one_holds, update_nothing}

exists_of_found {ℓ} :
    {A : Type ℓ} (q p : A → Bool) (xs : List A) (x : A)
    → fetch_one q xs ≡ some x
    → p x ≡ true
    → exists p xs ≡ true
unfolding fetch_one exists
exists_of_found q p [] x h e = cc
exists_of_found q p (y ∷ xs) x h e = elim (Bool-cases (q y)) [
  | inl f ↦ let s : y ≡ x = ground arith in rw (s, e) refl
  | inr f ↦ ground (arith, exists_of_found q p xs x (ground arith) e)
]

none_live :
    (id now_ms n : ℕ) (rows : List Fingerprint)
    → exists (is_live id) (update (is_live id) (tombstone now_ms n) rows) ≡ false
unfolding exists update
none_live id now_ms n [] = refl
none_live id now_ms n (r ∷ rows) = elim (Bool-cases (is_live id r)) [
  | inl e ↦ rw e (ground (arith, dead, none_live id now_ms n rows))
  | inr e ↦ rw e (ground (arith, e, none_live id now_ms n rows))
]
  where
    dead : is_live id (tombstone now_ms n r) ≡ false
    dead = unfold is_live tombstone in ground arith

module _ (id now_ms : ℕ) (db : Db) where
  -- A row that is there and not deleted: the answer is true, the row becomes a tombstone with the next
  -- `sync_seq` and is otherwise as it was, and the sequence advances.
  pub soft_delete-found :
      (fp : Fingerprint)
      → fetch_one (has_id id) db.fingerprints ≡ some fp
      → is_deleted fp.status ≡ false
      → ((soft_delete id now_ms db).0 ≡ true)
        × (fetch_one (has_id id) (soft_delete id now_ms db).1.fingerprints
            ≡ some (record fp {
              sync_seq = db.next_sync_seq;
              updated_at_ms = now_ms;
              status = deleted;
            }))
        × ((soft_delete id now_ms db).1.next_sync_seq ≡ db.next_sync_seq + 1)
  unfolding soft_delete
  soft_delete-found fp h live =
      let own : is_live id fp ≡ true =
        let k = fetch_one_holds (has_id id) db.fingerprints fp h in
        unfold is_live in rw (k, live) refl in
      let there = exists_of_found (has_id id) (is_live id) db.fingerprints fp h own in
      (
        there,
        fetch_one-update (has_id id) (is_live id) (tombstone now_ms db.next_sync_seq)
              db.fingerprints fp (λ r. unfold has_id tombstone in refl) h
            ∙ rw own (unfold tombstone in refl),
        rw there refl,
      )

  -- A second deletion of the same row, at any time: the answer is false, and nothing changes.
  pub soft_delete_twice :
      (later : ℕ)
      → soft_delete id later (soft_delete id now_ms db).1 ≡ (false, (soft_delete id now_ms db).1)
  unfolding soft_delete
  soft_delete_twice later =
      let gone = none_live id now_ms db.next_sync_seq db.fingerprints in
      rw (gone, update_nothing (is_live id) _ _ gone) refl
