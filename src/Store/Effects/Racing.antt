-- ===== src/Store/Effects/Racing.antt =====
-- Transactions of `contribute` for one consumer and hash, all of which ran their SELECT before any of
-- them ran its INSERT: the race that ON CONFLICT DO NOTHING settles.
use fingerprint_hub.Prelude.{
  ℕ, suc, ◌+◌, ◌∙◌, ◌≡◌, refl, sym, ap, Str, false, none, some, List, [], ◌∷◌, ◌++◌, map, length,
  arith, All,
}
use fingerprint_hub.Schema.{active, Fingerprint, Db}
use fingerprint_hub.Store.Keys.{has_key}
use fingerprint_hub.Store.Contribute.{
  Contribution, Contributed, created, duplicate, select_existing, new_row, write,
}
use fingerprint_hub.Store.Effects.Contributing.{Holds, write_new, own_key}
use fingerprint_hub.Sql.{fetch_one, exists}
use fingerprint_hub.Sql.Rows.{fetch_one-append_none, fetch_one-none, exists_of_fetch}

-- The writes in their order, each with its time, where every SELECT read the tables `seen`.
unfoldable pub race : ℕ → Db → List (Contribution × ℕ) → Db → List Contributed × Db
unfolding write select_existing
race consumer_id seen [] db = ([], db)
race consumer_id seen ((x, now_ms) ∷ later) db =
    let (r, db') = write (select_existing x.phash_hex consumer_id seen) x consumer_id now_ms db in
    let (rs, db'') = race consumer_id seen later db' in (r ∷ rs, db'')

-- The answer of a transaction that lost to the row.
abbrev pub lost_to : Fingerprint → Contributed
lost_to r = duplicate (some (record { id = r.id; status = r.status }))

-- `n` conflicts: the defaults have drawn from both sequences for each.
abbrev pub drawn : ℕ → Db → Db
drawn n db = record db {
  next_fingerprint_id = db.next_fingerprint_id + n;
  next_sync_seq = db.next_sync_seq + n;
}

drawn_none : (db : Db) → drawn 0 db ≡ db
drawn_none db =
    let e : db.next_fingerprint_id + 0 ≡ db.next_fingerprint_id = omega arith in
    let f : db.next_sync_seq + 0 ≡ db.next_sync_seq = omega arith in
    λ i. record db { next_fingerprint_id = e i; next_sync_seq = f i }

drawn-drawn : (m n : ℕ) (db : Db) → drawn n (drawn m db) ≡ drawn (m + n) db
drawn-drawn m n db =
    let e : db.next_fingerprint_id + m + n ≡ db.next_fingerprint_id + (m + n) = omega arith in
    let f : db.next_sync_seq + m + n ≡ db.next_sync_seq + (m + n) = omega arith in
    λ i. record db { next_fingerprint_id = e i; next_sync_seq = f i }

module _ (phash_hex : Str) (consumer_id : ℕ) (seen : Db)
    (unseen : fetch_one (has_key phash_hex consumer_id) seen.fingerprints ≡ none) where
  abbrev IsRacer : Contribution × ℕ → Type 0
  IsRacer a = a.0.phash_hex ≡ phash_hex

  conflict :
      (x : Contribution) (now_ms : ℕ) (db : Db) (r : Fingerprint)
      → x.phash_hex ≡ phash_hex
      → fetch_one (has_key phash_hex consumer_id) db.fingerprints ≡ some r
      → write (select_existing x.phash_hex consumer_id seen) x consumer_id now_ms db
        ≡ (lost_to r, drawn 1 db)
  unfolding write select_existing
  conflict x now_ms db r same h =
      let there = exists_of_fetch (has_key phash_hex consumer_id) db.fingerprints r h in
      rw (same, unseen, there, h) refl

  losers :
      (later : List (Contribution × ℕ)) (db : Db) (r : Fingerprint)
      → All IsRacer later
      → fetch_one (has_key phash_hex consumer_id) db.fingerprints ≡ some r
      → race consumer_id seen later db ≡ (map (λ a. lost_to r) later, drawn (length later) db)
  unfolding race
  losers [] db r same h = ap (λ d. ([], d)) (sym (drawn_none db))
  losers ((x, now_ms) ∷ later) db r same h =
      let e = conflict x now_ms db r same.0 h in
      let rest = losers later (drawn 1 db) r same.1 h in
      let together : drawn (length later) (drawn 1 db) ≡ drawn (suc (length later)) db =
        drawn-drawn 1 (length later) db ∙ ap (λ n. drawn n db) (omega arith) in
      rw (e, rest, together) refl

-- Where a consumer has no row of a hash, and any number of contributions of it for that hash run their
-- SELECTs before any of them runs its INSERT, the first to insert adds the row, which is active, has
-- the next id and sync number and says what the contribution says; every other one is reported as a
-- duplicate of that row. The row is all that is added to the tables, and each contribution draws once
-- from the sequences of ids and of sync numbers.
pub race_once :
    (x : Contribution) (consumer_id now_ms : ℕ) (later : List (Contribution × ℕ)) (db : Db)
    → exists (has_key x.phash_hex consumer_id) db.fingerprints ≡ false
    → All (λ a. a.0.phash_hex ≡ x.phash_hex) later
    → (r : Fingerprint) × Holds x consumer_id now_ms db.next_sync_seq r
      × (r.id ≡ db.next_fingerprint_id)
      × (race consumer_id db ((x, now_ms) ∷ later) db ≡ (
        created (some r)
            ∷ map (λ a. duplicate (some (record { id = r.id; status = active }))) later,
        record db {
          fingerprints = db.fingerprints ++ r ∷ [];
          next_fingerprint_id = db.next_fingerprint_id + suc (length later);
          next_sync_seq = db.next_sync_seq + suc (length later);
        },
      ))
unfolding race
race_once x consumer_id now_ms later db fresh same =
    let unseen = fetch_one-none (has_key x.phash_hex consumer_id) db.fingerprints fresh in
    let (won, holds) = write_new x consumer_id now_ms db unseen in
    let r = new_row x consumer_id now_ms db in
    let db' : Db = record db {
      fingerprints = db.fingerprints ++ r ∷ [];
      next_fingerprint_id = db.next_fingerprint_id + 1;
      next_sync_seq = db.next_sync_seq + 1;
    } in
    let there : fetch_one (has_key x.phash_hex consumer_id) db'.fingerprints ≡ some r =
      fetch_one-append_none (has_key x.phash_hex consumer_id) db.fingerprints (r ∷ []) unseen
      ∙ unfold fetch_one in rw (own_key x consumer_id now_ms db) refl in
    let lost = losers x.phash_hex consumer_id db unseen later db' r same there in
    let e : db.next_fingerprint_id + 1 + length later
        ≡ db.next_fingerprint_id + suc (length later) =
      omega arith in
    let f : db.next_sync_seq + 1 + length later ≡ db.next_sync_seq + suc (length later) =
      omega arith in
    (
      r,
      holds,
      unfold new_row in refl,
      rw (won, lost)
          (unfold new_row in
            λ i. (
              created (some r) ∷ map (λ a. lost_to r) later,
              record db' { next_fingerprint_id = e i; next_sync_seq = f i },
            )),
    )
