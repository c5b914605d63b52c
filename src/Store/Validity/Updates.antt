-- ===== src/Store/Validity/Updates.antt =====
-- How the statements on the fingerprints keep the constraints of the table.
use fingerprint_hub.Prelude.{
  ℕ, ◌∙◌, ◌+◌, ◌<◌, ◌≡◌, ◌≢◌, refl, Bool, true, false, List, arith, All, Pairwise, All-imp,
  Pairwise-map, Bool-cases, inl, inr, if◌then◌else◌, ◌⊎◌,
}
use fingerprint_hub.Schema.{Fingerprint, Hit, Flag, Db}
use fingerprint_hub.Store.Keys.{has_id, has_key}
use fingerprint_hub.Store.Validity.{IsValid, RowOk, Differ, FlagsDiffer}
use fingerprint_hub.Sql.{exists, update}
use fingerprint_hub.Sql.Rows.{exists-update, All-update}

-- What no UPDATE of the program changes.
pub record SameKey (r s : Fingerprint) : Type 0 where
  pub id : s.id ≡ r.id
  pub phash_hex : s.phash_hex ≡ r.phash_hex
  pub consumer_id : s.consumer_id ≡ r.consumer_id

abbrev pub IsBelow : ℕ → Fingerprint → Type 0
IsBelow n r = r.sync_seq < n

pub Differ-keys :
    (r s r' s' : Fingerprint)
    → SameKey r r'
    → SameKey s s'
    → Differ r s
    → r'.sync_seq ≢ s'.sync_seq
    → Differ r' s'
unfolding has_key
Differ-keys r s r' s' h k d e = record {
  ids = λ i. d.ids (cc (h.id, k.id, i));
  seqs = e;
  keys = cc (h.phash_hex, h.consumer_id, k.phash_hex, k.consumer_id, d.keys);
}

-- An UPDATE of one row that leaves `sync_seq` alone, or sets it to the next of the sequence.
module _ (p : Fingerprint → Bool) (g : Fingerprint → Fingerprint) (id n : ℕ) where
  stays_apart :
      (r s : Fingerprint)
      → (p r ≡ true → r.id ≡ id)
      → (p s ≡ true → s.id ≡ id)
      → ((g r).sync_seq ≡ r.sync_seq) ⊎ ((g r).sync_seq ≡ n)
      → ((g s).sync_seq ≡ s.sync_seq) ⊎ ((g s).sync_seq ≡ n)
      → r.sync_seq < n
      → s.sync_seq < n
      → r.id ≢ s.id
      → r.sync_seq ≢ s.sync_seq
      → (if p r then g r else r).sync_seq ≢ (if p s then g s else s).sync_seq
  stays_apart r s hr hs gr gs nr ns d e = ground arith

  pub update-Differ :
      ((r : Fingerprint) → p r ≡ true → r.id ≡ id)
      → ((r : Fingerprint) → SameKey r (g r))
      → ((r : Fingerprint) → ((g r).sync_seq ≡ r.sync_seq) ⊎ ((g r).sync_seq ≡ n))
      → (rows : List Fingerprint) → All (IsBelow n) rows
      → Pairwise Differ rows
      → Pairwise Differ (update p g rows)
  unfolding update
  update-Differ only same seq rows below d =
      Pairwise-map (IsBelow n) Differ Differ (λ r. if p r then g r else r)
        (λ r s br bs h.
          Differ-keys r s (if p r then g r else r) (if p s then g s else s) (kept r) (kept s) h
            (stays_apart r s (only r) (only s) (seq r) (seq s) br bs h.ids h.seqs))
        rows below d
    where
      kept : (r : Fingerprint) → SameKey r (if p r then g r else r)
      kept r = elim (Bool-cases (p r)) [
        | inl e ↦ rw e (same r)
        | inr e ↦ rw e (record { id = refl; phash_hex = refl; consumer_id = refl })
      ]

has_id-same : (k : ℕ) (r s : Fingerprint) → SameKey r s → has_id k s ≡ has_id k r
unfolding has_id
has_id-same k r s h = rw h.id

-- The foreign keys go on pointing at rows.
pub refers-update {ℓ} :
    {A : Type ℓ} (key : A → ℕ) (p : Fingerprint → Bool) (g : Fingerprint → Fingerprint)
    (rows : List Fingerprint)
    → ((r : Fingerprint) → SameKey r (g r))
    → (xs : List A) → All (λ x. exists (has_id (key x)) rows ≡ true) xs
    → All (λ x. exists (has_id (key x)) (update p g rows) ≡ true) xs
refers-update key p g rows same xs =
    All-imp
      (λ x h.
        exists-update (has_id (key x)) p g rows (λ r. has_id-same (key x) r (g r) (same r)) ∙ h)
      xs

pub IsValid-IsBelow : (db : Db) → IsValid db → All (IsBelow db.next_sync_seq) db.fingerprints
IsValid-IsBelow db v = All-imp (λ r h. h.seq_below) db.fingerprints v.rows

-- The database after an UPDATE of one row, which may come with other flags, other hits and a draw
-- from the sequence, is valid if each row is right about the new flags and hits.
module _ (db : Db) (v : IsValid db) (p : Fingerprint → Bool) (g : Fingerprint → Fingerprint)
    (id : ℕ) (only : (r : Fingerprint) → p r ≡ true → r.id ≡ id)
    (same : (r : Fingerprint) → SameKey r (g r))
    (seq : (r : Fingerprint) → ((g r).sync_seq ≡ r.sync_seq) ⊎ ((g r).sync_seq ≡ db.next_sync_seq))
    (next : ℕ) (flags : List Flag) (hits : List Hit) where
  pub update-IsValid :
      ((r : Fingerprint)
        → p r ≡ true
        → RowOk db.next_fingerprint_id db.next_sync_seq db.flags db.hits r
        → RowOk db.next_fingerprint_id next flags hits (g r))
      → ((r : Fingerprint)
          → p r ≡ false
          → RowOk db.next_fingerprint_id db.next_sync_seq db.flags db.hits r
          → RowOk db.next_fingerprint_id next flags hits r)
      → Pairwise FlagsDiffer flags
      → All (λ f. exists (has_id f.fingerprint_id) db.fingerprints ≡ true) flags
      → All (λ h. exists (has_id h.fingerprint_id) db.fingerprints ≡ true) hits
      → IsValid (record db {
        fingerprints = update p g db.fingerprints;
        next_sync_seq = next;
        flags = flags;
        hits = hits;
      })
  update-IsValid met missed apart flags_refer hits_refer = record {
    rows =
        All-update (RowOk db.next_fingerprint_id db.next_sync_seq db.flags db.hits)
          (RowOk db.next_fingerprint_id next flags hits) p g met missed db.fingerprints v.rows;
    distinct_rows =
        update-Differ p g id db.next_sync_seq only same seq db.fingerprints (IsValid-IsBelow db v)
          v.distinct_rows;
    distinct_flags = apart;
    flags_refer = refers-update (λ f. f.fingerprint_id) p g db.fingerprints same flags flags_refer;
    hits_refer = refers-update (λ h. h.fingerprint_id) p g db.fingerprints same hits hits_refer;
  }

-- A row that no statement met stays right when the sequence moves on.
pub RowOk-later :
    {next_id n : ℕ} {flags : List Flag} {hits : List Hit} {r : Fingerprint}
    → RowOk next_id n flags hits r
    → RowOk next_id (n + 1) flags hits r
RowOk-later h = record {
  id_below = h.id_below;
  seq_below = omega (arith, h.seq_below);
  flags_counted = h.flags_counted;
  hits_counted = h.hits_counted;
}

pub has_id-eq : (id : ℕ) (r : Fingerprint) → has_id id r ≡ true → r.id ≡ id
unfolding has_id
has_id-eq id r h = ground arith

pub has_id-ne : (id : ℕ) (r : Fingerprint) → has_id id r ≡ false → r.id ≢ id
unfolding has_id
has_id-ne id r h = ground arith
