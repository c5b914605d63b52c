-- ===== src/Store/Effects/Purging.antt =====
-- `apply_retention`: what is gone, what stays, the preview and the refusals.
use fingerprint_hub.Prelude.{
  ℕ, ◌+◌, ◌∙◌, ◌≡◌, refl, sym, ap, Bool, true, false, not, ◌&&◌, ◌||◌, ltb, ◌==◌, none, is_some,
  List, map, arith, Bool-cases, inl, inr, if◌then◌else◌, Result, ok, raise, Exc,
}
use fingerprint_hub.Prelude.Int.{ℤ, pos, negsuc, pos_part, ltb_ℤ, leb_ℤ, min_ℤ}
use fingerprint_hub.Schema.{is_deleted, Fingerprint, Hit, Flag, Db}
use fingerprint_hub.Store.Keys.{has_id}
use fingerprint_hub.Store.Retention.{
  Periods, Purged, cutoff, hit_before, flag_reason_before, tombstone_before, metadata_before,
  clear_reason, anonymize, has_metadata, has_negative, metadata_outlives_row, purge_tombstones,
  purge, apply_retention,
}
use fingerprint_hub.Sql.{select, count, exists, update, delete}
use fingerprint_hub.Sql.Rows.{select-update, exists-update, select-select_imp}
use fingerprint_hub.Sql.Kept.{select-select, select-kept}

abbrev pub is_kept : Fingerprint → Bool
is_kept r = not (is_deleted r.status)

-- Older than a period that is not negative.
abbrev pub is_aged : ℕ → ℤ → ℕ → Bool
is_aged now_ms period at_ms = ltb (at_ms + pos_part period) now_ms

-- What `apply_retention` refuses: a negative period, or metadata that outlives its row.
abbrev pub is_refusable : Periods → Bool
is_refusable p =
    ltb_ℤ p.hit_retention_ms (pos 0)
    || ltb_ℤ p.flag_reason_retention_ms (pos 0)
    || ltb_ℤ p.tombstone_metadata_retention_ms (pos 0)
    || ltb_ℤ p.tombstone_retention_ms (pos 0)
    || ltb_ℤ p.tombstone_retention_ms p.tombstone_metadata_retention_ms

module _ (now_ms : ℕ) (p : Periods) where
  abbrev pub is_old_hit : Hit → Bool
  is_old_hit h = is_aged now_ms p.hit_retention_ms h.hit_at_ms

  abbrev pub is_old_reason : Flag → Bool
  is_old_reason f = is_some f.reason && is_aged now_ms p.flag_reason_retention_ms f.created_at_ms

  abbrev pub is_old_tombstone : Fingerprint → Bool
  is_old_tombstone r =
      is_deleted r.status && is_aged now_ms p.tombstone_retention_ms r.updated_at_ms

  abbrev pub is_old_metadata : Fingerprint → Bool
  is_old_metadata r =
      (is_deleted r.status && is_aged now_ms p.tombstone_metadata_retention_ms r.updated_at_ms)
      && (is_some r.source_guild_id || is_some r.reason || is_some r.source_url)

-- The tables after a run: which rows stay, in their order, and what of them is cleared.
pub record IsRetained (now_ms : ℕ) (p : Periods) (db db' : Db) (counts : Purged) : Type 0 where
  pub rows :
      db'.fingerprints
      ≡ map
          (λ r.
            if is_old_metadata now_ms p r
            then record r { source_guild_id = none; reason = none; source_url = none }
            else r)
          (select (λ r. not (is_old_tombstone now_ms p r)) db.fingerprints)
  pub hits :
      db'.hits
      ≡ select
          (λ h.
            not (is_old_hit now_ms p h) && exists (λ r. r.id == h.fingerprint_id) db'.fingerprints)
          db.hits
  pub flags :
      db'.flags
      ≡ map
          (λ f. if is_old_reason now_ms p f then record f { reason = none } else f)
          (select (λ f. exists (λ r. r.id == f.fingerprint_id) db'.fingerprints) db.flags)
  pub rest : db' ≡ record db { fingerprints = db'.fingerprints; hits = db'.hits; flags = db'.flags }
  pub counted : counts ≡ record {
    hits_deleted = count (is_old_hit now_ms p) db.hits;
    flag_reasons_cleared = count (is_old_reason now_ms p) db.flags;
    tombstones_anonymized =
        count
          (is_old_metadata now_ms p)
          (select (λ r. not (is_old_tombstone now_ms p r)) db.fingerprints);
    tombstones_deleted = count (is_old_tombstone now_ms p) db.fingerprints;
  }
  pub live : select is_kept db'.fingerprints ≡ select is_kept db.fingerprints

-- How a run and a preview with the same periods end.
pub data RetentionOutcome (now_ms : ℕ) (p : Periods) (db : Db)
    : Result Purged × Db → Result Purged × Db → Type 0 where
  refused :
      is_refusable p ≡ true
      → RetentionOutcome now_ms p db (raise Exc.value_error, db) (raise Exc.value_error, db)
  applied :
      (counts : Purged) (db' : Db)
      → is_refusable p ≡ false
      → IsRetained now_ms p db db' counts
      → RetentionOutcome now_ms p db (ok counts, db') (ok counts, db)

cutoff-is_aged :
    (now_ms : ℕ) (period : ℤ) (at_ms : ℕ)
    → ltb_ℤ period (pos 0) ≡ false
    → ltb_ℤ (pos at_ms) (cutoff now_ms period) ≡ is_aged now_ms period at_ms
cutoff-is_aged now_ms (pos n) at_ms h = ground arith
cutoff-is_aged now_ms (negsuc n) at_ms h = absurd (ground (arith, h))

ltb-min : (a b c : ℤ) → ltb_ℤ (min_ℤ a b) c ≡ (ltb_ℤ a c || ltb_ℤ b c)
ltb-min a b c = elim (Bool-cases (leb_ℤ a b)) [
  | inl e ↦ ground (arith, e)
  | inr e ↦ ground (arith, e)
]

is_refusable-tests : (p : Periods) → (has_negative p || metadata_outlives_row p) ≡ is_refusable p
unfolding has_negative metadata_outlives_row
is_refusable-tests p =
    let h = p.hit_retention_ms in
    let f = p.flag_reason_retention_ms in
    let m = p.tombstone_metadata_retention_ms in
    let t = p.tombstone_retention_ms in
    let e : ltb_ℤ (min_ℤ (min_ℤ (min_ℤ h f) m) t) (pos 0)
        ≡ (((ltb_ℤ h (pos 0) || ltb_ℤ f (pos 0)) || ltb_ℤ m (pos 0)) || ltb_ℤ t (pos 0)) =
      ltb-min (min_ℤ (min_ℤ h f) m) t (pos 0)
      ∙ ap (λ b. b || ltb_ℤ t (pos 0))
          (ltb-min (min_ℤ h f) m (pos 0) ∙ ap (λ b. b || ltb_ℤ m (pos 0)) (ltb-min h f (pos 0))) in
    rw e (regroup (ltb_ℤ h (pos 0)) (ltb_ℤ f (pos 0)) (ltb_ℤ m (pos 0)) (ltb_ℤ t (pos 0)) _)
  where
    regroup : (a b c d e : Bool) → ((((a || b) || c) || d) || e) ≡ (a || b || c || d || e)
    regroup a b c d e = ground arith

live_unmet : (at : ℤ) (r : Fingerprint) → is_kept r ≡ true → metadata_before at r ≡ false
unfolding metadata_before tombstone_before
live_unmet at r h = ground arith

module _ (now_ms : ℕ) (p : Periods) (refusable : is_refusable p ≡ false) where
  old_hit : hit_before (cutoff now_ms p.hit_retention_ms) ≡ is_old_hit now_ms p
  unfolding hit_before
  old_hit =
      λ i h. cutoff-is_aged now_ms p.hit_retention_ms h.hit_at_ms (ground (arith, refusable)) i

  old_reason :
      flag_reason_before (cutoff now_ms p.flag_reason_retention_ms) ≡ is_old_reason now_ms p
  unfolding flag_reason_before
  old_reason = λ i f.
      is_some f.reason
      && cutoff-is_aged now_ms p.flag_reason_retention_ms f.created_at_ms
          (ground (arith, refusable)) i

  old_tombstone :
      tombstone_before (cutoff now_ms p.tombstone_retention_ms) ≡ is_old_tombstone now_ms p
  unfolding tombstone_before
  old_tombstone = λ i r.
      is_deleted r.status
      && cutoff-is_aged now_ms p.tombstone_retention_ms r.updated_at_ms (ground (arith, refusable))
          i

  old_metadata :
      metadata_before (cutoff now_ms p.tombstone_metadata_retention_ms) ≡ is_old_metadata now_ms p
  unfolding metadata_before tombstone_before has_metadata
  old_metadata = λ i r.
      (is_deleted r.status
        && cutoff-is_aged now_ms p.tombstone_metadata_retention_ms r.updated_at_ms
            (ground (arith, refusable)) i)
      && (is_some r.source_guild_id || is_some r.reason || is_some r.source_url)

  module _ (db : Db) where
    abbrev kept : List Fingerprint
    kept = delete (tombstone_before (cutoff now_ms p.tombstone_retention_ms)) db.fingerprints

    abbrev after : List Fingerprint
    after =
        update (metadata_before (cutoff now_ms p.tombstone_metadata_retention_ms)) anonymize kept

    -- A row that hits and flags point at is there before the metadata is cleared if it is afterwards.
    points : (id : ℕ) → exists (has_id id) kept ≡ exists (λ r. r.id == id) after
    unfolding has_id
    points id = sym (
        exists-update (has_id id)
          (metadata_before (cutoff now_ms p.tombstone_metadata_retention_ms)) anonymize kept
          (λ r. unfold anonymize in refl))

    purge-IsRetained : IsRetained now_ms p db (purge now_ms p db).1 (purge now_ms p db).0
    unfolding purge purge_tombstones
    purge-IsRetained = record {
      rows =
          unfold update delete anonymize in
          λ i. update (old_metadata i) anonymize (delete (old_tombstone i) db.fingerprints);
      hits =
          unfold delete in
          select-select (λ h. exists (has_id h.fingerprint_id) kept)
            (λ h. not (hit_before (cutoff now_ms p.hit_retention_ms) h)) db.hits
          ∙ (λ i. select (λ h. not (old_hit i h) && points h.fingerprint_id i) db.hits);
      flags =
          select-update (flag_reason_before (cutoff now_ms p.flag_reason_retention_ms))
            (λ f. exists (has_id f.fingerprint_id) kept) clear_reason db.flags
            (λ f. unfold clear_reason in refl)
          ∙ unfold update clear_reason in
            (λ i.
              update (old_reason i) clear_reason
                (select (λ f. points f.fingerprint_id i) db.flags));
      rest = refl;
      counted =
          unfold delete in
          λ i. record {
            hits_deleted = count (old_hit i) db.hits;
            flag_reasons_cleared = count (old_reason i) db.flags;
            tombstones_anonymized =
                count (old_metadata i) (delete (old_tombstone i) db.fingerprints);
            tombstones_deleted = count (old_tombstone i) db.fingerprints;
          };
      live =
          select-kept is_kept (metadata_before (cutoff now_ms p.tombstone_metadata_retention_ms))
            anonymize kept (λ r h. live_unmet (cutoff now_ms p.tombstone_metadata_retention_ms) r h)
            (λ r. unfold anonymize in refl)
          ∙ unfold delete in
            select-select_imp is_kept
              (λ r. not (tombstone_before (cutoff now_ms p.tombstone_retention_ms) r))
              db.fingerprints (λ r h. unfold tombstone_before in ground arith);
    }

-- A retention run is refused, with the tables as they were, exactly if a period is negative or the
-- metadata of a tombstone is to outlive its row. Otherwise it deletes the tombstones older than their
-- period, and the hits that are older than theirs or whose row is gone; of the tombstones that stay it
-- clears the metadata older than its period, and of the flags whose row stays the reasons older than
-- theirs; all else is as it was, in its order, and the counts are of the rows that meet each condition.
-- A preview returns the same counts, or the same refusal, and changes nothing.
pub apply_retention-RetentionOutcome :
    (now_ms : ℕ) (p : Periods) (db : Db)
    → RetentionOutcome now_ms p db
        (apply_retention now_ms p false db)
        (apply_retention now_ms p true db)
apply_retention-RetentionOutcome now_ms p db = elim (Bool-cases (has_negative p)) [
  | inl e ↦
      unfold apply_retention in
      rw (e, apply_retention) (refused (sym (is_refusable-tests p) ∙ rw e refl))
  | inr e ↦ elim (Bool-cases (metadata_outlives_row p)) [
    | inl f ↦
        unfold apply_retention in
        rw (e, f, apply_retention) (refused (sym (is_refusable-tests p) ∙ rw (e, f) refl))
    | inr f ↦
        let accepted : is_refusable p ≡ false = sym (is_refusable-tests p) ∙ rw (e, f) refl in
        unfold apply_retention in
        rw (e, f, apply_retention)
          (applied (purge now_ms p db).0 (purge now_ms p db).1 accepted
            (purge-IsRetained now_ms p accepted db))
  ]
]
