-- ===== src/Store/Effects/Flagging.antt =====
-- `flag`: whose flags count, and when the row is hidden.
use fingerprint_hub.Prelude.{
  ℕ, subst, ◌+◌, ◌∙◌, ap, ◌≡◌, refl, Str, Option, some, Bool, true, false, ◌&&◌, leb, List, [], ◌∷◌,
  ◌++◌, arith, map, Bool-cases, inl, inr, if◌then◌else◌, ok, ◌==◌,
}
use fingerprint_hub.Cipher.{Cipher}
use fingerprint_hub.Schema.{hidden, is_active, is_deleted, Fingerprint, Flag, Db}
use fingerprint_hub.Store.Keys.{has_id, flag_of}
use fingerprint_hub.Store.Flags.{
  has_flagger, insert_flag, flaggers, hide, set_flag_count, settle_flags, flag,
}
use fingerprint_hub.Store.Validity.{IsValid, RowOk}
use fingerprint_hub.Store.Freshness.{found-id}
use fingerprint_hub.Sql.{select, fetch_one, exists, update, count_distinct}
use fingerprint_hub.Sql.Distinct.{count_distinct-snoc}
use fingerprint_hub.Sql.Rows.{
  fetch_one-update, fetch_one_holds, fetch_one-All, select-append, exists_of_fetch,
}

-- Among the flags of a row, one by this consumer is what the unique constraint looks for.
exists-flagger :
    (id consumer_id : ℕ) (flags : List Flag)
    → exists (λ c. c == consumer_id) (map (λ f. f.consumer_id) (select (flag_of id) flags))
      ≡ exists (has_flagger id consumer_id) flags
unfolding exists select flag_of has_flagger
exists-flagger id consumer_id [] = refl
exists-flagger id consumer_id (f ∷ flags) = ground (arith, exists-flagger id consumer_id flags)

map-append' {ℓ κ} :
    {A : Type ℓ} {B : Type κ} (f : A → B) (xs ys : List A) → map f (xs ++ ys) ≡ map f xs ++ map f ys
map-append' f [] ys = refl
map-append' f (x ∷ xs) ys = ap (◌∷◌ (f x)) (map-append' f xs ys)

-- One more flag is one more flagger, unless this consumer had flagged the row already.
pub flaggers-insert :
    (f : Flag) (flags : List Flag)
    → flaggers f.fingerprint_id (insert_flag f flags) ≡ (
        if exists (has_flagger f.fingerprint_id f.consumer_id) flags
        then flaggers f.fingerprint_id flags
        else flaggers f.fingerprint_id flags + 1)
unfolding insert_flag
flaggers-insert f flags =
    elim (Bool-cases (exists (has_flagger f.fingerprint_id f.consumer_id) flags)) [
      | inl e ↦ rw e refl
      | inr e ↦ rw e (snoc e)
    ]
  where
    own : select (flag_of f.fingerprint_id) (f ∷ []) ≡ f ∷ []
    own = unfold select flag_of in ground arith

    snoc :
        exists (has_flagger f.fingerprint_id f.consumer_id) flags ≡ false
        → flaggers f.fingerprint_id (flags ++ f ∷ []) ≡ flaggers f.fingerprint_id flags + 1
    snoc e =
        unfold flaggers in
        (ap (λ fs. count_distinct (map (λ g. g.consumer_id) fs))
            (select-append (flag_of f.fingerprint_id) flags (f ∷ [])
              ∙ ap (λ fs. select (flag_of f.fingerprint_id) flags ++ fs) own)
          ∙ ap count_distinct
              (map-append' (λ g. g.consumer_id) (select (flag_of f.fingerprint_id) flags) (f ∷ []))
          ∙ count_distinct-snoc (map (λ g. g.consumer_id) (select (flag_of f.fingerprint_id) flags))
              f.consumer_id
          ∙ rw (exists-flagger f.fingerprint_id f.consumer_id flags, e) refl)

-- The row that the branch of the UPDATE leaves.
abbrev pub flagged_row : Bool → ℕ → ℕ → ℕ → Fingerprint → Fingerprint
flagged_row true n now_ms seq fp = record fp {
  sync_seq = seq;
  updated_at_ms = now_ms;
  status = hidden;
  flag_count = n;
}
flagged_row false n now_ms seq fp = record fp { updated_at_ms = now_ms; flag_count = n }

module _ (id : ℕ) (n now_ms threshold : ℕ) (db : Db) (fp : Fingerprint)
    (h : fetch_one (has_id id) db.fingerprints ≡ some fp) where
  settle_flags-found :
      let hides = leb threshold n && is_active fp.status in
      ((settle_flags id fp.status n now_ms threshold db).0 ≡ record {
        flag_count = n;
        status = if hides then hidden else fp.status;
        hidden_now = hides;
      })
      × (fetch_one (has_id id) (settle_flags id fp.status n now_ms threshold db).1.fingerprints
          ≡ some (flagged_row hides n now_ms db.next_sync_seq fp))
      × ((settle_flags id fp.status n now_ms threshold db).1.next_sync_seq
          ≡ (if hides then db.next_sync_seq + 1 else db.next_sync_seq))
  unfolding settle_flags
  settle_flags-found = elim (Bool-cases (leb threshold n && is_active fp.status)) [
    | inl e ↦ rw e (
      refl,
      met (hide n now_ms db.next_sync_seq) (λ r. unfold has_id hide in refl) ∙ unfold hide in refl,
      rw (exists_of_fetch (has_id id) db.fingerprints fp h) refl,
    )
    | inr e ↦ rw e (
      refl,
      met (set_flag_count n now_ms) (λ r. unfold has_id set_flag_count in refl)
          ∙ unfold set_flag_count in refl,
      refl,
    )
  ]
    where
      met :
          (g : Fingerprint → Fingerprint)
          → ((r : Fingerprint) → has_id id (g r) ≡ has_id id r)
          → fetch_one (has_id id) (update (has_id id) g db.fingerprints) ≡ some (g fp)
      met g k =
          fetch_one-update (has_id id) (has_id id) g db.fingerprints fp k h
          ∙ rw (fetch_one_holds (has_id id) db.fingerprints fp h) refl

-- The number of flaggers that a flag leaves.
abbrev pub flags_after : ℕ → ℕ → Fingerprint → Db → ℕ
flags_after id consumer_id fp db =
    if exists (has_flagger id consumer_id) db.flags then fp.flag_count else fp.flag_count + 1

module _ (c : Cipher) (nonce : List ℕ) (id consumer_id : ℕ) (reason : Option Str)
    (now_ms threshold : ℕ) (db : Db) (fp : Fingerprint) (sealed : Option Str)
    (h : fetch_one (has_id id) db.fingerprints ≡ some fp) where
  abbrev new_flag : Flag
  new_flag = record {
    fingerprint_id = id;
    consumer_id = consumer_id;
    reason = sealed;
    created_at_ms = now_ms;
  }

  abbrev Effect : ℕ → Type 0
  Effect n =
      ((flag c nonce id consumer_id reason now_ms threshold db).0
        ≡ ok (
            some (record {
              flag_count = n;
              status = if leb threshold n && is_active fp.status then hidden else fp.status;
              hidden_now = leb threshold n && is_active fp.status;
            })))
      × (fetch_one (has_id id)
            (flag c nonce id consumer_id reason now_ms threshold db).1.fingerprints
          ≡ some
              (flagged_row (leb threshold n && is_active fp.status) n now_ms db.next_sync_seq fp))
      × ((flag c nonce id consumer_id reason now_ms threshold db).1.next_sync_seq ≡ (
          if leb threshold n && is_active fp.status
          then db.next_sync_seq + 1
          else db.next_sync_seq))

  counted_flag :
      IsValid db → flaggers id (insert_flag new_flag db.flags) ≡ flags_after id consumer_id fp db
  counted_flag v =
      let k : RowOk db.next_fingerprint_id db.next_sync_seq db.flags db.hits fp =
        fetch_one-All (RowOk db.next_fingerprint_id db.next_sync_seq db.flags db.hits) (has_id id)
          db.fingerprints h v.rows in
      let own : fp.flag_count ≡ flaggers id db.flags =
        subst (λ i. fp.flag_count ≡ flaggers i db.flags) (found-id id db.fingerprints fp h)
          k.flags_counted in
      ground (arith, flaggers-insert new_flag db.flags, own)

  effect :
      is_deleted fp.status ≡ false
      → c.encrypt nonce reason ≡ ok sealed
      → Effect (flaggers id (insert_flag new_flag db.flags))
  effect live e =
      let (a, b, d) =
        settle_flags-found id (flaggers id (insert_flag new_flag db.flags)) now_ms threshold
          (record db { flags = insert_flag new_flag db.flags }) fp h in
      let same : flag c nonce id consumer_id reason now_ms threshold db ≡ (
        ok (
            some
              (settle_flags id fp.status (flaggers id (insert_flag new_flag db.flags)) now_ms
                threshold (record db { flags = insert_flag new_flag db.flags })).0),
        (settle_flags id fp.status (flaggers id (insert_flag new_flag db.flags)) now_ms threshold
            (record db { flags = insert_flag new_flag db.flags })).1,
      ) =
        unfold flag in rw (h, flag, live, e) refl in
      rw same (ap (λ r. ok (some r)) a, b, d)

module _ (c : Cipher) (nonce : List ℕ) (id consumer_id : ℕ) (reason : Option Str)
    (now_ms threshold : ℕ) (db : Db) where
  -- A flag on a row that is there and not deleted. The count goes up by one unless this consumer has
  -- flagged the row before. The row is hidden by this call exactly if it was active and the count has
  -- reached the threshold; then it takes the next `sync_seq`, and otherwise it keeps its status and its
  -- `sync_seq`, and the sequence stands still.
  pub flag-found :
      (fp : Fingerprint) (sealed : Option Str)
      → IsValid db
      → fetch_one (has_id id) db.fingerprints ≡ some fp
      → is_deleted fp.status ≡ false
      → c.encrypt nonce reason ≡ ok sealed
      → let n = flags_after id consumer_id fp db in
        let hides = leb threshold n && is_active fp.status in
        ((flag c nonce id consumer_id reason now_ms threshold db).0
          ≡ ok (
              some (record {
                flag_count = n;
                status = if hides then hidden else fp.status;
                hidden_now = hides;
              })))
        × (fetch_one
              (has_id id)
              (flag c nonce id consumer_id reason now_ms threshold db).1.fingerprints
            ≡ some (flagged_row hides n now_ms db.next_sync_seq fp))
        × ((flag c nonce id consumer_id reason now_ms threshold db).1.next_sync_seq
            ≡ (if hides then db.next_sync_seq + 1 else db.next_sync_seq))
  flag-found fp sealed v h live e =
      subst (Effect c nonce id consumer_id reason now_ms threshold db fp sealed h)
        (counted_flag c nonce id consumer_id reason now_ms threshold db fp sealed h v)
        (effect c nonce id consumer_id reason now_ms threshold db fp sealed h live e)
