-- ===== src/Migration/Preserved.antt =====
-- What neither direction of alembic/versions/0002_privacy_hardening.py touches: the feed, and the
-- constraints of the tables.
use fingerprint_hub.Prelude.{
  ℕ, ◌≡◌, ◌∙◌, refl, sym, ap, subst, Str, true, Option, none, List, map, length, Zip, Zip-imp,
  map-Zip, map-map, All-Zip, Pairwise-Zip, ok, Result-bind, Option-cases, inl, inr, ◌⊎◌,
}
use fingerprint_hub.Schema.{Fingerprint, Hit, Flag, Db}
use fingerprint_hub.Sql.{select, exists, count, update, count_distinct}
use fingerprint_hub.Sql.Rows.{select-map, exists-map, length-map}
use fingerprint_hub.Store.Keys.{has_id, has_key, hit_of, flag_of}
use fingerprint_hub.Store.Flags.{flaggers, has_flagger}
use fingerprint_hub.Store.Retention.{anonymize, clear_reason}
use fingerprint_hub.Store.Feed.{Triple, feed, sync_columns}
use fingerprint_hub.Store.Validity.{IsValid, RowOk, Differ, FlagsDiffer}
use fingerprint_hub.Store.Effects.Unchanged.{feed-update}
use fingerprint_hub.Migration.{
  Column, source_guild_id, reason, source_url, guild_id, flag_reason, rewrite_tables, Nonces,
  encrypt_value, decrypt_value, upgrade, downgrade,
}
use fingerprint_hub.Encryption.Envelope.{Aead, Keyring}
use fingerprint_hub.Migration.Columns.{rewrite_row_null, rewrite_row_value}
use fingerprint_hub.Migration.Steps.{Rewrite, Step, RowSteps, rewrite_tables-Rewritten}

abbrev forget_guild : Hit → Hit
forget_guild h = record h { guild_id = none }

-- A view of a row that does not show the column is left as it is.
view_kept :
    {A : Type 0} {B : Type 0} (f : Rewrite) (c : Column A) (g : A → B)
    → ((v : Option Str) (r : A) → g (c.set v r) ≡ g r)
    → (r r' : A) → Step f c r r'
    → g r' ≡ g r
view_kept f c g blind r r' (i, e) = elim (Option-cases (c.value r)) [
  | inl k ↦ let same = sym (rewrite_row_null c (f i) r k) ∙ e in let back : r' ≡ r = cc in ap g back
  | inr (v, k) ↦
      let (w, p, q) =
        Result-bind (f i v) (λ w. ok (c.set w r)) r' (sym (rewrite_row_value c (f i) r v k) ∙ e) in
      let same : r' ≡ c.set w r = cc in ap g same ∙ blind w r
]

-- The tables agree but for their secrets.
record Agree (db db' : Db) : Type 0 where
  rows : Zip (λ r r'. anonymize r' ≡ anonymize r) db.fingerprints db'.fingerprints
  hits : Zip (λ h h'. forget_guild h' ≡ forget_guild h) db.hits db'.hits
  flags : Zip (λ f f'. clear_reason f' ≡ clear_reason f) db.flags db'.flags
  rest : db' ≡ record db { fingerprints = db'.fingerprints; hits = db'.hits; flags = db'.flags }

rewrite_tables-Agree : (f : ℕ → Rewrite) (db db' : Db) → rewrite_tables f db ≡ ok db' → Agree db db'
rewrite_tables-Agree f db db' h =
    let w = rewrite_tables-Rewritten f db db' h in
    record {
      rows = Zip-imp row db.fingerprints db'.fingerprints w.rows;
      hits = Zip-imp (view_kept (f 3) guild_id forget_guild (λ v h. refl)) db.hits db'.hits w.hits;
      flags =
          Zip-imp (view_kept (f 4) flag_reason clear_reason (λ v s. unfold clear_reason in refl))
            db.flags db'.flags w.flags;
      rest = w.rest;
    }
  where
    row : (r r₃ : Fingerprint) → RowSteps f r r₃ → anonymize r₃ ≡ anonymize r
    row r r₃ (r₁, r₂, s₁, s₂, s₃) =
        view_kept (f 2) source_url anonymize (λ v s. unfold anonymize in refl) r₂ r₃ s₃
        ∙ view_kept (f 1) reason anonymize (λ v s. unfold anonymize in refl) r₁ r₂ s₂
        ∙ view_kept (f 0) source_guild_id anonymize (λ v s. unfold anonymize in refl) r r₁ s₁

module _ (db db' : Db) (g : Agree db db') where
  bare_rows : map anonymize db'.fingerprints ≡ map anonymize db.fingerprints
  bare_rows = map-Zip anonymize db.fingerprints db'.fingerprints g.rows

  bare_hits : map forget_guild db'.hits ≡ map forget_guild db.hits
  bare_hits = map-Zip forget_guild db.hits db'.hits g.hits

  bare_flags : map clear_reason db'.flags ≡ map clear_reason db.flags
  bare_flags = map-Zip clear_reason db.flags db'.flags g.flags

  exists_same : (id : ℕ) → exists (has_id id) db'.fingerprints ≡ exists (has_id id) db.fingerprints
  unfolding has_id anonymize
  exists_same id =
      sym (exists-map (has_id id) anonymize db'.fingerprints)
      ∙ ap (exists (has_id id)) bare_rows
      ∙ exists-map (has_id id) anonymize db.fingerprints

  count_same : (id : ℕ) → count (hit_of id) db'.hits ≡ count (hit_of id) db.hits
  unfolding count hit_of
  count_same id = bare db'.hits ∙ ap (count (hit_of id)) bare_hits ∙ sym (bare db.hits)
    where
      bare : (hits : List Hit) → count (hit_of id) hits ≡ count (hit_of id) (map forget_guild hits)
      bare hits =
          sym (length-map forget_guild (select (hit_of id) hits))
          ∙ ap length (sym (select-map (hit_of id) forget_guild hits))

  flaggers_same : (id : ℕ) → flaggers id db'.flags ≡ flaggers id db.flags
  unfolding flaggers flag_of clear_reason
  flaggers_same id = bare db'.flags ∙ ap (flaggers id) bare_flags ∙ sym (bare db.flags)
    where
      bare : (flags : List Flag) → flaggers id flags ≡ flaggers id (map clear_reason flags)
      bare flags = ap count_distinct (
          sym (map-map (λ f. f.consumer_id) clear_reason (select (flag_of id) flags))
          ∙ ap (map (λ f. f.consumer_id)) (sym (select-map (flag_of id) clear_reason flags)))

  feed_same :
      (requester since : ℕ) (t : Triple) → feed requester t since db' ≡ feed requester t since db
  unfolding update feed
  feed_same requester since t =
      sym (bare db')
      ∙ ap (λ rows. feed requester t since (record db { fingerprints = rows })) bare_rows
      ∙ bare db
    where
      bare :
          (d : Db)
          → feed requester t since (record d { fingerprints = map anonymize d.fingerprints })
            ≡ feed requester t since d
      bare d =
          feed-update requester since t (λ r. true) anonymize d
            (record d { fingerprints = map anonymize d.fingerprints })
            (λ r. unfold anonymize in refl) (λ r. unfold anonymize sync_columns in refl) refl

  row_same :
      (r r' : Fingerprint)
      → anonymize r' ≡ anonymize r
      → RowOk db.next_fingerprint_id db.next_sync_seq db.flags db.hits r
      → RowOk db.next_fingerprint_id db.next_sync_seq db'.flags db'.hits r'
  unfolding anonymize
  row_same r r' e k =
      let id : r'.id ≡ r.id = ap (λ s. s.id) e in
      let seq : r'.sync_seq ≡ r.sync_seq = ap (λ s. s.sync_seq) e in
      let flags : r'.flag_count ≡ r.flag_count = ap (λ s. s.flag_count) e in
      let hits : r'.hit_count ≡ r.hit_count = ap (λ s. s.hit_count) e in
      record {
        id_below = rw id k.id_below;
        seq_below = rw seq k.seq_below;
        flags_counted = rw (flags, id, flaggers_same) k.flags_counted;
        hits_counted = rw (hits, id, count_same) k.hits_counted;
      }

  rows_apart :
      (r s r' s' : Fingerprint)
      → anonymize r' ≡ anonymize r
      → anonymize s' ≡ anonymize s
      → Differ r s
      → Differ r' s'
  unfolding anonymize has_key
  rows_apart r s r' s' e k d =
      let id : r'.id ≡ r.id = ap (λ t. t.id) e in
      let id' : s'.id ≡ s.id = ap (λ t. t.id) k in
      let seq : r'.sync_seq ≡ r.sync_seq = ap (λ t. t.sync_seq) e in
      let seq' : s'.sync_seq ≡ s.sync_seq = ap (λ t. t.sync_seq) k in
      let hash : r'.phash_hex ≡ r.phash_hex = ap (λ t. t.phash_hex) e in
      let hash' : s'.phash_hex ≡ s.phash_hex = ap (λ t. t.phash_hex) k in
      let owner : r'.consumer_id ≡ r.consumer_id = ap (λ t. t.consumer_id) e in
      let owner' : s'.consumer_id ≡ s.consumer_id = ap (λ t. t.consumer_id) k in
      record {
        ids = rw (id, id') d.ids;
        seqs = rw (seq, seq') d.seqs;
        keys = rw (hash, hash', owner, owner') d.keys;
      }

  flags_same :
      (f g f' g' : Flag)
      → clear_reason f' ≡ clear_reason f
      → clear_reason g' ≡ clear_reason g
      → FlagsDiffer f g
      → FlagsDiffer f' g'
  unfolding clear_reason has_flagger
  flags_same f g f' g' e k d =
      let id : f'.fingerprint_id ≡ f.fingerprint_id = ap (λ t. t.fingerprint_id) e in
      let id' : g'.fingerprint_id ≡ g.fingerprint_id = ap (λ t. t.fingerprint_id) k in
      let who : f'.consumer_id ≡ f.consumer_id = ap (λ t. t.consumer_id) e in
      let who' : g'.consumer_id ≡ g.consumer_id = ap (λ t. t.consumer_id) k in
      rw (id, id', who, who') d

  Agree-IsValid : IsValid db → IsValid db'
  unfolding clear_reason
  Agree-IsValid v = subst IsValid (sym g.rest) (record {
    rows =
        All-Zip (λ r r'. anonymize r' ≡ anonymize r)
          (RowOk db.next_fingerprint_id db.next_sync_seq db.flags db.hits)
          (RowOk db.next_fingerprint_id db.next_sync_seq db'.flags db'.hits) row_same
          db.fingerprints db'.fingerprints g.rows v.rows;
    distinct_rows =
        Pairwise-Zip (λ r r'. anonymize r' ≡ anonymize r) Differ Differ rows_apart db.fingerprints
          db'.fingerprints g.rows v.distinct_rows;
    distinct_flags =
        Pairwise-Zip (λ f f'. clear_reason f' ≡ clear_reason f) FlagsDiffer FlagsDiffer flags_same
          db.flags db'.flags g.flags v.distinct_flags;
    flags_refer =
        All-Zip (λ f f'. clear_reason f' ≡ clear_reason f)
          (λ f. exists (has_id f.fingerprint_id) db.fingerprints ≡ true)
          (λ f. exists (has_id f.fingerprint_id) db'.fingerprints ≡ true)
          (λ f f' e h.
            let id : f'.fingerprint_id ≡ f.fingerprint_id = ap (λ t. t.fingerprint_id) e in
            rw (id, exists_same) h)
          db.flags db'.flags g.flags v.flags_refer;
    hits_refer =
        All-Zip (λ h h'. forget_guild h' ≡ forget_guild h)
          (λ h. exists (has_id h.fingerprint_id) db.fingerprints ≡ true)
          (λ h. exists (has_id h.fingerprint_id) db'.fingerprints ≡ true)
          (λ h h' e k.
            let id : h'.fingerprint_id ≡ h.fingerprint_id = ap (λ t. t.fingerprint_id) e in
            rw (id, exists_same) k)
          db.hits db'.hits g.hits v.hits_refer;
  })

-- A migration in either direction that ends leaves valid tables valid, whatever values it meets, and
-- what every consumer sees in the feed as it was.
pub migration-IsValid :
    (a : Aead) (ring : Keyring) (nonces : Nonces) (db db' : Db)
    → (upgrade a ring nonces db ≡ ok db') ⊎ (downgrade a ring db ≡ ok db')
    → IsValid db
    → IsValid db'
      × ((requester since : ℕ) (t : Triple)
          → feed requester t since db' ≡ feed requester t since db)
unfolding upgrade downgrade
migration-IsValid a ring nonces db db' (inl h) v =
    let g = rewrite_tables-Agree (λ i j. encrypt_value a ring (nonces i j)) db db' h in
    (Agree-IsValid db db' g v, feed_same db db' g)
migration-IsValid a ring nonces db db' (inr h) v =
    let g = rewrite_tables-Agree (λ i j. decrypt_value a ring) db db' h in
    (Agree-IsValid db db' g v, feed_same db db' g)
