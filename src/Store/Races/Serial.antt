-- ===== src/Store/Races/Serial.antt =====
-- Transactions of `flag` that run at the same time do what they do one after another.
use fingerprint_hub.Prelude.{
  ℕ, after_move, ◌≡◌, ◌∙◌, refl, sym, ap, subst, Str, Bool, true, false, ◌==◌, Option, none, some,
  List, [], ◌∷◌, arith, Bool-cases, inl, inr, Result, ok, raise,
}
use fingerprint_hub.Cipher.{Cipher}
use fingerprint_hub.Schema.{is_deleted, Fingerprint, Db}
use fingerprint_hub.Sql.{fetch_one}
use fingerprint_hub.Store.Keys.{has_id}
use fingerprint_hub.Store.Flags.{FlagResult, insert_flag, flaggers}
use fingerprint_hub.Store.History.{Reach, here, next, flags}
use fingerprint_hub.Store.Races.Alone.{
  alone, IsInserted, alone_missing, alone_deleted, alone_refused, settled, alone_counted,
}
use fingerprint_hub.Store.Races.{
  Call, Stage, called, selected, inserted, counted, answered, Sessions, opened, advance, finish,
  select_for_update, flag_of_call, insert_sealed, update_and_commit, statement, interleave,
}

-- With the lock on the row.
unfoldable pub holds : Stage → Bool
holds (selected fp) = true
holds (inserted fp f) = true
holds (counted fp f n) = true
holds _ = false

module _ (c : Cipher) (id threshold : ℕ) (calls : ℕ → Call) (db₀ : Db) where
  -- An answer that the call gives alone, on tables between the first ones and those of now.
  pub record Answered (t : ℕ) (r : Result (Option FlagResult)) (db : Db) : Type 0 where
    pub before : Db
    pub reached : Reach c db₀ before
    pub result : (alone c id threshold calls t before).0 ≡ r
    pub later : Reach c (alone c id threshold calls t before).1 db

  unfoldable pub Knows : ℕ → Stage → Db → Type 0
  Knows t called db = Unit
  Knows t (selected fp) db = fetch_one (has_id id) db.fingerprints ≡ some fp
  Knows t (inserted fp f) db = IsInserted c id threshold calls t fp f db
  Knows t (counted fp f n) db =
      IsInserted c id threshold calls t fp f db × (n ≡ flaggers id (insert_flag f db.flags))
  Knows t (answered r) db = Answered t r db

  pub record IsSerial (s : Sessions) : Type 0 where
    pub reached : Reach c db₀ s.db
    pub holder : (t : ℕ) → holds (s.stage t) ≡ true → s.holder ≡ some t
    pub held : (t : ℕ) → s.holder ≡ some t → holds (s.stage t) ≡ true
    pub knows : (t : ℕ) → Knows t (s.stage t) s.db

  -- A stage that leaves the lock as it is.
  advance-IsSerial :
      (t : ℕ) (p : Stage) (s : Sessions)
      → holds p ≡ holds (s.stage t)
      → Knows t p s.db
      → IsSerial s
      → IsSerial (advance t p s)
  unfolding advance
  advance-IsSerial t p s same k v = record {
    reached = v.reached;
    holder =
        after_move (λ u q. holds q ≡ true → s.holder ≡ some u) t p s.stage
          (λ h. v.holder t (sym same ∙ h)) (λ u e. v.holder u);
    held =
        after_move (λ u q. s.holder ≡ some u → holds q ≡ true) t p s.stage (λ h. same ∙ v.held t h)
          (λ u e. v.held u);
    knows = after_move (λ u q. Knows u q s.db) t p s.stage k (λ u e. v.knows u);
  }

  lock-IsSerial :
      (t : ℕ) (fp : Fingerprint) (s : Sessions)
      → s.holder ≡ none
      → fetch_one (has_id id) s.db.fingerprints ≡ some fp
      → IsSerial s
      → IsSerial (record (advance t (selected fp) s) { holder = some t })
  unfolding advance
  lock-IsSerial t fp s free row v = record {
    reached = v.reached;
    holder =
        after_move (λ u q. holds q ≡ true → some t ≡ some u) t (selected fp) s.stage (λ h. refl)
          (λ u e h. let other = v.holder u h in cc);
    held =
        after_move (λ u q. some t ≡ some u → holds q ≡ true) t (selected fp) s.stage
          (λ h. unfold holds in refl) (λ u f h. ground (arith, f, h));
    knows =
        after_move (λ u q. Knows u q s.db) t (selected fp) s.stage (unfold Knows in row)
          (λ u e. v.knows u);
  }

  outside :
      (t u : ℕ) (s : Sessions)
      → s.holder ≡ some t
      → u == t ≡ false
      → IsSerial s
      → holds (s.stage u) ≡ false
  outside t u s mine f v = elim (Bool-cases (holds (s.stage u))) [
    | inl e ↦ let other = v.holder u e in absurd (ground (arith, f, sym mine ∙ other))
    | inr e ↦ e
  ]

  -- What a transaction without the lock knows stays true while another commits.
  extended :
      (t u : ℕ) (p : Stage) (db : Db)
      → holds p ≡ false
      → Knows u p db
      → Knows u p (alone c id threshold calls t db).1
  unfolding holds Knows
  extended t u called db h k = tt
  extended t u (selected fp) db h k = cc
  extended t u (inserted fp f) db h k = cc
  extended t u (counted fp f n) db h k = cc
  extended t u (answered r) db h k = record {
    before = k.before;
    reached = k.reached;
    result = k.result;
    later = next k.later (
        flags (calls t).nonce id (calls t).consumer_id (calls t).reason (calls t).now_ms threshold);
  }

  -- The end of a transaction that has the lock, where it leaves what the call leaves alone.
  finish-IsSerial :
      (t : ℕ) (s : Sessions) (r : Result (Option FlagResult)) (db : Db)
      → holds (s.stage t) ≡ true
      → alone c id threshold calls t s.db ≡ (r, db)
      → IsSerial s
      → IsSerial (finish t r db s)
  unfolding finish advance
  finish-IsSerial t s r db h e v =
      let mine : s.holder ≡ some t = v.holder t h in
      subst (λ o. IsSerial (finish t o.0 o.1 s)) e
        (record {
          reached = next v.reached (
              flags (calls t).nonce id (calls t).consumer_id (calls t).reason (calls t).now_ms
                threshold);
          holder =
              after_move (λ u q. holds q ≡ true → none ≡ some u) t
                (answered (alone c id threshold calls t s.db).0) s.stage (λ k. unfold holds in cc)
                (λ u f k. let away = outside t u s mine f v in cc);
          held =
              after_move (λ u q. none ≡ some u → holds q ≡ true) t
                (answered (alone c id threshold calls t s.db).0) s.stage (λ k. cc) (λ u f k. cc);
          knows =
              after_move (λ u q. Knows u q (alone c id threshold calls t s.db).1) t
                (answered (alone c id threshold calls t s.db).0) s.stage
                (unfold Knows in
                  record { before = s.db; reached = v.reached; result = refl; later = here })
                (λ u f. extended t u (s.stage u) s.db (outside t u s mine f v) (v.knows u));
        })

  select-IsSerial :
      (o : Option Fingerprint) (h : Option ℕ) (t : ℕ) (s : Sessions)
      → fetch_one (has_id id) s.db.fingerprints ≡ o
      → s.holder ≡ h
      → s.stage t ≡ called
      → IsSerial s
      → IsSerial (select_for_update c id threshold calls o h t s)
  unfolding select_for_update
  select-IsSerial none h t s e f at v =
      let a = alone_missing c id threshold calls t s.db e in
      advance-IsSerial t (answered (ok none)) s (rw at (unfold holds in refl))
        (unfold Knows in
          record {
            before = s.db;
            reached = v.reached;
            result = ap (λ o. o.0) a;
            later = rw a here;
          })
        v
  select-IsSerial (some fp) none t s e f at v = lock-IsSerial t fp s f e v
  select-IsSerial (some fp) (some u) t s e f at v = v

  insert-IsSerial :
      (out : Result (Option Str)) (t : ℕ) (fp : Fingerprint) (s : Sessions)
      → c.encrypt (calls t).nonce (calls t).reason ≡ out
      → fetch_one (has_id id) s.db.fingerprints ≡ some fp
      → is_deleted fp.status ≡ false
      → holds (s.stage t) ≡ true
      → IsSerial s
      → IsSerial (insert_sealed c id threshold calls fp out t s)
  unfolding insert_sealed holds
  insert-IsSerial (raise x) t fp s f e d h v =
      finish-IsSerial t s (raise x) s.db h (alone_refused c id threshold calls t fp x s.db e d f) v
  insert-IsSerial (ok sealed) t fp s f e d h v =
      advance-IsSerial t (inserted fp (flag_of_call c id threshold calls t sealed)) s (sym h)
        (unfold Knows in record { row = e; live = d; sealed = sealed; encrypted = f; own = refl }) v

  statement-IsSerial :
      (t : ℕ) (p : Stage) (s : Sessions)
      → s.stage t ≡ p
      → IsSerial s
      → IsSerial (statement c id threshold calls t p s)
  unfolding statement Knows
  statement-IsSerial t called s at v =
      select-IsSerial (fetch_one (has_id id) s.db.fingerprints) s.holder t s refl refl at v
  statement-IsSerial t (selected fp) s at v =
      let row : fetch_one (has_id id) s.db.fingerprints ≡ some fp =
        subst (λ p. Knows t p s.db) at (v.knows t) in
      let h : holds (s.stage t) ≡ true = rw at (unfold holds in refl) in
      elim (Bool-cases (is_deleted fp.status)) [
        | inl d ↦ rw d (
            finish-IsSerial t s (ok none) s.db h
              (alone_deleted c id threshold calls t fp s.db row d) v)
        | inr d ↦
            rw d
              (insert-IsSerial (c.encrypt (calls t).nonce (calls t).reason) t fp s refl row d h v)
      ]
  statement-IsSerial t (inserted fp f) s at v =
      advance-IsSerial t (counted fp f (flaggers id (insert_flag f s.db.flags))) s
        (rw at (unfold holds in refl)) (subst (λ p. Knows t p s.db) at (v.knows t), refl) v
  statement-IsSerial t (counted fp f n) s at v =
      let k : IsInserted c id threshold calls t fp f s.db
          × (n ≡ flaggers id (insert_flag f s.db.flags)) =
        subst (λ p. Knows t p s.db) at (v.knows t) in
      unfold update_and_commit in
      finish-IsSerial t s (ok (some (settled c id threshold calls t fp f n s.db).0))
        (settled c id threshold calls t fp f n s.db).1 (rw at (unfold holds in refl))
        (alone_counted c id threshold calls t n fp f s.db k.0 k.1) v
  statement-IsSerial t (answered r) s at v = v

  pub interleave-IsSerial :
      (schedule : List ℕ) (s : Sessions)
      → IsSerial s
      → IsSerial (interleave c id threshold calls schedule s)
  unfolding interleave
  interleave-IsSerial [] s v = v
  interleave-IsSerial (t ∷ schedule) s v =
      interleave-IsSerial schedule (statement c id threshold calls t (s.stage t) s)
        (statement-IsSerial t (s.stage t) s refl v)

  pub opened-IsSerial : IsSerial (opened db₀)
  opened-IsSerial = record {
    reached = here;
    holder = λ t h. unfold holds in cc;
    held = λ t h. cc;
    knows = λ t. unfold Knows in tt;
  }

  -- Transactions of `flag` on one fingerprint, with their statements in any order that the lock of
  -- SELECT … FOR UPDATE allows: an answer of a call is the one that the call gives when it runs alone
  -- on tables that whole operations of the store lead to, and whole operations lead from the tables
  -- that it leaves then to the tables at the end.
  pub interleave-Answered :
      (schedule : List ℕ) (t : ℕ) (r : Result (Option FlagResult))
      → (interleave c id threshold calls schedule (opened db₀)).stage t ≡ answered r
      → Answered t r (interleave c id threshold calls schedule (opened db₀)).db
  interleave-Answered schedule t r h =
      let v = interleave-IsSerial schedule (opened db₀) opened-IsSerial in
      unfold Knows in
      subst (λ p. Knows t p (interleave c id threshold calls schedule (opened db₀)).db) h
        (v.knows t)
