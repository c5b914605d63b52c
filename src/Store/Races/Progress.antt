-- ===== src/Store/Races/Progress.antt =====
-- No transaction of `flag` waits for ever.
use fingerprint_hub.Prelude.{
  ℕ, ◌≡◌, ◌≤◌, ◌<◌, ◌-◌, refl, Bool, true, ◌==◌, Str, Option, none, some, List, ◌⊎◌, inl, inr,
  arith, Bool-cases, Result, ok, raise,
}
use fingerprint_hub.Prelude.Turns.{turns, Advances, turns-end}
use fingerprint_hub.Cipher.{Cipher}
use fingerprint_hub.Schema.{is_deleted, Fingerprint, Db}
use fingerprint_hub.Sql.{fetch_one}
use fingerprint_hub.Store.Keys.{has_id}
use fingerprint_hub.Store.Flags.{FlagResult, insert_flag, flaggers}
use fingerprint_hub.Store.Races.{
  Call, Stage, called, selected, inserted, counted, answered, Sessions, opened, advance, finish,
  select_for_update, flag_of_call, insert_sealed, update_and_commit, statement, interleave,
}
use fingerprint_hub.Store.Races.Serial.{holds, interleave-IsSerial, opened-IsSerial}

-- How many statements a transaction has at most before it, waiting aside.
unfoldable pub rank : Stage → ℕ
rank called = 4
rank (selected fp) = 3
rank (inserted fp f) = 2
rank (counted fp f n) = 1
rank (answered r) = 0

rank-bound : (p : Stage) → rank p ≤ 4
unfolding rank
rank-bound called = omega arith
rank-bound (selected fp) = omega arith
rank-bound (inserted fp f) = omega arith
rank-bound (counted fp f n) = omega arith
rank-bound (answered r) = omega arith

rank-holds : (p : Stage) → holds p ≡ true → (0 < rank p) × (rank p ≤ 3)
unfolding rank holds
rank-holds called h = cc
rank-holds (selected fp) h = (omega arith, omega arith)
rank-holds (inserted fp f) h = (omega arith, omega arith)
rank-holds (counted fp f n) h = (omega arith, omega arith)
rank-holds (answered r) h = cc

rank_zero : (p : Stage) → rank p ≡ 0 → (r : Result (Option FlagResult)) × (p ≡ answered r)
unfolding rank
rank_zero called h = absurd (omega arith)
rank_zero (selected fp) h = absurd (omega arith)
rank_zero (inserted fp f) h = absurd (omega arith)
rank_zero (counted fp f n) h = absurd (omega arith)
rank_zero (answered r) h = (r, refl)

abbrev holder_of : Sessions → Option ℕ
holder_of s = s.holder

abbrev holds_at : ℕ → Sessions → Bool
holds_at t s = holds (s.stage t)

abbrev rank_at : ℕ → Sessions → ℕ
rank_at t s = rank (s.stage t)

abbrev Nearer : ℕ → ℕ → Sessions → Type 0
Nearer = Advances holder_of holds_at rank_at

advanced :
    (t n : ℕ) (p : Stage) (s : Sessions)
    → (s.holder ≡ none) ⊎ (holds p ≡ true)
    → rank p ≤ n
    → Nearer t n (advance t p s)
unfolding advance
advanced t n p s f b =
    let e : t == t ≡ true = ground arith in record { free = rw e f; nearer = rw e b }

finished :
    (t n : ℕ) (r : Result (Option FlagResult)) (db : Db) (s : Sessions)
    → Nearer t n (finish t r db s)
unfolding finish advance
finished t n r db s =
    let e : t == t ≡ true = ground arith in
    record { free = inl refl; nearer = rw e (unfold rank in omega arith) }

module _ (c : Cipher) (id threshold : ℕ) (calls : ℕ → Call) where
  select-Nearer :
      (o : Option Fingerprint) (h : Option ℕ) (t : ℕ) (s : Sessions)
      → h ≡ none
      → s.holder ≡ none
      → Nearer t 3 (select_for_update c id threshold calls o h t s)
  unfolding select_for_update holds rank advance
  select-Nearer none h t s e f = advanced t 3 (answered (ok none)) s (inl f) (omega arith)
  select-Nearer (some fp) none t s e f =
      let g : t == t ≡ true = ground arith in
      record { free = inr (rw g refl); nearer = rw g (omega arith) }
  select-Nearer (some fp) (some u) t s e f = cc

  insert-Nearer :
      (fp : Fingerprint) (out : Result (Option Str)) (t : ℕ) (s : Sessions)
      → Nearer t 2 (insert_sealed c id threshold calls fp out t s)
  unfolding insert_sealed
  insert-Nearer fp (raise e) t s = finished t 2 (raise e) s.db s
  insert-Nearer fp (ok sealed) t s =
      advanced t 2 (inserted fp (flag_of_call c id threshold calls t sealed)) s
        (inr (unfold holds in refl)) (unfold rank in omega arith)

  statement-Nearer :
      (t : ℕ) (p : Stage) (s : Sessions)
      → s.stage t ≡ p
      → (s.holder ≡ none) ⊎ (holds p ≡ true)
      → Nearer t (rank p - 1) (statement c id threshold calls t p s)
  unfolding statement rank holds update_and_commit
  statement-Nearer t called s at (inl f) =
      select-Nearer (fetch_one (has_id id) s.db.fingerprints) s.holder t s f f
  statement-Nearer t called s at (inr f) = cc
  statement-Nearer t (selected fp) s at f = elim (Bool-cases (is_deleted fp.status)) [
    | inl d ↦ rw d (finished t 2 (ok none) s.db s)
    | inr d ↦ rw d (insert-Nearer fp (c.encrypt (calls t).nonce (calls t).reason) t s)
  ]
  statement-Nearer t (inserted fp f) s at g =
      advanced t 1 (counted fp f (flaggers id (insert_flag f s.db.flags))) s (inr refl)
        (omega arith)
  statement-Nearer t (counted fp f n) s at g = finished t 0 _ _ s
  statement-Nearer t (answered r) s at f = record { free = rw at f; nearer = rw at (omega arith) }

  abbrev pub next_statement : ℕ → Sessions → Sessions
  next_statement t s = statement c id threshold calls t (s.stage t) s

  -- Wherever transactions of `flag` on one fingerprint stand, no call is stuck: there is a transaction,
  -- of which three statements, and four statements of the caller's after them, answer the call.
  pub interleave-answers :
      (db : Db) (schedule : List ℕ) (t : ℕ)
      → (u : ℕ) × (r : Result (Option FlagResult)) × ((turns next_statement 4 t (
              turns next_statement 3 u
                (interleave c id threshold calls schedule (opened db)))).stage
            t
          ≡ answered r)
  interleave-answers db schedule t =
      let s = interleave c id threshold calls schedule (opened db) in
      let v =
        interleave-IsSerial c id threshold calls db schedule (opened db)
          (opened-IsSerial c id threshold calls db) in
      let (u, e) =
        turns-end holder_of holds_at rank_at next_statement
          (λ t s. statement-Nearer t (s.stage t) s refl) 4 3 0 (λ t s. rank-bound (s.stage t))
          (λ t s. rank-holds (s.stage t)) t s v.held in
      let (r, f) = rank_zero ((turns next_statement 4 t (turns next_statement 3 u s)).stage t) e in
      (u, r, f)
