-- ===== src/Store/Races.antt =====
-- `flag` of api/fingerprint_store.py, statement by statement: transactions that flag one fingerprint at
-- the same time, at the isolation level READ COMMITTED. A transaction sees the committed rows and its
-- own, and SELECT … FOR UPDATE waits for the transaction that has locked the row.
pub mod Alone
pub mod Serial
pub mod Progress
use fingerprint_hub.Prelude.{
  ℕ, Str, Option, none, some, List, [], ◌∷◌, ◌==◌, if◌then◌else◌, Result, ok, raise,
}
use fingerprint_hub.Cipher.{Cipher}
use fingerprint_hub.Schema.{is_deleted, Fingerprint, Flag, Db}
use fingerprint_hub.Sql.{fetch_one}
use fingerprint_hub.Store.Keys.{has_id}
use fingerprint_hub.Store.Flags.{FlagResult, insert_flag, flaggers, settle_flags}

-- What a transaction was called with.
pub record Call : Type 0 where
  pub nonce : List ℕ
  pub consumer_id : ℕ
  pub reason : Option Str
  pub now_ms : ℕ

-- The last statement that a transaction ran, and what it holds since.
pub data Stage : Type 0 where
  called : Stage
  selected : Fingerprint → Stage
  inserted : Fingerprint → Flag → Stage
  counted : Fingerprint → Flag → ℕ → Stage
  answered : Result (Option FlagResult) → Stage

-- The committed tables, the transaction that has locked the row, and the stage of each.
pub record Sessions : Type 0 where
  pub db : Db
  pub holder : Option ℕ
  pub stage : ℕ → Stage

abbrev pub opened : Db → Sessions
opened db = record { db = db; holder = none; stage = λ t. called }

unfoldable pub advance : ℕ → Stage → Sessions → Sessions
advance t p s = record s { stage = λ u. if u == t then p else s.stage u }

-- The end of a transaction, which leaves the given tables.
unfoldable pub finish : ℕ → Result (Option FlagResult) → Db → Sessions → Sessions
unfolding advance
finish t r db s = record (advance t (answered r) s) { db = db; holder = none }

module _ (c : Cipher) (fingerprint_id auto_hide_threshold : ℕ) (calls : ℕ → Call) where
  -- SELECT … FOR UPDATE, with the row that it finds and the holder of its lock
  unfoldable pub select_for_update : Option Fingerprint → Option ℕ → ℕ → Sessions → Sessions
  unfolding advance
  select_for_update none holder t s = advance t (answered (ok none)) s
  select_for_update (some fp) none t s = record (advance t (selected fp) s) { holder = some t }
  select_for_update (some fp) (some u) t s = s

  abbrev pub flag_of_call : ℕ → Option Str → Flag
  flag_of_call t sealed = record {
    fingerprint_id = fingerprint_id;
    consumer_id = (calls t).consumer_id;
    reason = sealed;
    created_at_ms = (calls t).now_ms;
  }

  -- The encryption of the reason, and the INSERT
  unfoldable pub insert_sealed : Fingerprint → Result (Option Str) → ℕ → Sessions → Sessions
  unfolding advance finish
  insert_sealed fp (raise e) t s = finish t (raise e) s.db s
  insert_sealed fp (ok sealed) t s = advance t (inserted fp (flag_of_call t sealed)) s

  -- The UPDATE, and the COMMIT
  unfoldable pub update_and_commit : Fingerprint → Flag → ℕ → ℕ → Sessions → Sessions
  unfolding finish settle_flags insert_flag
  update_and_commit fp f n t s =
      let (r, db) =
        settle_flags fingerprint_id fp.status n (calls t).now_ms auto_hide_threshold
          (record s.db { flags = insert_flag f s.db.flags }) in
      finish t (ok (some r)) db s

  unfoldable pub statement : ℕ → Stage → Sessions → Sessions
  unfolding select_for_update insert_sealed advance finish update_and_commit flaggers insert_flag
      fetch_one
  statement t called s =
      select_for_update (fetch_one (has_id fingerprint_id) s.db.fingerprints) s.holder t s
  statement t (selected fp) s =
      if is_deleted fp.status
      then finish t (ok none) s.db s
      else insert_sealed fp (c.encrypt (calls t).nonce (calls t).reason) t s
  statement t (inserted fp f) s =
      advance t (counted fp f (flaggers fingerprint_id (insert_flag f s.db.flags))) s
  statement t (counted fp f n) s = update_and_commit fp f n t s
  statement t (answered r) s = s

  -- A schedule names the transaction that runs its next statement.
  unfoldable pub interleave : List ℕ → Sessions → Sessions
  unfolding statement
  interleave [] s = s
  interleave (t ∷ schedule) s = interleave schedule (statement t (s.stage t) s)
