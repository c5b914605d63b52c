-- ===== src/Api/Constraints.antt =====
-- The CHECK constraints of alembic/versions/0001_init.py on the columns that a contribution sets, which
-- no request breaks.
use fingerprint_hub.Prelude.{
  ℕ, ◌≡◌, refl, subst, Str, true, length, str_in, All, ok, Result-cases, inl, inr,
}
use fingerprint_hub.Cipher.{Cipher}
use fingerprint_hub.Schema.{Fingerprint, Db}
use fingerprint_hub.Store.Contribute.{
  Contribution, Nonces, encrypt_fields, select_existing, new_row, resurrected, contribute,
}
use fingerprint_hub.Store.Contribute.Fields.{encrypt_fields-Encrypted}
use fingerprint_hub.Store.Hits.{counted}
use fingerprint_hub.Store.Flags.{hide, set_flag_count}
use fingerprint_hub.Store.Delete.{tombstone}
use fingerprint_hub.Store.Retention.{anonymize}
use fingerprint_hub.Store.Rows.{
  Kept, write-AllRows, report_hit-AllRows, flag-AllRows, soft_delete-AllRows,
}
use fingerprint_hub.Store.History.{Step, contributes, races, reports, flags, deletes, purges}
use fingerprint_hub.Api.Values.{all_hex}
use fingerprint_hub.Api.Writing.{valid_categories, valid_actions}
use fingerprint_hub.Api.Messages.{ServiceConfig}
use fingerprint_hub.Api.Access.{Arrival, Gate}
use fingerprint_hub.Api.App.{Endpoint, Draws, Message, serve}
use fingerprint_hub.Api.Contents.{IsClean}
use fingerprint_hub.Api.Steps.{IsHandled}
use fingerprint_hub.Api.Serving.{serve-keeps}

-- `chk_fingerprints_action` and `chk_fingerprints_category`, and the form of a hash that clients rely on
pub record IsCleanRow (r : Fingerprint) : Type 0 where
  pub phash : (length r.phash_hex ≡ 16) × (all_hex r.phash_hex ≡ true)
  pub category : str_in r.category valid_categories ≡ true
  pub action : str_in r.action valid_actions ≡ true

same_columns :
    (r s : Fingerprint)
    → s.phash_hex ≡ r.phash_hex
    → s.category ≡ r.category
    → s.action ≡ r.action
    → IsCleanRow r
    → IsCleanRow s
same_columns r s h k l v = record {
  phash = rw h v.phash;
  category = rw k v.category;
  action = rw l v.action;
}

clean : Kept IsClean IsCleanRow
clean = record {
  new_row = λ x consumer_id now_ms db f.
      unfold new_row in record { phash = f.phash; category = f.category; action = f.action };
  resurrected = λ x now_ms seq r f v.
      unfold resurrected in record { phash = v.phash; category = f.category; action = f.action };
  counted = λ now_ms r. unfold counted in same_columns r (counted now_ms r) refl refl refl;
  hide = λ n now_ms seq r. unfold hide in same_columns r (hide n now_ms seq r) refl refl refl;
  set_flag_count = λ n now_ms r.
      unfold set_flag_count in same_columns r (set_flag_count n now_ms r) refl refl refl;
  tombstone =
      λ now_ms seq r. unfold tombstone in same_columns r (tombstone now_ms seq r) refl refl refl;
  anonymize = λ r. unfold anonymize in same_columns r (anonymize r) refl refl refl;
}

abbrev pub RowsClean : Db → Type 0
RowsClean db = All IsCleanRow db.fingerprints

encrypt_fields-IsClean :
    (c : Cipher) (n : Nonces) (x y : Contribution)
    → encrypt_fields c n x ≡ ok y
    → IsClean x
    → IsClean y
encrypt_fields-IsClean c n x y h v =
    let e = (encrypt_fields-Encrypted c n x y h).rest in
    rw e (record { phash = v.phash; category = v.category; action = v.action })

contribute-RowsClean :
    (c : Cipher) (n : Nonces) (consumer_id : ℕ) (x : Contribution) (now_ms : ℕ) (db : Db)
    → IsClean x
    → RowsClean db
    → RowsClean (contribute c n consumer_id x now_ms db).1
unfolding contribute
contribute-RowsClean c n consumer_id x now_ms db v s = elim (Result-cases (encrypt_fields c n x)) [
  | inl (e, h) ↦ rw (h, contribute) s
  | inr (y, h) ↦
      rw (h, contribute)
        (write-AllRows IsClean IsCleanRow clean (select_existing y.phash_hex consumer_id db) y
          consumer_id now_ms db (encrypt_fields-IsClean c n x y h v) s)
]

Step-RowsClean :
    {c : Cipher} (db db' : Db) → (s : Step c db db') × IsHandled s → RowsClean db → RowsClean db'
Step-RowsClean {c} db _ (contributes n consumer_id x now_ms, v) s =
    contribute-RowsClean c n consumer_id x now_ms db v s
Step-RowsClean {c} db _ (races existing n consumer_id x y now_ms e, v) s = absurd v
Step-RowsClean {c} db _ (reports nonce id consumer_id guild_id distance now_ms, v) s =
    report_hit-AllRows IsClean IsCleanRow clean c nonce id consumer_id guild_id distance now_ms db s
Step-RowsClean {c} db _ (flags nonce id consumer_id reason now_ms threshold, v) s =
    flag-AllRows IsClean IsCleanRow clean c nonce id consumer_id reason now_ms threshold db s
Step-RowsClean {c} db _ (deletes id now_ms, v) s =
    soft_delete-AllRows IsClean IsCleanRow clean id now_ms db s
Step-RowsClean {c} db _ (purges now_ms p dry_run, v) s = absurd v

-- Whatever a request is, the service leads from tables in which every row has a hash of sixteen
-- lower-case hexadecimal digits, a category and an action that the service knows, to such tables.
pub serve-RowsClean :
    (digest : Str → Str) (c : Cipher) (d : Draws) (config : ServiceConfig) (a : Arrival)
    (endpoint : Endpoint) (m : Message) (g : Gate) (db : Db)
    → RowsClean db
    → RowsClean (serve digest c d config a endpoint m g db).2
serve-RowsClean digest c d config a endpoint m g db =
    serve-keeps digest c d config a endpoint m g db RowsClean
      (λ x y e. subst (λ z. All IsCleanRow z.fingerprints) e) Step-RowsClean
