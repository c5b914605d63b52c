-- ===== src/Store/Feed.antt =====
-- `sync` of api/fingerprint_store.py: a page of the incremental feed.
pub mod Paging
pub mod Replica
pub mod Records
pub mod Convergence
use fingerprint_hub.Prelude.{
  ℕ, ◌+◌, Str, str_eq, Bool, true, not, ◌&&◌, Option, none, some, List, [], ◌∷◌, map, ltb, ◌==◌,
  length, take,
}
use fingerprint_hub.Schema.{Status, Fingerprint, Db}
use fingerprint_hub.Sql.{select, order_by}

-- `_SYNC_COLUMNS`, all that a peer may see of a row
pub record PeerRecord : Type 0 where
  pub id : ℕ
  pub sync_seq : ℕ
  pub phash_hex : Str
  pub algorithm : Str
  pub algorithm_version : Str
  pub normalization_version : Str
  pub category : Str
  pub action : Str
  pub status : Status

unfoldable pub sync_columns : Fingerprint → PeerRecord
sync_columns r = record {
  id = r.id;
  sync_seq = r.sync_seq;
  phash_hex = r.phash_hex;
  algorithm = r.algorithm;
  algorithm_version = r.algorithm_version;
  normalization_version = r.normalization_version;
  category = r.category;
  action = r.action;
  status = r.status;
}

-- `if value: clauses.append("column = …")`: no clause for None or for the empty text
unfoldable pub matches : Option Str → Str → Bool
unfolding str_eq
matches none column = true
matches (some []) column = true
matches (some (c ∷ value)) column = str_eq column (c ∷ value)

-- The optional compatibility triple of a request.
pub record Triple : Type 0 where
  pub algorithm : Option Str
  pub algorithm_version : Option Str
  pub normalization_version : Option Str

-- The part of the WHERE that does not depend on the cursor.
unfoldable pub visible : ℕ → Triple → Fingerprint → Bool
unfolding matches
visible requester t r =
    not (r.consumer_id == requester)
    && (matches t.algorithm r.algorithm
        && (matches t.algorithm_version r.algorithm_version
            && matches t.normalization_version r.normalization_version))

unfoldable pub in_feed : ℕ → Triple → ℕ → Fingerprint → Bool
unfolding visible
in_feed requester t since r = ltb since r.sync_seq && visible requester t r

-- The whole answer of the statement, before its LIMIT.
unfoldable pub feed : ℕ → Triple → ℕ → Db → List PeerRecord
unfolding in_feed select order_by sync_columns
feed requester t since db =
    map sync_columns
      (order_by (λ r. r.sync_seq) (select (in_feed requester t since) db.fingerprints))

-- `int(rows[-1]["sync_seq"]) if rows else since_seq`
unfoldable pub last_seq : ℕ → List PeerRecord → ℕ
last_seq since [] = since
last_seq since (r ∷ rows) = last_seq r.sync_seq rows

pub record Page : Type 0 where
  pub rows : List PeerRecord
  pub next_since : ℕ
  pub has_more : Bool

-- The slice of the rows that the statement fetched.
unfoldable pub cut_page : ℕ → ℕ → List PeerRecord → Page
unfolding last_seq
cut_page since limit fetched = record {
  rows = take limit fetched;
  next_since = last_seq since (take limit fetched);
  has_more = ltb limit (length fetched);
}

unfoldable pub sync : ℕ → ℕ → ℕ → Triple → Db → Page
unfolding feed cut_page
sync requester since limit t db =
    cut_page since limit (take (limit + 1) (feed requester t since db))
