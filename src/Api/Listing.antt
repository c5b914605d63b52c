-- ===== src/Api/Listing.antt =====
-- The list of a consumer that is no admin.
use fingerprint_hub.Prelude.{
  ℕ, ◌≡◌, ◌≤◌, Str, Option, Bool, true, List, length, length-take, take, drop, arith,
}
use mathlib.Core.List.{reverse}
use fingerprint_hub.Prelude.Int.{ℤ}
use fingerprint_hub.Schema.{is_active, Fingerprint, Db}
use fingerprint_hub.Sql.{select, order_by}
use fingerprint_hub.Store.Browse as browse
use fingerprint_hub.Store.Browse.{is_listed}

-- What a consumer without the scope "admin" gets to see in a list.
pub record IsOwnActive (consumer_id : ℕ) (r : Fingerprint) : Type 0 where
  pub owner : r.consumer_id ≡ consumer_id
  pub active : is_active r.status ≡ true

pub length-take-le {ℓ} : {A : Type ℓ} (n : ℕ) (xs : List A) → length (take n xs) ≤ n
length-take-le n xs = omega (arith, length-take n xs)

pub length-list :
    (category algorithm : Option Str) (cid : Option ℤ) (hidden : Bool) (limit offset : ℕ) (db : Db)
    → length (browse.list_fingerprints category algorithm cid hidden limit offset db) ≤ limit
unfolding browse.list_fingerprints
length-list category algorithm cid hidden limit offset db = length-take-le limit (
    drop offset (
      reverse
        (order_by (λ r. r.id) (select (is_listed category algorithm cid hidden) db.fingerprints))))
