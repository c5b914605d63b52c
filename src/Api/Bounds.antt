-- ===== src/Api/Bounds.antt =====
-- How many records an answer of api/fingerprints.py has at most.
use fingerprint_hub.Prelude.{
  ℕ, suc, ◌≤◌, ◌≡◌, ◌⊎◌, refl, ap, subst, codes, Bool, true, false, Option, none, some, List, [],
  ◌∷◌, length, arith, Result, ok, raise, ◌>>=◌, Result-bind, Result-cases, Option-cases, Bool-cases,
  inl, inr,
}
use fingerprint_hub.Prelude.Int.{ℤ, pos, negsuc, at_least, is_int}
use fingerprint_hub.Schema.{Consumer, Fingerprint, Db}
use fingerprint_hub.Cipher.{Cipher}
use fingerprint_hub.Store.Feed.{sync}
use fingerprint_hub.Api.Access.{has_scope, require_scope}
use fingerprint_hub.Api.Messages.{Request, ServiceConfig, Detail, Reply, page, listing, lookup}
use fingerprint_hub.Api.Values.{int}
use native.Mathlib.Nat.{le_trans}
use fingerprint_hub.Api.Views.{detail_fp, details}
use fingerprint_hub.Api.Listing.{length-take-le, length-list}
use fingerprint_hub.Api.Reading.{
  clamp, query_int, page_of, triple_of, read_sync, sync_fingerprints, Scope, limited_to, denied,
  consumer_scope, narrow, fits_bigint, list_rows, show_rows, read_list, read_window,
  list_fingerprints,
}

-- A page and a list are not longer than the configuration allows.
abbrev pub IsShort : ServiceConfig → Reply → Type 0
IsShort config (page records _ _) = length records ≤ at_least 1 config.max_sync_limit
IsShort config (listing items _) = length items ≤ at_least 1 config.max_list_limit
IsShort config _ = Unit

abbrev pub IsShortAnswer : ServiceConfig → Result Reply → Type 0
IsShortAnswer config (ok reply) = IsShort config reply
IsShortAnswer config (raise _) = Unit

clamp-le : (limit maximum : ℤ) → clamp limit maximum ≤ at_least 1 maximum
unfolding clamp
clamp-le (pos l) (pos m) = ground arith
clamp-le (pos l) (negsuc m) = ground arith
clamp-le (negsuc l) (pos m) = ground arith
clamp-le (negsuc l) (negsuc m) = ground arith

length-details :
    (c : Cipher) (consumer : Consumer) (rows : List Fingerprint) (ds : List Detail)
    → details c consumer rows ≡ ok ds
    → length ds ≡ length rows
unfolding details
length-details c consumer [] ds h = let same : [] ≡ ds = cc in rw (← same) refl
length-details c consumer (r ∷ rows) ds h =
    let (first, e₁, h₁) =
      Result-bind (detail_fp c consumer r)
        (λ d. details c consumer rows >>= (λ rest. ok (d ∷ rest))) ds h in
    let (rest, e₂, h₂) = Result-bind (details c consumer rows) (λ rest. ok (first ∷ rest)) ds h₁ in
    let same : first ∷ rest ≡ ds = cc in
    rw (← same) (ap suc (length-details c consumer rows rest e₂))

read_sync-IsShort :
    (config : ServiceConfig) (request : Request) (db : Db)
    → IsShort config (read_sync config request db)
unfolding read_sync
read_sync-IsShort config request db =
    elim (Option-cases (query_int (codes "since") (pos 0) request)) [
      | inl e ↦ rw (e, read_sync) tt
      | inr (since, e) ↦
          elim (Option-cases (query_int (codes "limit") config.default_sync_limit request)) [
            | inl f ↦ rw (e, f, read_sync) tt
            | inr (limit, f) ↦ rw (e, f, read_sync) (paged since limit)
          ]
    ]
  where
    paged :
        (since limit : ℤ)
        → IsShort config (
            page_of (
              sync request.consumer.id
                (at_least 0 since)
                (clamp limit config.max_sync_limit)
                (triple_of request)
                db))
    paged since limit =
        le_trans (length-take-le (clamp limit config.max_sync_limit) _)
          (clamp-le limit config.max_sync_limit)

show_rows-IsShort :
    (c : Cipher) (config : ServiceConfig) (request : Request) (rows : List Fingerprint)
    → length rows ≤ at_least 1 config.max_list_limit
    → IsShortAnswer config (show_rows c request rows)
unfolding show_rows
show_rows-IsShort c config request rows h = elim (Result-cases (details c request.consumer rows)) [
  | inl (x, e) ↦ rw e tt
  | inr (ds, e) ↦ rw e (rw (length-details c request.consumer rows ds e) h)
]

abbrev IsShortScope : ServiceConfig → Scope → Type 0
IsShortScope config (limited_to _) = Unit
IsShortScope config (denied reply) = IsShort config reply

Scope-cases :
    (s : Scope) → ((cid : Option ℤ) × (s ≡ limited_to cid)) ⊎ ((r : Reply) × (s ≡ denied r))
Scope-cases (limited_to cid) = inl (cid, refl)
Scope-cases (denied reply) = inr (reply, refl)

narrow-IsShort :
    (config : ServiceConfig) (admin : Bool) (requester : ℕ) (filter : Option ℤ)
    → IsShortScope config (narrow admin requester filter)
unfolding narrow
narrow-IsShort config true requester filter = tt
narrow-IsShort config false requester none = tt
narrow-IsShort config false requester (some id) = elim (Bool-cases (is_int requester id)) [
  | inl e ↦ rw e tt
  | inr e ↦ rw e tt
]

consumer_scope-IsShort :
    (config : ServiceConfig) (request : Request) → IsShortScope config (consumer_scope request)
unfolding consumer_scope
consumer_scope-IsShort config request =
    let admin = has_scope (codes "admin") request.consumer in
    elim (Option-cases (lookup (codes "consumer_id") request.query)) [
      | inl e ↦ rw (e, consumer_scope) (narrow-IsShort config admin request.consumer.id none)
      | inr (text, e) ↦ elim (Option-cases (int text)) [
        | inl f ↦ rw (e, f, consumer_scope) tt
        | inr (id, f) ↦
            rw (e, f, consumer_scope) (narrow-IsShort config admin request.consumer.id (some id))
      ]
    ]

read_list-IsShort :
    (c : Cipher) (config : ServiceConfig) (request : Request) (limit : ℤ) (offset : ℕ) (db : Db)
    → IsShortAnswer config (read_list c request (clamp limit config.max_list_limit) offset db)
unfolding read_list
read_list-IsShort c config request limit offset db = elim (Scope-cases (consumer_scope request)) [
  | inl (cid, e) ↦ elim (Bool-cases (fits_bigint offset)) [
    | inl f ↦
        rw (e, f, read_list)
          (show_rows-IsShort c config request
            (list_rows request cid (clamp limit config.max_list_limit) offset db)
            (le_trans (unfold list_rows in length-list _ _ cid _ _ offset db)
              (clamp-le limit config.max_list_limit)))
    | inr f ↦ rw (e, f, read_list) tt
  ]
  | inr (reply, e) ↦
      rw (e, read_list) (subst (IsShortScope config) e (consumer_scope-IsShort config request))
]

read_window-IsShort :
    (c : Cipher) (config : ServiceConfig) (request : Request) (db : Db)
    → IsShortAnswer config (read_window c config request db)
unfolding read_window
read_window-IsShort c config request db =
    elim (Option-cases (query_int (codes "limit") (pos 50) request)) [
      | inl e ↦ rw (e, read_window) tt
      | inr (limit, e) ↦ elim (Option-cases (query_int (codes "offset") (pos 0) request)) [
        | inl f ↦ rw (e, f, read_window) tt
        | inr (offset, f) ↦
            rw (e, f, read_window) (read_list-IsShort c config request limit (at_least 0 offset) db)
      ]
    ]

-- An answer of `sync_fingerprints` has at most as many records as `max_sync_limit` allows, one of
-- `list_fingerprints` as `max_list_limit` allows, and neither more than one where the configured limit
-- is below 1, whatever the query asks for.
pub answers-IsShort :
    (c : Cipher) (config : ServiceConfig) (request : Request) (db : Db)
    → IsShortAnswer config (sync_fingerprints config request db).0
      × IsShortAnswer config (list_fingerprints c config request db).0
unfolding sync_fingerprints list_fingerprints require_scope
answers-IsShort c config request db =
    elim (Bool-cases (has_scope (codes "read") request.consumer)) [
      | inl e ↦ rw e (read_sync-IsShort config request db, read_window-IsShort c config request db)
      | inr e ↦ rw e (tt, tt)
    ]
