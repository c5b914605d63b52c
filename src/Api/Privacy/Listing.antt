-- ===== src/Api/Privacy/Listing.antt =====
-- The list, on redacted tables.
use fingerprint_hub.Prelude.{
  ℕ, ◌≡◌, ◌∙◌, refl, sym, ap, Str, codes, none, some, Bool, true, false, List, map, take, drop,
  take-map, drop-map, reverse-map, arith, Bool-cases, Option-cases, inl, inr, ◌⊎◌,
}
use mathlib.Core.Option.{Option}
use mathlib.Core.List.{reverse}
use fingerprint_hub.Prelude.Int.{ℤ, pos}
use fingerprint_hub.Schema.{Consumer, Fingerprint, Db}
use fingerprint_hub.Sql.{select, order_by, update}
use fingerprint_hub.Sql.Rows.{select-update}
use fingerprint_hub.Store.Feed.{sync_columns}
use fingerprint_hub.Store.Browse as browse
use fingerprint_hub.Store.Browse.{is_listed, owned_by, listed_status}
use fingerprint_hub.Store.Effects.Unchanged.{order_by-update}
use fingerprint_hub.Api.Messages.{Request, Reply, lookup, failure}
use fingerprint_hub.Api.Access.{has_scope}
use fingerprint_hub.Api.Views.{can_see_secrets}
use fingerprint_hub.Api.Values.{int}
use fingerprint_hub.Api.Reading.{limited_to, denied, narrow, consumer_scope}
use fingerprint_hub.Api.Privacy.{redact, blank, not_own, redacted, redact-columns, redact-status}

-- The owner that the statement asks for, if the consumer is no admin, is the consumer.
abbrev pub IsNarrow : Consumer → Option ℤ → Type 0
IsNarrow consumer cid = (has_scope (codes "admin") consumer ≡ true) ⊎ (cid ≡ some (pos consumer.id))

narrow-IsNarrow :
    (consumer : Consumer) (filter cid : Option ℤ)
    → narrow (has_scope (codes "admin") consumer) consumer.id filter ≡ limited_to cid
    → IsNarrow consumer cid
narrow-IsNarrow consumer filter cid h = elim (Bool-cases (has_scope (codes "admin") consumer)) [
  | inl e ↦ inl e
  | inr e ↦ inr (other filter (rw (← e) h))
]
  where
    other :
        (f : Option ℤ) → narrow false consumer.id f ≡ limited_to cid → cid ≡ some (pos consumer.id)
    other none k = unfold narrow in ground arith
    other (some z) k = unfold narrow in ground arith

pub consumer_scope-IsNarrow :
    (request : Request) (cid : Option ℤ)
    → consumer_scope request ≡ limited_to cid
    → IsNarrow request.consumer cid
consumer_scope-IsNarrow request cid h =
    elim (Option-cases (lookup (codes "consumer_id") request.query)) [
      | inl e ↦ narrow-IsNarrow request.consumer none cid (sym (absent e) ∙ h)
      | inr (text, e) ↦ elim (Option-cases (int text)) [
        | inl f ↦ absurd (refused (sym h ∙ malformed text e f))
        | inr (z, f) ↦ narrow-IsNarrow request.consumer (some z) cid (sym (given text z e f) ∙ h)
      ]
    ]
  where
    absent :
        lookup (codes "consumer_id") request.query ≡ none
        → consumer_scope request
          ≡ narrow (has_scope (codes "admin") request.consumer) request.consumer.id none
    absent e = unfold consumer_scope in rw (e, consumer_scope) refl

    malformed :
        (text : Str)
        → lookup (codes "consumer_id") request.query ≡ some text
        → int text ≡ none
        → consumer_scope request ≡ denied (failure 400 (codes "consumer_id must be an integer"))
    malformed text e f = unfold consumer_scope in rw (e, f, consumer_scope) refl

    given :
        (text : Str) (z : ℤ)
        → lookup (codes "consumer_id") request.query ≡ some text
        → int text ≡ some z
        → consumer_scope request
          ≡ narrow (has_scope (codes "admin") request.consumer) request.consumer.id (some z)
    given text z e f = unfold consumer_scope in rw (e, f, consumer_scope) refl

    refused : {r : Reply} → limited_to cid ≡ denied r → ⊥
    refused k = cc

pub admin-see :
    (consumer : Consumer) (r : Fingerprint)
    → has_scope (codes "admin") consumer ≡ true
    → can_see_secrets consumer r ≡ true
admin-see consumer r h = unfold can_see_secrets in rw h refl

module _ (consumer : Consumer) where
  owned_by-redact :
      (cid : Option ℤ) (r : Fingerprint)
      → IsNarrow consumer cid
      → owned_by cid (redact consumer r) ≡ owned_by cid r
  unfolding owned_by
  owned_by-redact cid r n = elim (Bool-cases (can_see_secrets consumer r)) [
    | inl e ↦ rw e refl
    | inr e ↦ rw e (other e n)
  ]
    where
      other :
          can_see_secrets consumer r ≡ false
          → IsNarrow consumer cid
          → owned_by cid (blank consumer r) ≡ owned_by cid r
      other e (inl a) = absurd (cc (admin-see consumer r a, e))
      other e (inr a) = rw a (ground (arith, not_own consumer r e))

  is_listed-redact :
      (category algorithm : Option Str) (cid : Option ℤ) (hidden : Bool) (r : Fingerprint)
      → IsNarrow consumer cid
      → is_listed category algorithm cid hidden (redact consumer r)
        ≡ is_listed category algorithm cid hidden r
  unfolding is_listed
  is_listed-redact category algorithm cid hidden r n =
      let p = redact-columns consumer r in
      let k : (redact consumer r).category ≡ r.category =
        unfold sync_columns in ap (λ q. q.category) p in
      let a : (redact consumer r).algorithm ≡ r.algorithm =
        unfold sync_columns in ap (λ q. q.algorithm) p in
      rw (redact-status consumer r, k, a, owned_by-redact cid r n) refl

  module _ (category algorithm : Option Str) (cid : Option ℤ) (hidden : Bool) (limit offset : ℕ)
      (db : Db) (n : IsNarrow consumer cid) where
    pub list-redact :
        browse.list_fingerprints category algorithm cid hidden limit offset (redacted consumer db)
        ≡ map
            (redact consumer)
            (browse.list_fingerprints category algorithm cid hidden limit offset db)
    unfolding browse.list_fingerprints
    list-redact =
        ap (λ rows. take limit (drop offset (reverse (order_by (λ r. r.id) rows)))) selected
        ∙ ap (λ rows. take limit (drop offset (reverse rows))) ordered
        ∙ ap (λ rows. take limit (drop offset rows))
            (reverse-map (redact consumer) (order_by (λ r. r.id) kept))
        ∙ ap (take limit) (drop-map (redact consumer) offset (reverse (order_by (λ r. r.id) kept)))
        ∙ take-map (redact consumer) limit (drop offset (reverse (order_by (λ r. r.id) kept)))
      where
        kept : List Fingerprint
        kept = select (is_listed category algorithm cid hidden) db.fingerprints

        selected :
            select (is_listed category algorithm cid hidden) (map (redact consumer) db.fingerprints)
            ≡ map (redact consumer) kept
        selected =
            unfold update in
            select-update (λ _. true) (is_listed category algorithm cid hidden) (redact consumer)
              db.fingerprints (λ r. is_listed-redact category algorithm cid hidden r n)

        same_id : (r : Fingerprint) → (redact consumer r).id ≡ r.id
        same_id r = unfold sync_columns in ap (λ p. p.id) (redact-columns consumer r)

        ordered :
            order_by (λ r. r.id) (map (redact consumer) kept)
            ≡ map (redact consumer) (order_by (λ r. r.id) kept)
        ordered =
            unfold update in order_by-update (λ r. r.id) (λ _. true) (redact consumer) same_id kept
