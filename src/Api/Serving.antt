-- ===== src/Api/Serving.antt =====
-- The service keeps the tables valid, the middleware included.
use fingerprint_hub.Prelude.{
  if◌then◌else◌, ◌≡◌, refl, sym, subst, Str, codes, Bool, true, false, [], ◌∷◌, Bool-cases,
  Option-cases, inl, inr, ◌⊎◌,
}
use fingerprint_hub.Prelude.Int.{ℤ}
use fingerprint_hub.Cipher.{Cipher}
use fingerprint_hub.Schema.{Consumer, Db}
use fingerprint_hub.Consumers.{find_by_key_hash, touch_last_seen}
use fingerprint_hub.Store.History.{Step, Step-IsValid}
use fingerprint_hub.Store.Validity.{IsValid}
use fingerprint_hub.Api.Messages.{ServiceConfig, Reply, failure}
use fingerprint_hub.Api.Access.{
  Arrival, Gate, Decision, denied, admitted, unauthenticated, is_due, mark_seen, admit,
  rate_limited, set_at, authenticate,
}
use fingerprint_hub.Api.App.{Endpoint, Draws, Message, serve, request_of}
use fingerprint_hub.Api.Steps.{Moves, IsHandled, dispatch-Moves}

-- What the middleware does to the tables: the time of the last request of a consumer.
consumers-IsValid :
    (db db' : Db)
    → record db { consumers = [] } ≡ record db' { consumers = [] }
    → IsValid db
    → IsValid db'
consumers-IsValid db db' e v =
    let w : IsValid (record db { consumers = [] }) = record {
      rows = v.rows;
      distinct_rows = v.distinct_rows;
      distinct_flags = v.distinct_flags;
      flags_refer = v.flags_refer;
      hits_refer = v.hits_refer;
    } in
    let w' : IsValid (record db' { consumers = [] }) = subst IsValid e w in
    record {
      rows = w'.rows;
      distinct_rows = w'.distinct_rows;
      distinct_flags = w'.distinct_flags;
      flags_refer = w'.flags_refer;
      hits_refer = w'.hits_refer;
    }

module _ (a : Arrival) (db : Db) where
  abbrev Same : Db → Type 0
  Same x = record db { consumers = [] } ≡ record x { consumers = [] }

  mark_seen-Same : (consumer : Consumer) (g : Gate) → Same (mark_seen consumer a g db).1
  mark_seen-Same consumer g = elim (Bool-cases (is_due a.now (g.last_seen_marked consumer.id))) [
    | inl e ↦ elim (Bool-cases a.touch_succeeds) [
      | inl f ↦ unfold mark_seen touch_last_seen in rw (e, f, mark_seen) refl
      | inr f ↦ unfold mark_seen in rw (e, f, mark_seen) refl
    ]
    | inr e ↦ unfold mark_seen in rw (e, mark_seen) refl
  ]

  admit-Same : (limit : ℤ) (consumer : Consumer) (g : Gate) → Same (admit limit consumer a g db).2
  admit-Same limit consumer g =
      let (limited, window) = rate_limited limit a.now (g.request_times consumer.id) in
      let g' : Gate = record g { request_times = set_at consumer.id window g.request_times } in
      elim (Bool-cases limited) [
        | inl e ↦ unfold admit in rw (e, admit) refl
        | inr e ↦ unfold admit in rw (e, admit) (mark_seen-Same consumer g')
      ]

  authenticate-Same :
      (digest : Str → Str) (limit : ℤ) (g : Gate) → Same (authenticate digest limit a g db).2
  authenticate-Same digest limit g = elim (Bool-cases a.is_public) [
    | inl e ↦ unfold authenticate in rw (e, authenticate) refl
    | inr e ↦ elim (Option-cases a.api_key) [
      | inl f ↦ unfold authenticate in rw (e, f, authenticate) refl
      | inr ([], f) ↦ unfold authenticate in rw (e, f, authenticate) refl
      | inr (k ∷ key, f) ↦ elim (Option-cases (find_by_key_hash (digest (k ∷ key)) db)) [
        | inl h ↦ unfold authenticate in rw (e, f, h, authenticate) refl
        | inr (consumer, h) ↦
            unfold authenticate in
            rw (e, f, h, authenticate)
              (either consumer.enabled (admit limit consumer a g db)
                (denied (failure 401 (codes "invalid or disabled API key")), g, db)
                (admit-Same limit consumer g) refl)
      ]
    ]
  ]
    where
      either :
          (b : Bool) (x y : Decision × Gate × Db)
          → Same x.2
          → Same y.2
          → Same (if b then x else y).2
      either true x y h k = h
      either false x y h k = k

Decision-cases :
    (d : Decision)
    → ((r : Reply) × (d ≡ denied r)) ⊎ (((k : Consumer) × (d ≡ admitted k)) ⊎ (d ≡ unauthenticated))
Decision-cases (denied r) = inl (r, refl)
Decision-cases (admitted k) = inr (inl (k, refl))
Decision-cases unauthenticated = inr (inr refl)

-- What the clocks of the consumers do not touch and the operations of the handlers keep, the service
-- keeps.
pub serve-keeps :
    (digest : Str → Str) (c : Cipher) (d : Draws) (config : ServiceConfig) (a : Arrival)
    (endpoint : Endpoint) (m : Message) (g : Gate) (db : Db) (Q : Db → Type 0)
    → ((x y : Db) → record x { consumers = [] } ≡ record y { consumers = [] } → Q x → Q y)
    → ((x y : Db) → (s : Step c x y) × IsHandled s → Q x → Q y)
    → Q db
    → Q (serve digest c d config a endpoint m g db).2
serve-keeps digest c d config a endpoint m g db Q blind step v =
    let (decision, g', db') = authenticate digest config.rate_limit_per_minute a g db in
    let v' : Q db' =
      blind db db' (authenticate-Same a db digest config.rate_limit_per_minute g) v in
    elim (Decision-cases decision) [
      | inl (r, e) ↦ unfold serve in rw (e, serve) v'
      | inr (inl (k, e)) ↦
          unfold serve in
          rw (e, serve) (moved db' v' (dispatch-Moves c db' d config endpoint (request_of k m)))
      | inr (inr e) ↦ unfold serve in rw (e, serve) v'
    ]
  where
    moved : (x : Db) {y : Db} → Q x → Moves c x y → Q y
    moved x w (inl e) = subst Q (sym e) w
    moved x w (inr s) = step x _ s w

-- Whatever a request is, the service leads from valid tables to valid tables.
pub serve-IsValid :
    (digest : Str → Str) (c : Cipher) (d : Draws) (config : ServiceConfig) (a : Arrival)
    (endpoint : Endpoint) (m : Message) (g : Gate) (db : Db)
    → IsValid db
    → IsValid (serve digest c d config a endpoint m g db).2
serve-IsValid digest c d config a endpoint m g db =
    serve-keeps digest c d config a endpoint m g db IsValid consumers-IsValid
      (λ x y s. Step-IsValid s.0)
