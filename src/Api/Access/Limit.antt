-- ===== src/Api/Access/Limit.antt =====
-- The sliding window of `_rate_limited` over a sequence of requests of one consumer.
use fingerprint_hub.Prelude.{
  ℕ, ◌+◌, ◌≤◌, ◌<◌, ◌≡◌, refl, Bool, false, ◌&&◌, List, [], ◌∷◌, ◌++◌, leb, leb→le, ltb, arith,
  length, length-append, All, All-imp, Bool-cases, inl, inr, if◌then◌else◌,
}
use mathlib.Core.List.{append_assoc, append-nil}
use native.Mathlib.Nat.{le_trans}
use fingerprint_hub.Prelude.Int.{pos, leb_ℤ}
use fingerprint_hub.Sql.{count, select}
use fingerprint_hub.Sql.Rows.{length-select-le, select-append, select_nothing}
use fingerprint_hub.Api.Access.{minute, drop_old, rate_limited}

-- The times of the requests that are let through.
unfoldable pub accepted : ℕ → List ℕ → List ℕ → List ℕ
unfolding rate_limited
accepted limit window [] = []
accepted limit window (t ∷ ts) =
    let (limited, window') = rate_limited (pos limit) t window in
    let rest = accepted limit window' ts in if limited then rest else t ∷ rest

abbrev pub within : ℕ → ℕ → Bool
within from t = leb from t && leb t (from + minute)

-- Each request comes no earlier than the one before.
abbrev pub IsOrdered : List ℕ → Type 0
IsOrdered [] = Unit
IsOrdered (t ∷ ts) = All (λ u. t ≤ u) ts × IsOrdered ts

accepted-All :
    (limit u : ℕ) (window ts : List ℕ)
    → All (λ t. u ≤ t) ts
    → All (λ t. u ≤ t) (accepted limit window ts)
unfolding accepted
accepted-All limit u window [] a = tt
accepted-All limit u window (t ∷ ts) a =
    let (limited, window') = rate_limited (pos limit) t window in
    elim (Bool-cases limited) [
      | inl e ↦ rw e (accepted-All limit u window' ts a.1)
      | inr e ↦ rw e (a.0, accepted-All limit u window' ts a.1)
    ]

length-drop_old : (now : ℕ) (window : List ℕ) → length (drop_old now window) ≤ length window
unfolding drop_old
length-drop_old now [] = omega arith
length-drop_old now (t ∷ window) = ground (arith, length-drop_old now window)

-- What leaves the window at `now` lies before any minute that reaches to `now`.
select-drop_old :
    (from now : ℕ) (window later : List ℕ)
    → now ≤ from + minute
    → select (within from) (drop_old now window ++ later) ≡ select (within from) (window ++ later)
unfolding drop_old select
select-drop_old from now [] later h = refl
select-drop_old from now (t ∷ window) later h = elim (Bool-cases (ltb (t + minute) now)) [
  | inl e ↦
      let out : within from t ≡ false = ground arith in
      rw (e, out) (select-drop_old from now window later h)
  | inr e ↦ rw e refl
]

-- What comes after a minute is not within it.
select_past :
    (from now : ℕ) (window later : List ℕ)
    → from + minute < now
    → All (λ t. now ≤ t) later
    → length (select (within from) (window ++ later)) ≤ length window
select_past from now window later h a = rw select-append (
    rw (select_nothing (within from) later (All-imp (λ t k. ground arith) later a))
      (rw append-nil (length-select-le (within from) window)))

-- One step: what holds of the window after it and the later requests holds of the window before it.
module _ (limit from now : ℕ) (window later : List ℕ) (small : length window ≤ limit)
    (after : All (λ t. now ≤ t) later) where
  step-within :
      length (select (within from) (drop_old now window ++ later)) ≤ limit
      → length (select (within from) (window ++ later)) ≤ limit
  step-within h = elim (Bool-cases (leb now (from + minute))) [
    | inl e ↦ rw (← select-drop_old from now window later (leb→le now (from + minute) e)) h
    | inr e ↦ le_trans (select_past from now window later (ground arith) after) small
  ]

accepted-within :
    (limit from : ℕ) (window ts : List ℕ)
    → length window ≤ limit
    → IsOrdered ts
    → length (select (within from) (window ++ accepted limit window ts)) ≤ limit
unfolding accepted
accepted-within limit from window [] small o =
    rw append-nil (le_trans (length-select-le (within from) window) small)
accepted-within limit from window (t ∷ ts) small o =
    elim (Bool-cases (leb_ℤ (pos limit) (pos (length (drop_old t window))))) [
      | inl e ↦
          unfold rate_limited in
          rw e (
            step-within limit from t window (accepted limit (drop_old t window) ts) small
              (accepted-All limit t (drop_old t window) ts o.0)
              (accepted-within limit from (drop_old t window) ts
                (le_trans (length-drop_old t window) small) o.1))
      | inr e ↦
          unfold rate_limited in
          rw e (
            let w = drop_old t window ++ t ∷ [] in
            step-within limit from t window (t ∷ accepted limit w ts) small
              (omega arith, accepted-All limit t w ts o.0)
              (rw (← append_assoc (drop_old t window) (t ∷ []) (accepted limit w ts)) (
                accepted-within limit from w ts
                  (ground (arith, length-append (drop_old t window) (t ∷ []))) o.1)))
    ]

-- Of requests that come in order and start with an empty window, no more than the limit are let
-- through within any minute, wherever it starts.
pub rate_limited_burst :
    (limit from : ℕ) (ts : List ℕ)
    → IsOrdered ts
    → count (within from) (accepted limit [] ts) ≤ limit
unfolding count
rate_limited_burst limit from ts o = accepted-within limit from [] ts (omega arith) o
