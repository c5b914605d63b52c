-- ===== src/Api/Contents.antt =====
-- What `contribute_fingerprint` lets through to the store.
use fingerprint_hub.Prelude.{
  ℕ, zero, suc, ◌≡◌, refl, sym, ap, ◌∙◌, Str, codes, Option, none, some, Bool, true, false, List,
  [], ◌∷◌, ◌++◌, length, str_in, arith, Bool-cases, Option-cases, inl, inr, ◌⊎◌,
}
use mathlib.Core.List.{reverse, reverse-reverse, reverse-append}
use fingerprint_hub.Api.Messages.{Json, lookup}
use fingerprint_hub.Api.Values.{is_space, skip, strip_by, strip, lower, all_hex, matches_phash}
use fingerprint_hub.Store.Contribute.{Contribution}
use fingerprint_hub.Api.Writing.{
  accepted, rejected, check, str_field, bool_or_none, contribution_of, valid_categories,
  valid_actions, str,
}

-- The pattern means sixteen digits, or sixteen digits and a newline.
matches_phash-cases :
    (n : ℕ) (s : Str)
    → matches_phash n s ≡ true
    → ((length s ≡ n) × (all_hex s ≡ true)) ⊎ ((t : Str) × (s ≡ t ++ 10 ∷ []))
unfolding matches_phash all_hex
matches_phash-cases zero [] h = inl (refl, refl)
matches_phash-cases zero (c ∷ []) h = let e : c ≡ 10 = ground arith in inr ([], rw e refl)
matches_phash-cases zero (c ∷ d ∷ s) h = absurd cc
matches_phash-cases (suc n) [] h = absurd cc
matches_phash-cases (suc n) (c ∷ s) h = elim (matches_phash-cases n s (ground arith)) [
  | inl (l, a) ↦ inl (ap suc l, ground arith)
  | inr (t, e) ↦ inr (c ∷ t, ap (◌∷◌ c) e)
]

-- A stripped text does not end in a newline.
skip-head : (p : ℕ → Bool) (s : Str) (c : ℕ) (t : Str) → skip p s ≡ c ∷ t → p c ≡ false
unfolding skip
skip-head p [] c t h = absurd cc
skip-head p (d ∷ s) c t h = elim (Bool-cases (p d)) [
  | inl e ↦ skip-head p s c t (ground arith)
  | inr e ↦ ground arith
]

strip-end : (s t : Str) → strip s ≡ t ++ 10 ∷ [] → ⊥
strip-end s t h =
    absurd (newline (skip-head is_space (reverse (skip is_space s)) 10 (reverse t) turned))
  where
    opened : strip s ≡ reverse (skip is_space (reverse (skip is_space s)))
    opened = unfold strip strip_by in refl

    turned : skip is_space (reverse (skip is_space s)) ≡ 10 ∷ reverse t
    turned =
        sym (reverse-reverse (skip is_space (reverse (skip is_space s))))
        ∙ ap reverse (sym opened ∙ h)
        ∙ reverse-append t (10 ∷ [])

    newline : is_space 10 ≡ false → ⊥
    newline e = unfold is_space in cc

lower-end : (s t : Str) → lower s ≡ t ++ 10 ∷ [] → (u : Str) × (s ≡ u ++ 10 ∷ [])
unfolding lower
lower-end [] [] h = absurd cc
lower-end [] (d ∷ t) h = absurd cc
lower-end (c ∷ []) [] h = let e : c ≡ 10 = ground arith in ([], rw e refl)
lower-end (c ∷ d ∷ s) [] h = absurd (ground arith)
lower-end (c ∷ s) (d ∷ t) h = let (u, e) = lower-end s t (ground arith) in (c ∷ u, ap (◌∷◌ c) e)

str_field-end : (o : Option Json) (t : Str) → str_field o ≡ t ++ 10 ∷ [] → ⊥
unfolding str_field
str_field-end none [] h = absurd cc
str_field-end none (c ∷ t) h = absurd cc
str_field-end (some value) t h = strip-end (str value) t h

-- What `check` has made sure of.
pub record IsClean (x : Contribution) : Type 0 where
  pub phash : (length x.phash_hex ≡ 16) × (all_hex x.phash_hex ≡ true)
  pub category : str_in x.category valid_categories ≡ true
  pub action : str_in x.action valid_actions ≡ true

phash_clean :
    (o : Option Json)
    → matches_phash 16 (lower (str_field o)) ≡ true
    → (length (lower (str_field o)) ≡ 16) × (all_hex (lower (str_field o)) ≡ true)
phash_clean o h = elim (matches_phash-cases 16 (lower (str_field o)) h) [
  | inl k ↦ k
  | inr (t, e) ↦ let (u, f) = lower-end (str_field o) t e in absurd (str_field-end o u f)
]

module _ (body : List (Str × Json)) where
  abbrev hash : Str
  hash = lower (str_field (lookup (codes "phash_hex") body))

  abbrev category : Str
  category = str_field (lookup (codes "category") body)

  abbrev action : Str
  action = str_field (lookup (codes "action") body)

  -- A body that the checks of `contribute_fingerprint` let through has a hash of exactly sixteen
  -- lower-case hexadecimal digits, a category and an action that the service knows.
  pub check-IsClean : (x : Contribution) → check body ≡ accepted x → IsClean x
  check-IsClean x h = elim (Bool-cases (matches_phash 16 hash)) [
    | inl e ↦ elim (Bool-cases (str_in category valid_categories)) [
      | inl f ↦ elim (Bool-cases (str_in action valid_actions)) [
        | inl g ↦ elim (Option-cases (bool_or_none (lookup (codes "auto_added") body))) [
          | inl k ↦ absurd (differ (sym h ∙ unsure e f g k))
          | inr (b, k) ↦ clean b e f g (sym h ∙ whole b e f g k)
        ]
        | inr g ↦ absurd (differ (sym h ∙ no_action e f g))
      ]
      | inr f ↦ absurd (differ (sym h ∙ no_category e f))
    ]
    | inr e ↦ absurd (differ (sym h ∙ no_hash e))
  ]
    where
      differ : {m : Str} → accepted x ≡ rejected m → ⊥
      differ k = cc

      no_hash :
          matches_phash 16 hash ≡ false
          → check body ≡ rejected (codes "phash_hex must be 16 lowercase hex characters")
      no_hash e = unfold check in rw (e, check) refl

      no_category :
          matches_phash 16 hash ≡ true
          → str_in category valid_categories ≡ false
          → check body
            ≡ rejected
                (codes "category must be one of ['crypto', 'nsfw', 'other', 'phishing', 'scam']")
      no_category e f = unfold check in rw (e, f, check) refl

      no_action :
          matches_phash 16 hash ≡ true
          → str_in category valid_categories ≡ true
          → str_in action valid_actions ≡ false
          → check body ≡ rejected (codes "action must be one of ['kick', 'timeout']")
      no_action e f g = unfold check in rw (e, f, g, check) refl

      unsure :
          matches_phash 16 hash ≡ true
          → str_in category valid_categories ≡ true
          → str_in action valid_actions ≡ true
          → bool_or_none (lookup (codes "auto_added") body) ≡ none
          → check body ≡ rejected (codes "auto_added must be a boolean")
      unsure e f g k = unfold check in rw (e, f, g, k, check) refl

      whole :
          (b : Bool)
          → matches_phash 16 hash ≡ true
          → str_in category valid_categories ≡ true
          → str_in action valid_actions ≡ true
          → bool_or_none (lookup (codes "auto_added") body) ≡ some b
          → check body ≡ accepted (contribution_of hash category action b body)
      whole b e f g k = unfold check in rw (e, f, g, k, check) refl

      clean :
          (b : Bool)
          → matches_phash 16 hash ≡ true
          → str_in category valid_categories ≡ true
          → str_in action valid_actions ≡ true
          → accepted x ≡ accepted (contribution_of hash category action b body)
          → IsClean x
      clean b e f g k =
          let same : contribution_of hash category action b body ≡ x = cc in
          rw (← same) (
            unfold contribution_of in
            record {
              phash = phash_clean (lookup (codes "phash_hex") body) e;
              category = f;
              action = g;
            })
