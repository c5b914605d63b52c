-- ===== src/Workers/Sharing.antt =====
-- The threads in `_get_executor` of utils/async_utils.py: who holds the lock, and who has seen what.
use fingerprint_hub.Prelude.{
  ℕ, after_move, ◌≡◌, ◌∙◌, refl, sym, ap, subst, Env, Bool, true, false, ◌==◌, Option, none, some,
  List, [], ◌∷◌, ◌⊎◌, arith, Bool-cases, inl, inr,
}
use fingerprint_hub.Workers.{
  Executor, Phase, calling, waiting, checking, making, releasing, returning, returned, Shared, move,
  test, acquire, release, make, get_max_workers, step_from, step, run, start,
}

-- Inside the `with`.
unfoldable pub holds : Phase → Bool
holds checking = true
holds making = true
holds releasing = true
holds _ = false

module _ (env : Env) where
  abbrev first : Executor
  first = record { number = 0; max_workers = get_max_workers env }

  abbrev numbered : ℕ → Option Executor
  numbered n = some (record { number = n; max_workers = get_max_workers env })

  -- What a thread knows of `_executor`.
  unfoldable pub Knows : Phase → Option Executor → Type 0
  Knows making e = e ≡ none
  Knows releasing e = e ≡ some first
  Knows returning e = e ≡ some first
  Knows (returned r) e = (r ≡ some first) × (e ≡ some first)
  Knows _ e = Unit

  -- One executor at most is made, and one thread at most is inside the `with`: the holder.
  pub record IsSafe (s : Shared) : Type 0 where
    pub made : (s.executor ≡ none × s.made ≡ 0) ⊎ (s.executor ≡ some first × s.made ≡ 1)
    pub holder : (t : ℕ) → holds (s.phase t) ≡ true → s.holder ≡ some t
    pub held : (t : ℕ) → s.holder ≡ some t → holds (s.phase t) ≡ true
    pub knows : (t : ℕ) → Knows (s.phase t) s.executor

  move-IsSafe :
      (t : ℕ) (p : Phase) (s : Shared)
      → holds p ≡ holds (s.phase t)
      → Knows p s.executor
      → IsSafe s
      → IsSafe (move t p s)
  unfolding move
  move-IsSafe t p s same k v = record {
    made = v.made;
    holder =
        after_move (λ u q. holds q ≡ true → s.holder ≡ some u) t p s.phase
          (λ h. v.holder t (sym same ∙ h)) (λ u e. v.holder u);
    held =
        after_move (λ u q. s.holder ≡ some u → holds q ≡ true) t p s.phase (λ h. same ∙ v.held t h)
          (λ u e. v.held u);
    knows = after_move (λ u q. Knows q s.executor) t p s.phase k (λ u e. v.knows u);
  }

  test-IsSafe :
      (e : Option Executor) (t : ℕ) (p q : Phase) (s : Shared)
      → s.executor ≡ e
      → (s.executor ≡ none → IsSafe (move t p s))
      → (s.executor ≡ some first → IsSafe (move t q s))
      → IsSafe s
      → IsSafe (test e t p q s)
  unfolding test
  test-IsSafe none t p q s r f g v = f r
  test-IsSafe (some x) t p q s r f g v = elim v.made [
    | inl m ↦ let empty = m.0 in cc
    | inr m ↦ g m.0
  ]

  acquire-IsSafe :
      (h : Option ℕ) (t : ℕ) (s : Shared) → s.holder ≡ h → IsSafe s → IsSafe (acquire h t s)
  unfolding acquire move
  acquire-IsSafe none t s e v = record {
    made = v.made;
    holder =
        after_move (λ u q. holds q ≡ true → some t ≡ some u) t checking s.phase (λ h. refl)
          (λ u f h. let other = v.holder u h in cc);
    held =
        after_move (λ u q. some t ≡ some u → holds q ≡ true) t checking s.phase
          (λ h. unfold holds in refl) (λ u f h. ground (arith, f, h));
    knows =
        after_move (λ u q. Knows q s.executor) t checking s.phase (unfold Knows in tt)
          (λ u f. v.knows u);
  }
  acquire-IsSafe (some u) t s e v = v

  release-IsSafe : (t : ℕ) (s : Shared) → s.phase t ≡ releasing → IsSafe s → IsSafe (release t s)
  unfolding release move Knows
  release-IsSafe t s at v =
      let mine : s.holder ≡ some t = v.holder t (rw at (unfold holds in refl)) in
      record {
        made = v.made;
        holder =
            after_move (λ u q. holds q ≡ true → none ≡ some u) t returning s.phase
              (λ h. unfold holds in cc) (λ u f h. ground (arith, f, sym mine ∙ v.holder u h));
        held =
            after_move (λ u q. none ≡ some u → holds q ≡ true) t returning s.phase (λ h. cc)
              (λ u f h. cc);
        knows =
            after_move (λ u q. Knows q s.executor) t returning s.phase
              (subst (λ p. Knows p s.executor) at (v.knows t)) (λ u f. v.knows u);
      }

  -- What a thread knows stays true when another makes the executor, unless it is about to.
  filled : (p : Phase) → Knows p none → holds p ≡ false → Knows p (some first)
  unfolding Knows holds
  filled calling k h = tt
  filled waiting k h = tt
  filled checking k h = cc
  filled making k h = cc
  filled releasing k h = cc
  filled returning k h = refl
  filled (returned r) k h = (k.0, refl)

  outside :
      (t u : ℕ) (s : Shared)
      → s.holder ≡ some t
      → u == t ≡ false
      → IsSafe s
      → holds (s.phase u) ≡ false
  outside t u s mine f v = elim (Bool-cases (holds (s.phase u))) [
    | inl e ↦ let other = v.holder u e in absurd (ground (arith, f, sym mine ∙ other))
    | inr e ↦ e
  ]

  make-IsSafe : (t : ℕ) (s : Shared) → s.phase t ≡ making → IsSafe s → IsSafe (make env t s)
  unfolding make move Knows
  make-IsSafe t s at v =
      let mine : s.holder ≡ some t = v.holder t (rw at (unfold holds in refl)) in
      let empty : s.executor ≡ none = subst (λ p. Knows p s.executor) at (v.knows t) in
      let none_made : s.made ≡ 0 = elim v.made [ inl m ↦ m.1 | inr m ↦ let full = m.0 in cc ] in
      record {
        made = inr (ap numbered none_made, omega arith);
        holder =
            after_move (λ u q. holds q ≡ true → s.holder ≡ some u) t releasing s.phase (λ h. mine)
              (λ u f. v.holder u);
        held =
            after_move (λ u q. s.holder ≡ some u → holds q ≡ true) t releasing s.phase
              (λ h. unfold holds in refl) (λ u f. v.held u);
        knows =
            after_move (λ u q. Knows q (numbered s.made)) t releasing s.phase
              (ap numbered none_made)
              (λ u f.
                subst (λ n. Knows (s.phase u) (numbered n)) (sym none_made)
                  (filled (s.phase u) (subst (Knows (s.phase u)) empty (v.knows u))
                    (outside t u s mine f v)));
      }

  step_from-IsSafe :
      (t : ℕ) (p : Phase) (s : Shared) → s.phase t ≡ p → IsSafe s → IsSafe (step_from env t p s)
  unfolding step_from
  step_from-IsSafe t calling s at v =
      test-IsSafe s.executor t waiting returning s refl
        (λ e. move-IsSafe t waiting s (rw at (unfold holds in refl)) (unfold Knows in tt) v)
        (λ e. move-IsSafe t returning s (rw at (unfold holds in refl)) (unfold Knows in e) v) v
  step_from-IsSafe t waiting s at v = acquire-IsSafe s.holder t s refl v
  step_from-IsSafe t checking s at v =
      test-IsSafe s.executor t making releasing s refl
        (λ e. move-IsSafe t making s (rw at (unfold holds in refl)) (unfold Knows in e) v)
        (λ e. move-IsSafe t releasing s (rw at (unfold holds in refl)) (unfold Knows in e) v) v
  step_from-IsSafe t making s at v = make-IsSafe t s at v
  step_from-IsSafe t releasing s at v = release-IsSafe t s at v
  step_from-IsSafe t returning s at v =
      move-IsSafe t (returned s.executor) s (rw at (unfold holds in refl))
        (unfold Knows in
          let seen : s.executor ≡ some first = subst (λ p. Knows p s.executor) at (v.knows t) in
          (seen, seen))
        v
  step_from-IsSafe t (returned e) s at v = v

  pub run-IsSafe : (schedule : List ℕ) (s : Shared) → IsSafe s → IsSafe (run env schedule s)
  unfolding run step
  run-IsSafe [] s v = v
  run-IsSafe (t ∷ schedule) s v =
      run-IsSafe schedule (step env t s) (step_from-IsSafe t (s.phase t) s refl v)

  pub start-IsSafe : IsSafe start
  start-IsSafe = record {
    made = inl (refl, refl);
    holder = λ t h. unfold holds in cc;
    held = λ t h. cc;
    knows = λ t. unfold Knows in tt;
  }

  -- Whatever steps threads take that start to call `_get_executor` where there is no executor yet: a
  -- call that returns returns the only executor that has been made, which has the number of workers
  -- that the environment asks for.
  pub run-shares :
      (schedule : List ℕ) (t : ℕ) (r : Option Executor)
      → (run env schedule start).phase t ≡ returned r
      → (r ≡ some (record { number = 0; max_workers = get_max_workers env }))
        × ((run env schedule start).made ≡ 1)
  run-shares schedule t r h =
      let v = run-IsSafe schedule start start-IsSafe in
      let k : (r ≡ some first) × ((run env schedule start).executor ≡ some first) =
        unfold Knows in subst (λ p. Knows p (run env schedule start).executor) h (v.knows t) in
      (k.0, elim v.made [ inl m ↦ (let empty = m.0 in let full = k.1 in cc) | inr m ↦ m.1 ])
