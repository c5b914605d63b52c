-- ===== src/Workers/Progress.antt =====
-- No thread is stuck in `_get_executor` of utils/async_utils.py.
use fingerprint_hub.Prelude.{
  ℕ, ◌-◌, ◌≡◌, ◌≤◌, ◌<◌, refl, Env, Bool, true, ◌==◌, Option, none, some, List, ◌⊎◌, arith, inl,
  inr,
}
use fingerprint_hub.Prelude.Turns.{turns, Advances, turns-end}
use fingerprint_hub.Workers.{
  Executor, Phase, calling, waiting, checking, making, releasing, returning, returned, Shared, move,
  test, acquire, release, make, step_from, step, run, start,
}
use fingerprint_hub.Workers.Sharing.{holds, run-IsSafe, start-IsSafe}

-- How many steps a thread has at most before it, waiting aside.
unfoldable pub rank : Phase → ℕ
rank calling = 6
rank waiting = 5
rank checking = 4
rank making = 3
rank releasing = 2
rank returning = 1
rank (returned r) = 0

rank-bound : (p : Phase) → rank p ≤ 6
unfolding rank
rank-bound calling = omega arith
rank-bound waiting = omega arith
rank-bound checking = omega arith
rank-bound making = omega arith
rank-bound releasing = omega arith
rank-bound returning = omega arith
rank-bound (returned r) = omega arith

rank-holds : (p : Phase) → holds p ≡ true → (1 < rank p) × (rank p ≤ 4)
unfolding rank holds
rank-holds calling h = cc
rank-holds waiting h = cc
rank-holds checking h = (omega arith, omega arith)
rank-holds making h = (omega arith, omega arith)
rank-holds releasing h = (omega arith, omega arith)
rank-holds returning h = cc
rank-holds (returned r) h = cc

rank_zero : (p : Phase) → rank p ≡ 0 → (r : Option Executor) × (p ≡ returned r)
unfolding rank
rank_zero calling h = absurd (omega arith)
rank_zero waiting h = absurd (omega arith)
rank_zero checking h = absurd (omega arith)
rank_zero making h = absurd (omega arith)
rank_zero releasing h = absurd (omega arith)
rank_zero returning h = absurd (omega arith)
rank_zero (returned r) h = (r, refl)

moved : (t : ℕ) (p : Phase) (s : Shared) → (move t p s).phase t ≡ p
unfolding move
moved t p s = let e : t == t ≡ true = ground arith in rw e refl

abbrev pub holds_at : ℕ → Shared → Bool
holds_at t s = holds (s.phase t)

abbrev pub rank_at : ℕ → Shared → ℕ
rank_at t s = rank (s.phase t)

abbrev holder_of : Shared → Option ℕ
holder_of s = s.holder

abbrev Nearer : ℕ → ℕ → Shared → Type 0
Nearer = Advances holder_of holds_at rank_at

advanced :
    (t n : ℕ) (p : Phase) (s : Shared)
    → (s.holder ≡ none) ⊎ (holds p ≡ true)
    → rank p ≤ n
    → s.phase t ≡ p
    → Nearer t n s
advanced t n p s f b at = record { free = rw at f; nearer = rw at b }

test-Advances :
    (e : Option Executor) (t n : ℕ) (p q : Phase) (s : Shared)
    → ((s.holder ≡ none) ⊎ (holds p ≡ true)) × (rank p ≤ n)
    → ((s.holder ≡ none) ⊎ (holds q ≡ true)) × (rank q ≤ n)
    → Nearer t n (test e t p q s)
unfolding test move
test-Advances none t n p q s h k = advanced t n p (move t p s) h.0 h.1 (moved t p s)
test-Advances (some x) t n p q s h k = advanced t n q (move t q s) k.0 k.1 (moved t q s)

acquire-Advances : (h : Option ℕ) (t : ℕ) (s : Shared) → h ≡ none → Nearer t 4 (acquire h t s)
unfolding acquire move rank holds
acquire-Advances none t s e =
    advanced t 4 checking (acquire none t s) (inr refl) (omega arith) (moved t checking s)
acquire-Advances (some u) t s e = cc

module _ (env : Env) where
  step_from-Advances :
      (t : ℕ) (p : Phase) (s : Shared)
      → s.phase t ≡ p
      → (s.holder ≡ none) ⊎ (holds p ≡ true)
      → Nearer t (rank p - 1) (step_from env t p s)
  unfolding step_from rank holds move release make
  step_from-Advances t calling s at (inl f) =
      test-Advances s.executor t 5 waiting returning s (inl f, omega arith) (inl f, omega arith)
  step_from-Advances t waiting s at (inl f) = acquire-Advances s.holder t s f
  step_from-Advances t checking s at f =
      test-Advances s.executor t 3 making releasing s (inr refl, omega arith)
        (inr refl, omega arith)
  step_from-Advances t making s at f =
      advanced t 2 releasing (make env t s) (inr refl) (omega arith) (moved t releasing s)
  step_from-Advances t releasing s at f =
      advanced t 1 returning (release t s) (inl refl) (omega arith) (moved t returning s)
  step_from-Advances t returning s at (inl f) =
      advanced t 0 (returned s.executor) (move t (returned s.executor) s) (inl f) (omega arith)
        (moved t (returned s.executor) s)
  step_from-Advances t (returned r) s at f = advanced t 0 (returned r) s f (omega arith) at
  step_from-Advances t calling s at (inr f) = cc
  step_from-Advances t waiting s at (inr f) = cc
  step_from-Advances t returning s at (inr f) = cc

  -- Whatever steps threads have taken that started to call `_get_executor` where there was no executor
  -- yet, no call is stuck: there is a thread, of which three steps, and six steps of the caller after
  -- them, bring the call to its return.
  pub run-returns :
      (schedule : List ℕ) (t : ℕ)
      → (u : ℕ) × (r : Option Executor) × ((turns
              (step env)
              6
              t
              (turns (step env) 3 u (run env schedule start))).phase
            t
          ≡ returned r)
  run-returns schedule t =
      let s = run env schedule start in
      let v = run-IsSafe env schedule start (start-IsSafe env) in
      let (u, e) =
        turns-end holder_of holds_at rank_at (step env)
          (λ t s. unfold step in step_from-Advances t (s.phase t) s refl) 6 3 1
          (λ t s. rank-bound (s.phase t)) (λ t s. rank-holds (s.phase t)) t s v.held in
      let (r, f) = rank_zero ((turns (step env) 6 t (turns (step env) 3 u s)).phase t) e in
      (u, r, f)
