-- ===== src/Prelude/Turns.antt =====
-- Agents that take turns, and share a lock that one of them holds at a time.
use Prim.Native.Nat.{ℕ, zero, suc, ◌+◌, ◌-◌, ◌≤◌, ◌<◌}
use mathlib.Core.Path.{◌≡◌}
use mathlib.Core.Logic.{◌⊎◌, inl, inr}
use mathlib.Core.Bool.{Bool, true}
use mathlib.Core.Option.{Option, none, some}
use native.Mathlib.Omega.{arith}
use fingerprint_hub.Prelude.Tests.{Option-cases}

-- `n` steps of agent `t`
unfoldable pub turns {ℓ} : {S : Type ℓ} → (ℕ → S → S) → ℕ → ℕ → S → S
turns step zero t s = s
turns step (suc n) t s = turns step n t (step t s)

further : (a b c n : ℕ) → a ≤ b - n → b ≤ c - 1 → a ≤ c - suc n
further a b c n h k = omega (arith, h, k)

module _ {S : Type 0} (holder : S → Option ℕ) (holds : ℕ → S → Bool) (rank : ℕ → S → ℕ) where
  -- The lock is free, or the agent's own.
  abbrev pub IsFree : ℕ → S → Type 0
  IsFree t s = (holder s ≡ none) ⊎ (holds t s ≡ true)

  -- The agent is free to go on, and `n` steps at most from its end.
  pub record Advances (t n : ℕ) (s : S) : Type 0 where
    pub free : IsFree t s
    pub nearer : rank t s ≤ n

  module _ (step : ℕ → S → S)
      (advances : (t : ℕ) (s : S) → IsFree t s → Advances t (rank t s - 1) (step t s)) where
    turns-Advances : (n t : ℕ) (s : S) → IsFree t s → Advances t (rank t s - n) (turns step n t s)
    unfolding turns
    turns-Advances zero t s f = record { free = f; nearer = omega arith }
    turns-Advances (suc n) t s f =
        let a = advances t s f in
        let b = turns-Advances n t (step t s) a.free in
        record { free = b.free; nearer = further _ _ _ n b.nearer a.nearer }

    -- An agent is at most `n` steps from its end, and the holder of the lock `m` from its release.
    module _ (n m low : ℕ) (bound : (t : ℕ) (s : S) → rank t s ≤ n)
        (holding : (t : ℕ) (s : S)
          → holds t s ≡ true
          → (low < rank t s) × (rank t s ≤ low + m)) where
      own_turns : (t : ℕ) (s : S) → IsFree t s → rank t (turns step n t s) ≡ 0
      own_turns t s f =
          let a = turns-Advances n t s f in let b = bound t s in omega (arith, a.nearer, b)

      released : (u : ℕ) (s : S) → holds u s ≡ true → holder (turns step m u s) ≡ none
      released u s h =
          let a = turns-Advances m u s (inr h) in
          let b = holding u s h in
          elim a.free [
            | inl f ↦ f
            | inr k ↦
                let c = holding u (turns step m u s) k in
                absurd (omega (arith, a.nearer, b.0, b.1, c.0))
          ]

      -- Where the holder is inside, there is an agent whose steps let any other come to its end.
      pub turns-end :
          (t : ℕ) (s : S)
          → ((u : ℕ) → holder s ≡ some u → holds u s ≡ true)
          → (u : ℕ) × (rank t (turns step n t (turns step m u s)) ≡ 0)
      turns-end t s held = elim (Option-cases (holder s)) [
        | inl e ↦ let a = turns-Advances m t s (inl e) in (t, own_turns t (turns step m t s) a.free)
        | inr (u, e) ↦
            let f = released u s (held u e) in (u, own_turns t (turns step m u s) (inl f))
      ]
