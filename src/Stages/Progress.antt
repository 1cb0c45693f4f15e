-- ===== src/Stages/Progress.antt =====
-- The stages of `Prove`: who can take a step in a reachable state.
use gnark_cuda.Prelude.{
  ℕ, zero, suc, ◌<◌, ◌≡◌, ◌⊎◌, inl, inr, refl, arith, Bool, true, false, Bool-cases, subst, List,
  [], ◌∷◌,
}
use gnark_cuda.Stages.{
  Chan, Instr, wait, close, act, run, fail, order, State, Step, waited, context_done, closes, acted,
  succeeded, failed, Reachable,
}
use gnark_cuda.Stages.Ordered.{Resolves, Above, IsOrdered, Inv, IsOrdered-at, Reachable-Inv}

-- Some goroutine can take a step.
abbrev pub CanStep : State → Type 0
CanStep st = (st' : State) × Step st st'

-- The next instruction of a goroutine that is not waiting for an open channel is a step.
data Head (st : State) (l : List Instr) : Type 0 where
  is_done : l ≡ [] → Head st l
  can_step : CanStep st → Head st l
  is_blocked :
      (c : Chan) (rest : List Instr) → l ≡ wait c ∷ rest → st.closed (order c) ≡ false → Head st l

head_lem : (st : State) (s : ℕ) (l : List Instr) → st.todo s ≡ l → Head st l
head_lem st s [] e = is_done refl
head_lem st s (wait c ∷ l) e = elim (Bool-cases (st.closed (order c))) [
  | inl h ↦ can_step (_, waited s c l e h)
  | inr h ↦ is_blocked c l refl h
]
head_lem st s (close c ∷ l) e = can_step (_, closes s c l e)
head_lem st s (act o ∷ l) e = can_step (_, acted s o l e)
head_lem st s (run o ∷ l) e = can_step (_, succeeded s o l e)
head_lem st s (fail ∷ l) e = can_step (_, failed s l e)

Above-Resolves : (n : ℕ) (c : Chan) (l : List Instr) → Above n l → Resolves c l → n < order c
unfolding Above Resolves
Above-Resolves n c [] a r = absurd r
Above-Resolves n c (wait d ∷ l) a r = Above-Resolves n c l a r
Above-Resolves n c (close d ∷ l) a r = elim r [
  | inl e ↦ omega (arith, a.0, e)
  | inr r' ↦ Above-Resolves n c l a.1 r'
]
Above-Resolves n c (act o ∷ l) a r = Above-Resolves n c l a r
Above-Resolves n c (run o ∷ l) a r = Above-Resolves n c l a r
Above-Resolves n c (fail ∷ l) a r = absurd a

true-ne-false : (b : Bool) → b ≡ true → b ≡ false → ⊥
true-ne-false true h e = ground arith
true-ne-false false h e = ground arith

-- Whoever should close an open channel can step, or waits for an open channel that is ordered before.
unblock :
    (st : State)
    → Inv st
    → ((c : Chan) → (st.closed (order c) ≡ true) ⊎ ((s : ℕ) × Resolves c (st.todo s)))
    → (n : ℕ) (c : Chan) → order c < n
    → st.closed (order c) ≡ false
    → CanStep st
unfolding IsOrdered Resolves
unblock st inv f zero c p h = absurd (omega arith)
unblock st inv f (suc n) c p h = elim (f c) [
  | inl h' ↦ absurd (true-ne-false _ h' h)
  | inr (s, r) ↦ elim (head_lem st s (st.todo s) refl) [
    | is_done e ↦ absurd (subst (Resolves c) e r)
    | can_step x ↦ x
    | is_blocked d rest e q ↦
        unblock st inv f n d
          (omega (
            arith,
            Above-Resolves (order d) c rest (IsOrdered-at st s (wait d ∷ rest) inv e).0
                (subst (Resolves c) e r),
          ))
          q
  ]
]

-- No deadlock: in every reachable state, whatever calls have returned errors, each goroutine has
-- finished or some goroutine can take a step.
pub Reachable-CanStep : (st : State) → Reachable st → (s : ℕ) → (st.todo s ≡ []) ⊎ CanStep st
Reachable-CanStep st r s = elim (head_lem st s (st.todo s) refl) [
  | is_done e ↦ inl e
  | can_step x ↦ inr x
  | is_blocked c rest e h ↦ elim (Reachable-Inv st r).pending [
    | inl q ↦ inr (_, context_done s c rest e q)
    | inr f ↦ inr (unblock st (Reachable-Inv st r) f (suc (order c)) c (omega arith) h)
  ]
]

-- When every goroutine has finished and no error was returned, every channel has been closed.
pub finished-closed :
    (st : State)
    → Reachable st
    → ((s : ℕ) → st.todo s ≡ [])
    → st.cancelled ≡ false
    → (c : Chan) → st.closed (order c) ≡ true
unfolding Resolves
finished-closed st r done ok c = elim (Reachable-Inv st r).pending [
  | inl q ↦ absurd (true-ne-false _ q ok)
  | inr f ↦ elim (f c) [ inl h ↦ h | inr (s, x) ↦ absurd (subst (Resolves c) (done s) x) ]
]
