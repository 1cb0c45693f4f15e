-- ===== src/Stages/Bounded.antt =====
-- The number of steps that the stages can take, and that they all come to an end.
use gnark_cuda.Prelude.{
  ℕ, zero, suc, ◌+◌, ◌<◌, ◌≤◌, ◌≡◌, ◌∙◌, ◌⊎◌, inl, inr, refl, ap, ap₂, arith, true, Bool-cases,
  List, [], ◌∷◌,
}
use gnark_cuda.Slice.{update, update_ne}
use gnark_cuda.BatchInvert.Products.{update_cases}
use gnark_cuda.Stages.{
  Chan, Call, Instr, wait, close, act, run, fail, stages, nth, order, on_error, commit_to_z, State,
  start, Step, waited, context_done, closes, acted, succeeded, errored, failed, Run, none_taken,
  taken, Reachable, initial, next,
}
use gnark_cuda.Stages.Progress.{CanStep, Reachable-CanStep, finished-closed}

-- An error leaves at most two more instructions to a goroutine, so a call that can fail counts three.
weight : List Instr → ℕ
weight [] = 0
weight (wait c ∷ l) = suc (weight l)
weight (close c ∷ l) = suc (weight l)
weight (act o ∷ l) = suc (weight l)
weight (run o ∷ l) = 3 + weight l
weight (fail ∷ l) = suc (weight l)

total : ℕ → (ℕ → List Instr) → ℕ
total zero f = 0
total (suc n) f = total n f + weight (f n)

total_after :
    (n : ℕ) (f : ℕ → List Instr) (s : ℕ) (l : List Instr)
    → n ≤ s
    → total n (update f s l) ≡ total n f
unfolding total
total_after zero f s l h = refl
total_after (suc n) f s l h =
    ap₂ (λ (x y : ℕ). x + y) (total_after n f s l (omega arith))
      (ap weight (update_ne f s n l (omega arith)))

total-update :
    (n : ℕ) (f : ℕ → List Instr) (s : ℕ) (l : List Instr)
    → s < n
    → total n (update f s l) + weight (f s) ≡ total n f + weight l
unfolding total
total-update zero f s l h = absurd (omega arith)
total-update (suc n) f s l h = elim (update_cases f s n l) [
  | inl (d, e) ↦ rw e (omega (arith, total_after n f s l (omega arith), ap (λ t. weight (f t)) d))
  | inr (d, e) ↦ rw e (omega (arith, total-update n f s l (omega arith)))
]

-- Only the ten goroutines have instructions.
Within : State → Type 0
Within st = (s : ℕ) → 10 ≤ s → st.todo s ≡ []

size : List (List Instr) → ℕ
size [] = 0
size (l ∷ ls) = suc (size ls)

nth_past : (ls : List (List Instr)) (s : ℕ) → size ls ≤ s → nth ls s ≡ []
unfolding size nth
nth_past [] s h = refl
nth_past (l ∷ ls) zero h = absurd (omega arith)
nth_past (l ∷ ls) (suc s) h = nth_past ls s (omega arith)

stages-size : size stages ≡ 10
unfolding size stages
stages-size = refl

start-Within : Within start
unfolding Within
start-Within s h = nth_past stages s (omega (arith, stages-size))

-- What a step of goroutine s, from `before` to `after`, does to the weights of all of them.
Decreases : (before after : ℕ → List Instr) → Type 0
Decreases before after = (total 10 after < total 10 before) × ((s : ℕ) → 10 ≤ s → after s ≡ [])

decrease :
    (f : ℕ → List Instr) (s : ℕ) (rest : List Instr)
    → ((t : ℕ) → 10 ≤ t → f t ≡ [])
    → weight rest < weight (f s)
    → Decreases f (update f s rest)
unfolding Decreases weight
decrease f s rest w h = (
  omega (arith, total-update 10 f s rest inside),
  λ t p. update_ne f s t rest (omega (arith, inside)) ∙ w t p,
)
  where
    inside : s < 10
    inside = elim (below_or_not s) [ inl p ↦ p | inr p ↦ absurd (omega (arith, ap weight (w s p))) ]
      where
        below_or_not : (s : ℕ) → (s < 10) ⊎ (10 ≤ s)
        below_or_not s = omega arith

on_error-weight : (o : Call) → weight (on_error o) < 3
unfolding on_error weight
on_error-weight commit_to_z = omega arith
on_error-weight _ = omega arith

Step-Decreases : (st st' : State) → Within st → Step st st' → Decreases st.todo st'.todo
unfolding Within weight
Step-Decreases st st' w (waited s c rest e h) =
    decrease st.todo s rest w (omega (arith, ap weight e))
Step-Decreases st st' w (context_done s c rest e h) =
    decrease st.todo s [] w (omega (arith, ap weight e))
Step-Decreases st st' w (closes s c rest e) = decrease st.todo s rest w (omega (arith, ap weight e))
Step-Decreases st st' w (acted s o rest e) = decrease st.todo s rest w (omega (arith, ap weight e))
Step-Decreases st st' w (succeeded s o rest e) =
    decrease st.todo s rest w (omega (arith, ap weight e))
Step-Decreases st st' w (errored s o rest e) =
    decrease st.todo s (on_error o) w (omega (arith, ap weight e, on_error-weight o))
Step-Decreases st st' w (failed s rest e) = decrease st.todo s [] w (omega (arith, ap weight e))

Run-Decreases :
    (k : ℕ) (st st' : State)
    → Within st
    → Run k st st'
    → (k + total 10 st'.todo ≤ total 10 st.todo) × Within st'
unfolding Within Decreases
Run-Decreases _ st st' w none_taken = (omega arith, w)
Run-Decreases _ st st' w (taken {k = k} {mid = mid} r step) =
    let before = Run-Decreases k st mid w r in
    let after = Step-Decreases mid st' before.1 step in (omega (arith, before.0, after.0), after.1)

start_total : total 10 start.todo ≡ 89
unfolding total weight nth stages
start_total = refl

-- A run has at most 89 steps, whatever calls return errors.
Run-bound : (k : ℕ) (st : State) → Run k start st → k + total 10 st.todo ≤ 89
Run-bound k st r = omega (arith, (Run-Decreases k start st start-Within r).0, start_total)

Run-Reachable : {k : ℕ} {st : State} → Run k start st → Reachable st
Run-Reachable none_taken = initial
Run-Reachable (taken r step) = next (Run-Reachable r) step

Run-first : {k : ℕ} {st mid st' : State} → Step st mid → Run k mid st' → Run (suc k) st st'
Run-first step none_taken = taken none_taken step
Run-first step (taken r last) = taken (Run-first step r) last

-- One of the first n goroutines can make the state step, or all of them have finished.
step_or_finished :
    (n : ℕ) (st : State) → Reachable st → ((s : ℕ) → s < n → st.todo s ≡ []) ⊎ CanStep st
step_or_finished zero st r = inl (λ s p. absurd (omega arith))
step_or_finished (suc n) st r = elim (step_or_finished n st r) [
  | inr x ↦ inr x
  | inl f ↦ elim (Reachable-CanStep st r n) [
    | inr x ↦ inr x
    | inl e ↦ inl (λ s p. elim (last_or_before s n p) [ inl q ↦ f s q | inr q ↦ ap st.todo q ∙ e ])
  ]
]
  where
    last_or_before : (s n : ℕ) → s < suc n → (s < n) ⊎ (s ≡ n)
    last_or_before s n p = omega arith

-- Every goroutine has finished, and each channel is closed unless an error was returned.
pub record IsFinished (st : State) : Type 0 where
  pub finished : (s : ℕ) → st.todo s ≡ []
  pub announced : (st.cancelled ≡ true) ⊎ ((c : Chan) → st.closed (order c) ≡ true)

finishes :
    (fuel : ℕ) (st : State)
    → Reachable st
    → Within st
    → total 10 st.todo < fuel
    → (k : ℕ) × (st' : State) × Run k st st' × IsFinished st' × (k ≤ total 10 st.todo)
unfolding Within Decreases
finishes zero st r w p = absurd (omega arith)
finishes (suc fuel) st r w p = elim (step_or_finished 10 st r) [
  | inl f ↦ (
    0,
    st,
    none_taken,
    record {
      finished = all f;
      announced = elim (Bool-cases st.cancelled) [
        | inl bad ↦ inl bad
        | inr ok ↦ inr (finished-closed st r (all f) ok)
      ];
    },
    omega arith,
  )
  | inr (mid, step) ↦
      let after = Step-Decreases st mid w step in
      let (k, st', path, fin, q) =
        finishes fuel mid (next r step) after.1 (omega (arith, after.0)) in
      (suc k, st', Run-first step path, fin, omega (arith, after.0, q))
]
  where
    all : ((s : ℕ) → s < 10 → st.todo s ≡ []) → (s : ℕ) → st.todo s ≡ []
    all f s = elim (inside_or_past s) [ inl q ↦ f s q | inr q ↦ w s q ]
      where
        inside_or_past : (s : ℕ) → (s < 10) ⊎ (10 ≤ s)
        inside_or_past s = omega arith

-- After any run of the stages from the start, whatever calls have returned errors, further steps lead
-- to a state in which every goroutine has finished, and in which every channel has been closed or an
-- error was returned to the errgroup. The run has at most 89 steps, these further steps included, so
-- every way to go on comes to such an end.
pub Run-finishes :
    (j : ℕ) (st : State)
    → Run j start st
    → (k : ℕ) × (st' : State) × Run k st st' × IsFinished st' × (j + k ≤ 89)
Run-finishes j st before =
    let (k, st', path, fin, q) =
      finishes (suc (total 10 st.todo)) st (Run-Reachable before)
        (Run-Decreases j start st start-Within before).1 (omega arith) in
    (k, st', path, fin, omega (arith, q, Run-bound j st before))
