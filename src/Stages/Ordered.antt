-- ===== src/Stages/Ordered.antt =====
-- The order of the channels in the programs of the stages, and who still closes which channel.
use gnark_cuda.Prelude.{
  ℕ, zero, suc, ◌+◌, ◌<◌, ◌≡◌, ◌∙◌, ◌⊎◌, inl, inr, refl, sym, ap, arith, Bool, true, subst, List,
  [], ◌∷◌,
}
use gnark_cuda.Slice.{update, update_self}
use gnark_cuda.BatchInvert.Products.{update_cases}
use gnark_cuda.Stages.{
  Chan, ch_bp, ch_lro, ch_qk, ch_gamma_beta, ch_z, ch_start_restore, ch_restore_lro, ch_h,
  ch_z_opening, ch_linearized_polynomial, Call, Instr, wait, close, act, run, fail, stages, nth,
  order, on_error, commit_to_z, State, Step, waited, context_done, closes, acted, succeeded,
  errored, failed, Reachable, initial, next,
}

-- A program that still closes c or reports an error.
unfoldable pub Resolves : Chan → List Instr → Type 0
Resolves c [] = ⊥
Resolves c (wait d ∷ l) = Resolves c l
Resolves c (close d ∷ l) = (order d ≡ order c) ⊎ Resolves c l
Resolves c (act o ∷ l) = Resolves c l
Resolves c (run o ∷ l) = Resolves c l
Resolves c (fail ∷ l) = Unit

-- Everything that a program closes is ordered after n, and it reports no error of its own.
unfoldable pub Above : ℕ → List Instr → Type 0
Above n [] = Unit
Above n (wait d ∷ l) = Above n l
Above n (close d ∷ l) = (n < order d) × Above n l
Above n (act o ∷ l) = Above n l
Above n (run o ∷ l) = Above n l
Above n (fail ∷ l) = ⊥

-- A program waits only for channels that are ordered before the ones it closes afterwards.
unfoldable pub IsOrdered : List Instr → Type 0
IsOrdered [] = Unit
IsOrdered (wait d ∷ l) = Above (order d) l × IsOrdered l
IsOrdered (close d ∷ l) = IsOrdered l
IsOrdered (act o ∷ l) = IsOrdered l
IsOrdered (run o ∷ l) = IsOrdered l
IsOrdered (fail ∷ l) = IsOrdered l

-- Programs are ordered; before a cancellation, whoever closes a channel has closed it or still will.
pub record Inv (st : State) : Type 0 where
  pub ordered : (s : ℕ) → IsOrdered (st.todo s)
  pub pending :
      (st.cancelled ≡ true)
      ⊎ ((c : Chan) → (st.closed (order c) ≡ true) ⊎ ((s : ℕ) × Resolves c (st.todo s)))

on_error-IsOrdered : (o : Call) → IsOrdered (on_error o)
unfolding on_error IsOrdered
on_error-IsOrdered commit_to_z = tt
on_error-IsOrdered _ = tt

on_error-Resolves : (c : Chan) (o : Call) → Resolves c (on_error o)
unfolding on_error Resolves
on_error-Resolves c commit_to_z = inr tt
on_error-Resolves c _ = tt

Inv-move :
    (st : State) (closed' : ℕ → Bool) (s : ℕ) (l rest : List Instr)
    → st.todo s ≡ l
    → IsOrdered rest
    → ((c : Chan) → Resolves c l → (closed' (order c) ≡ true) ⊎ Resolves c rest)
    → ((c : Chan) → st.closed (order c) ≡ true → closed' (order c) ≡ true)
    → Inv st
    → Inv (record { closed = closed'; todo = update st.todo s rest; cancelled = st.cancelled })
Inv-move st closed' s l rest e o res mono inv = record {
  ordered = λ t. elim (update_cases st.todo s t rest) [
    | inl (d, h) ↦ subst IsOrdered (sym h) o
    | inr (d, h) ↦ subst IsOrdered (sym h) (inv.ordered t)
  ];
  pending = elim inv.pending [
    | inl h ↦ inl h
    | inr f ↦ inr (λ c. elim (f c) [
      | inl h ↦ inl (mono c h)
      | inr (t, r) ↦ elim (update_cases st.todo s t rest) [
        | inl (d, h) ↦ elim (res c (subst (Resolves c) (ap st.todo d ∙ e) r)) [
          | inl h' ↦ inl h'
          | inr r' ↦ inr (t, subst (Resolves c) (sym h) r')
        ]
        | inr (d, h) ↦ inr (t, subst (Resolves c) (sym h) r)
      ]
    ])
  ];
}

Inv-cancel :
    (st : State) (s : ℕ)
    → Inv st
    → Inv (record { closed = st.closed; todo = update st.todo s []; cancelled = true })
unfolding IsOrdered
Inv-cancel st s inv = record {
  ordered = λ t. elim (update_cases st.todo s t []) [
    | inl (d, h) ↦ subst IsOrdered (sym h) tt
    | inr (d, h) ↦ subst IsOrdered (sym h) (inv.ordered t)
  ];
  pending = inl refl;
}

closed_more : (f : ℕ → Bool) (i j : ℕ) → f j ≡ true → update f i true j ≡ true
closed_more f i j h = elim (update_cases f i j true) [ inl (d, e) ↦ e | inr (d, e) ↦ e ∙ h ]

-- The order of the program that a goroutine is in.
pub IsOrdered-at : (st : State) (s : ℕ) (l : List Instr) → Inv st → st.todo s ≡ l → IsOrdered l
IsOrdered-at st s l inv e = subst IsOrdered e (inv.ordered s)

Inv-Step : (st st' : State) → Step st st' → Inv st → Inv st'
unfolding IsOrdered Resolves
Inv-Step st st' (waited s c rest e h) inv =
    Inv-move st st.closed s _ rest e (IsOrdered-at st s _ inv e).1 (λ d r. inr r) (λ d q. q) inv
Inv-Step st st' (context_done s c rest e h) inv = Inv-cancel st s inv
Inv-Step st st' (closes s c rest e) inv =
    Inv-move st (update st.closed (order c) true) s _ rest e (IsOrdered-at st s _ inv e)
      (λ d r. elim r [
        | inl h ↦ inl (rw (← h) (update_self st.closed (order c) true))
        | inr r' ↦ inr r'
      ])
      (λ d q. closed_more st.closed (order c) (order d) q) inv
Inv-Step st st' (acted s o rest e) inv =
    Inv-move st st.closed s _ rest e (IsOrdered-at st s _ inv e) (λ d r. inr r) (λ d q. q) inv
Inv-Step st st' (succeeded s o rest e) inv =
    Inv-move st st.closed s _ rest e (IsOrdered-at st s _ inv e) (λ d r. inr r) (λ d q. q) inv
Inv-Step st st' (errored s o rest e) inv =
    Inv-move st st.closed s _ (on_error o) e (on_error-IsOrdered o)
      (λ d r. inr (on_error-Resolves d o)) (λ d q. q) inv
Inv-Step st st' (failed s rest e) inv = Inv-cancel st s inv

lt : (a d : ℕ) → a < suc (a + d)
lt a d = omega arith

start-IsOrdered : (s : ℕ) → IsOrdered (nth stages s)
unfolding stages nth IsOrdered Above order
start-IsOrdered zero = ((lt 0 0, tt), tt)
start-IsOrdered (suc zero) = ((lt 1 0, tt), tt)
start-IsOrdered (suc (suc zero)) = tt
start-IsOrdered (suc (suc (suc zero))) = ((lt 1 1, tt), tt)
start-IsOrdered (suc (suc (suc (suc zero)))) = ((lt 3 0, tt), tt)
start-IsOrdered (suc (suc (suc (suc (suc zero))))) =
    ((lt 1 3, (lt 1 5, tt)), ((lt 4 0, (lt 4 2, tt)), ((lt 2 2, (lt 2 4, tt)), ((lt 6 0, tt), tt))))
start-IsOrdered (suc (suc (suc (suc (suc (suc zero)))))) = ((lt 7 0, tt), tt)
start-IsOrdered (suc (suc (suc (suc (suc (suc (suc zero))))))) = ((lt 7 1, tt), ((lt 8 0, tt), tt))
start-IsOrdered (suc (suc (suc (suc (suc (suc (suc (suc zero)))))))) = (tt, tt)
start-IsOrdered (suc (suc (suc (suc (suc (suc (suc (suc (suc zero))))))))) = ((lt 5 0, tt), tt)
start-IsOrdered (suc (suc (suc (suc (suc (suc (suc (suc (suc (suc s)))))))))) = tt

start_pending : (c : Chan) → (s : ℕ) × Resolves c (nth stages s)
unfolding stages nth Resolves order
start_pending ch_bp = (2, inl refl)
start_pending ch_lro = (0, inl refl)
start_pending ch_qk = (1, inl refl)
start_pending ch_gamma_beta = (3, inl refl)
start_pending ch_z = (4, inl refl)
start_pending ch_start_restore = (5, inl refl)
start_pending ch_restore_lro = (9, inl refl)
start_pending ch_h = (5, inr (inl refl))
start_pending ch_z_opening = (6, inl refl)
start_pending ch_linearized_polynomial = (7, inl refl)

pub Reachable-Inv : (st : State) → Reachable st → Inv st
Reachable-Inv st initial = record {
  ordered = start-IsOrdered;
  pending = inr (λ c. inr (start_pending c));
}
Reachable-Inv st (next {st = before} r step) = Inv-Step before st step (Reachable-Inv before r)
