-- ===== src/Stages/Awaited.antt =====
-- The channels that have been closed when a stage of `Prove` makes a call or a channel is closed.
use gnark_cuda.Prelude.{
  ℕ, zero, suc, ◌≡◌, ◌∙◌, ◌⊎◌, inl, inr, refl, sym, ap, Bool, true, false, subst, List, [], ◌∷◌,
  ◌&&◌, ◌==◌, if◌then◌else◌,
}
use gnark_cuda.Slice.{update}
use gnark_cuda.BatchInvert.Products.{update_cases}
use gnark_cuda.Stages.{
  Chan, ch_bp, ch_lro, ch_qk, ch_gamma_beta, ch_z, ch_start_restore, ch_restore_lro, ch_h,
  ch_z_opening, ch_linearized_polynomial, Call, Instr, close, act, run, stages, nth, order,
  on_error, State, Step, waited, context_done, closes, acted, succeeded, errored, failed, Reachable,
  initial, next,
}
use gnark_cuda.Stages.Announced.{
  before, reads, AllClosed, all_known, learn, closes_in_order, check, and-left, and-right,
  on_error-check, IsSound, all_known-AllClosed, learn-IsSound, is_in,
}

-- What a goroutine knows of the channels is true, and enough for the rest of its program.
record Knows (closed : ℕ → Bool) (l : List Instr) : Type 0 where
  known : ℕ → Bool
  sound : IsSound known closed
  enough : check known l ≡ true

record Inv (st : State) : Type 0 where
  in_order : (c : Chan) → st.closed (order c) ≡ true → AllClosed st.closed (before c)
  knows : (s : ℕ) → Knows st.closed (st.todo s)

AllClosed-mono :
    (f f' : ℕ → Bool) (cs : List Chan) → IsSound f f' → AllClosed f cs → AllClosed f' cs
AllClosed-mono f f' [] m a = tt
AllClosed-mono f f' (c ∷ cs) m a = (m (order c) a.0, AllClosed-mono f f' cs m a.1)

Knows-mono : (f f' : ℕ → Bool) (l : List Instr) → IsSound f f' → Knows f l → Knows f' l
Knows-mono f f' l m k = record {
  known = k.known;
  sound = λ n h. m n (k.sound n h);
  enough = k.enough;
}

Knows-nothing : (f : ℕ → Bool) → Knows f []
unfolding check
Knows-nothing f = record { known = λ _. false; sound = λ n h. cc; enough = refl }

-- Goroutine t goes on with `rest`.
Inv-move :
    (st : State) (closed' : ℕ → Bool) (cancelled' : Bool) (t : ℕ) (l rest : List Instr)
    → Inv st
    → st.todo t ≡ l
    → IsSound st.closed closed'
    → ((c : Chan) → closed' (order c) ≡ true → AllClosed closed' (before c))
    → (Knows st.closed l → Knows closed' rest)
    → Inv (record { closed = closed'; todo = update st.todo t rest; cancelled = cancelled' })
Inv-move st closed' cancelled' t l rest inv e m ordered f = record {
  in_order = ordered;
  knows = λ s. elim (update_cases st.todo t s rest) [
    | inl (d, h) ↦ subst (Knows closed') (sym h) (f (subst (Knows st.closed) e (inv.knows t)))
    | inr (d, h) ↦
        subst (Knows closed') (sym h) (Knows-mono st.closed closed' (st.todo s) m (inv.knows s))
  ];
}

-- A step that closes no channel.
Inv-keep :
    (st : State) (cancelled' : Bool) (t : ℕ) (l rest : List Instr)
    → Inv st
    → st.todo t ≡ l
    → (Knows st.closed l → Knows st.closed rest)
    → Inv (record { closed = st.closed; todo = update st.todo t rest; cancelled = cancelled' })
Inv-keep st cancelled' t l rest inv e f =
    Inv-move st st.closed cancelled' t l rest inv e (λ n h. h) inv.in_order f

channel : ℕ → Chan
channel n =
    if n == 0
    then ch_bp
    else if n == 1
    then ch_lro
    else if n == 2
    then ch_qk
    else if n == 3
    then ch_gamma_beta
    else if n == 4
    then ch_z
    else if n == 5
    then ch_start_restore
    else if n == 6
    then ch_restore_lro
    else if n == 7
    then ch_h
    else if n == 8
    then ch_z_opening
    else ch_linearized_polynomial

channel-order : (c : Chan) → channel (order c) ≡ c
unfolding channel order
channel-order ch_bp = refl
channel-order ch_lro = refl
channel-order ch_qk = refl
channel-order ch_gamma_beta = refl
channel-order ch_z = refl
channel-order ch_start_restore = refl
channel-order ch_restore_lro = refl
channel-order ch_h = refl
channel-order ch_z_opening = refl
channel-order ch_linearized_polynomial = refl

order_injective : (c d : Chan) → order c ≡ order d → c ≡ d
order_injective c d e = sym (channel-order c) ∙ ap channel e ∙ channel-order d

stays_closed : (f : ℕ → Bool) (n : ℕ) → IsSound f (update f n true)
stays_closed f n m h = elim (update_cases f n m true) [ inl (e, q) ↦ q | inr (e, q) ↦ q ∙ h ]

Inv-Step : (st st' : State) → Step st st' → Inv st → Inv st'
unfolding check
Inv-Step st st' (waited t d rest e h) inv = Inv-keep st st.cancelled t _ rest inv e (λ k. record {
  known = learn k.known d;
  sound = learn-IsSound k.known st.closed d k.sound h (inv.in_order d h);
  enough = k.enough;
})
Inv-Step st st' (context_done t d rest e h) inv =
    Inv-keep st true t _ [] inv e (λ k. Knows-nothing st.closed)
Inv-Step st st' (closes t d rest e) inv =
    Inv-move st (update st.closed (order d) true) st.cancelled t _ rest inv e
      (stays_closed st.closed (order d))
      (λ c h.
        AllClosed-mono st.closed _ (before c) (stays_closed st.closed (order d))
          (elim (update_cases st.closed (order d) (order c) true) [
            | inl (o, q) ↦
                subst (λ b. AllClosed st.closed (before b)) (sym (order_injective c d o))
                  (all_known-AllClosed here.known st.closed (before d) here.sound
                    (and-left _ _ here.enough))
            | inr (o, q) ↦ inv.in_order c (sym q ∙ h)
          ]))
      (λ k. Knows-mono st.closed _ rest (stays_closed st.closed (order d)) (record {
        known = k.known;
        sound = k.sound;
        enough = and-right (all_known k.known (before d)) _ k.enough;
      }))
  where
    here : Knows st.closed (close d ∷ rest)
    here = subst (Knows st.closed) e (inv.knows t)
Inv-Step st st' (acted t o rest e) inv = Inv-keep st st.cancelled t _ rest inv e (λ k. record {
  known = k.known;
  sound = k.sound;
  enough = and-right (all_known k.known (reads o)) _ k.enough;
})
Inv-Step st st' (succeeded t o rest e) inv = Inv-keep st st.cancelled t _ rest inv e (λ k. record {
  known = k.known;
  sound = k.sound;
  enough =
      and-right (closes_in_order k.known (on_error o)) _
        (and-right (all_known k.known (reads o)) _ k.enough);
})
Inv-Step st st' (errored t o rest e) inv = Inv-keep st st.cancelled t _ (on_error o) inv e (λ k.
    record {
      known = k.known;
      sound = k.sound;
      enough =
          on_error-check k.known o
            (and-left _ _ (and-right (all_known k.known (reads o)) _ k.enough));
    })
Inv-Step st st' (failed t rest e) inv = Inv-keep st true t _ [] inv e (λ k. Knows-nothing st.closed)

check_all : List (List Instr) → Bool
check_all [] = true
check_all (l ∷ ls) = check (λ _. false) l && check_all ls

check-nth :
    (ls : List (List Instr)) (s : ℕ) → check_all ls ≡ true → check (λ _. false) (nth ls s) ≡ true
unfolding check_all nth check
check-nth [] s h = refl
check-nth (l ∷ ls) zero h = and-left _ _ h
check-nth (l ∷ ls) (suc s) h = check-nth ls s (and-right (check (λ _. false) l) _ h)

stages_checked : check_all stages ≡ true
unfolding check_all stages check learn is_in all_known closes_in_order on_error order
stages_checked = refl

Reachable-Inv : (st : State) → Reachable st → Inv st
Reachable-Inv st initial = record {
  in_order = λ c h. cc;
  knows = λ s. record {
    known = λ _. false;
    sound = λ n h. cc;
    enough = check-nth stages s stages_checked;
  };
}
Reachable-Inv st (next {st = earlier} r step) = Inv-Step earlier st step (Reachable-Inv earlier r)

-- In every reachable state of the stages, errors and cancellation included, in which a goroutine is
-- about to make a call, all channels have been closed that announce what the call reads of other
-- goroutines (`reads`), also those that its own goroutine does not wait for.
pub Reachable-reads :
    (st : State) (s : ℕ) (o : Call) (rest : List Instr)
    → Reachable st
    → (st.todo s ≡ act o ∷ rest) ⊎ (st.todo s ≡ run o ∷ rest)
    → AllClosed st.closed (reads o)
unfolding check
Reachable-reads st s o rest r (inl e) =
    let k : Knows st.closed (act o ∷ rest) =
      subst (Knows st.closed) e ((Reachable-Inv st r).knows s) in
    all_known-AllClosed k.known st.closed (reads o) k.sound (and-left _ _ k.enough)
Reachable-reads st s o rest r (inr e) =
    let k : Knows st.closed (run o ∷ rest) =
      subst (Knows st.closed) e ((Reachable-Inv st r).knows s) in
    all_known-AllClosed k.known st.closed (reads o) k.sound (and-left _ _ k.enough)

-- In every reachable state, errors and cancellation included, a channel is closed only when the
-- channels that come before it (`before`) are: the blinding polynomials, the commitments to L, R and
-- O, the challenges γ and β, Z, the quotient and its challenges, the opening of Z, the linearized
-- polynomial, and Qk before the quotient.
Reachable-before :
    (st : State) (c : Chan)
    → Reachable st
    → st.closed (order c) ≡ true
    → AllClosed st.closed (before c)
Reachable-before st c r h = (Reachable-Inv st r).in_order c h
