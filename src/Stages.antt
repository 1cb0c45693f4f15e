-- ===== src/Stages.antt =====
-- The goroutines of `Prove` in integration/prove.go and the channels between them, as programs of
-- waits, closes and calls, with the errors and the cancellation of the errgroup. The restoring
-- goroutine has no context of its own; that it may here also end by a cancellation before it starts
-- only adds runs.
pub mod Ordered
pub mod Progress
pub mod Bounded
pub mod Announced
pub mod Awaited
use gnark_cuda.Prelude.{ℕ, zero, suc, ◌≡◌, Bool, true, false, List, [], ◌∷◌}
use gnark_cuda.Slice.{update}

-- The channels of an instance, and the start of the goroutine at the end of `computeNumerator`.
pub data Chan : Type 0 where
  ch_bp : Chan
  ch_lro : Chan
  ch_qk : Chan
  ch_gamma_beta : Chan
  ch_z : Chan
  ch_start_restore : Chan
  ch_restore_lro : Chan
  ch_h : Chan
  ch_z_opening : Chan
  ch_linearized_polynomial : Chan

-- What the stages call between the channel operations.
pub data Call : Type 0 where
  get_random_polynomials : Call
  solve : Call
  commit_to_lro : Call
  witness_vector : Call
  set_commitment_values : Call
  bind_public_data : Call
  derive_gamma : Call
  derive_beta : Call
  build_ratio_copy_constraint : Call
  commit_to_z : Call
  set_selectors : Call
  set_commitments : Call
  derive_alpha : Call
  get_twiddles : Call
  get_coset_table : Call
  rho_loop : Call
  restore : Call
  divide_by_zh : Call
  commit_to_quotient : Call
  derive_zeta : Call
  blind_z : Call
  open_shifted : Call
  evaluate_at_zeta : Call
  inner_compute_linearized_poly : Call
  commit_to_linearized : Call
  build_openings : Call
  batch_open_single_point : Call

-- `wait c`: the select on c and ctx.Done(). `act`: a call without an error result. `run`: a call
-- whose error is returned. `fail`: the return of an error to the errgroup.
pub data Instr : Type 0 where
  wait : Chan → Instr
  close : Chan → Instr
  act : Call → Instr
  run : Call → Instr
  fail : Instr

unfoldable pub init_blinding_polynomials : List Instr
init_blinding_polynomials = act get_random_polynomials ∷ close ch_bp ∷ []

unfoldable pub solve_constraints : List Instr
solve_constraints = run solve ∷ wait ch_bp ∷ run commit_to_lro ∷ close ch_lro ∷ []

unfoldable pub complete_qk : List Instr
complete_qk = run witness_vector ∷ wait ch_lro ∷ act set_commitment_values ∷ close ch_qk ∷ []

unfoldable pub derive_gamma_and_beta : List Instr
derive_gamma_and_beta =
    run witness_vector
    ∷ run bind_public_data
    ∷ wait ch_lro
    ∷ run derive_gamma
    ∷ run derive_beta
    ∷ close ch_gamma_beta
    ∷ []

unfoldable pub build_ratio : List Instr
build_ratio =
    wait ch_gamma_beta ∷ run build_ratio_copy_constraint ∷ run commit_to_z ∷ close ch_z ∷ []

unfoldable pub compute_quotient : List Instr
compute_quotient =
    act set_selectors
    ∷ wait ch_lro
    ∷ act set_commitments
    ∷ wait ch_z
    ∷ run derive_alpha
    ∷ run get_twiddles
    ∷ wait ch_qk
    ∷ run get_coset_table
    ∷ run rho_loop
    ∷ close ch_start_restore
    ∷ run divide_by_zh
    ∷ run commit_to_quotient
    ∷ run derive_zeta
    ∷ wait ch_restore_lro
    ∷ close ch_h
    ∷ []

unfoldable pub open_z : List Instr
open_z = wait ch_h ∷ act blind_z ∷ run open_shifted ∷ close ch_z_opening ∷ []

unfoldable pub compute_linearized_polynomial : List Instr
compute_linearized_polynomial =
    wait ch_h
    ∷ act evaluate_at_zeta
    ∷ wait ch_z_opening
    ∷ act inner_compute_linearized_poly
    ∷ run commit_to_linearized
    ∷ close ch_linearized_polynomial
    ∷ []

unfoldable pub batch_opening : List Instr
batch_opening =
    wait ch_linearized_polynomial ∷ act build_openings ∷ run batch_open_single_point ∷ []

unfoldable pub restore_lro : List Instr
restore_lro = wait ch_start_restore ∷ act restore ∷ close ch_restore_lro ∷ []

-- The goroutines, in the order of the `g.Go` calls of `Prove`, then the restoring one.
unfoldable pub stages : List (List Instr)
unfolding solve_constraints complete_qk init_blinding_polynomials derive_gamma_and_beta build_ratio
    compute_quotient open_z compute_linearized_polynomial batch_opening restore_lro
stages =
    solve_constraints ∷ complete_qk ∷ init_blinding_polynomials ∷ derive_gamma_and_beta
    ∷ build_ratio ∷ compute_quotient ∷ open_z ∷ compute_linearized_polynomial ∷ batch_opening
    ∷ restore_lro ∷ []

-- The program of number s, nothing past the end.
unfoldable pub nth : List (List Instr) → ℕ → List Instr
nth [] s = []
nth (l ∷ ls) zero = l
nth (l ∷ ls) (suc s) = nth ls s

-- A number for each channel, to compare channels by.
unfoldable pub order : Chan → ℕ
order ch_bp = 0
order ch_lro = 1
order ch_qk = 2
order ch_gamma_beta = 3
order ch_z = 4
order ch_start_restore = 5
order ch_restore_lro = 6
order ch_h = 7
order ch_z_opening = 8
order ch_linearized_polynomial = 9

-- What a goroutine still does when a call returns an error: `buildRatioCopyConstraint` closes chZ
-- before it returns the error of the commitment.
unfoldable pub on_error : Call → List Instr
on_error commit_to_z = close ch_z ∷ fail ∷ []
on_error _ = fail ∷ []

pub record State : Type 0 where
  pub closed : ℕ → Bool
  pub todo : ℕ → List Instr
  pub cancelled : Bool

abbrev pub start : State
start = record { closed = λ c. false; todo = nth stages; cancelled = false }

-- One goroutine takes one step.
pub data Step : State → State → Type 0 where
  waited :
      {st : State} (s : ℕ) (c : Chan) (rest : List Instr)
      → st.todo s ≡ wait c ∷ rest
      → st.closed (order c) ≡ true
      → Step st
          (record { closed = st.closed; todo = update st.todo s rest; cancelled = st.cancelled })
  context_done :
      {st : State} (s : ℕ) (c : Chan) (rest : List Instr)
      → st.todo s ≡ wait c ∷ rest
      → st.cancelled ≡ true
      → Step st (record { closed = st.closed; todo = update st.todo s []; cancelled = true })
  closes :
      {st : State} (s : ℕ) (c : Chan) (rest : List Instr)
      → st.todo s ≡ close c ∷ rest
      → Step st (record {
        closed = update st.closed (order c) true;
        todo = update st.todo s rest;
        cancelled = st.cancelled;
      })
  acted :
      {st : State} (s : ℕ) (o : Call) (rest : List Instr)
      → st.todo s ≡ act o ∷ rest
      → Step st
          (record { closed = st.closed; todo = update st.todo s rest; cancelled = st.cancelled })
  succeeded :
      {st : State} (s : ℕ) (o : Call) (rest : List Instr)
      → st.todo s ≡ run o ∷ rest
      → Step st
          (record { closed = st.closed; todo = update st.todo s rest; cancelled = st.cancelled })
  errored :
      {st : State} (s : ℕ) (o : Call) (rest : List Instr)
      → st.todo s ≡ run o ∷ rest
      → Step st (record {
        closed = st.closed;
        todo = update st.todo s (on_error o);
        cancelled = st.cancelled;
      })
  failed :
      {st : State} (s : ℕ) (rest : List Instr)
      → st.todo s ≡ fail ∷ rest
      → Step st (record { closed = st.closed; todo = update st.todo s []; cancelled = true })

pub data Reachable : State → Type 0 where
  initial : Reachable start
  next : {st st' : State} → Reachable st → Step st st' → Reachable st'

-- k steps in a row.
pub data Run : ℕ → State → State → Type 0 where
  none_taken : {st : State} → Run zero st st
  taken : {k : ℕ} {st mid st' : State} → Run k st mid → Step mid st' → Run (suc k) st st'
