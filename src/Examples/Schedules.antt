-- ===== src/Examples/Schedules.antt =====
-- The first steps of the stages of `Prove`: the blinding polynomials are drawn and their channel is closed.
use gnark_cuda.Prelude.{ℕ, ◌+◌, ◌≤◌, ◌≡◌, ◌⊎◌, inr, refl, true, [], ◌∷◌}
use gnark_cuda.Slice.{update}
use gnark_cuda.Stages.{
  close, stages, nth, order, State, start, acted, closes, Reachable, initial, next, Run, none_taken,
  taken, ch_bp, get_random_polynomials, wait, run, succeeded, waited, solve, commit_to_lro, ch_lro,
  solve_constraints,
}
use gnark_cuda.Stages.{init_blinding_polynomials}
use gnark_cuda.Stages.Progress.{CanStep, Reachable-CanStep}
use gnark_cuda.Stages.Announced.{reads, AllClosed}
use gnark_cuda.Stages.Awaited.{Reachable-reads}
use gnark_cuda.Stages.Bounded.{IsFinished, Run-finishes}

abbrev drawn : State
drawn = record {
  closed = start.closed;
  todo = update start.todo 2 (close ch_bp ∷ []);
  cancelled = start.cancelled;
}

abbrev blinded : State
blinded = record {
  closed = update drawn.closed (order ch_bp) true;
  todo = update drawn.todo 2 [];
  cancelled = drawn.cancelled;
}

blinded-Run : Run 2 start blinded
unfolding stages nth init_blinding_polynomials
blinded-Run =
    taken (taken none_taken (acted 2 get_random_polynomials (close ch_bp ∷ []) refl))
      (closes 2 ch_bp [] refl)

blinded-Reachable : Reachable blinded
unfolding stages nth init_blinding_polynomials
blinded-Reachable =
    next (next initial (acted 2 get_random_polynomials (close ch_bp ∷ []) refl))
      (closes 2 ch_bp [] refl)

-- The quotient's goroutine.
Reachable-CanStep_example : (blinded.todo 5 ≡ []) ⊎ CanStep blinded
Reachable-CanStep_example = Reachable-CanStep blinded blinded-Reachable 5

Run-finishes_example : (k : ℕ) × (st' : State) × Run k blinded st' × IsFinished st' × (2 + k ≤ 89)
Run-finishes_example = Run-finishes 2 blinded blinded-Run

-- The constraints are solved, and the stage has passed the wait for the blinding polynomials.
abbrev solved : State
solved = record {
  closed = blinded.closed;
  todo = update blinded.todo 0 (wait ch_bp ∷ run commit_to_lro ∷ close ch_lro ∷ []);
  cancelled = blinded.cancelled;
}

abbrev committing : State
committing = record {
  closed = solved.closed;
  todo = update solved.todo 0 (run commit_to_lro ∷ close ch_lro ∷ []);
  cancelled = solved.cancelled;
}

committing-Reachable : Reachable committing
unfolding stages nth init_blinding_polynomials solve_constraints order
committing-Reachable =
    next
      (next blinded-Reachable
        (succeeded 0 solve (wait ch_bp ∷ run commit_to_lro ∷ close ch_lro ∷ []) refl))
      (waited 0 ch_bp (run commit_to_lro ∷ close ch_lro ∷ []) refl refl)

Reachable-reads_example : AllClosed committing.closed (reads commit_to_lro)
Reachable-reads_example =
    Reachable-reads committing 0 commit_to_lro (close ch_lro ∷ []) committing-Reachable (inr refl)
