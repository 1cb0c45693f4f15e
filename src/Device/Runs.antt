-- ===== src/Device/Runs.antt =====
-- Sequences of calls of the functions of the context, up to `free`.
use gnark_cuda.Prelude.{ℕ, ◌+◌, ◌<◌, ◌≡◌, ◌≢◌, sym, arith, List, [], ◌∷◌}
use gnark_cuda.Slice.{Slice}
use gnark_cuda.Gpu.{Pointer, nil, Gpu}
use gnark_cuda.Device.{
  State, Status, ok, nb_cells, free, upload_resident_poly, ensure_resident_poly,
  upload_resident_slice, release_resident_slice, best_effort_upload_resident_slice,
  ensure_poly_slot, ensure_poly,
}
use gnark_cuda.Device.Counts.{indicator, indicator_injective, occurrences-none}
use gnark_cuda.Device.Owned.{
  held, Accounts, release_resident_slice-Accounts, ensure_poly_slot-Accounts, free-Accounts,
  free-live,
}
use gnark_cuda.Device.Kept.{
  upload_resident_poly-Accounts, ensure_resident_poly-Accounts, upload_resident_slice-Accounts,
  accept_malloc_failed-Accounts, ensure_poly-Accounts,
}

-- A call, on a pointer field of the context where it takes one; `ensurePoly` reads the first
-- coefficient.
pub data Call (A : Type 0) : Type 0 where
  upload_poly : (dst : ℕ) → dst < nb_cells → Slice A → (size : ℕ) → Call A
  ensure_resident : (dst : ℕ) → dst < nb_cells → Slice A → (size : ℕ) → Call A
  upload_slice : (dst : ℕ) → dst < nb_cells → Slice A → Call A
  release_slice : (dst : ℕ) → dst < nb_cells → Call A
  best_effort : (dst : ℕ) → dst < nb_cells → Slice A → Call A
  ensure_slot : (size : ℕ) → Call A
  ensure_at : (id : ℕ) (coeffs : Slice A) → 0 < coeffs.len → (size : ℕ) → Call A
  free_all : Call A

module _ {World A : Type 0} (g : Gpu World A) where
  unfoldable pub run : Call A → State World → Status × State World
  unfolding upload_resident_poly ensure_resident_poly upload_resident_slice release_resident_slice
      best_effort_upload_resident_slice ensure_poly_slot ensure_poly free
  run (upload_poly dst p src size) st = upload_resident_poly g dst src size st
  run (ensure_resident dst p src size) st = ensure_resident_poly g dst src size st
  run (upload_slice dst p src) st = upload_resident_slice g dst src st
  run (release_slice dst p) st = (ok, release_resident_slice g dst st)
  run (best_effort dst p src) st = best_effort_upload_resident_slice g dst src st
  run (ensure_slot size) st = (ok, ensure_poly_slot g size st)
  run (ensure_at id coeffs p size) st = ensure_poly g id coeffs size st
  run free_all st = (ok, free g st)

  -- The state after the calls, whatever each returns.
  unfoldable pub run_all : List (Call A) → State World → State World
  unfolding run
  run_all [] st = st
  run_all (c ∷ cs) st = run_all cs (run c st).1

  -- `&proverGPUContext{}`
  abbrev pub new_context : World → State World
  new_context w = record {
    n = 0;
    cells = λ _. nil;
    lens = λ _. 0;
    poly_ptrs = record { len = 0; at = λ _. nil };
    world = w;
  }

  module _ (others : Pointer → ℕ) where
    run-Accounts :
        (c : Call A) (st : State World) → Accounts g others st → Accounts g others (run c st).1
    unfolding run best_effort_upload_resident_slice
    run-Accounts (upload_poly dst p src size) st h =
        upload_resident_poly-Accounts g others dst src size st p h
    run-Accounts (ensure_resident dst p src size) st h =
        ensure_resident_poly-Accounts g others dst src size st p h
    run-Accounts (upload_slice dst p src) st h =
        upload_resident_slice-Accounts g others dst src st p h
    run-Accounts (release_slice dst p) st h = release_resident_slice-Accounts g others dst st p h
    run-Accounts (best_effort dst p src) st h =
        accept_malloc_failed-Accounts g others dst _ p
          (upload_resident_slice-Accounts g others dst src st p h)
    run-Accounts (ensure_slot size) st h = ensure_poly_slot-Accounts g others size st h
    run-Accounts (ensure_at id coeffs p size) st h =
        ensure_poly-Accounts g others id coeffs size st p h
    run-Accounts free_all st h = free-Accounts g others st h

    run_all-Accounts :
        (cs : List (Call A)) (st : State World)
        → Accounts g others st
        → Accounts g others (run_all cs st)
    unfolding run_all
    run_all-Accounts [] st h = h
    run_all-Accounts (c ∷ cs) st h = run_all-Accounts cs (run c st).1 (run-Accounts c st h)

  new_context-Accounts : (w : World) → Accounts g (λ p. indicator (g.live w p)) (new_context w)
  new_context-Accounts w p ne =
      let none = occurrences-none nb_cells 0 (λ _. nil) p (λ j q r. ne) in
      let none' = occurrences-none 0 0 (λ _. nil) p (λ j q r. ne) in omega (arith, none, none')

  -- After any calls on a new context, failed ones included, a pointer that is not nil is held by the
  -- context as often as says whether its buffer was allocated since: no buffer is held twice, none is
  -- held that is not allocated, and none is lost.
  pub run_all-held :
      (w : World) (cs : List (Call A)) (p : Pointer)
      → p ≢ nil
      → held g (run_all cs (new_context w)) p + indicator (g.live w p)
        ≡ indicator (g.live (run_all cs (new_context w)).world p)
  run_all-held w cs p ne =
      run_all-Accounts (λ p. indicator (g.live w p)) cs _ (new_context-Accounts w) p ne

  -- After any calls on a new context, failed ones included, `free` leaves exactly the buffers
  -- allocated that were allocated before the context.
  pub free-run_all :
      (w : World) (cs : List (Call A)) (p : Pointer)
      → p ≢ nil
      → g.live (free g (run_all cs (new_context w))).world p ≡ g.live w p
  free-run_all w cs p ne = indicator_injective _ _ (
      sym (
        free-live g (λ p. indicator (g.live w p)) _
          (run_all-Accounts (λ p. indicator (g.live w p)) cs _ (new_context-Accounts w)) p ne))
