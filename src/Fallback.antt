-- ===== src/Fallback.antt =====
-- The blinding polynomials when the loop over the cosets fails on the GPU (`gpuComputeNumeratorRhoLoop`
-- of integration/prove_gpu.go) and `computeNumerator` of integration/prove.go goes on on the CPU.
pub mod Blinds
use gnark_cuda.Prelude.{ℕ, zero, suc}
use gnark_cuda.Field.{Field, ◌⊗◌}
use gnark_cuda.Slice.{Slice}
use gnark_cuda.Numerator.{blind_scale, blind_unscale, rho_blinds, restore_blind}

module _ {F : Type 0} ⦃k : Field F⦄ where
  -- `rounds` iterations from iteration i on, then one that returns an error after it has scaled the
  -- polynomial, as it does when an upload or the kernel fails: the coset and the polynomial it leaves.
  unfoldable pub gpu_loop_failing :
      (n rounds i : ℕ) (shifters : ℕ → F) (coset : F) → Slice F → F × Slice F
  unfolding blind_scale blind_unscale
  gpu_loop_failing n zero i shifters coset q =
      let coset' = coset ⊗ shifters i in (coset', blind_scale n coset' (shifters i) q)
  gpu_loop_failing n (suc rounds) i shifters coset q =
      let coset' = coset ⊗ shifters i in
      gpu_loop_failing n rounds (suc i) shifters coset'
        (blind_unscale n coset' (blind_scale n coset' (shifters i) q))

  -- The polynomial after the CPU loop that follows the failure in iteration i, and its restoring; the
  -- CPU loop has rho = suc rounds iterations and starts from what the GPU loop has left.
  unfoldable pub fall_back : (n rounds i : ℕ) (shifters : ℕ → F) → Slice F → Slice F
  unfolding gpu_loop_failing rho_blinds restore_blind
  fall_back n rounds i shifters q =
      let (coset, left) = gpu_loop_failing n i 0 shifters k.one q in
      restore_blind rounds shifters (rho_blinds n (suc rounds) 0 shifters coset left)
