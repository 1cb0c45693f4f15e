-- ===== src/Kernels.antt =====
-- The calls of the package gpu that run on the buffers of the loop over the cosets.
use gnark_cuda.Prelude.{ℕ, ◌≡◌, Bool}
use gnark_cuda.Gpu.{Pointer, Gpu}

-- The device buffers of the loop.
pub record Buffers : Type 0 where
  pub d_polys : ℕ → Pointer
  pub d_ptr_array : Pointer
  pub d_twiddles0 : Pointer
  pub d_scale : Pointer
  pub d_result : Pointer
  pub d_cres : Pointer
  pub d_challenges : Pointer
  pub d_bp : Pointer
  pub d_denominators : Pointer
  pub d_coset : Pointer

-- The other calls of the package gpu: each succeeds or fails, and allocates and releases nothing.
pub record Kernels {World F : Type 0} (g : Gpu World F) : Type 0 where
  pub ntt_init : (n : ℕ) → World → Bool × World
  pub stream_acquire : World → Bool × World
  pub stream_release : World → World
  pub stream_sync : World → World
  pub copy_pointers : Pointer → (ℕ → Pointer) → (size : ℕ) → World → Bool × World
  pub vec_denominators : (dst twiddles coset : Pointer) (n : ℕ) → World → Bool × World
  pub plonk_rho_iteration :
      Buffers → (n npolys nb_bsb_gates : ℕ) (ifft_dirs fft_dirs : ℕ → ℕ) → World → Bool × World
  pub plonk_scatter_result : (result cres : Pointer) (n rho i : ℕ) → World → Bool × World
  pub memcpy_d2h : Pointer → (size : ℕ) → World → Bool × World
  pub read : World → Pointer → ℕ → F
  pub ntt_init_live : (n : ℕ) (w : World) (p : Pointer) → g.live (ntt_init n w).1 p ≡ g.live w p
  pub stream_acquire_live : (w : World) (p : Pointer) → g.live (stream_acquire w).1 p ≡ g.live w p
  pub stream_release_live : (w : World) (p : Pointer) → g.live (stream_release w) p ≡ g.live w p
  pub stream_sync_live : (w : World) (p : Pointer) → g.live (stream_sync w) p ≡ g.live w p
  pub copy_pointers_live :
      (q : Pointer) (ptrs : ℕ → Pointer) (size : ℕ) (w : World) (p : Pointer)
      → g.live (copy_pointers q ptrs size w).1 p ≡ g.live w p
  pub vec_denominators_live :
      (dst twiddles coset : Pointer) (n : ℕ) (w : World) (p : Pointer)
      → g.live (vec_denominators dst twiddles coset n w).1 p ≡ g.live w p
  pub plonk_rho_iteration_live :
      (b : Buffers) (n npolys nb_bsb_gates : ℕ) (ifft_dirs fft_dirs : ℕ → ℕ) (w : World)
      (p : Pointer)
      → g.live (plonk_rho_iteration b n npolys nb_bsb_gates ifft_dirs fft_dirs w).1 p ≡ g.live w p
  pub plonk_scatter_result_live :
      (result cres : Pointer) (n rho i : ℕ) (w : World) (p : Pointer)
      → g.live (plonk_scatter_result result cres n rho i w).1 p ≡ g.live w p
  pub memcpy_d2h_live :
      (q : Pointer) (size : ℕ) (w : World) (p : Pointer)
      → g.live (memcpy_d2h q size w).1 p ≡ g.live w p
