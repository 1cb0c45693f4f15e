-- ===== src/GpuLoop/Matches.antt =====
-- What the function leaves on the host, against the CPU loop.
use gnark_cuda.Prelude.{
  ℕ, zero, suc, ◌*◌, ◌≡◌, ◌≢◌, refl, ap, ap₂, subst, Bool, true, false, ◌==◌, if◌then◌else◌, Option,
  none, some, inl, inr, Bool-cases,
}
use gnark_cuda.Field.{Field, ◌⊗◌}
use gnark_cuda.Slice.{update}
use gnark_cuda.Quotient.Divide.{Polynomial}
use gnark_cuda.Numerator.{Blinds, id_z, id_zs, rho_blinds, blind_scale, blind_unscale}
use gnark_cuda.Numerator.Loop.{each_blind}
use gnark_cuda.Gpu.{Pointer, nil, Gpu}
use gnark_cuda.Kernels.{Buffers, Kernels}
use gnark_cuda.GpuLoop.Ended.{
  Ends, Leaves, call_fails, gives_up, succeeds, attempt-Leaves, no_memory, no_setup,
  with_buffer-Leaves,
}
use gnark_cuda.GpuLoop.{
  Inputs, Host, LoopStatus, Result, done, malloc_failed, init_failed, no_stream, upload_failed,
  setup_failed, call_failed, owned, attempt, gpu_iteration, download_one, download_polys, finish,
  rho_loop, with_buffers, upload_into, upload_one, upload_polys, with_polys, after_upload,
  gpu_compute_numerator, cpu_loop_blinds, is_done, rho_loop_blinds,
}

module _ {World F : Type 0} ⦃k : Field F⦄ {g : Gpu World F} (ks : Kernels g) (h0 : Host F) where
  module _ (a : Inputs F) where
    download_one-Leaves :
        (b : Blinds F) (i : ℕ) (d : Buffers) (h : Host F) (p : Option (Polynomial F))
        (next : Host F → World → Result World F)
        → h.bp ≡ b
        → ((h : Host F) → h.bp ≡ b → Leaves ks h0 b (next h))
        → Leaves ks h0 b (download_one ks a i d h p next)
    unfolding download_one
    download_one-Leaves b i d h none next e leaves = leaves h e
    download_one-Leaves b i d h (some p) next e leaves =
        elim (Bool-cases (owned d.d_polys i == nil)) [
          | inl c ↦ rw c (leaves h e)
          | inr c ↦ rw c (
              attempt-Leaves ks h0 b _ _ _ _ (call_fails ks h0 _ _)
                (record { ends = λ w. (leaves _ e).ends w }))
        ]

    download_polys-Leaves :
        (b : Blinds F) (rounds i : ℕ) (d : Buffers) (h : Host F)
        → h.bp ≡ b
        → Leaves ks h0 b (download_polys ks a rounds i d h)
    unfolding download_polys
    download_polys-Leaves b zero i d h e = record { ends = λ w. succeeds ks h0 b h e }
    download_polys-Leaves b (suc rounds) i d h e =
        download_one-Leaves b i d h (h.x i) (download_polys ks a rounds (suc i) d) e
          (download_polys-Leaves b rounds (suc i) d)

    finish-Leaves :
        (b : Blinds F) (d : Buffers) (h : Host F) → h.bp ≡ b → Leaves ks h0 b (finish ks a d h)
    unfolding finish
    finish-Leaves b d h e = record { ends = λ w. fetch.ends (ks.stream_sync w) }
      where
        fetch : Leaves ks h0 b (
            attempt ks
              (ks.memcpy_d2h d.d_cres (a.rho * a.n * 32))
              call_failed
              h
              (λ w'. download_polys ks a a.npolys 0 d (record h { cres = ks.read w' d.d_cres }) w'))
        fetch =
            attempt-Leaves ks h0 b _ _ _ _ (call_fails ks h0 _ _)
              (record { ends = λ w'. (download_polys-Leaves b a.npolys 0 d _ e).ends w' })

    -- The blinding polynomials after the CPU loop from iteration i on.
    abbrev cpu_blinds : (rounds i : ℕ) (coset : F) → Blinds F → Blinds F
    cpu_blinds rounds i coset = each_blind (rho_blinds a.n rounds i a.shifters coset)

    gpu_iteration-Leaves :
        (b : Blinds F) (i : ℕ) (d : Buffers) (h : Host F) (next : Host F → World → Result World F)
        → ((h' : Host F)
            → h'.coset ≡ h.coset ⊗ a.shifters i
            → h'.bp
              ≡ each_blind
                  (λ q.
                    blind_unscale a.n
                      (h.coset ⊗ a.shifters i)
                      (blind_scale a.n (h.coset ⊗ a.shifters i) (a.shifters i) q))
                  h.bp
            → Leaves ks h0 b (next h'))
        → Leaves ks h0 b (gpu_iteration ks a i d h next)
    unfolding gpu_iteration
    gpu_iteration-Leaves b i d h next leaves =
        attempt-Leaves ks h0 b _ _ _ _ (call_fails ks h0 _ _) (
          attempt-Leaves ks h0 b _ _ _ _ (call_fails ks h0 _ _) (
            attempt-Leaves ks h0 b _ _ _ _ (call_fails ks h0 _ _) (
              attempt-Leaves ks h0 b _ _ _ _ (call_fails ks h0 _ _) (
                attempt-Leaves ks h0 b _ _ _ _ (call_fails ks h0 _ _) (
                  attempt-Leaves ks h0 b _ _ _ _ (call_fails ks h0 _ _) (
                    attempt-Leaves ks h0 b _ _ _ _ (call_fails ks h0 _ _) (leaves _ refl refl)))))))

    rho_loop-Leaves :
        (rounds i : ℕ) (d : Buffers) (h : Host F)
        → Leaves ks h0 (cpu_blinds rounds i h.coset h.bp) (rho_loop ks a rounds i d h)
    unfolding rho_loop rho_blinds
    rho_loop-Leaves zero i d h = finish-Leaves _ d h refl
    rho_loop-Leaves (suc rounds) i d h =
        gpu_iteration-Leaves _ i d h (rho_loop ks a rounds (suc i) d) (λ h' e e'.
          subst (λ b. Leaves ks h0 b (rho_loop ks a rounds (suc i) d h'))
            (ap₂ (cpu_blinds rounds (suc i)) e e') (rho_loop-Leaves rounds (suc i) d h'))

    with_buffers-Leaves :
        (d_polys : ℕ → Pointer) (d_ptr_array : Pointer)
        → Leaves ks h0 (cpu_loop_blinds ks a h0) (with_buffers ks a d_polys d_ptr_array h0)
    unfolding with_buffers
    with_buffers-Leaves d_polys d_ptr_array = with_buffer-Leaves ks h0 _ _ _ (λ tw.
        attempt-Leaves ks h0 _ _ _ _ _ (no_setup ks h0 _) (
          with_buffer-Leaves ks h0 _ _ _ (λ scale. with_buffer-Leaves ks h0 _ _ _ (λ result.
            with_buffer-Leaves ks h0 _ _ _ (λ cres. with_buffer-Leaves ks h0 _ _ _ (λ challenges.
              with_buffer-Leaves ks h0 _ _ _ (λ bp. with_buffer-Leaves ks h0 _ _ _ (λ denominators.
                with_buffer-Leaves ks h0 _ _ _ (λ coset.
                  attempt-Leaves ks h0 _ _ _ _ _ (no_setup ks h0 _)
                    (rho_loop-Leaves a.rho 0 _ h0))))))))))

    with_polys-Leaves :
        (b : Blinds F) (d_polys : ℕ → Pointer) (body : World → Result World F)
        → Leaves ks h0 b body
        → Leaves ks h0 b (with_polys ks a d_polys body)
    unfolding with_polys
    with_polys-Leaves b d_polys body leaves = record { ends = leaves.ends }

    after_upload-Ends :
        (d_polys : ℕ → Pointer) (w : World)
        → Ends ks h0
            (cpu_loop_blinds ks a h0)
            (after_upload ks a h0 d_polys w).0
            (after_upload ks a h0 d_polys w).1
    unfolding after_upload
    after_upload-Ends d_polys w = elim (Bool-cases (array == nil)) [
      | inl e ↦ rw e (
          (with_polys-Leaves _ _ (λ w'. (malloc_failed, h0, w'))
              (record { ends = λ w'. no_memory ks h0 _ })).ends
            _)
      | inr e ↦ rw e (
          (with_polys-Leaves _ new_polys _ (
              attempt-Leaves ks h0 _ _ _ _ _ (no_setup ks h0 _)
                (with_buffers-Leaves new_polys array))).ends
            _)
    ]
      where
        new_polys : ℕ → Pointer
        new_polys = update d_polys id_zs (d_polys id_z)

        array : Pointer
        array = (g.malloc (a.npolys * 8) w).0

    module _ (b : Blinds F) where
      upload_into-Ends :
          (i : ℕ) (d_polys : ℕ → Pointer) (q : Pointer) (p : Polynomial F)
          (next : (ℕ → Pointer) → World → Result World F)
          → ((d : ℕ → Pointer) → Leaves ks h0 b (next d))
          → (w : World)
          → Ends ks h0 b
              (upload_into ks a i d_polys q h0 p next w).0
              (upload_into ks a i d_polys q h0 p next w).1
      unfolding upload_into
      upload_into-Ends i d_polys q p next leaves w = elim (Bool-cases (q == nil)) [
        | inl e ↦ rw e (no_memory ks h0 b)
        | inr e ↦ rw e (
            (attempt-Leaves ks h0 b _ _ h0 _ (gives_up ks h0 b _ (λ bad. absurd (cc bad)))
                (leaves (update d_polys i q))).ends
              w)
      ]

      upload_one-Ends :
          (i : ℕ) (d_polys : ℕ → Pointer) (p : Option (Polynomial F))
          (next : (ℕ → Pointer) → World → Result World F)
          → ((d : ℕ → Pointer) → Leaves ks h0 b (next d))
          → (w : World)
          → Ends ks h0 b
              (upload_one ks a i d_polys h0 p next w).0
              (upload_one ks a i d_polys h0 p next w).1
      unfolding upload_one
      upload_one-Ends i d_polys none next leaves w = (leaves d_polys).ends w
      upload_one-Ends i d_polys (some p) next leaves w = elim (Bool-cases (i == id_zs)) [
        | inl e ↦ rw e ((leaves d_polys).ends w)
        | inr e ↦ rw e (upload_into-Ends i d_polys _ p next leaves _)
      ]

      upload_polys-Leaves :
          (rounds i : ℕ) (d_polys : ℕ → Pointer) (next : (ℕ → Pointer) → World → Result World F)
          → ((d : ℕ → Pointer) → Leaves ks h0 b (next d))
          → Leaves ks h0 b (upload_polys ks a rounds i d_polys h0 next)
      unfolding upload_polys
      upload_polys-Leaves zero i d_polys next leaves = leaves d_polys
      upload_polys-Leaves (suc rounds) i d_polys next leaves = record {
        ends =
            upload_one-Ends i d_polys (h0.x i) (λ d. upload_polys ks a rounds (suc i) d h0 next)
              (λ d. upload_polys-Leaves rounds (suc i) d next leaves);
      }

    uploaded-Leaves :
        Leaves ks h0
          (cpu_loop_blinds ks a h0)
          (upload_polys ks a a.npolys 0 (λ _. nil) h0 (after_upload ks a h0))
    uploaded-Leaves =
        upload_polys-Leaves _ a.npolys 0 (λ _. nil) (after_upload ks a h0)
          (λ d. record { ends = after_upload-Ends d })

    pub gpu_compute_numerator-Ends :
        (w : World)
        → Ends ks h0
            (cpu_loop_blinds ks a h0)
            (gpu_compute_numerator ks a h0 w).0
            (gpu_compute_numerator ks a h0 w).1
    unfolding gpu_compute_numerator
    gpu_compute_numerator-Ends w =
        (attempt-Leaves ks h0 _ (ks.ntt_init a.n) init_failed h0 _
            (gives_up ks h0 _ _ (λ bad. absurd (cc bad)))
            (attempt-Leaves ks h0 _ ks.stream_acquire no_stream h0 _
              (gives_up ks h0 _ _ (λ bad. absurd (cc bad)))
              (record { ends = λ w'. uploaded-Leaves.ends w' }))).ends
          w

    unchanged : (h : Host F) → h ≡ h0 → cpu_loop_blinds ks a h ≡ cpu_loop_blinds ks a h0
    unchanged h e = ap (cpu_loop_blinds ks a) e

    -- The choice between the two loops, by what the first returns.
    pub chosen-blinds :
        (status : LoopStatus) (h : Host F)
        → Ends ks h0 (cpu_loop_blinds ks a h0) status h
        → status ≢ call_failed
        → (if is_done status then h.bp else cpu_loop_blinds ks a h) ≡ cpu_loop_blinds ks a h0
    chosen-blinds done h e ne = e.blinds refl
    chosen-blinds call_failed h e ne = absurd (ne refl)
    chosen-blinds init_failed h e ne = unchanged h (e.untouched (λ z. absurd (cc z)) ne)
    chosen-blinds no_stream h e ne = unchanged h (e.untouched (λ z. absurd (cc z)) ne)
    chosen-blinds malloc_failed h e ne = unchanged h (e.untouched (λ z. absurd (cc z)) ne)
    chosen-blinds upload_failed h e ne = unchanged h (e.untouched (λ z. absurd (cc z)) ne)
    chosen-blinds setup_failed h e ne = unchanged h (e.untouched (λ z. absurd (cc z)) ne)

-- When `gpuComputeNumeratorRhoLoop` returns without an error, the blinding polynomials are those
-- that the loop of `computeNumerator` on the CPU leaves, coefficient by coefficient.
pub gpu_compute_numerator-rho_blinds :
    {World F : Type 0} ⦃k : Field F⦄ {g : Gpu World F} (ks : Kernels g) (a : Inputs F) (h : Host F)
    (w : World)
    → (gpu_compute_numerator ks a h w).0 ≡ done
    → (gpu_compute_numerator ks a h w).1.bp
      ≡ each_blind (rho_blinds a.n a.rho 0 a.shifters h.coset) h.bp
gpu_compute_numerator-rho_blinds ks a h w = (gpu_compute_numerator-Ends ks h a w).blinds

-- The loop of `computeNumerator` leaves the same blinding polynomials whether the GPU is disabled,
-- succeeds ks h0, or fails with any error before the loop over the cosets: the CPU loop that follows such
-- an error starts from the coset and the blinding polynomials of the beginning.
pub rho_loop_blinds-cpu :
    {World F : Type 0} ⦃k : Field F⦄ {g : Gpu World F} (ks : Kernels g) (a : Inputs F)
    (disabled : Bool) (h : Host F) (w : World)
    → (gpu_compute_numerator ks a h w).0 ≢ call_failed
    → rho_loop_blinds ks a disabled h w ≡ cpu_loop_blinds ks a h
unfolding rho_loop_blinds
rho_loop_blinds-cpu ks a true h w ne = refl
rho_loop_blinds-cpu ks a false h w ne =
    chosen-blinds ks h a _ _ (gpu_compute_numerator-Ends ks h a w) ne
