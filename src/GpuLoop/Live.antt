-- ===== src/GpuLoop/Live.antt =====
-- The parts of the loop that leave the allocated buffers as they were.
use gnark_cuda.Prelude.{
  ℕ, zero, suc, ◌+◌, ◌*◌, ◌≡◌, ◌≢◌, ◌∙◌, refl, ap, arith, Bool, true, false, ◌==◌, Option, none,
  some, inl, inr, Bool-cases, ==→≡,
}
use gnark_cuda.Field.{Field}
use gnark_cuda.Slice.{Slice}
use gnark_cuda.Quotient.Divide.{Polynomial}
use gnark_cuda.Gpu.{Pointer, nil, Gpu}
use gnark_cuda.Device.Counts.{indicator, indicator_injective, counts, counts_self, counts_ne}
use gnark_cuda.Device.Owned.{live_of, malloc_lem, release_lem}
use gnark_cuda.Kernels.{Buffers, Kernels}
use gnark_cuda.GpuLoop.{
  Inputs, Host, LoopStatus, Result, malloc_failed, upload_failed, setup_failed, call_failed, owned,
  attempt, with_buffer, update_scale, gpu_iteration, download_one, download_polys, finish, rho_loop,
  with_buffers,
}

module _ {World F : Type 0} ⦃k : Field F⦄ {g : Gpu World F} (ks : Kernels g) where
  -- The buffers that are allocated after the call are those that were before, and the error is not
  -- that of the upload.
  pub record Keeps (f : World → Result World F) : Type 0 where
    pub same : (w : World) (p : Pointer) → p ≢ nil → g.live (f w).2 p ≡ g.live w p
    pub never : (w : World) → (f w).0 ≢ upload_failed

  pub no_memory-ne-upload : malloc_failed ≢ upload_failed
  no_memory-ne-upload e = absurd (cc e)

  pub setup-ne-upload : setup_failed ≢ upload_failed
  setup-ne-upload e = absurd (cc e)

  pub call-ne-upload : call_failed ≢ upload_failed
  call-ne-upload e = absurd (cc e)

  pub attempt-Keeps :
      (f : World → Bool × World) (status : LoopStatus) (h : Host F) (next : World → Result World F)
      → status ≢ upload_failed
      → ((w : World) (p : Pointer) → g.live (f w).1 p ≡ g.live w p)
      → Keeps next
      → Keeps (attempt ks f status h next)
  unfolding attempt
  attempt-Keeps f status h next other quiet keeps = record {
    same = λ w p ne. either (f w) w p ne (quiet w p);
    never = λ w. neither (f w);
  }
    where
      neither :
          (r : Bool × World)
          → (elim r.0 as (λ _. Result World F) [ true ↦ next r.1 | false ↦ (status, h, r.1) ]).0
            ≢ upload_failed
      neither (true, w') = keeps.never w'
      neither (false, w') = other

      either :
          (r : Bool × World) (w : World) (p : Pointer)
          → p ≢ nil
          → g.live r.1 p ≡ g.live w p
          → g.live
              (elim r.0 as (λ _. Result World F) [ true ↦ next r.1 | false ↦ (status, h, r.1) ]).2
              p
            ≡ g.live w p
      either (true, w') w p ne e = keeps.same w' p ne ∙ e
      either (false, w') w p ne e = e

  with_buffer_same :
      (size : ℕ) (h : Host F) (body : Pointer → World → Result World F)
      → ((q : Pointer) → Keeps (body q))
      → (w : World) (p : Pointer) → p ≢ nil
      → g.live (with_buffer ks size h body w).2 p ≡ g.live w p
  unfolding with_buffer
  with_buffer_same size h body keeps w p ne = elim (Bool-cases ((g.malloc size w).0 == nil)) [
    | inl e ↦ rw e (indicator_injective _ _ (nothing (==→≡ _ _ e)))
    | inr e ↦ rw e (indicator_injective _ _ (released (λ z. ground (arith, e, z))))
  ]
    where
      q : Pointer
      q = (g.malloc size w).0

      allocated : indicator (g.live (g.malloc size w).1 p) ≡ counts p q + indicator (g.live w p)
      allocated = malloc_lem g size w p ne

      nothing : q ≡ nil → indicator (g.live (g.malloc size w).1 p) ≡ indicator (g.live w p)
      nothing e = omega (arith, allocated, counts_ne p q (λ z. ne (z ∙ e)))

      still : q ≢ nil → g.live (body q (g.malloc size w).1).2 q ≡ true
      still used =
          (keeps q).same (g.malloc size w).1 q used
          ∙ live_of g (g.live (g.malloc size w).1 q) (indicator (g.live w q))
              (omega (arith, malloc_lem g size w q used, counts_self q))

      released :
          q ≢ nil
          → indicator (g.live (g.release q (body q (g.malloc size w).1).2) p)
            ≡ indicator (g.live w p)
      released used =
          let freed = release_lem g q p (body q (g.malloc size w).1).2 (still used) in
          let kept = ap indicator ((keeps q).same (g.malloc size w).1 p ne) in
          omega (arith, freed, kept, allocated)

  with_buffer_never :
      (size : ℕ) (h : Host F) (body : Pointer → World → Result World F)
      → ((q : Pointer) → Keeps (body q))
      → (w : World) → (with_buffer ks size h body w).0 ≢ upload_failed
  unfolding with_buffer
  with_buffer_never size h body keeps w = elim (Bool-cases ((g.malloc size w).0 == nil)) [
    | inl e ↦ rw e no_memory-ne-upload
    | inr e ↦ rw e ((keeps _).never _)
  ]

  with_buffer-Keeps :
      (size : ℕ) (h : Host F) (body : Pointer → World → Result World F)
      → ((q : Pointer) → Keeps (body q))
      → Keeps (with_buffer ks size h body)
  with_buffer-Keeps size h body keeps = record {
    same = with_buffer_same size h body keeps;
    never = with_buffer_never size h body keeps;
  }

  module _ (a : Inputs F) where
    update_scale_live :
        (i : ℕ) (b : Buffers) (w : World) (p : Pointer)
        → g.live (update_scale ks a i b w).1 p ≡ g.live w p
    update_scale_live i b w p = elim (Bool-cases (i == 1)) [
      | inl e ↦ rw e (g.memcpy_live b.d_scale p a.scaling_vector_domain1_rev (a.n * 32) w).0
      | inr e ↦ rw e refl
    ]

    copy_live :
        (q : Pointer) (src : Slice F) (size : ℕ) (w : World) (p : Pointer)
        → g.live (g.memcpy_h2d q src size w).1 p ≡ g.live w p
    copy_live q src size w p = (g.memcpy_live q p src size w).0

    gpu_iteration-Keeps :
        (i : ℕ) (b : Buffers) (h : Host F) (next : Host F → World → Result World F)
        → ((h : Host F) → Keeps (next h))
        → Keeps (gpu_iteration ks a i b h next)
    unfolding gpu_iteration
    gpu_iteration-Keeps i b h next keeps = attempt-Keeps _ _ _ _ call-ne-upload (copy_live _ _ _) (
        attempt-Keeps _ _ _ _ call-ne-upload (ks.vec_denominators_live _ _ _ _) (
          attempt-Keeps _ _ _ _ call-ne-upload (update_scale_live i b) (
            attempt-Keeps _ _ _ _ call-ne-upload (copy_live _ _ _) (
              attempt-Keeps _ _ _ _ call-ne-upload (copy_live _ _ _) (
                attempt-Keeps _ _ _ _ call-ne-upload (ks.plonk_rho_iteration_live _ _ _ _ _ _) (
                  attempt-Keeps _ _ _ _ call-ne-upload (ks.plonk_scatter_result_live _ _ _ _ _)
                    (keeps _)))))))

    download_one-Keeps :
        (i : ℕ) (b : Buffers) (h : Host F) (p : Option (Polynomial F))
        (next : Host F → World → Result World F)
        → ((h : Host F) → Keeps (next h))
        → Keeps (download_one ks a i b h p next)
    unfolding download_one
    download_one-Keeps i b h none next keeps = keeps h
    download_one-Keeps i b h (some p) next keeps = elim (Bool-cases (owned b.d_polys i == nil)) [
      | inl e ↦ rw e (keeps h)
      | inr e ↦ rw e (
          attempt-Keeps _ _ _ _ call-ne-upload (ks.memcpy_d2h_live _ _)
            (record { same = λ w p ne. (keeps _).same w p ne; never = λ w. (keeps _).never w }))
    ]

    download_polys-Keeps :
        (rounds i : ℕ) (b : Buffers) (h : Host F) → Keeps (download_polys ks a rounds i b h)
    unfolding download_polys
    download_polys-Keeps zero i b h = record { same = λ w p ne. refl; never = λ w e. absurd (cc e) }
    download_polys-Keeps (suc rounds) i b h =
        download_one-Keeps i b h (h.x i) (download_polys ks a rounds (suc i) b)
          (download_polys-Keeps rounds (suc i) b)

    finish-Keeps : (b : Buffers) (h : Host F) → Keeps (finish ks a b h)
    unfolding finish
    finish-Keeps b h = record {
      same = λ w p ne. fetch.same (ks.stream_sync w) p ne ∙ ks.stream_sync_live w p;
      never = λ w. fetch.never (ks.stream_sync w);
    }
      where
        fetch : Keeps (
            attempt ks
              (ks.memcpy_d2h b.d_cres (a.rho * a.n * 32))
              call_failed
              h
              (λ w'. download_polys ks a a.npolys 0 b (record h { cres = ks.read w' b.d_cres }) w'))
        fetch = attempt-Keeps _ _ _ _ call-ne-upload (ks.memcpy_d2h_live _ _) (record {
          same = λ w' p ne. (download_polys-Keeps a.npolys 0 b _).same w' p ne;
          never = λ w'. (download_polys-Keeps a.npolys 0 b _).never w';
        })

    rho_loop-Keeps : (rounds i : ℕ) (b : Buffers) (h : Host F) → Keeps (rho_loop ks a rounds i b h)
    unfolding rho_loop
    rho_loop-Keeps zero i b h = finish-Keeps b h
    rho_loop-Keeps (suc rounds) i b h =
        gpu_iteration-Keeps i b h (rho_loop ks a rounds (suc i) b) (rho_loop-Keeps rounds (suc i) b)

    pub with_buffers-Keeps :
        (d_polys : ℕ → Pointer) (d_ptr_array : Pointer) (h : Host F)
        → Keeps (with_buffers ks a d_polys d_ptr_array h)
    unfolding with_buffers
    with_buffers-Keeps d_polys d_ptr_array h = with_buffer-Keeps _ _ _ (λ tw.
        attempt-Keeps _ _ _ _ setup-ne-upload (copy_live _ _ _) (
          with_buffer-Keeps _ _ _ (λ scale. with_buffer-Keeps _ _ _ (λ result.
            with_buffer-Keeps _ _ _ (λ cres. with_buffer-Keeps _ _ _ (λ challenges.
              with_buffer-Keeps _ _ _ (λ bp. with_buffer-Keeps _ _ _ (λ denominators.
                with_buffer-Keeps _ _ _ (λ coset.
                  attempt-Keeps _ _ _ _ setup-ne-upload (copy_live _ _ _)
                    (rho_loop-Keeps a.rho 0 _ h))))))))))
