-- ===== src/GpuLoop/Whole.antt =====
-- What the whole function leaves allocated.
use gnark_cuda.Prelude.{
  ℕ, ◌+◌, ◌*◌, ◌≡◌, ◌≢◌, ◌∙◌, refl, sym, ap, arith, Bool, true, false, ◌==◌, inl, inr, Bool-cases,
  ne→==, ==→≡,
}
use gnark_cuda.Field.{Field}
use gnark_cuda.Slice.{update}
use gnark_cuda.Numerator.{id_z, id_zs}
use gnark_cuda.Gpu.{Pointer, nil, Gpu}
use gnark_cuda.Device.Counts.{
  indicator, indicator_injective, counts, counts_self, counts_ne, occurrences, occurrences_congr,
  occurrences-none,
}
use gnark_cuda.Device.Owned.{live_of, malloc_lem, release_lem, free_loop_lem}
use gnark_cuda.Kernels.{Kernels}
use gnark_cuda.GpuLoop.{
  Inputs, Host, LoopStatus, Result, malloc_failed, upload_failed, init_failed, no_stream,
  setup_failed, owned, attempt, with_buffers, free_polys, upload_polys, with_polys, after_upload,
  gpu_compute_numerator,
}
use gnark_cuda.GpuLoop.Live.{
  Keeps, attempt-Keeps, with_buffers-Keeps, no_memory-ne-upload, setup-ne-upload,
}
use gnark_cuda.GpuLoop.Uploaded.{Books, Tidy, upload_polys-Tidy}

module _ {World F : Type 0} ⦃k : Field F⦄ {g : Gpu World F} (ks : Kernels g) (a : Inputs F) where
  module _ (others : Pointer → ℕ) where
    -- ZS, which shares the buffer of Z, owns none.
    alias :
        (d_polys : ℕ → Pointer) (q : Pointer) (j : ℕ)
        → owned (update d_polys id_zs q) j ≡ owned d_polys j
    alias d_polys q j = elim (Bool-cases (j == id_zs)) [
      | inl e ↦ rw e refl
      | inr e ↦ rw (e, ne→== id_zs j (λ z. ground (arith, e, z))) refl
    ]

    -- The release of the polynomials, with one more buffer q allocated.
    with_polys_lem :
        (d_polys : ℕ → Pointer) (q : Pointer) (body : World → Result World F) (w : World)
        → Keeps ks body
        → ((p : Pointer)
            → p ≢ nil
            → counts p q + (occurrences a.npolys 0 (owned d_polys) p + others p)
              ≡ indicator (g.live w p))
        → (p : Pointer) → p ≢ nil
        → counts p q + others p
          ≡ indicator (g.live (with_polys ks a (update d_polys id_zs (d_polys id_z)) body w).2 p)
    unfolding with_polys free_polys
    with_polys_lem d_polys q body w keeps h =
        free_loop_lem g others a.npolys 0 (owned (update d_polys id_zs (d_polys id_z)))
          (λ p. counts p q + others p) (body w).2
          (λ p ne.
            let same =
              occurrences_congr a.npolys 0 (owned (update d_polys id_zs (d_polys id_z)))
                (owned d_polys) p (λ j r s. alias d_polys (d_polys id_z) j) in
            omega (arith, h p ne, same, ap indicator (keeps.same w p ne)))

    with_polys-status :
        (d_polys : ℕ → Pointer) (body : World → Result World F) (w : World)
        → (with_polys ks a d_polys body w).0 ≡ (body w).0
    unfolding with_polys
    with_polys-status d_polys body w = refl

    after_upload-Tidy :
        (h : Host F) (d_polys : ℕ → Pointer) (w : World)
        → Books ks a others d_polys w
        → Tidy ks a others (after_upload ks a h d_polys w)
    unfolding after_upload
    after_upload-Tidy h d_polys w books = elim (Bool-cases (array == nil)) [
      | inl e ↦ rw e (record {
        released = λ _ p ne. omega (
          arith,
          counts_ne p array (λ z. ne (z ∙ ==→≡ _ _ e)),
          with_polys_lem d_polys array (λ w'. (malloc_failed, h, w')) allocated giving_up counted p
              ne,
        );
        leaked = λ bad. absurd (
            no_memory-ne-upload ks
              (sym (with_polys-status _ (λ w'. (malloc_failed, h, w')) allocated) ∙ bad));
      })
      | inr e ↦ rw e (record {
        released = λ _ p ne. omega (
          arith,
          with_polys_lem d_polys array body allocated keeps counted p ne,
          release_lem g array p (with_polys ks a new_polys body allocated).2
              (held (λ z. ground (arith, e, z))),
        );
        leaked = λ bad.
            absurd (keeps.never allocated (sym (with_polys-status new_polys body allocated) ∙ bad));
      })
    ]
      where
        new_polys : ℕ → Pointer
        new_polys = update d_polys id_zs (d_polys id_z)

        array : Pointer
        array = (g.malloc (a.npolys * 8) w).0

        allocated : World
        allocated = (g.malloc (a.npolys * 8) w).1

        body : World → Result World F
        body =
            attempt ks (ks.copy_pointers array new_polys (a.npolys * 8)) setup_failed h
              (with_buffers ks a new_polys array h)

        keeps : Keeps ks body
        keeps =
            attempt-Keeps ks _ _ _ _ (setup-ne-upload ks) (ks.copy_pointers_live _ _ _)
              (with_buffers-Keeps ks a new_polys array h)

        giving_up : Keeps ks (λ w'. (malloc_failed, h, w'))
        giving_up = record { same = λ w' p ne. refl; never = λ w'. no_memory-ne-upload ks }

        counted :
            (p : Pointer)
            → p ≢ nil
            → counts p array + (occurrences a.npolys 0 (owned d_polys) p + others p)
              ≡ indicator (g.live allocated p)
        counted p ne = omega (arith, books p ne, malloc_lem g (a.npolys * 8) w p ne)

        held : array ≢ nil → g.live (with_polys ks a new_polys body allocated).2 array ≡ true
        held used =
            live_of g (g.live (with_polys ks a new_polys body allocated).2 array) (others array) (
              omega (
                arith,
                with_polys_lem d_polys array body allocated keeps counted array used,
                counts_self array,
              ))

    upload-Tidy :
        (h : Host F) (w : World)
        → ((p : Pointer) → p ≢ nil → others p ≡ indicator (g.live w p))
        → Tidy ks a others (upload_polys ks a a.npolys 0 (λ _. nil) h (after_upload ks a h) w)
    upload-Tidy h w start =
        upload_polys-Tidy ks a others a.npolys 0 (λ _. nil) h (after_upload ks a h) w (omega arith)
          (λ j q. refl)
          (λ p ne.
            let none =
              occurrences-none a.npolys 0 (owned (λ _. nil)) p (λ j r s z. ne (z ∙ empty j)) in
            omega (arith, start p ne, none))
          (after_upload-Tidy h)
      where
        empty : (j : ℕ) → owned (λ _. nil) j ≡ nil
        empty j = elim (Bool-cases (j == id_zs)) [ inl e ↦ rw e refl | inr e ↦ rw e refl ]

    attempt-Tidy :
        (f : World → Bool × World) (status : LoopStatus) (h : Host F)
        (next : World → Result World F) (w : World)
        → status ≢ upload_failed
        → ((p : Pointer) → g.live (f w).1 p ≡ g.live w p)
        → ((p : Pointer) → p ≢ nil → others p ≡ indicator (g.live w p))
        → ((w' : World)
            → ((p : Pointer) → p ≢ nil → others p ≡ indicator (g.live w' p))
            → Tidy ks a others (next w'))
        → Tidy ks a others (attempt ks f status h next w)
    unfolding attempt
    attempt-Tidy f status h next w other quiet start tidy = either (f w) quiet
      where
        either :
            (r : Bool × World)
            → ((p : Pointer) → g.live r.1 p ≡ g.live w p)
            → Tidy ks a others
                (elim r.0 as (λ _. Result World F) [ true ↦ next r.1 | false ↦ (status, h, r.1) ])
        either (true, w') same = tidy w' (λ p ne. start p ne ∙ sym (ap indicator (same p)))
        either (false, w') same = record {
          released = λ _ p ne. start p ne ∙ sym (ap indicator (same p));
          leaked = λ bad. absurd (other bad);
        }

    gpu_compute_numerator-Tidy :
        (h : Host F) (w : World)
        → ((p : Pointer) → p ≢ nil → others p ≡ indicator (g.live w p))
        → Tidy ks a others (gpu_compute_numerator ks a h w)
    unfolding gpu_compute_numerator
    gpu_compute_numerator-Tidy h w start =
        attempt-Tidy (ks.ntt_init a.n) init_failed h _ w (λ e. absurd (cc e))
          (ks.ntt_init_live a.n w) start
          (λ w' start'.
            attempt-Tidy ks.stream_acquire no_stream h _ w' (λ e. absurd (cc e))
              (ks.stream_acquire_live w') start'
              (λ w'' start''.
                let t = upload-Tidy h w'' start'' in
                record {
                  released = λ good p ne.
                      t.released good p ne ∙ sym (ap indicator (ks.stream_release_live _ p));
                  leaked = λ bad.
                      let (p, used, alone, kept) = t.leaked bad in
                      (p, used, alone, ks.stream_release_live _ p ∙ kept);
                }))

  -- `gpuComputeNumeratorRhoLoop` leaves exactly the buffers allocated that were before, whether it
  -- returns an error or not, unless a copy in the upload of the polynomials fails.
  pub gpu_compute_numerator-live :
      (h : Host F) (w : World) (p : Pointer)
      → (gpu_compute_numerator ks a h w).0 ≢ upload_failed
      → p ≢ nil
      → g.live (gpu_compute_numerator ks a h w).2 p ≡ g.live w p
  gpu_compute_numerator-live h w p good ne = indicator_injective _ _ (
      sym (
        (gpu_compute_numerator-Tidy (λ q. indicator (g.live w q)) h w (λ q used. refl)).released
          good p ne))

  -- When a copy in the upload of the polynomials fails, `gpuComputeNumeratorRhoLoop` leaves a buffer
  -- allocated that was not before.
  pub gpu_compute_numerator-leak :
      (h : Host F) (w : World)
      → (gpu_compute_numerator ks a h w).0 ≡ upload_failed
      → (p : Pointer) × (p ≢ nil)
        × (g.live w p ≡ false)
        × (g.live (gpu_compute_numerator ks a h w).2 p ≡ true)
  gpu_compute_numerator-leak h w bad =
      let (p, used, alone, kept) =
        (gpu_compute_numerator-Tidy (λ q. indicator (g.live w q)) h w (λ q used. refl)).leaked
          bad in
      (p, used, indicator_injective _ _ alone, kept)
