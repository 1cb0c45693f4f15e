-- ===== src/GpuLoop.antt =====
-- `gpuComputeNumeratorRhoLoop` of integration/prove_gpu.go for an instance without a GPU context,
-- with its device buffers, its deferred releases, and what it changes on the host.
-- At the end the choice of `computeNumerator` (integration/prove.go) between it and the CPU loop.
pub mod Live
pub mod Uploaded
pub mod Whole
pub mod Ended
pub mod Matches
use gnark_cuda.Prelude.{
  ℕ, zero, suc, ◌+◌, ◌*◌, ◌≡◌, Bool, true, false, ◌==◌, ltb, if◌then◌else◌, Option, none, some,
}
use gnark_cuda.Field.{Field, ◌⊗◌}
use gnark_cuda.Slice.{Slice, update}
use gnark_cuda.Quotient.Divide.{Domain, lagrange, regular, bit_reverse, Basis, Layout, Polynomial}
use gnark_cuda.Numerator.{Blinds, rho_blinds, blind_scale, blind_unscale, id_z, id_zs}
use gnark_cuda.Numerator.Loop.{each_blind}
use gnark_cuda.Gpu.{Pointer, nil, Gpu}
use gnark_cuda.Kernels.{Buffers, Kernels}
use gnark_cuda.Device.{free_loop}

-- The arguments of the function, and the fields of the instance that it reads.
pub record Inputs (F : Type 0) : Type 0 where
  pub rho : ℕ
  pub n : ℕ
  pub npolys : ℕ
  pub nb_bsb_gates : ℕ
  pub scaling_vector_rev : Slice F
  -- `scalingVectorDomain1Rev`, from BuildExpTable and BitReverse of gnark-crypto
  pub scaling_vector_domain1_rev : Slice F
  pub twiddles0 : Slice F
  pub shifters : ℕ → F
  pub alpha : F
  pub beta : F
  pub gamma : F
  pub domain0 : Domain F
  pub domain1 : Domain F

-- What the function changes on the host.
pub record Host (F : Type 0) : Type 0 where
  pub coset : F
  pub bp : Blinds F
  pub cres : ℕ → F
  pub x : ℕ → Option (Polynomial F)

-- What the function returns: the error of NTTInit, no stream, no memory, the error of a copy in the
-- upload of the polynomials, that of another copy before the loop, or that of a call from the loop on.
pub data LoopStatus : Type 0 where
  done init_failed no_stream malloc_failed upload_failed setup_failed call_failed : LoopStatus

-- `err == nil` of `gpuComputeNumeratorRhoLoop`
abbrev pub is_done : LoopStatus → Bool
is_done done = true
is_done _ = false

-- What the function returns, the host and the device.
abbrev pub Result : (World F : Type 0) → Type 0
Result World F = LoopStatus × Host F × World

abbrev pub is_lagrange_regular : {F : Type 0} → Option (Polynomial F) → Bool
is_lagrange_regular none = false
is_lagrange_regular (some p) = elim p.basis [
  | lagrange ↦ elim p.layout [ regular ↦ true | bit_reverse ↦ false ]
  | _ ↦ false
]

-- `ifftDirs` and `fftDirs`; 1 is DIF and 0 is DIT.
abbrev pub ifft_dirs : {F : Type 0} → (ℕ → Option (Polynomial F)) → ℕ → ℕ
ifft_dirs x i = if i == id_zs then 0 else if is_lagrange_regular (x i) then 1 else 0

abbrev fft_dir : {F : Type 0} → Option (Polynomial F) → ℕ
fft_dir none = 0
fft_dir (some p) = if is_lagrange_regular (some p) then 0 else 1

abbrev pub fft_dirs : {F : Type 0} → (ℕ → Option (Polynomial F)) → ℕ → ℕ
fft_dirs x i = if i == id_zs then 0 else fft_dir (x i)

-- The polynomials of which the function owns a buffer: ZS shares the one of Z.
abbrev pub owned : (ℕ → Pointer) → ℕ → Pointer
owned d_polys i = if i == id_zs then nil else d_polys i

module _ {World F : Type 0} ⦃k : Field F⦄ {g : Gpu World F} (ks : Kernels g) where
  -- A call, and an early return if it fails.
  unfoldable pub attempt :
      (World → Bool × World)
      → LoopStatus
      → Host F
      → (World → Result World F)
      → World
      → Result World F
  attempt f status h next w = elim (f w).0 [ true ↦ next (f w).1 | false ↦ (status, h, (f w).1) ]

  -- Malloc, an early return if it gives nil, and `defer gpu.Free`.
  unfoldable pub with_buffer :
      (size : ℕ) → Host F → (Pointer → World → Result World F) → World → Result World F
  with_buffer size h body w =
      if (g.malloc size w).0 == nil
      then (malloc_failed, h, (g.malloc size w).1)
      else (let r = body (g.malloc size w).0 (g.malloc size w).1 in
          (r.0, r.1, g.release (g.malloc size w).0 r.2))

  module _ (a : Inputs F) where
    abbrev pub scalar : F → Slice F
    scalar c = record { len = 1; at = λ _. c }

    abbrev pub coefficient : Slice F → ℕ → F
    coefficient q j = if ltb j q.len then q.at j else k.zero

    -- `bpArr`
    unfoldable pub pack_blinds : Blinds F → Slice F
    pack_blinds b = record {
      len = 9;
      at = λ j.
          if j == 0
          then b.bl.at 0
          else if j == 1
          then coefficient b.bl 1
          else if j == 2
          then b.br.at 0
          else if j == 3
          then coefficient b.br 1
          else if j == 4
          then b.bo.at 0
          else if j == 5
          then coefficient b.bo 1
          else if j == 6
          then b.bz.at 0
          else if j == 7
          then coefficient b.bz 1
          else coefficient b.bz 2;
    }

    -- `challenges`
    unfoldable pub pack_challenges : (coset : F) → Slice F
    pack_challenges coset = record {
      len = 8;
      at = λ j.
          if j == 0
          then a.alpha
          else if j == 1
          then a.beta
          else if j == 2
          then a.gamma
          else if j == 3
          then a.domain1.fr_multiplicative_gen
          else if j == 4
          then a.domain1.fr_multiplicative_gen ⊗ a.domain1.fr_multiplicative_gen
          else if j == 5
          then coset
          else if j == 6
          then k.sub (k.exp coset a.n) k.one
          else a.domain0.cardinality_inv;
    }

    -- `if i == 1 { … gpu.MemcpyH2D(dScale, …) }`
    abbrev pub update_scale : (i : ℕ) → Buffers → World → Bool × World
    update_scale i b w =
        if i == 1
        then g.memcpy_h2d b.d_scale a.scaling_vector_domain1_rev (a.n * 32) w
        else (true, w)

    -- The body of the loop, and what follows it.
    unfoldable pub gpu_iteration :
        (i : ℕ) → Buffers → Host F → (Host F → World → Result World F) → World → Result World F
    unfolding blind_scale blind_unscale pack_blinds pack_challenges
    gpu_iteration i b h next =
        let coset = h.coset ⊗ a.shifters i in
        let moved = record h { coset = coset } in
        let scaled = record moved { bp = each_blind (blind_scale a.n coset (a.shifters i)) h.bp } in
        let unscaled = record scaled { bp = each_blind (blind_unscale a.n coset) scaled.bp } in
        attempt (g.memcpy_h2d b.d_coset (scalar coset) 32) call_failed moved (
          attempt (ks.vec_denominators b.d_denominators b.d_twiddles0 b.d_coset a.n) call_failed
            moved
            (attempt (update_scale i b) call_failed scaled (
              attempt (g.memcpy_h2d b.d_bp (pack_blinds scaled.bp) (9 * 32)) call_failed scaled (
                attempt (g.memcpy_h2d b.d_challenges (pack_challenges coset) (8 * 32)) call_failed
                  scaled
                  (attempt
                    (ks.plonk_rho_iteration b a.n a.npolys a.nb_bsb_gates (ifft_dirs h.x)
                      (fft_dirs h.x))
                    call_failed scaled
                    (attempt (ks.plonk_scatter_result b.d_result b.d_cres a.n a.rho i) call_failed
                      scaled (next unscaled)))))))

    -- Coefficients read from the device, in Lagrange form and in order.
    abbrev pub downloaded : (i len : ℕ) → (ℕ → F) → Host F → Host F
    downloaded i len values h = record h {
      x = update h.x i (
          some (record {
            coefficients = record { len = len; at = values };
            basis = lagrange;
            layout = regular;
          }));
    }

    -- The download of one polynomial, and what follows it.
    unfoldable pub download_one :
        (i : ℕ)
        → Buffers
        → Host F
        → Option (Polynomial F)
        → (next : Host F → World → Result World F) → World
        → Result World F
    download_one i b h none next = next h
    download_one i b h (some p) next =
        if owned b.d_polys i == nil
        then next h
        else attempt (ks.memcpy_d2h (b.d_polys i) (a.n * 32)) call_failed h
            (λ w. next (downloaded i p.coefficients.len (ks.read w (b.d_polys i)) h) w)

    unfoldable pub download_polys : (rounds i : ℕ) → Buffers → Host F → World → Result World F
    unfolding download_one
    download_polys zero i b h = λ w. (done, h, w)
    download_polys (suc rounds) i b h = download_one i b h (h.x i) (download_polys rounds (suc i) b)

    -- What follows the loop: the download of the result and of the polynomials.
    unfoldable pub finish : Buffers → Host F → World → Result World F
    unfolding download_polys
    finish b h w =
        attempt (ks.memcpy_d2h b.d_cres (a.rho * a.n * 32)) call_failed h
          (λ w'. download_polys a.npolys 0 b (record h { cres = ks.read w' b.d_cres }) w')
          (ks.stream_sync w)

    unfoldable pub rho_loop : (rounds i : ℕ) → Buffers → Host F → World → Result World F
    unfolding gpu_iteration finish
    rho_loop zero i b h = finish b h
    rho_loop (suc rounds) i b h = gpu_iteration i b h (rho_loop rounds (suc i) b)

    -- From the upload of twiddles0 on.
    unfoldable pub with_buffers :
        (d_polys : ℕ → Pointer) (d_ptr_array : Pointer) → Host F → World → Result World F
    unfolding rho_loop
    with_buffers d_polys d_ptr_array h = with_buffer (a.n * 32) h (λ tw.
        attempt (g.memcpy_h2d tw a.twiddles0 (a.n * 32)) setup_failed h (
          with_buffer (a.n * 32) h (λ scale. with_buffer (a.n * 32) h (λ result.
            with_buffer (a.rho * a.n * 32) h (λ cres. with_buffer (8 * 32) h (λ challenges.
              with_buffer (9 * 32) h (λ bp. with_buffer (a.n * 32) h (λ denominators.
                with_buffer 32 h (λ coset.
                  attempt (g.memcpy_h2d scale a.scaling_vector_rev (a.n * 32)) setup_failed h (
                    rho_loop a.rho 0
                      (record {
                        d_polys = d_polys;
                        d_ptr_array = d_ptr_array;
                        d_twiddles0 = tw;
                        d_scale = scale;
                        d_result = result;
                        d_cres = cres;
                        d_challenges = challenges;
                        d_bp = bp;
                        d_denominators = denominators;
                        d_coset = coset;
                      })
                      h))))))))))

    -- `for i, dp := range dPolys { … gpu.Free(dp) }`
    unfoldable pub free_polys : (rounds : ℕ) (d_polys : ℕ → Pointer) → World → World
    unfolding free_loop
    free_polys rounds d_polys w = free_loop g rounds 0 (owned d_polys) w

    -- The upload of one polynomial into the buffer q, and what follows it.
    unfoldable pub upload_into :
        (i : ℕ) (d_polys : ℕ → Pointer) (q : Pointer)
        → Host F
        → Polynomial F
        → (next : (ℕ → Pointer) → World → Result World F) → World
        → Result World F
    unfolding free_polys
    upload_into i d_polys q h p next w =
        if q == nil
        then (malloc_failed, h, free_polys i d_polys w)
        else attempt (g.memcpy_h2d q p.coefficients (a.n * 32)) upload_failed h
            (next (update d_polys i q)) w

    unfoldable pub upload_one :
        (i : ℕ) (d_polys : ℕ → Pointer)
        → Host F
        → Option (Polynomial F)
        → (next : (ℕ → Pointer) → World → Result World F) → World
        → Result World F
    unfolding upload_into
    upload_one i d_polys h none next w = next d_polys w
    upload_one i d_polys h (some p) next w =
        if i == id_zs
        then next d_polys w
        else upload_into i d_polys (g.malloc (a.n * 32) w).0 h p next (g.malloc (a.n * 32) w).1

    -- The upload of the polynomials, and what follows it.
    unfoldable pub upload_polys :
        (rounds i : ℕ) (d_polys : ℕ → Pointer)
        → Host F
        → (next : (ℕ → Pointer) → World → Result World F) → World
        → Result World F
    unfolding upload_one
    upload_polys zero i d_polys h next = next d_polys
    upload_polys (suc rounds) i d_polys h next =
        upload_one i d_polys h (h.x i) (λ d. upload_polys rounds (suc i) d h next)

    -- The deferred release of the polynomials.
    unfoldable pub with_polys :
        (d_polys : ℕ → Pointer) → (World → Result World F) → World → Result World F
    unfolding free_polys
    with_polys d_polys body w = let r = body w in (r.0, r.1, free_polys a.npolys d_polys r.2)

    -- What follows the upload. Also where the array of pointers cannot be allocated or copied the
    -- polynomials are released before the array.
    unfoldable pub after_upload : Host F → (ℕ → Pointer) → World → Result World F
    after_upload h uploaded w =
        let d_polys = update uploaded id_zs (uploaded id_z) in
        let array = (g.malloc (a.npolys * 8) w).0 in
        if array == nil
        then with_polys d_polys (λ w'. (malloc_failed, h, w')) (g.malloc (a.npolys * 8) w).1
        else (let r =
              with_polys d_polys
                (attempt (ks.copy_pointers array d_polys (a.npolys * 8)) setup_failed h
                  (with_buffers d_polys array h))
                (g.malloc (a.npolys * 8) w).1 in
            (r.0, r.1, g.release array r.2))

    -- `gpuComputeNumeratorRhoLoop`
    unfoldable pub gpu_compute_numerator : Host F → World → Result World F
    unfolding upload_polys after_upload
    gpu_compute_numerator h w =
        attempt (ks.ntt_init a.n) init_failed h
          (attempt ks.stream_acquire no_stream h (λ w'.
            let r = upload_polys a.npolys 0 (λ _. nil) h (after_upload h) w' in
            (r.0, r.1, ks.stream_release r.2)))
          w

    -- `for _, q := range s.bp` over the iterations of the loop on the CPU.
    abbrev pub cpu_loop_blinds : Host F → Blinds F
    cpu_loop_blinds h = each_blind (rho_blinds a.n a.rho 0 a.shifters h.coset) h.bp

    -- The blinding polynomials after the loop of `computeNumerator`: on the GPU, unless disabled by
    -- GNARK_DISABLE_GPU_RHO, and on the CPU where that has failed, from what it has left.
    unfoldable pub rho_loop_blinds : (disabled : Bool) → Host F → World → Blinds F
    unfolding gpu_compute_numerator rho_blinds
    rho_loop_blinds disabled h w =
        if disabled
        then cpu_loop_blinds h
        else (let r = gpu_compute_numerator h w in
            if is_done r.0 then r.1.bp else cpu_loop_blinds r.1)
