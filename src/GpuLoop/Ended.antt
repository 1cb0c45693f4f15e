-- ===== src/GpuLoop/Ended.antt =====
-- What parts of the function leave on the host: `Ends` of one run, `Leaves` of every run.
use gnark_cuda.Prelude.{ℕ, ◌≡◌, ◌≢◌, refl, Bool, true, false, ◌==◌, inl, inr, Bool-cases}
use gnark_cuda.Field.{Field}
use gnark_cuda.Numerator.{Blinds}
use gnark_cuda.Gpu.{Pointer, nil, Gpu}
use gnark_cuda.Kernels.{Kernels}
use gnark_cuda.GpuLoop.{
  Host, LoopStatus, Result, done, malloc_failed, setup_failed, call_failed, attempt, with_buffer,
}

module _ {World F : Type 0} ⦃k : Field F⦄ {g : Gpu World F} (ks : Kernels g) (h0 : Host F) where
  -- The blinding polynomials are b on success; before the loop an error leaves the host as it was.
  pub record Ends (b : Blinds F) (status : LoopStatus) (h : Host F) : Type 0 where
    pub blinds : status ≡ done → h.bp ≡ b
    pub untouched : status ≢ done → status ≢ call_failed → h ≡ h0

  pub call_fails : (b : Blinds F) (h : Host F) → Ends b call_failed h
  call_fails b h = record { blinds = λ e. absurd (cc e); untouched = λ _ ne. absurd (ne refl) }

  pub gives_up : (b : Blinds F) (status : LoopStatus) → status ≢ done → Ends b status h0
  gives_up b status ne = record { blinds = λ e. absurd (ne e); untouched = λ _ _. refl }

  pub succeeds : (b : Blinds F) (h : Host F) → h.bp ≡ b → Ends b done h
  succeeds b h e = record { blinds = λ _. e; untouched = λ ne. absurd (ne refl) }

  pub record Leaves (b : Blinds F) (f : World → Result World F) : Type 0 where
    pub ends : (w : World) → Ends b (f w).0 (f w).1

  pub attempt-Leaves :
      (b : Blinds F) (f : World → Bool × World) (status : LoopStatus) (h : Host F)
      (next : World → Result World F)
      → Ends b status h
      → Leaves b next
      → Leaves b (attempt ks f status h next)
  unfolding attempt
  attempt-Leaves b f status h next other leaves = record { ends = λ w. either (f w) }
    where
      either :
          (r : Bool × World)
          → Ends b
              (elim r.0 as (λ _. Result World F) [ true ↦ next r.1 | false ↦ (status, h, r.1) ]).0
              (elim r.0 as (λ _. Result World F) [ true ↦ next r.1 | false ↦ (status, h, r.1) ]).1
      either (true, w') = leaves.ends w'
      either (false, w') = other

  pub no_memory : (b : Blinds F) → Ends b malloc_failed h0
  no_memory b = gives_up b malloc_failed (λ e. absurd (cc e))

  pub no_setup : (b : Blinds F) → Ends b setup_failed h0
  no_setup b = gives_up b setup_failed (λ e. absurd (cc e))

  with_buffer-Ends :
      (b : Blinds F) (size : ℕ) (body : Pointer → World → Result World F)
      → ((q : Pointer) → Leaves b (body q))
      → (w : World) → Ends b (with_buffer ks size h0 body w).0 (with_buffer ks size h0 body w).1
  unfolding with_buffer
  with_buffer-Ends b size body leaves w = elim (Bool-cases ((g.malloc size w).0 == nil)) [
    | inl e ↦ rw e (no_memory b)
    | inr e ↦ rw e ((leaves _).ends _)
  ]

  pub with_buffer-Leaves :
      (b : Blinds F) (size : ℕ) (body : Pointer → World → Result World F)
      → ((q : Pointer) → Leaves b (body q))
      → Leaves b (with_buffer ks size h0 body)
  with_buffer-Leaves b size body leaves = record { ends = with_buffer-Ends b size body leaves }
