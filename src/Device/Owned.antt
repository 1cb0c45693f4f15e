-- ===== src/Device/Owned.antt =====
-- The buffers of the context and the buffers of the device: what each function does to the count of
-- a pointer in the context, and to the allocation of the buffer.
use gnark_cuda.Prelude.{
  ℕ, zero, suc, ◌+◌, ◌-◌, ◌≤◌, ◌<◌, ◌≡◌, ◌≢◌, ◌∙◌, refl, sym, ap, ap₂, arith, Bool, true, false,
  ◌==◌, ltb, if◌then◌else◌, inl, inr, Bool-cases, ==→≡, ltb→lt, lt→ltb, le→ltb,
}
use gnark_cuda.Slice.{Slice}
use gnark_cuda.Gpu.{Pointer, nil, Gpu}
use gnark_cuda.Device.{
  State, nb_cells, free_loop, free, copy_to, allocate, discard, release_resident_slice,
  ensure_poly_slot,
}
use gnark_cuda.Device.Counts.{
  indicator, counts, counts_self, counts_ne, occurrences, occurrences-update, occurrences-padded,
  occurrences-none,
}

taken : {B : Type 0} (b : Bool) (x y : B) → b ≡ true → (if b then x else y) ≡ x
taken b x y e = rw e refl

skipped : {B : Type 0} (b : Bool) (x y : B) → b ≡ false → (if b then x else y) ≡ y
skipped b x y e = rw e refl

module _ {World A : Type 0} (g : Gpu World A) where
  -- Malloc allocates the buffer that it returns, and no other; nil counts for nothing.
  pub malloc_lem :
      (size : ℕ) (w : World) (p : Pointer)
      → p ≢ nil
      → indicator (g.live (g.malloc size w).1 p)
        ≡ counts p (g.malloc size w).0 + indicator (g.live w p)
  malloc_lem size w p ne = elim (Bool-cases (p == (g.malloc size w).0)) [
    | inl e ↦
        let same : p ≡ (g.malloc size w).0 = ==→≡ _ _ e in
        ap indicator
          (g.malloc_live size w p ne ∙ taken (p == (g.malloc size w).0) true (g.live w p) e)
        ∙ sym (
            ap₂ (λ a b. a + indicator b) (ap (counts p) (sym same) ∙ counts_self p)
              (ap (g.live w) same ∙ (g.malloc_fresh size w (λ z. ne (same ∙ z))).0))
    | inr e ↦
        ap indicator
          (g.malloc_live size w p ne ∙ skipped (p == (g.malloc size w).0) true (g.live w p) e)
        ∙ sym (
            ap (λ a. a + indicator (g.live w p)) (counts_ne p _ (λ z. ground (arith, e, z)))
            ∙ omega arith)
  ]

  -- Free of an allocated buffer releases it, and no other.
  pub release_lem :
      (q p : Pointer) (w : World)
      → g.live w q ≡ true
      → indicator (g.live (g.release q w) p) + counts p q ≡ indicator (g.live w p)
  release_lem q p w h = elim (Bool-cases (p == q)) [
    | inl e ↦
        let same : p ≡ q = ==→≡ _ _ e in
        ap₂ (λ a b. indicator a + b) (g.release_live q p w h ∙ taken (p == q) false (g.live w p) e)
          (ap (counts p) (sym same) ∙ counts_self p)
        ∙ sym (ap indicator (ap (g.live w) same ∙ h))
    | inr e ↦
        ap₂ (λ a b. indicator a + b)
          (g.release_live q p w h ∙ skipped (p == q) false (g.live w p) e)
          (counts_ne p q (λ z. ground (arith, e, z)))
        ∙ omega arith
  ]

  pub live_of : (b : Bool) (rest : ℕ) → suc rest ≡ indicator b → b ≡ true
  live_of true rest e = refl
  live_of false rest e = absurd (omega arith)

  -- How often the context holds a pointer.
  abbrev pub held : State World → Pointer → ℕ
  held st p = occurrences nb_cells 0 st.cells p + occurrences st.poly_ptrs.len 0 st.poly_ptrs.at p

  -- The buffers of the device are the ones of the context, each held once, and those of others.
  abbrev pub Accounts : (others : Pointer → ℕ) → State World → Type 0
  Accounts others st =
      (p : Pointer) → p ≢ nil → held st p + others p ≡ indicator (g.live st.world p)

  module _ (others : Pointer → ℕ) where
    pub copy_to-Accounts :
        (dst : ℕ) (src : Slice A) (size : ℕ) (st : State World)
        → Accounts others st
        → Accounts others (copy_to g dst src size st).1
    unfolding copy_to
    copy_to-Accounts dst src size st h p ne =
        h p ne ∙ sym (ap indicator (g.memcpy_live (st.cells dst) p src size st.world).0)

    pub allocate-Accounts :
        (dst size : ℕ) (st : State World)
        → dst < nb_cells
        → Accounts others st
        → Accounts others (allocate g dst size st)
    unfolding allocate
    allocate-Accounts dst size st inside h = elim (Bool-cases (st.cells dst == nil)) [
      | inl e ↦ rw e (λ p ne.
          let fresh = malloc_lem size st.world p ne in
          let moved =
            occurrences-update nb_cells 0 dst st.cells (g.malloc size st.world).0 p (omega arith)
              (omega arith) in
          let was = h p ne in
          let none = counts_ne p (st.cells dst) (λ z. ne (z ∙ ==→≡ _ _ e)) in
          omega (arith, fresh, moved, was, none))
      | inr e ↦ rw e h
    ]

    -- A buffer of the context is allocated.
    pub held_live :
        (st : State World) (q : Pointer)
        → Accounts others st
        → q ≢ nil
        → 1 ≤ held st q
        → g.live st.world q ≡ true
    held_live st q h ne one =
        live_of (g.live st.world q) (held st q + others q - 1) (omega (arith, h q ne))

    cell_held :
        (st : State World) (dst : ℕ)
        → dst < nb_cells
        → st.cells dst ≢ nil
        → 1 ≤ held st (st.cells dst)
    cell_held st dst inside ne =
        let moved =
          occurrences-update nb_cells 0 dst st.cells nil (st.cells dst) (omega arith)
            (omega arith) in
        let one = counts_self (st.cells dst) in
        let none = counts_ne (st.cells dst) nil ne in omega (arith, moved, one, none)

    pub discard-Accounts :
        (dst : ℕ) (st : State World)
        → dst < nb_cells
        → st.cells dst ≢ nil
        → Accounts others st
        → Accounts others (discard g dst st)
    unfolding discard
    discard-Accounts dst st inside used h p ne =
        let moved = occurrences-update nb_cells 0 dst st.cells nil p (omega arith) (omega arith) in
        let none = counts_ne p nil ne in
        let freed =
          release_lem (st.cells dst) p st.world
            (held_live st (st.cells dst) h used (cell_held st dst inside used)) in
        let was = h p ne in omega (arith, moved, none, freed, was)

    pub release_resident_slice-Accounts :
        (dst : ℕ) (st : State World)
        → dst < nb_cells
        → Accounts others st
        → Accounts others (release_resident_slice g dst st)
    unfolding release_resident_slice
    release_resident_slice-Accounts dst st inside h = elim (Bool-cases (st.cells dst == nil)) [
      | inl e ↦ rw e h
      | inr e ↦ rw e (discard-Accounts dst st inside (λ z. ground (arith, e, z)) h)
    ]

    pub ensure_poly_slot-Accounts :
        (size : ℕ) (st : State World)
        → Accounts others st
        → Accounts others (ensure_poly_slot g size st)
    unfolding ensure_poly_slot
    ensure_poly_slot-Accounts size st h = elim (Bool-cases (ltb st.poly_ptrs.len size)) [
      | inl e ↦ rw e (λ p ne.
          let longer : st.poly_ptrs.len + (size - st.poly_ptrs.len) ≡ size =
            omega (arith, ltb→lt _ _ e) in
          ap (λ a. occurrences nb_cells 0 st.cells p + a + others p)
            (ap (λ m. occurrences m 0 (extended st.poly_ptrs) p) (sym longer)
              ∙ occurrences-padded st.poly_ptrs.len (size - st.poly_ptrs.len) 0 st.poly_ptrs.at
                  (extended st.poly_ptrs) p (λ j q r. rw (lt→ltb j st.poly_ptrs.len (omega arith)))
                  (λ j q. rw (le→ltb j st.poly_ptrs.len (omega arith))) ne)
          ∙ h p ne)
      | inr e ↦ rw e h
    ]
      where
        extended : Slice Pointer → ℕ → Pointer
        extended a i = if ltb i a.len then a.at i else nil

    -- The loop of `free` releases what the cells hold.
    pub free_loop_lem :
        (rounds i : ℕ) (ptrs : ℕ → Pointer) (rest : Pointer → ℕ) (w : World)
        → ((p : Pointer) → p ≢ nil → occurrences rounds i ptrs p + rest p ≡ indicator (g.live w p))
        → (p : Pointer) → p ≢ nil
        → rest p ≡ indicator (g.live (free_loop g rounds i ptrs w) p)
    unfolding free_loop occurrences
    free_loop_lem zero i ptrs rest w h p ne = omega (arith, h p ne)
    free_loop_lem (suc rounds) i ptrs rest w h p ne = elim (Bool-cases (ptrs i == nil)) [
      | inl e ↦ rw e (free_loop_lem rounds (suc i) ptrs rest w (empty e) p ne)
      | inr e ↦ rw e (free_loop_lem rounds (suc i) ptrs rest (g.release (ptrs i) w) (full e) p ne)
    ]
      where
        empty :
            (ptrs i == nil) ≡ true
            → (p : Pointer) → p ≢ nil
            → occurrences rounds (suc i) ptrs p + rest p ≡ indicator (g.live w p)
        empty e p ne =
            let none = counts_ne p (ptrs i) (λ z. ne (z ∙ ==→≡ _ _ e)) in
            omega (arith, h p ne, none)

        used : (ptrs i == nil) ≡ false → ptrs i ≢ nil
        used e z = ground (arith, e, z)

        allocated : (ptrs i == nil) ≡ false → g.live w (ptrs i) ≡ true
        allocated e =
            live_of (g.live w (ptrs i)) (occurrences rounds (suc i) ptrs (ptrs i) + rest (ptrs i))
              (omega (arith, h (ptrs i) (used e), counts_self (ptrs i)))

        full :
            (ptrs i == nil) ≡ false
            → (p : Pointer) → p ≢ nil
            → occurrences rounds (suc i) ptrs p + rest p
              ≡ indicator (g.live (g.release (ptrs i) w) p)
        full e p ne = omega (arith, h p ne, release_lem (ptrs i) p w (allocated e))

    -- `free` releases exactly the buffers of the context.
    pub free-live :
        (st : State World)
        → Accounts others st
        → (p : Pointer) → p ≢ nil
        → others p ≡ indicator (g.live (free g st).world p)
    unfolding free
    free-live st h =
        free_loop_lem st.poly_ptrs.len 0 st.poly_ptrs.at others
          (free_loop g nb_cells 0 st.cells st.world)
          (free_loop_lem nb_cells 0 st.cells
            (λ p. occurrences st.poly_ptrs.len 0 st.poly_ptrs.at p + others p) st.world
            (λ p ne. omega (arith, h p ne)))

    pub free-Accounts : (st : State World) → Accounts others st → Accounts others (free g st)
    unfolding free
    free-Accounts st h p ne =
        let none = occurrences-none nb_cells 0 (λ _. nil) p (λ j q r. ne) in
        let none' = occurrences-none 0 0 (λ _. nil) p (λ j q r. ne) in
        omega (arith, none, none', free-live st h p ne)
