-- ===== src/Device/Kept.antt =====
-- Every function of the context keeps the books: the buffers of the device stay accounted for.
use gnark_cuda.Prelude.{
  ℕ, ◌+◌, ◌*◌, ◌<◌, ◌≡◌, ◌≢◌, ◌∙◌, sym, ap, arith, Bool, true, false, ◌==◌, not, ltb, if◌then◌else◌,
  inl, inr, Bool-cases, ==→≡, ne→==,
}
use gnark_cuda.Slice.{Slice}
use gnark_cuda.Gpu.{Pointer, nil, Gpu}
use gnark_cuda.Device.{
  State, Status, ok, malloc_failed, copy_failed, panicked, nb_cells, allocate, discard,
  upload_resident_poly, ensure_resident_poly, upload_resident_slice, set_length, drop_stale,
  fill_slice, accept_malloc_failed, ensure_poly_slot, keep_poly, fill_poly_slot, ensure_poly,
}
use gnark_cuda.Device.Counts.{indicator, counts, counts_self, counts_ne, occurrences-update}
use gnark_cuda.Device.Owned.{
  live_of, held, Accounts, malloc_lem, release_lem, copy_to-Accounts, allocate-Accounts,
  discard-Accounts, release_resident_slice-Accounts, ensure_poly_slot-Accounts,
}

module _ {World A : Type 0} (g : Gpu World A) where
  pub ensure_poly_slot-len :
      (id : ℕ) (st : State World) → id < (ensure_poly_slot g (id + 1) st).poly_ptrs.len
  unfolding ensure_poly_slot
  ensure_poly_slot-len id st = elim (Bool-cases (ltb st.poly_ptrs.len (id + 1))) [
    | inl e ↦ rw e (omega arith)
    | inr e ↦ rw e (ground (arith, e))
  ]

  module _ (others : Pointer → ℕ) where
    pub upload_resident_poly-Accounts :
        (dst : ℕ) (src : Slice A) (size : ℕ) (st : State World)
        → dst < nb_cells
        → Accounts g others st
        → Accounts g others (upload_resident_poly g dst src size st).1
    unfolding upload_resident_poly
    upload_resident_poly-Accounts dst src size st inside h = elim (Bool-cases (src.len == 0)) [
      | inl e ↦ rw e h
      | inr e ↦ rw e (
          let h' = allocate-Accounts g others dst size st inside h in
          elim (Bool-cases ((allocate g dst size st).cells dst == nil)) [
            | inl e' ↦ rw e' h'
            | inr e' ↦ rw e' (copy_to-Accounts g others dst src size (allocate g dst size st) h')
          ])
    ]

    pub ensure_resident_poly-Accounts :
        (dst : ℕ) (src : Slice A) (size : ℕ) (st : State World)
        → dst < nb_cells
        → Accounts g others st
        → Accounts g others (ensure_resident_poly g dst src size st).1
    unfolding ensure_resident_poly
    ensure_resident_poly-Accounts dst src size st inside h = either (not (st.cells dst == nil))
      where
        either :
            (b : Bool)
            → Accounts g others (if b then (ok, st) else upload_resident_poly g dst src size st).1
        either true = h
        either false = upload_resident_poly-Accounts dst src size st inside h

    pub set_length-Accounts :
        (dst len : ℕ) (r : Status × State World)
        → Accounts g others r.1
        → Accounts g others (set_length g dst len r).1
    set_length-Accounts dst len (ok, st) h = h
    set_length-Accounts dst len (malloc_failed, st) h = h
    set_length-Accounts dst len (copy_failed, st) h = h
    set_length-Accounts dst len (panicked, st) h = h

    pub drop_stale-Accounts :
        (dst len : ℕ) (st : State World)
        → dst < nb_cells
        → Accounts g others st
        → Accounts g others (drop_stale g dst len st)
    unfolding drop_stale
    drop_stale-Accounts dst len st inside h = elim (Bool-cases (st.cells dst == nil)) [
      | inl e ↦ rw e h
      | inr e ↦ rw e (
          either (not (st.lens dst == len))
            (discard-Accounts g others dst st inside (λ z. ground (arith, e, z))))
    ]
      where
        either :
            (b : Bool)
            → (Accounts g others st → Accounts g others (discard g dst st))
            → Accounts g others (if b then discard g dst st else st)
        either true d = d h
        either false d = h

    pub fill_slice-Accounts :
        (dst : ℕ) (src : Slice A) (st : State World)
        → Accounts g others st
        → Accounts g others (fill_slice g dst src st).1
    unfolding fill_slice
    fill_slice-Accounts dst src st h = elim (Bool-cases (st.cells dst == nil)) [
      | inl e ↦ rw e h
      | inr e ↦ rw e (
          set_length-Accounts dst src.len _ (copy_to-Accounts g others dst src (src.len * 32) st h))
    ]

    pub upload_resident_slice-Accounts :
        (dst : ℕ) (src : Slice A) (st : State World)
        → dst < nb_cells
        → Accounts g others st
        → Accounts g others (upload_resident_slice g dst src st).1
    unfolding upload_resident_slice
    upload_resident_slice-Accounts dst src st inside h = elim (Bool-cases (src.len == 0)) [
      | inl e ↦ rw e h
      | inr e ↦ rw e (
          fill_slice-Accounts dst src _ (
            allocate-Accounts g others dst (src.len * 32) _ inside
              (drop_stale-Accounts dst src.len st inside h)))
    ]

    pub accept_malloc_failed-Accounts :
        (dst : ℕ) (r : Status × State World)
        → dst < nb_cells
        → Accounts g others r.1
        → Accounts g others (accept_malloc_failed g dst r).1
    accept_malloc_failed-Accounts dst (malloc_failed, st) inside h =
        release_resident_slice-Accounts g others dst st inside h
    accept_malloc_failed-Accounts dst (ok, st) inside h = h
    accept_malloc_failed-Accounts dst (copy_failed, st) inside h = h
    accept_malloc_failed-Accounts dst (panicked, st) inside h = h

    keep_poly-Accounts :
        (id : ℕ) (ptr : Pointer) (r : Bool × World) (st : State World)
        → id < st.poly_ptrs.len
        → st.poly_ptrs.at id ≡ nil
        → ptr ≢ nil
        → ((p : Pointer)
            → p ≢ nil
            → counts p ptr + (held g st p + others p) ≡ indicator (g.live r.1 p))
        → Accounts g others (keep_poly g id ptr r st).1
    unfolding keep_poly
    keep_poly-Accounts id ptr (true, w) st inside empty used h p ne =
        let moved =
          occurrences-update st.poly_ptrs.len 0 id st.poly_ptrs.at ptr p (omega arith)
            (omega arith) in
        let none = counts_ne p (st.poly_ptrs.at id) (λ z. ne (z ∙ empty)) in
        omega (arith, h p ne, moved, none)
    keep_poly-Accounts id ptr (false, w) st inside empty used h p ne =
        omega (arith, h p ne, release_lem g ptr p w allocated)
      where
        allocated : g.live w ptr ≡ true
        allocated =
            live_of g (g.live w ptr) (held g st ptr + others ptr)
              (omega (arith, h ptr used, counts_self ptr))

    -- The slot id is empty, and ptr is what Malloc gave: it is allocated and not in the context yet.
    fill_poly_slot-Accounts :
        (id : ℕ) (coeffs : Slice A) (size : ℕ) (ptr : Pointer) (st : State World)
        → id < st.poly_ptrs.len
        → st.poly_ptrs.at id ≡ nil
        → 0 < coeffs.len
        → ((p : Pointer)
            → p ≢ nil
            → counts p ptr + (held g st p + others p) ≡ indicator (g.live st.world p))
        → Accounts g others (fill_poly_slot g id coeffs size ptr st).1
    unfolding fill_poly_slot
    fill_poly_slot-Accounts id coeffs size ptr st inside empty some_coeff h =
        elim (Bool-cases (ptr == nil)) [
          | inl e ↦ rw e (λ p ne.
              let none = counts_ne p ptr (λ z. ne (z ∙ ==→≡ _ _ e)) in omega (arith, h p ne, none))
          | inr e ↦
              rw (e, ne→== coeffs.len 0 (omega arith))
                (keep_poly-Accounts id ptr _ st inside empty (λ z. ground (arith, e, z))
                  (λ p ne.
                    h p ne ∙ sym (ap indicator (g.memcpy_live ptr p coeffs size st.world).0)))
        ]

    pub ensure_poly-Accounts :
        (id : ℕ) (coeffs : Slice A) (size : ℕ) (st : State World)
        → 0 < coeffs.len
        → Accounts g others st
        → Accounts g others (ensure_poly g id coeffs size st).1
    unfolding ensure_poly
    ensure_poly-Accounts id coeffs size st some_coeff h =
        let st' = ensure_poly_slot g (id + 1) st in
        let h' = ensure_poly_slot-Accounts g others (id + 1) st h in
        elim (Bool-cases (st'.poly_ptrs.at id == nil)) [
          | inl e ↦ rw e (
              fill_poly_slot-Accounts id coeffs size (g.malloc size st'.world).0
                (record st' { world = (g.malloc size st'.world).1 }) (ensure_poly_slot-len id st)
                (==→≡ _ _ e) some_coeff
                (λ p ne. omega (arith, h' p ne, malloc_lem g size st'.world p ne)))
          | inr e ↦ rw e h'
        ]
