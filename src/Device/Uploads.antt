-- ===== src/Device/Uploads.antt =====
-- What an upload leaves in its buffer, and in the slot of the context.
use gnark_cuda.Prelude.{
  ℕ, ◌*◌, ◌<◌, ◌≡◌, ◌≢◌, ◌∙◌, ◌⊎◌, refl, sym, ap, arith, Bool, true, false, ◌==◌, inl, inr,
  Bool-cases, ==→≡, ne→==, ==_self,
}
use gnark_cuda.Slice.{Slice, update_self}
use gnark_cuda.Gpu.{nil, Gpu}
use gnark_cuda.Device.{
  copy_status, State, ok, copy_to, allocate, discard, drop_stale, fill_slice, upload_resident_slice,
  set_length,
}

module _ {World A : Type 0} (g : Gpu World A) where
  -- A cell and its length: no length without a buffer, and an allocated buffer that has as many
  -- entries as the length says, unless it says 0.
  pub record HasRoom (dst : ℕ) (st : State World) : Type 0 where
    pub empty : st.cells dst ≡ nil → st.lens dst ≡ 0
    pub allocated : st.cells dst ≢ nil → g.live st.world (st.cells dst) ≡ true
    pub room :
        st.cells dst ≢ nil → st.lens dst ≢ 0 → g.capacity st.world (st.cells dst) ≡ st.lens dst * 32

  -- The cell is empty, or has an allocated buffer of len entries; its length is 0 or len.
  abbrev Ready : (dst len : ℕ) → State World → Type 0
  Ready dst len st =
      ((st.cells dst ≡ nil) × (st.lens dst ≡ 0))
      ⊎ ((st.cells dst ≢ nil)
          × (g.live st.world (st.cells dst) ≡ true)
          × (g.capacity st.world (st.cells dst) ≡ len * 32)
          × ((st.lens dst ≡ 0) ⊎ (st.lens dst ≡ len)))

  drop_stale-Ready :
      (dst len : ℕ) (st : State World)
      → 0 < len
      → HasRoom dst st
      → Ready dst len (drop_stale g dst len st)
  unfolding drop_stale discard
  drop_stale-Ready dst len st pos h = elim (Bool-cases (st.cells dst == nil)) [
    | inl e ↦ rw e (inl (==→≡ _ _ e, h.empty (==→≡ _ _ e)))
    | inr e ↦ elim (Bool-cases (st.lens dst == len)) [
      | inl e' ↦
          let same : st.lens dst ≡ len = ==→≡ _ _ e' in
          let used : st.cells dst ≢ nil = λ z. ground (arith, e, z) in
          rw (e, e')
            (inr
              (used, h.allocated used, h.room used (omega arith) ∙ ap (λ m. m * 32) same, inr same))
      | inr e' ↦ rw (e, e') (inl (update_self st.cells dst nil, update_self st.lens dst 0))
    ]
  ]

  allocate-Ready :
      (dst len : ℕ) (st : State World)
      → Ready dst len st
      → Ready dst len (allocate g dst (len * 32) st)
  unfolding allocate
  allocate-Ready dst len st h = elim (Bool-cases (st.cells dst == nil)) [
    | inl e ↦
        rw (e, update_self st.cells dst (g.malloc (len * 32) st.world).0)
          (fresh st.world (none e h))
    | inr e ↦ rw e h
  ]
    where
      none : (st.cells dst == nil) ≡ true → Ready dst len st → st.lens dst ≡ 0
      none e (inl (a, b)) = b
      none e (inr (used, a, b, c)) = absurd (used (==→≡ _ _ e))

      fresh :
          (w : World)
          → st.lens dst ≡ 0
          → (((g.malloc (len * 32) w).0 ≡ nil) × (st.lens dst ≡ 0))
            ⊎ (((g.malloc (len * 32) w).0 ≢ nil)
                × (g.live (g.malloc (len * 32) w).1 (g.malloc (len * 32) w).0 ≡ true)
                × (g.capacity (g.malloc (len * 32) w).1 (g.malloc (len * 32) w).0 ≡ len * 32)
                × ((st.lens dst ≡ 0) ⊎ (st.lens dst ≡ len)))
      fresh w l = elim (Bool-cases ((g.malloc (len * 32) w).0 == nil)) [
        | inl e ↦ inl (==→≡ _ _ e, l)
        | inr e ↦
            let used : (g.malloc (len * 32) w).0 ≢ nil = λ z. ground (arith, e, z) in
            inr (
              used,
              g.malloc_live (len * 32) w (g.malloc (len * 32) w).0 used
                  ∙ rw (==_self (g.malloc (len * 32) w).0),
              (g.malloc_fresh (len * 32) w used).1,
              inl l,
            )
      ]

  -- The buffer of the cell holds the field elements of src.
  abbrev pub Holds : (dst : ℕ) (src : Slice A) → State World → Type 0
  Holds dst src st =
      (st.cells dst ≢ nil)
      × (st.lens dst ≡ src.len)
      × ((i : ℕ) → i < src.len → g.contents st.world (st.cells dst) i ≡ src.at i)

  -- What follows the copy, when it succeeded.
  copied-Holds :
      (dst : ℕ) (src : Slice A) (st : State World) (b : Bool) (w : World)
      → st.cells dst ≢ nil
      → (b ≡ true → (i : ℕ) → i < src.len → g.contents w (st.cells dst) i ≡ src.at i)
      → (set_length g dst src.len (copy_status g b, record st { world = w })).0 ≡ ok
      → Holds dst src (set_length g dst src.len (copy_status g b, record st { world = w })).1
  copied-Holds dst src st true w used h done = (used, update_self st.lens dst src.len, h refl)
  copied-Holds dst src st false w used h done = absurd (cc done)

  fill_slice-Holds :
      (dst : ℕ) (src : Slice A) (st : State World)
      → Ready dst src.len st
      → (fill_slice g dst src st).0 ≡ ok
      → Holds dst src (fill_slice g dst src st).1
  unfolding fill_slice copy_to
  fill_slice-Holds dst src st h = elim (Bool-cases (st.cells dst == nil)) [
    | inl e ↦ rw e (λ done. absurd (cc done))
    | inr e ↦ rw e (
        copied-Holds dst src st _ _ (λ z. ground (arith, e, z))
          (λ b i p.
            g.memcpy_copies (st.cells dst) src (src.len * 32) st.world b (there e h).0
              (omega (arith, (there e h).1)) (omega arith) i (omega arith)))
  ]
    where
      there :
          (st.cells dst == nil) ≡ false
          → Ready dst src.len st
          → (g.live st.world (st.cells dst) ≡ true)
            × (g.capacity st.world (st.cells dst) ≡ src.len * 32)
      there e (inl (z, l)) = absurd (ground (arith, e, z))
      there e (inr (used, a, b, l)) = (a, b)

  -- `uploadResidentSlice` of a nonempty slice that returns no error leaves the slice in the buffer of
  -- the cell, and its length, if the cell and its length agreed before (HasRoom).
  pub upload_resident_slice-Holds :
      (dst : ℕ) (src : Slice A) (st : State World)
      → 0 < src.len
      → HasRoom dst st
      → (upload_resident_slice g dst src st).0 ≡ ok
      → Holds dst src (upload_resident_slice g dst src st).1
  unfolding upload_resident_slice
  upload_resident_slice-Holds dst src st pos h = rw (ne→== src.len 0 (omega arith)) (
      fill_slice-Holds dst src (allocate g dst (src.len * 32) (drop_stale g dst src.len st)) (
        allocate-Ready dst src.len (drop_stale g dst src.len st)
          (drop_stale-Ready dst src.len st pos h)))

  copied-HasRoom :
      (dst : ℕ) (src : Slice A) (st : State World) (b : Bool) (w : World)
      → st.cells dst ≢ nil
      → g.live w (st.cells dst) ≡ true
      → g.capacity w (st.cells dst) ≡ src.len * 32
      → (st.lens dst ≡ 0) ⊎ (st.lens dst ≡ src.len)
      → HasRoom dst (set_length g dst src.len (copy_status g b, record st { world = w })).1
  copied-HasRoom dst src st true w used l c s = record {
    empty = λ z. absurd (used z);
    allocated = λ _. l;
    room = λ _ _. c ∙ ap (λ m. m * 32) (sym (update_self st.lens dst src.len));
  }
  copied-HasRoom dst src st false w used l c (inl e) = record {
    empty = λ z. e;
    allocated = λ _. l;
    room = λ _ ne. absurd (ne e);
  }
  copied-HasRoom dst src st false w used l c (inr e) = record {
    empty = λ z. absurd (used z);
    allocated = λ _. l;
    room = λ _ ne. c ∙ ap (λ m. m * 32) (sym e);
  }

  fill_slice-HasRoom :
      (dst : ℕ) (src : Slice A) (st : State World)
      → Ready dst src.len st
      → HasRoom dst (fill_slice g dst src st).1
  unfolding fill_slice copy_to
  fill_slice-HasRoom dst src st (inl (z, l)) = rw (ap (λ c. c == nil) z) (record {
    empty = λ _. l;
    allocated = λ used. absurd (used z);
    room = λ used. absurd (used z);
  })
  fill_slice-HasRoom dst src st (inr (used, l, c, s)) = rw (ne→== (st.cells dst) nil used) (
      copied-HasRoom dst src st _ _ used
        ((g.memcpy_live (st.cells dst) (st.cells dst) src (src.len * 32) st.world).0 ∙ l)
        ((g.memcpy_live (st.cells dst) (st.cells dst) src (src.len * 32) st.world).1 ∙ c) s)

  -- `uploadResidentSlice` keeps the agreement of a cell and its length, whether it returns an error
  -- or not: no length without a buffer, and room for as many entries as the length says.
  pub upload_resident_slice-HasRoom :
      (dst : ℕ) (src : Slice A) (st : State World)
      → HasRoom dst st
      → HasRoom dst (upload_resident_slice g dst src st).1
  unfolding upload_resident_slice
  upload_resident_slice-HasRoom dst src st h = elim (Bool-cases (src.len == 0)) [
    | inl e ↦ rw e h
    | inr e ↦ rw e (
        fill_slice-HasRoom dst src (allocate g dst (src.len * 32) (drop_stale g dst src.len st)) (
          allocate-Ready dst src.len (drop_stale g dst src.len st)
            (drop_stale-Ready dst src.len st (ground (arith, e)) h)))
  ]
