-- ===== src/Device/Ensured.antt =====
-- What `ensureResidentPoly` and `ensurePoly` return, and whether there is a buffer then.
use gnark_cuda.Prelude.{
  ℕ, ◌+◌, ◌<◌, ◌≡◌, ◌≢◌, ◌∙◌, ◌↔◌, refl, sym, arith, Bool, true, false, ◌==◌, not, if◌then◌else◌,
  inl, inr, Bool-cases, ==→≡, ne→==, lt→ltb,
}
use gnark_cuda.Slice.{Slice, update_self}
use gnark_cuda.Gpu.{Pointer, nil, Gpu}
use gnark_cuda.Device.{
  State, Status, ok, copy_failed, copy_to, allocate, upload_resident_poly, ensure_resident_poly,
  ensure_poly_slot, get_poly, keep_poly, fill_poly_slot, ensure_poly,
}
use gnark_cuda.Device.Kept.{ensure_poly_slot-len}

module _ {World A : Type 0} (g : Gpu World A) where
  copied-failed :
      (dst : ℕ) (src : Slice A) (size : ℕ) (st : State World)
      → st.cells dst ≢ nil
      → (copy_to g dst src size st).0 ≡ copy_failed
      → (copy_to g dst src size st).1.cells dst ≢ nil
  unfolding copy_to
  copied-failed dst src size st used e = used

  -- A call of `uploadResidentPoly` whose copy failed leaves the cell with a buffer.
  upload_resident_poly-failed :
      (dst : ℕ) (src : Slice A) (size : ℕ) (st : State World)
      → (upload_resident_poly g dst src size st).0 ≡ copy_failed
      → (upload_resident_poly g dst src size st).1.cells dst ≢ nil
  unfolding upload_resident_poly
  upload_resident_poly-failed dst src size st = elim (Bool-cases (src.len == 0)) [
    | inl e ↦ rw e (λ failed. absurd (cc failed))
    | inr e ↦ rw e (elim (Bool-cases ((allocate g dst size st).cells dst == nil)) [
      | inl e' ↦ rw e' (λ failed. absurd (cc failed))
      | inr e' ↦
          rw e' (copied-failed dst src size (allocate g dst size st) (λ z. ground (arith, e', z)))
    ])
  ]

  ensure_resident_poly-used :
      (dst : ℕ) (src : Slice A) (size : ℕ) (st : State World)
      → st.cells dst ≢ nil
      → ensure_resident_poly g dst src size st ≡ (ok, st)
  unfolding ensure_resident_poly
  ensure_resident_poly-used dst src size st used = rw (ne→== (st.cells dst) nil used)

  ensure_resident_poly-failed :
      (dst : ℕ) (src : Slice A) (size : ℕ) (st : State World)
      → (ensure_resident_poly g dst src size st).0 ≡ copy_failed
      → (ensure_resident_poly g dst src size st).1.cells dst ≢ nil
  unfolding ensure_resident_poly
  ensure_resident_poly-failed dst src size st = either (not (st.cells dst == nil))
    where
      either :
          (b : Bool)
          → (if b then (ok, st) else upload_resident_poly g dst src size st).0 ≡ copy_failed
          → (if b then (ok, st) else upload_resident_poly g dst src size st).1.cells dst ≢ nil
      either true failed = absurd (cc failed)
      either false failed = upload_resident_poly-failed dst src size st failed

  -- If the copy of `ensureResidentPoly` fails, the buffer stays in the cell, and a second call returns
  -- without an error and changes nothing: the buffer was never filled.
  pub ensure_resident_poly-again :
      (dst : ℕ) (src : Slice A) (size : ℕ) (st : State World)
      → (ensure_resident_poly g dst src size st).0 ≡ copy_failed
      → ensure_resident_poly g dst src size (ensure_resident_poly g dst src size st).1
        ≡ (ok, (ensure_resident_poly g dst src size st).1)
  ensure_resident_poly-again dst src size st failed =
      ensure_resident_poly-used dst src size _ (ensure_resident_poly-failed dst src size st failed)

  -- What `ensurePoly` returns, and the slot.
  abbrev IsFilled : (id : ℕ) → Status × State World → Type 0
  IsFilled id r = (r.0 ≡ ok) ↔ (get_poly g id r.1 ≢ nil)

  get_poly-inside :
      (id : ℕ) (st : State World) → id < st.poly_ptrs.len → get_poly g id st ≡ st.poly_ptrs.at id
  unfolding get_poly
  get_poly-inside id st p = rw (lt→ltb id st.poly_ptrs.len p)

  filled : (id : ℕ) (r : Status × State World) → r.0 ≡ ok → get_poly g id r.1 ≢ nil → IsFilled id r
  filled id r e ne = (λ _. ne, λ _. e)

  unfilled :
      (id : ℕ) (r : Status × State World) → r.0 ≢ ok → get_poly g id r.1 ≡ nil → IsFilled id r
  unfilled id r ne e = (λ d. absurd (ne d), λ used. absurd (used e))

  keep_poly-IsFilled :
      (id : ℕ) (ptr : Pointer) (r : Bool × World) (st : State World)
      → id < st.poly_ptrs.len
      → st.poly_ptrs.at id ≡ nil
      → ptr ≢ nil
      → IsFilled id (keep_poly g id ptr r st)
  unfolding keep_poly
  keep_poly-IsFilled id ptr (true, w) st p e used =
      filled id _ refl
        (λ z. used (sym (get_poly-inside id _ p ∙ update_self st.poly_ptrs.at id ptr) ∙ z))
  keep_poly-IsFilled id ptr (false, w) st p e used =
      unfilled id _ (λ d. absurd (cc d)) (get_poly-inside id _ p ∙ e)

  fill_poly_slot-IsFilled :
      (id : ℕ) (coeffs : Slice A) (size : ℕ) (ptr : Pointer) (st : State World)
      → id < st.poly_ptrs.len
      → st.poly_ptrs.at id ≡ nil
      → IsFilled id (fill_poly_slot g id coeffs size ptr st)
  unfolding fill_poly_slot
  fill_poly_slot-IsFilled id coeffs size ptr st p e = elim (Bool-cases (ptr == nil)) [
    | inl e' ↦ rw e' (unfilled id _ (λ d. absurd (cc d)) (get_poly-inside id st p ∙ e))
    | inr e' ↦ elim (Bool-cases (coeffs.len == 0)) [
      | inl e'' ↦ rw (e', e'') (unfilled id _ (λ d. absurd (cc d)) (get_poly-inside id st p ∙ e))
      | inr e'' ↦ rw (e', e'') (keep_poly-IsFilled id ptr _ st p e (λ z. ground (arith, e', z)))
    ]
  ]

  -- `ensurePoly` returns without an error exactly when `getPoly` gives a buffer for this index
  -- afterwards.
  pub ensure_poly-get_poly :
      (id : ℕ) (coeffs : Slice A) (size : ℕ) (st : State World)
      → ((ensure_poly g id coeffs size st).0 ≡ ok)
        ↔ (get_poly g id (ensure_poly g id coeffs size st).1 ≢ nil)
  unfolding ensure_poly
  ensure_poly-get_poly id coeffs size st =
      let st' = ensure_poly_slot g (id + 1) st in
      elim (Bool-cases (st'.poly_ptrs.at id == nil)) [
        | inl e ↦
            rw e (
              fill_poly_slot-IsFilled id coeffs size _ _ (ensure_poly_slot-len g id st)
                (==→≡ _ _ e))
        | inr e ↦ rw e (
            filled id (ok, st') refl
              (λ z.
                ground (arith, e, sym (get_poly-inside id st' (ensure_poly_slot-len g id st)) ∙ z)))
      ]
