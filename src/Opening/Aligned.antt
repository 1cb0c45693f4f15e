-- ===== src/Opening/Aligned.antt =====
-- The polynomials and the digests of the batch opening belong together.
use gnark_cuda.Prelude.{ℕ, zero, suc, ◌+◌, ◌-◌, ◌≤◌, ◌<◌, ◌≡◌, arith, ne→==, le→ltb}
use gnark_cuda.Field.{Field}
use gnark_cuda.Slice.{Slice}
use gnark_cuda.Blinding.{get_blinded_coefficients}
use gnark_cuda.Opening.{Opened, polys_to_open, digests_to_open, after_six, coefficients}

module _ {F G : Type 0} ⦃k : Field F⦄ (s : Opened F G) (Commits : Slice F → G → Type 0) where
  -- What the stages before have committed to, and what the verifying key holds.
  pub record HasDigests : Type 0 where
    pub linearized : Commits s.linearized_polynomial s.linearized_polynomial_digest
    pub blinded_l : Commits (get_blinded_coefficients s.l s.bp.bl) (s.lro 0)
    pub blinded_r : Commits (get_blinded_coefficients s.r s.bp.br) (s.lro 1)
    pub blinded_o : Commits (get_blinded_coefficients s.o s.bp.bo) (s.lro 2)
    pub first_permutation : Commits s.s1.coefficients (s.vk_s 0)
    pub second_permutation : Commits s.s2.coefficients (s.vk_s 1)
    pub as_many : s.vk_qcp.len ≡ s.qcp.len
    pub qcp : (i : ℕ) → i < s.qcp.len → Commits (s.qcp.at i).coefficients (s.vk_qcp.at i)

  -- The two slices have one length, and each digest is a commitment to the polynomial at its index.
  pub record IsAligned (polys : Slice (Slice F)) (digests : Slice G) : Type 0 where
    pub lengths : digests.len ≡ polys.len
    pub commits : (i : ℕ) → i < polys.len → Commits (polys.at i) (digests.at i)

  polys-tail : (i : ℕ) → 6 ≤ i → (polys_to_open s).at i ≡ (s.qcp.at (i - 6)).coefficients
  unfolding polys_to_open after_six coefficients
  polys-tail i p = rw (
    ne→== 5 i (omega arith),
    ne→== 4 i (omega arith),
    ne→== 3 i (omega arith),
    ne→== 2 i (omega arith),
    ne→== 1 i (omega arith),
    ne→== 0 i (omega arith),
    le→ltb i 6 p,
  )

  digests-tail : (g0 : G) (i : ℕ) → 6 ≤ i → (digests_to_open s g0).at i ≡ s.vk_qcp.at (i - 6)
  unfolding digests_to_open after_six
  digests-tail g0 i p = rw (
    ne→== 5 i (omega arith),
    ne→== 4 i (omega arith),
    ne→== 3 i (omega arith),
    ne→== 2 i (omega arith),
    ne→== 1 i (omega arith),
    ne→== 0 i (omega arith),
    le→ltb i 6 p,
  )

  -- `polysToOpen` and `digestsToOpen` are aligned: if the digests of the stages before and of the
  -- verifying key are commitments to the polynomials, as many for Qcp as the trace has, then the two
  -- slices have one length and each digest is a commitment to the polynomial at its index.
  pub batch_opening-IsAligned :
      (g0 : G) → HasDigests → IsAligned (polys_to_open s) (digests_to_open s g0)
  unfolding polys_to_open digests_to_open after_six coefficients
  batch_opening-IsAligned g0 h = record { lengths = omega (arith, h.as_many); commits = each }
    where
      each :
          (i : ℕ)
          → i < 6 + s.qcp.len
          → Commits ((polys_to_open s).at i) ((digests_to_open s g0).at i)
      each zero p = h.linearized
      each (suc zero) p = h.blinded_l
      each (suc (suc zero)) p = h.blinded_r
      each (suc (suc (suc zero))) p = h.blinded_o
      each (suc (suc (suc (suc zero)))) p = h.first_permutation
      each (suc (suc (suc (suc (suc zero))))) p = h.second_permutation
      each (suc (suc (suc (suc (suc (suc i)))))) p =
          let j = suc (suc (suc (suc (suc (suc i))))) in
          rw (polys-tail j (omega arith), digests-tail g0 j (omega arith))
            (h.qcp (j - 6) (omega arith))
