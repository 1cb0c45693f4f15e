-- ===== src/Opening.antt =====
-- `batchOpening` and `coefficients` of integration/prove.go: the polynomials and the digests that are
-- opened together. `kzg.BatchOpenSinglePoint` is a parameter.
pub mod Aligned
use gnark_cuda.Prelude.{ℕ, ◌+◌, ◌-◌, ltb, if◌then◌else◌}
use gnark_cuda.Field.{Field}
use gnark_cuda.Slice.{Slice, set}
use gnark_cuda.Outcome.{Outcome}
use gnark_cuda.Blinding.{get_blinded_coefficients}
use gnark_cuda.Quotient.Divide.{Polynomial}
use gnark_cuda.Numerator.{Blinds}

-- What the function reads of the instance.
pub record Opened (F G : Type 0) : Type 0 where
  pub linearized_polynomial : Slice F
  pub l : Slice F
  pub r : Slice F
  pub o : Slice F
  pub bp : Blinds F
  pub s1 : Polynomial F
  pub s2 : Polynomial F
  pub qcp : Slice (Polynomial F)
  pub linearized_polynomial_digest : G
  pub lro : ℕ → G
  pub vk_s : ℕ → G
  pub vk_qcp : Slice G
  pub zeta : F
  -- `s.proof.ZShiftedOpening.ClaimedValue`
  pub z_shifted : F

module _ {F : Type 0} where
  -- `coefficients(p)`
  unfoldable pub coefficients : Slice (Polynomial F) → Slice (Slice F)
  coefficients p = record { len = p.len; at = λ i. (p.at i).coefficients }

-- `make(…, 6+len(tail))` and `copy(…[6:], tail)`
unfoldable pub after_six : {A : Type 0} → (zero : A) → Slice A → Slice A
after_six zero tail = record {
  len = 6 + tail.len;
  at = λ i. if ltb i 6 then zero else tail.at (i - 6);
}

module _ {F G : Type 0} ⦃k : Field F⦄ (s : Opened F G) where
  abbrev pub no_coefficients : Slice F
  no_coefficients = record { len = 0; at = λ _. k.zero }

  -- `polysToOpen`
  unfoldable pub polys_to_open : Slice (Slice F)
  unfolding coefficients after_six get_blinded_coefficients set
  polys_to_open =
      let p = after_six no_coefficients (coefficients s.qcp) in
      let p0 = set p 0 s.linearized_polynomial in
      let p1 = set p0 1 (get_blinded_coefficients s.l s.bp.bl) in
      let p2 = set p1 2 (get_blinded_coefficients s.r s.bp.br) in
      let p3 = set p2 3 (get_blinded_coefficients s.o s.bp.bo) in
      let p4 = set p3 4 s.s1.coefficients in set p4 5 s.s2.coefficients

  -- `digestsToOpen`; g0 is the zero value of a digest.
  unfoldable pub digests_to_open : (g0 : G) → Slice G
  unfolding after_six set
  digests_to_open g0 =
      let d = after_six g0 s.vk_qcp in
      let d0 = set d 0 s.linearized_polynomial_digest in
      let d1 = set d0 1 (s.lro 0) in
      let d2 = set d1 2 (s.lro 1) in
      let d3 = set d2 3 (s.lro 2) in let d4 = set d3 4 (s.vk_s 0) in set d4 5 (s.vk_s 1)

  -- `batchOpening`
  unfoldable pub batch_opening :
      {Proof : Type 0}
      → (batch_open_single_point : Slice (Slice F)
          → Slice G
          → (point transcript : F) → Outcome Proof)
      → (g0 : G) → Outcome Proof
  unfolding polys_to_open digests_to_open
  batch_opening batch_open_single_point g0 =
      batch_open_single_point polys_to_open (digests_to_open g0) s.zeta s.z_shifted
