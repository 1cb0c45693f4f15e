-- ===== src/Numerator/Loop/Restored.antt =====
-- The polynomials of `s.x` after the loop and the restoring goroutine.
use gnark_cuda.Prelude.{
  ℕ, zero, suc, ◌+◌, ◌-◌, ◌^◌, ◌<◌, ◌≡◌, ◌≢◌, ◌∙◌, refl, sym, ap, arith, ne→==, some, subst,
}
use gnark_cuda.Field.{Field}
use gnark_cuda.Sum.{prod, prod_congr}
use gnark_cuda.Quotient.Divide.{Polynomial, canonical, regular}
use gnark_cuda.Transform.{Represents}
use gnark_cuda.Transform.Scaled.{scaled_by}
use gnark_cuda.Numerator.{Blinds, id_zs, id_qk}
use gnark_cuda.Numerator.Loop.{
  Setting, shifters, loop_state, restore_polynomial, restore_polynomials,
}
use gnark_cuda.Numerator.Loop.Polynomials.{loop_state-Represents, restore_polynomial_lem}

module _ {F : Type 0} ⦃k : Field F⦄ where
  -- p holds the n coefficients f, in canonical form and in order.
  abbrev pub HasCoefficients : (n : ℕ) (f : ℕ → F) → Polynomial F → Type 0
  HasCoefficients n f p =
      (p.basis ≡ canonical) × (p.layout ≡ regular) × ((j : ℕ) → j < n → p.coefficients.at j ≡ f j)

  module _ (s : Setting F k) (x : ℕ → Polynomial F) (bp : Blinds F) where
    shifters_ne_zero :
        s.big.fr_multiplicative_gen ≢ k.zero
        → s.big.generator ≢ k.zero
        → (i : ℕ) → shifters s.big i ≢ k.zero
    shifters_ne_zero p q zero e = p e
    shifters_ne_zero p q (suc i) e = q (sym (later i) ∙ e)
      where
        later : (i : ℕ) → shifters s.big (suc i) ≡ s.big.generator
        later i = rw (ne→== (suc i) 0 (omega arith))

    product :
        (rho : ℕ)
        → 0 < rho
        → prod rho (shifters s.big) ≡ prod (suc (rho - 1)) (λ u. shifters s.big (0 + u))
    product rho pos =
        ap (λ m. prod m (shifters s.big)) {x = rho} {y = suc (rho - 1)} (omega arith)
        ∙ prod_congr (suc (rho - 1)) _ _
            (λ u p. ap (shifters s.big) {x = u} {y = 0 + u} (omega arith))

    -- After a loop of rho > 0 iterations over all cosets, the restoring goroutine leaves in `s.x` at
    -- every index but those of ZS and Qk a polynomial in canonical form and in order that has the
    -- coefficients that were represented there before the loop, in whatever form. The two elements
    -- that shift the cosets are not zero.
    pub restore_polynomials-loop_state :
        (rho id : ℕ) (f : ℕ → F)
        → 0 < rho
        → s.big.fr_multiplicative_gen ≢ k.zero
        → s.big.generator ≢ k.zero
        → id ≢ id_zs
        → id ≢ id_qk
        → Represents s.small s.w (x id) f
        → (p : Polynomial F) × (restore_polynomials s rho (loop_state s rho rho x bp).x id ≡ some p)
          × HasCoefficients (2 ^ s.w) f p
    unfolding restore_polynomials
    restore_polynomials-loop_state rho id f pos g w zs qk r = (
      restore_polynomial s.transform (rho - 1) (shifters s.big) ((loop_state s rho rho x bp).x id),
      rw (ne→== id id_zs zs, ne→== id id_qk qk) refl,
      restore_polynomial_lem s.transform (rho - 1) (shifters s.big) _ f
          (subst (λ c. Represents s.small s.w ((loop_state s rho rho x bp).x id) (scaled_by c f))
            (product rho pos) (loop_state-Represents s rho x bp rho id f zs r))
          (λ i q. shifters_ne_zero g w i),
    )
