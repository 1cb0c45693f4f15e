-- ===== src/Numerator/Loop/Blinding.antt =====
-- The blinding polynomials in the iterations of the loop.
use gnark_cuda.Prelude.{ℕ, zero, suc, ◌<◌, ◌≡◌, ◌≢◌, ◌∙◌, refl, sym, ap, arith}
use gnark_cuda.Field.{Field, ◌⊕◌, ◌⊗◌, ◌⊖◌}
use gnark_cuda.Field.Ring.{ring, mul_assoc, mul-one}
use gnark_cuda.Field.Exp.{mul-exp, one-exp}
use gnark_cuda.Slice.{Slice}
use gnark_cuda.Sum.{prod}
use gnark_cuda.Poly.{eval, value, value_congr, value-mul}
use gnark_cuda.Blinding.{get_blinded_coefficients}
use gnark_cuda.Blinding.Laws.{eval-blinded}
use gnark_cuda.Quotient.Divide.{Polynomial}
use gnark_cuda.Transform.Scaled.{scaled_by, value-scaled_by}
use gnark_cuda.Numerator.{Blinds, blind_scale, blind_unscale}
use gnark_cuda.Numerator.Restore.{blind_scale_lem, blind_scale-len, round_lem, round-len}
use gnark_cuda.Numerator.Loop.{Setting, shifters, each_blind, prepare, iteration, loop_state}
use gnark_cuda.Numerator.Loop.Polynomials.{loop_state-coset}

module _ {F : Type 0} ⦃k : Field F⦄ where
  -- No coset of the first iterations meets the domain of n elements: cⁿ - 1 is not zero.
  abbrev pub AvoidsDomain : (n iterations : ℕ) (sh : ℕ → F) → Type 0
  AvoidsDomain n iterations sh =
      (j : ℕ) → j < iterations → k.exp (prod (suc j) sh) n ⊖ k.one ≢ k.zero

  -- One blinding polynomial after i iterations.
  pub blind_state : (n : ℕ) (sh : ℕ → F) (i : ℕ) → Slice F → Slice F
  blind_state n sh zero q = q
  blind_state n sh (suc i) q =
      blind_unscale n (prod (suc i) sh)
        (blind_scale n (prod (suc i) sh) (sh i) (blind_state n sh i q))

  blind_state-len : (n : ℕ) (sh : ℕ → F) (i : ℕ) (q : Slice F) → (blind_state n sh i q).len ≡ q.len
  unfolding blind_state
  blind_state-len n sh zero q = refl
  blind_state-len n sh (suc i) q =
      round-len n (prod (suc i) sh) (sh i) (blind_state n sh i q) ∙ blind_state-len n sh i q

  blind_state_lem :
      (n : ℕ) (sh : ℕ → F) (i : ℕ) (q : Slice F)
      → AvoidsDomain n i sh
      → (t : ℕ) → t < q.len
      → (blind_state n sh i q).at t ≡ scaled_by (prod i sh) q.at t
  unfolding blind_state prod
  blind_state_lem n sh zero q h t p = sym (ap (λ x. q.at t ⊗ x) (one-exp t) ∙ mul-one _)
  blind_state_lem n sh (suc i) q h t p =
      round_lem n (prod i sh ⊗ sh i) (sh i) (blind_state n sh i q) t (h i (omega arith))
        (omega (arith, blind_state-len n sh i q))
      ∙ ap (λ x. x ⊗ k.exp (sh i) t) (blind_state_lem n sh i q (λ j r. h j (omega arith)) t p)
      ∙ mul_assoc _ _ _
      ∙ ap (λ x. q.at t ⊗ x) (sym (mul-exp _ _ t))

  -- In iteration i, at y: Zₙ(c) times the value of the original polynomial at c y.
  blind_value :
      (n : ℕ) (sh : ℕ → F) (i : ℕ) (q : Slice F) (y : F)
      → AvoidsDomain n i sh
      → eval (blind_scale n (prod (suc i) sh) (sh i) (blind_state n sh i q)) y
        ≡ (k.exp (prod (suc i) sh) n ⊖ k.one) ⊗ eval q (prod (suc i) sh ⊗ y)
  unfolding prod
  blind_value n sh i q y h =
      ap (λ m. value m (blind_scale n c (sh i) (blind_state n sh i q)).at y) len
      ∙ value_congr q.len _ _ y (λ t p.
        blind_scale_lem n c (sh i) (blind_state n sh i q) t
          (omega (arith, blind_state-len n sh i q))
        ∙ ap (λ x. x ⊗ ((k.exp c n ⊖ k.one) ⊗ k.exp (sh i) t)) (blind_state_lem n sh i q h t p)
        ∙ regroup (q.at t) (prod i sh) (sh i) (k.exp c n ⊖ k.one) t)
      ∙ value-mul q.len _ _ y
      ∙ ap (λ x. (k.exp c n ⊖ k.one) ⊗ x) (value-scaled_by q.len c q.at y)
    where
      c : F
      c = prod i sh ⊗ sh i

      len : (blind_scale n c (sh i) (blind_state n sh i q)).len ≡ q.len
      len = blind_scale-len n c (sh i) (blind_state n sh i q) ∙ blind_state-len n sh i q

      regroup :
          (a p s z : F) (t : ℕ) → (a ⊗ k.exp p t) ⊗ (z ⊗ k.exp s t) ≡ z ⊗ (a ⊗ k.exp (p ⊗ s) t)
      regroup a p s z t = rw (mul-exp p s t) (simp ring)

  -- The value that completes f(c y) to the value of the blinded polynomial, where yⁿ = 1.
  pub blinded_value :
      (n : ℕ) (sh : ℕ → F) (i : ℕ) (f : ℕ → F) (q : Slice F) (y : F)
      → AvoidsDomain n i sh
      → k.exp y n ≡ k.one
      → value n f (prod (suc i) sh ⊗ y)
          ⊕ eval (blind_scale n (prod (suc i) sh) (sh i) (blind_state n sh i q)) y
        ≡ eval (get_blinded_coefficients (record { len = n; at = f }) q) (prod (suc i) sh ⊗ y)
  blinded_value n sh i f q y h root =
      ap (λ x. value n f (prod (suc i) sh ⊗ y) ⊕ x)
        (blind_value n sh i q y h
          ∙ ap (λ x. (x ⊖ k.one) ⊗ eval q (prod (suc i) sh ⊗ y))
              (sym (
                mul-exp (prod (suc i) sh) y n
                ∙ ap (λ x. k.exp (prod (suc i) sh) n ⊗ x) root
                ∙ mul-one _)))
      ∙ sym (eval-blinded (record { len = n; at = f }) q (prod (suc i) sh ⊗ y))

  module _ (s : Setting F k) (rho : ℕ) (x : ℕ → Polynomial F) (bp : Blinds F) where
    loop_state-bp :
        (i : ℕ)
        → (loop_state s rho i x bp).bp
          ≡ each_blind (blind_state s.small.cardinality (shifters s.big) i) bp
    unfolding loop_state iteration prepare blind_state prod
    loop_state-bp zero = refl
    loop_state-bp (suc i) =
        ap
          (λ b.
            each_blind
              (blind_unscale s.small.cardinality
                ((loop_state s rho i x bp).coset ⊗ shifters s.big i))
              (each_blind
                (blind_scale s.small.cardinality
                  ((loop_state s rho i x bp).coset ⊗ shifters s.big i) (shifters s.big i))
                b))
          (loop_state-bp i)
        ∙ ap
            (λ c.
              each_blind
                (λ q. blind_unscale s.small.cardinality (c ⊗ shifters s.big i) (
                  blind_scale s.small.cardinality (c ⊗ shifters s.big i) (shifters s.big i)
                    (blind_state s.small.cardinality (shifters s.big) i q)))
                bp)
            (loop_state-coset s rho x bp i)

    -- The blinding polynomials that `allConstraints` evaluates in iteration i.
    pub prepare-bp :
        (i : ℕ)
        → (prepare s rho i (loop_state s rho i x bp)).bp
          ≡ each_blind
              (λ q.
                blind_scale s.small.cardinality
                  (prod (suc i) (shifters s.big))
                  (shifters s.big i)
                  (blind_state s.small.cardinality (shifters s.big) i q))
              bp
    unfolding prepare prod
    prepare-bp i =
        ap
          (λ b.
            each_blind
              (blind_scale s.small.cardinality ((loop_state s rho i x bp).coset ⊗ shifters s.big i)
                (shifters s.big i))
              b)
          (loop_state-bp i)
        ∙ ap
            (λ c.
              each_blind
                (λ q.
                  blind_scale s.small.cardinality (c ⊗ shifters s.big i) (shifters s.big i)
                    (blind_state s.small.cardinality (shifters s.big) i q))
                bp)
            (loop_state-coset s rho x bp i)
