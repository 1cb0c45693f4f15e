-- ===== src/Numerator/Cosets.antt =====
-- The loop of `computeNumerator` over the cosets, on one blinding polynomial, and its restoring.
use gnark_cuda.Prelude.{ℕ, zero, suc, ◌+◌, ◌<◌, ◌≡◌, ◌≢◌, ◌∙◌, refl, sym, ap, ap₂, arith}
use gnark_cuda.Field.{Field, ◌⊕◌, ◌⊗◌, ◌⊖◌}
use gnark_cuda.Field.Ring.{ring, mul-one, one-mul, mul_assoc}
use gnark_cuda.Field.Exp.{mul-exp, one-exp}
use gnark_cuda.Slice.{Slice}
use gnark_cuda.Sum.{prod, prod_front, prod_congr, prod_ne_zero, sum_congr, mul-sum}
use gnark_cuda.Poly.{eval, value}
use gnark_cuda.Blinding.{get_blinded_coefficients}
use gnark_cuda.Blinding.Laws.{eval-blinded}
use gnark_cuda.Numerator.{blind_scale, rho_blinds, shifter_product, restore_blind}
use gnark_cuda.Numerator.Restore.{
  blind_scale_lem, blind_scale-len, round_lem, round-len, scale_powers_lem, scale_powers-len,
}

module _ {F : Type 0} ⦃k : Field F⦄ where
  -- The product of the shifters from i on, with the first in front.
  pub from_second :
      (i rounds : ℕ) (shifters : ℕ → F)
      → prod (suc rounds) (λ u. shifters (i + u))
        ≡ shifters i ⊗ prod rounds (λ u. shifters (suc i + u))
  from_second i rounds shifters =
      prod_front rounds _
      ∙ ap₂ (λ x y. x ⊗ y) (ap shifters {x = i + 0} {y = i} (omega arith))
          (prod_congr rounds _ _ (λ j p. ap shifters {x = i + suc j} {y = suc i + j} (omega arith)))

  -- No coset of the iterations i, …, i + rounds - 1 meets the domain of size n.
  abbrev pub AvoidsDomain : (n rounds i : ℕ) (shifters : ℕ → F) (coset : F) → Type 0
  AvoidsDomain n rounds i shifters coset =
      (j : ℕ) → j < rounds → k.exp (coset ⊗ prod (suc j) (λ u. shifters (i + u))) n ⊖ k.one ≢ k.zero

  pub first_avoids :
      (n rounds i : ℕ) (shifters : ℕ → F) (coset : F)
      → AvoidsDomain n (suc rounds) i shifters coset
      → k.exp (coset ⊗ shifters i) n ⊖ k.one ≢ k.zero
  unfolding prod
  first_avoids n rounds i shifters coset h e = h 0 (omega arith) (
      ap (λ x. k.exp (coset ⊗ x) n ⊖ k.one)
        (one-mul _ ∙ ap shifters {x = i + 0} {y = i} (omega arith))
      ∙ e)

  pub rest_avoids :
      (n rounds i : ℕ) (shifters : ℕ → F) (coset : F)
      → AvoidsDomain n (suc rounds) i shifters coset
      → AvoidsDomain n rounds (suc i) shifters (coset ⊗ shifters i)
  rest_avoids n rounds i shifters coset h j p e = h (suc j) (omega arith) (
      ap (λ x. k.exp x n ⊖ k.one)
        (ap (λ x. coset ⊗ x) (from_second i (suc j) shifters) ∙ sym (mul_assoc _ _ _))
      ∙ e)

  pub rho_blinds-len :
      (n rounds i : ℕ) (shifters : ℕ → F) (coset : F) (q : Slice F)
      → (rho_blinds n rounds i shifters coset q).len ≡ q.len
  unfolding rho_blinds
  rho_blinds-len n zero i shifters coset q = refl
  rho_blinds-len n (suc rounds) i shifters coset q =
      rho_blinds-len n rounds (suc i) shifters (coset ⊗ shifters i) _
      ∙ round-len n (coset ⊗ shifters i) (shifters i) q

  -- After the iterations, coefficient t is scaled by the t-th power of the product of the shifters.
  pub rho_blinds_lem :
      (n rounds i : ℕ) (shifters : ℕ → F) (coset : F) (q : Slice F) (t : ℕ)
      → AvoidsDomain n rounds i shifters coset
      → t < q.len
      → (rho_blinds n rounds i shifters coset q).at t
        ≡ q.at t ⊗ k.exp (prod rounds (λ u. shifters (i + u))) t
  unfolding rho_blinds
  rho_blinds_lem n zero i shifters coset q t h p =
      sym (unfold prod in ap (λ x. q.at t ⊗ x) (one-exp t) ∙ mul-one _)
  rho_blinds_lem n (suc rounds) i shifters coset q t h p =
      rho_blinds_lem n rounds (suc i) shifters (coset ⊗ shifters i) _ t
        (rest_avoids n rounds i shifters coset h)
        (omega (arith, round-len n (coset ⊗ shifters i) (shifters i) q))
      ∙ ap (λ x. x ⊗ k.exp (prod rounds (λ u. shifters (suc i + u))) t)
          (round_lem n (coset ⊗ shifters i) (shifters i) q t
            (first_avoids n rounds i shifters coset h) p)
      ∙ mul_assoc _ _ _
      ∙ ap (λ x. q.at t ⊗ x)
          (sym (mul-exp _ _ t) ∙ ap (λ x. k.exp x t) (sym (from_second i rounds shifters)))

  pub shifter_product_lem :
      (rounds i : ℕ) (shifters : ℕ → F) (cs : F)
      → shifter_product rounds i shifters cs ≡ cs ⊗ prod rounds (λ u. shifters (suc i + u))
  unfolding shifter_product
  shifter_product_lem zero i shifters cs = sym (unfold prod in mul-one cs)
  shifter_product_lem (suc rounds) i shifters cs =
      shifter_product_lem rounds (suc i) shifters (cs ⊗ shifters (suc i))
      ∙ mul_assoc _ _ _
      ∙ ap (λ x. cs ⊗ x) (sym (from_second (suc i) rounds shifters))

  pub inverse_cancels : (a w : F) (t : ℕ) → w ≢ k.zero → (a ⊗ k.exp w t) ⊗ k.exp (k.inverse w) t ≡ a
  inverse_cancels a w t h =
      mul_assoc _ _ _
      ∙ ap (λ x. a ⊗ x)
          (sym (mul-exp w (k.inverse w) t) ∙ ap (λ x. k.exp x t) (k.mul-inverse w h) ∙ one-exp t)
      ∙ mul-one a

  -- Coefficient t after the loop, started from any coset, and the restoring.
  pub restored_at :
      (n rounds : ℕ) (shifters : ℕ → F) (coset : F) (q : Slice F) (t : ℕ)
      → AvoidsDomain n (suc rounds) 0 shifters coset
      → ((i : ℕ) → i < suc rounds → shifters i ≢ k.zero)
      → t < q.len
      → (restore_blind rounds shifters (rho_blinds n (suc rounds) 0 shifters coset q)).at t ≡ q.at t
  unfolding restore_blind
  restored_at n rounds shifters coset q t h nz p =
      scale_powers_lem (rho_blinds n (suc rounds) 0 shifters coset q) _ t
        (omega (arith, rho_blinds-len n (suc rounds) 0 shifters coset q))
      ∙ ap₂ (λ x y. x ⊗ k.exp (k.inverse y) t)
          (rho_blinds_lem n (suc rounds) 0 shifters coset q t h p)
          (shifter_product_lem rounds 0 shifters (shifters 0) ∙ sym (from_second 0 rounds shifters))
      ∙ inverse_cancels (q.at t) _ t
          (prod_ne_zero (suc rounds) (λ u. shifters (0 + u)) (λ i p e. nz (0 + i) (omega arith) e))

  -- The goroutine that follows the loop undoes what the loop did to a blinding polynomial: after
  -- rounds + 1 iterations with shifters that are not zero and cosets that do not meet the domain,
  -- the restored polynomial has its length and its coefficients again.
  pub restore_blind-rho_blinds :
      (n rounds : ℕ) (shifters : ℕ → F) (q : Slice F)
      → AvoidsDomain n (suc rounds) 0 shifters k.one
      → ((i : ℕ) → i < suc rounds → shifters i ≢ k.zero)
      → ((restore_blind rounds shifters (rho_blinds n (suc rounds) 0 shifters k.one q)).len ≡ q.len)
        × ((t : ℕ)
            → t < q.len
            → (restore_blind rounds shifters (rho_blinds n (suc rounds) 0 shifters k.one q)).at t
              ≡ q.at t)
  unfolding restore_blind
  restore_blind-rho_blinds n rounds shifters q h nz = (
    scale_powers-len _ _ ∙ rho_blinds-len n (suc rounds) 0 shifters k.one q,
    λ t p. restored_at n rounds shifters k.one q t h nz p,
  )

  -- The coset of iteration i: the product of the shifters up to i.
  abbrev pub coset_at : (shifters : ℕ → F) → ℕ → F
  coset_at shifters i = prod i (λ u. shifters (0 + u)) ⊗ shifters i

  one_term :
      (a w s z x : F) (t : ℕ)
      → ((a ⊗ k.exp w t) ⊗ (z ⊗ k.exp s t)) ⊗ k.exp x t ≡ z ⊗ (a ⊗ k.exp ((w ⊗ s) ⊗ x) t)
  one_term a w s z x t = rw (mul-exp (w ⊗ s) x t, mul-exp w s t) (simp ring)

  -- The blinding polynomial of iteration i has, at every x, Zₙ(coset) times the value of the original
  -- one at coset * x.
  iteration_value :
      (n i : ℕ) (shifters : ℕ → F) (q : Slice F) (x : F)
      → AvoidsDomain n i 0 shifters k.one
      → eval
          (blind_scale n (coset_at shifters i) (shifters i) (rho_blinds n i 0 shifters k.one q))
          x
        ≡ (k.exp (coset_at shifters i) n ⊖ k.one) ⊗ eval q (coset_at shifters i ⊗ x)
  iteration_value n i shifters q x h =
      ap
        (λ m.
          value m
            (blind_scale n (coset_at shifters i) (shifters i)
              (rho_blinds n i 0 shifters k.one q)).at
            x)
        len
      ∙ sum_congr q.len _ _ (λ t p.
        ap (λ y. y ⊗ k.exp x t)
          (blind_scale_lem n (coset_at shifters i) (shifters i) (rho_blinds n i 0 shifters k.one q)
              t (omega (arith, rho_blinds-len n i 0 shifters k.one q))
            ∙ ap (λ y. y ⊗ ((k.exp (coset_at shifters i) n ⊖ k.one) ⊗ k.exp (shifters i) t))
                (rho_blinds_lem n i 0 shifters k.one q t h p))
        ∙ one_term (q.at t) _ (shifters i) _ x t)
      ∙ mul-sum q.len _ _
    where
      len :
          (blind_scale n (coset_at shifters i) (shifters i) (rho_blinds n i 0 shifters k.one q)).len
          ≡ q.len
      len =
          blind_scale-len n (coset_at shifters i) (shifters i) _
          ∙ rho_blinds-len n i 0 shifters k.one q

  -- In iteration i the value that `allConstraints` adds for a blinding polynomial b, at a point x of
  -- the domain of size n, completes the value of the unblinded polynomial p of n coefficients at
  -- coset * x to the value of the blinded polynomial `getBlindedCoefficients(p, b)` there. The cosets
  -- of the earlier iterations do not meet the domain.
  pub rho_blinds-eval :
      (n i : ℕ) (shifters : ℕ → F) (p b : Slice F) (x : F)
      → AvoidsDomain n i 0 shifters k.one
      → p.len ≡ n
      → k.exp x n ≡ k.one
      → eval p (coset_at shifters i ⊗ x)
          ⊕ eval
              (blind_scale n (coset_at shifters i) (shifters i) (rho_blinds n i 0 shifters k.one b))
              x
        ≡ eval (get_blinded_coefficients p b) (coset_at shifters i ⊗ x)
  rho_blinds-eval n i shifters p b x h len root =
      ap (λ y. eval p (coset_at shifters i ⊗ x) ⊕ y)
        (iteration_value n i shifters b x h
          ∙ ap (λ y. (y ⊖ k.one) ⊗ eval b (coset_at shifters i ⊗ x))
              (sym (
                ap (k.exp (coset_at shifters i ⊗ x)) len
                ∙ mul-exp (coset_at shifters i) x n
                ∙ ap (λ y. k.exp (coset_at shifters i) n ⊗ y) root
                ∙ mul-one _)))
      ∙ sym (eval-blinded p b (coset_at shifters i ⊗ x))
