-- ===== src/Blinding/Laws.antt =====
-- The values of a blinded polynomial, by its coefficients and by `evaluateBlinded`.
use gnark_cuda.Prelude.{
  ℕ, zero, suc, ◌+◌, ◌<◌, ◌≤◌, ◌≡◌, ◌∙◌, refl, sym, ap, arith, inl, inr, ltb, Bool-cases, ltb→lt,
  ltb→le,
}
use gnark_cuda.Field.{Field, ◌⊕◌, ◌⊗◌, ◌⊖◌}
use gnark_cuda.Field.Ring.{ring}
use gnark_cuda.Slice.{Slice, append, set, update_ne}
use gnark_cuda.Poly.{
  Evaluator, eval, value, value-add, value-neg, value_congr, eval-append, padded, value-padded,
}
use gnark_cuda.BatchInvert.Products.{update_cases}
use gnark_cuda.Blinding.{subtract_loop, get_blinded_coefficients, evaluate_blinded}

module _ {F : Type 0} ⦃k : Field F⦄ where
  subtract_loop-len :
      (rounds i : ℕ) (cp cbp : Slice F) → (subtract_loop rounds i cp cbp).len ≡ cp.len
  unfolding subtract_loop
  subtract_loop-len zero i cp cbp = refl
  subtract_loop-len (suc rounds) i cp cbp =
      subtract_loop-len rounds (suc i) (set cp i (cp.at i ⊖ cbp.at i)) cbp ∙ (unfold set in refl)

  subtract_loop_outside :
      (rounds i : ℕ) (cp cbp : Slice F) (j : ℕ)
      → j < i
      → (subtract_loop rounds i cp cbp).at j ≡ cp.at j
  unfolding subtract_loop set
  subtract_loop_outside zero i cp cbp j p = refl
  subtract_loop_outside (suc rounds) i cp cbp j p =
      subtract_loop_outside rounds (suc i) _ cbp j (omega arith)
      ∙ update_ne cp.at i j _ (omega arith)

  subtract_loop_after :
      (rounds i : ℕ) (cp cbp : Slice F) (j : ℕ)
      → i + rounds ≤ j
      → (subtract_loop rounds i cp cbp).at j ≡ cp.at j
  unfolding subtract_loop set
  subtract_loop_after zero i cp cbp j p = refl
  subtract_loop_after (suc rounds) i cp cbp j p =
      subtract_loop_after rounds (suc i) _ cbp j (omega arith) ∙ update_ne cp.at i j _ (omega arith)

  subtract_loop_inside :
      (rounds i : ℕ) (cp cbp : Slice F) (j : ℕ)
      → i ≤ j
      → j < i + rounds
      → (subtract_loop rounds i cp cbp).at j ≡ cp.at j ⊖ cbp.at j
  unfolding subtract_loop set
  subtract_loop_inside zero i cp cbp j p q = absurd (omega arith)
  subtract_loop_inside (suc rounds) i cp cbp j p q =
      elim (update_cases cp.at i j (cp.at i ⊖ cbp.at i)) [
        | inl (e, h) ↦
            subtract_loop_outside rounds (suc i) _ cbp j (omega arith)
            ∙ h
            ∙ ap (λ x. cp.at x ⊖ cbp.at x) (sym e)
        | inr (d, h) ↦
            subtract_loop_inside rounds (suc i) (set cp i (cp.at i ⊖ cbp.at i)) cbp j (omega arith)
              (omega arith)
            ∙ ap (λ x. x ⊖ cbp.at j) h
      ]

  blinded_at :
      (p bp : Slice F) (j : ℕ)
      → (get_blinded_coefficients p bp).at j ≡ (append p bp).at j ⊕ k.neg (padded bp j)
  unfolding get_blinded_coefficients
  blinded_at p bp j = elim (Bool-cases (ltb j bp.len)) [
    | inl h ↦ rw h (
        subtract_loop_inside bp.len 0 (append p bp) bp j (omega arith)
          (omega (arith, ltb→lt j bp.len h))
        ∙ k.sub_lem _ _)
    | inr h ↦ rw h (
        subtract_loop_after bp.len 0 (append p bp) bp j (omega (arith, ltb→le j bp.len h))
        ∙ simp ring)
  ]

  -- The blinded polynomial has the coefficients of both.
  pub blinded-len : (p bp : Slice F) → (get_blinded_coefficients p bp).len ≡ p.len + bp.len
  unfolding get_blinded_coefficients
  blinded-len p bp = subtract_loop-len bp.len 0 (append p bp) bp ∙ (unfold append in refl)

  -- For polynomials of any length, the blinded form of p has at x the value
  -- p(x) + (x ^ len(p) - 1) * bp(x).
  pub eval-blinded :
      (p bp : Slice F) (x : F)
      → eval (get_blinded_coefficients p bp) x ≡ eval p x ⊕ (k.exp x p.len ⊖ k.one) ⊗ eval bp x
  unfolding append
  eval-blinded p bp x =
      ap (λ n. value n (get_blinded_coefficients p bp).at x) (blinded-len p bp)
      ∙ value_congr (p.len + bp.len) _ _ x (λ i q. blinded_at p bp i)
      ∙ value-add (p.len + bp.len) (append p bp).at _ x
      ∙ ap (λ y. value (p.len + bp.len) (append p bp).at x ⊕ y)
          (value-neg (p.len + bp.len) (padded bp) x)
      ∙ ap (λ n. value (p.len + bp.len) (append p bp).at x ⊕ k.neg (value n (padded bp) x))
          {y = bp.len + p.len} (omega arith)
      ∙ ap (λ y. value (p.len + bp.len) (append p bp).at x ⊕ k.neg y) (value-padded p.len bp x)
      ∙ ap (λ y. y ⊕ k.neg (eval bp x)) (eval-append p bp x)
      ∙ simp ring

  -- For polynomials of any length, `evaluateBlinded` is the value at zeta of the coefficients that
  -- `getBlindedCoefficients` returns.
  pub evaluate_blinded-eval :
      (e : Evaluator k) (p bp : Slice F) (zeta : F)
      → evaluate_blinded e p bp zeta ≡ eval (get_blinded_coefficients p bp) zeta
  unfolding evaluate_blinded
  evaluate_blinded-eval e p bp zeta =
      rw (e.evaluate-eval p zeta, e.evaluate-eval bp zeta, eval-blinded p bp zeta)
        (ap (λ y. eval p zeta ⊕ y) (k.mul_comm _ _))

  -- On the domain, where x ^ len(p) = 1, blinding changes no value.
  pub eval-blinded_on_domain :
      (p bp : Slice F) (x : F)
      → k.exp x p.len ≡ k.one
      → eval (get_blinded_coefficients p bp) x ≡ eval p x
  eval-blinded_on_domain p bp x h = eval-blinded p bp x ∙ rw h (simp ring)
