-- ===== src/Numerator/Restore.antt =====
-- The scaling loops of `computeNumerator` on one blinding polynomial: what one iteration leaves of it.
use gnark_cuda.Prelude.{ℕ, zero, suc, ◌+◌, ◌<◌, ◌≤◌, ◌≡◌, ◌≢◌, ◌∙◌, refl, sym, ap, arith, inl, inr}
use gnark_cuda.Field.{Field, ◌⊗◌, ◌⊖◌}
use gnark_cuda.Field.Ring.{ring, mul-one, one-mul}
use gnark_cuda.Field.Exp.{exp-zero, exp-suc, inverse-mul_self}
use gnark_cuda.Slice.{Slice, set, update_ne}
use gnark_cuda.BatchInvert.Products.{update_cases}
use gnark_cuda.Numerator.{scale_loop, unscale_loop, scale_powers, blind_scale, blind_unscale}

module _ {F : Type 0} ⦃k : Field F⦄ where
  scale_loop-len :
      (rounds j : ℕ) (acc w : F) (q : Slice F) → (scale_loop rounds j acc w q).len ≡ q.len
  unfolding scale_loop set
  scale_loop-len zero j acc w q = refl
  scale_loop-len (suc rounds) j acc w q =
      scale_loop-len rounds (suc j) (acc ⊗ w) w (set q j (q.at j ⊗ acc))

  scale_loop_before :
      (rounds j : ℕ) (acc w : F) (q : Slice F) (t : ℕ)
      → t < j
      → (scale_loop rounds j acc w q).at t ≡ q.at t
  unfolding scale_loop set
  scale_loop_before zero j acc w q t p = refl
  scale_loop_before (suc rounds) j acc w q t p =
      scale_loop_before rounds (suc j) _ w _ t (omega arith) ∙ update_ne q.at j t _ (omega arith)

  scale_loop_lem :
      (rounds j : ℕ) (a acc w : F) (q : Slice F) (t : ℕ)
      → acc ≡ a ⊗ k.exp w j
      → j ≤ t
      → t < j + rounds
      → (scale_loop rounds j acc w q).at t ≡ q.at t ⊗ (a ⊗ k.exp w t)
  unfolding scale_loop set
  scale_loop_lem zero j a acc w q t e p r = absurd (omega arith)
  scale_loop_lem (suc rounds) j a acc w q t e p r = elim (update_cases q.at j t (q.at j ⊗ acc)) [
    | inl (d, h) ↦
        scale_loop_before rounds (suc j) _ w _ t (omega arith)
        ∙ h
        ∙ ap (λ x. q.at j ⊗ x) e
        ∙ ap (λ x. q.at x ⊗ (a ⊗ k.exp w x)) (sym d)
    | inr (d, h) ↦
        scale_loop_lem rounds (suc j) a (acc ⊗ w) w (set q j (q.at j ⊗ acc)) t
          (ap (λ x. x ⊗ w) e ∙ rw (exp-suc w j) (simp ring)) (omega arith) (omega arith)
        ∙ ap (λ x. x ⊗ (a ⊗ k.exp w t)) h
  ]

  unscale_loop-len : (rounds j : ℕ) (v : F) (q : Slice F) → (unscale_loop rounds j v q).len ≡ q.len
  unfolding unscale_loop set
  unscale_loop-len zero j v q = refl
  unscale_loop-len (suc rounds) j v q = unscale_loop-len rounds (suc j) v (set q j (q.at j ⊗ v))

  unscale_loop_before :
      (rounds j : ℕ) (v : F) (q : Slice F) (t : ℕ)
      → t < j
      → (unscale_loop rounds j v q).at t ≡ q.at t
  unfolding unscale_loop set
  unscale_loop_before zero j v q t p = refl
  unscale_loop_before (suc rounds) j v q t p =
      unscale_loop_before rounds (suc j) v _ t (omega arith) ∙ update_ne q.at j t _ (omega arith)

  unscale_loop_lem :
      (rounds j : ℕ) (v : F) (q : Slice F) (t : ℕ)
      → j ≤ t
      → t < j + rounds
      → (unscale_loop rounds j v q).at t ≡ q.at t ⊗ v
  unfolding unscale_loop set
  unscale_loop_lem zero j v q t p r = absurd (omega arith)
  unscale_loop_lem (suc rounds) j v q t p r = elim (update_cases q.at j t (q.at j ⊗ v)) [
    | inl (d, h) ↦
        unscale_loop_before rounds (suc j) v _ t (omega arith) ∙ h ∙ ap (λ x. q.at x ⊗ v) (sym d)
    | inr (d, h) ↦
        unscale_loop_lem rounds (suc j) v (set q j (q.at j ⊗ v)) t (omega arith) (omega arith)
        ∙ ap (λ x. x ⊗ v) h
  ]

  pub scale_powers_lem :
      (p : Slice F) (w : F) (t : ℕ) → t < p.len → (scale_powers p w).at t ≡ p.at t ⊗ k.exp w t
  unfolding scale_powers
  scale_powers_lem p w t r =
      scale_loop_lem p.len 0 k.one k.one w p t (sym (rw (exp-zero w) (mul-one k.one))) (omega arith)
        (omega arith)
      ∙ ap (λ x. p.at t ⊗ x) (one-mul _)

  pub blind_scale_lem :
      (n : ℕ) (coset s : F) (q : Slice F) (t : ℕ)
      → t < q.len
      → (blind_scale n coset s q).at t ≡ q.at t ⊗ ((k.exp coset n ⊖ k.one) ⊗ k.exp s t)
  unfolding blind_scale
  blind_scale_lem n coset s q t r =
      scale_loop_lem q.len 0 (k.exp coset n ⊖ k.one) _ s q t (sym (rw (exp-zero s) (mul-one _)))
        (omega arith) (omega arith)

  pub blind_scale-len : (n : ℕ) (coset s : F) (q : Slice F) → (blind_scale n coset s q).len ≡ q.len
  unfolding blind_scale
  blind_scale-len n coset s q = scale_loop-len q.len 0 (k.exp coset n ⊖ k.one) s q

  pub scale_powers-len : (p : Slice F) (w : F) → (scale_powers p w).len ≡ p.len
  unfolding scale_powers
  scale_powers-len p w = scale_loop-len p.len 0 k.one w p

  pub round_lem :
      (n : ℕ) (coset s : F) (q : Slice F) (t : ℕ)
      → k.exp coset n ⊖ k.one ≢ k.zero
      → t < q.len
      → (blind_unscale n coset (blind_scale n coset s q)).at t ≡ q.at t ⊗ k.exp s t
  unfolding blind_unscale
  round_lem n coset s q t h r =
      unscale_loop_lem (blind_scale n coset s q).len 0 _ (blind_scale n coset s q) t (omega arith)
        (omega (arith, blind_scale-len n coset s q))
      ∙ ap (λ x. x ⊗ k.inverse (k.exp coset n ⊖ k.one)) (blind_scale_lem n coset s q t r)
      ∙ cancel (q.at t) (k.exp coset n ⊖ k.one) (k.exp s t) (k.inverse (k.exp coset n ⊖ k.one))
          (inverse-mul_self _ h)
    where
      cancel : (a z e v : F) → v ⊗ z ≡ k.one → (a ⊗ (z ⊗ e)) ⊗ v ≡ a ⊗ e
      cancel a z e v h = regroup a z e v ∙ ap (λ x. x ⊗ (a ⊗ e)) h ∙ one-mul _
        where
          regroup : (a z e v : F) → (a ⊗ (z ⊗ e)) ⊗ v ≡ (v ⊗ z) ⊗ (a ⊗ e)
          regroup a z e v = simp ring

  pub round-len :
      (n : ℕ) (coset s : F) (q : Slice F)
      → (blind_unscale n coset (blind_scale n coset s q)).len ≡ q.len
  unfolding blind_unscale blind_scale
  round-len n coset s q =
      unscale_loop-len (scale_loop q.len 0 (k.exp coset n ⊖ k.one) s q).len 0 _
        (scale_loop q.len 0 (k.exp coset n ⊖ k.one) s q)
      ∙ scale_loop-len q.len 0 (k.exp coset n ⊖ k.one) s q
