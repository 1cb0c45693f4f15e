-- ===== src/Fallback/Blinds.antt =====
-- The coefficients of a blinding polynomial after a failure on the GPU.
use gnark_cuda.Prelude.{ℕ, zero, suc, ◌+◌, ◌<◌, ◌≡◌, ◌≢◌, ◌∙◌, sym, ap, subst, arith}
use gnark_cuda.Field.{Field, ◌⊗◌, ◌⊖◌}
use gnark_cuda.Field.Ring.{ring, one-mul, mul_assoc}
use gnark_cuda.Field.Exp.{mul-exp}
use gnark_cuda.Slice.{Slice}
use gnark_cuda.Sum.{prod}
use gnark_cuda.Numerator.Restore.{blind_scale_lem, blind_scale-len, round_lem, round-len}
use gnark_cuda.Numerator.Cosets.{AvoidsDomain, first_avoids, rest_avoids, from_second, restored_at}
use gnark_cuda.Fallback.{gpu_loop_failing, fall_back}

module _ {F : Type 0} ⦃k : Field F⦄ where
  gpu_loop_failing-coset :
      (n rounds i : ℕ) (shifters : ℕ → F) (coset : F) (q : Slice F)
      → (gpu_loop_failing n rounds i shifters coset q).0
        ≡ coset ⊗ prod (suc rounds) (λ u. shifters (i + u))
  unfolding gpu_loop_failing
  gpu_loop_failing-coset n zero i shifters coset q =
      ap (λ x. coset ⊗ x)
        (sym (unfold prod in one-mul _ ∙ ap shifters {x = i + 0} {y = i} (omega arith)))
  gpu_loop_failing-coset n (suc rounds) i shifters coset q =
      gpu_loop_failing-coset n rounds (suc i) shifters (coset ⊗ shifters i) _
      ∙ mul_assoc _ _ _
      ∙ ap (λ x. coset ⊗ x) (sym (from_second i (suc rounds) shifters))

  gpu_loop_failing-len :
      (n rounds i : ℕ) (shifters : ℕ → F) (coset : F) (q : Slice F)
      → (gpu_loop_failing n rounds i shifters coset q).1.len ≡ q.len
  unfolding gpu_loop_failing
  gpu_loop_failing-len n zero i shifters coset q =
      blind_scale-len n (coset ⊗ shifters i) (shifters i) q
  gpu_loop_failing-len n (suc rounds) i shifters coset q =
      gpu_loop_failing-len n rounds (suc i) shifters (coset ⊗ shifters i) _
      ∙ round-len n (coset ⊗ shifters i) (shifters i) q

  last_round :
      (n i t : ℕ) (shifters : ℕ → F) (c a : F)
      → a ⊗ ((k.exp (c ⊗ shifters i) n ⊖ k.one) ⊗ k.exp (shifters i) t)
        ≡ a
          ⊗ ((k.exp (c ⊗ prod (suc zero) (λ u. shifters (i + u))) n ⊖ k.one)
              ⊗ k.exp (prod (suc zero) (λ u. shifters (i + u))) t)
  unfolding prod
  last_round n i t shifters c a =
      ap (λ x. a ⊗ ((k.exp (c ⊗ x) n ⊖ k.one) ⊗ k.exp x t))
        (sym (one-mul _ ∙ ap shifters {x = i + 0} {y = i} (omega arith)))

  one_more_round :
      (n t : ℕ) (a c s p : F)
      → (a ⊗ k.exp s t) ⊗ ((k.exp ((c ⊗ s) ⊗ p) n ⊖ k.one) ⊗ k.exp p t)
        ≡ a ⊗ ((k.exp (c ⊗ (s ⊗ p)) n ⊖ k.one) ⊗ k.exp (s ⊗ p) t)
  one_more_round n t a c s p = rw (mul_assoc c s p, mul-exp s p t) (simp ring)

  gpu_loop_failing_lem :
      (n rounds i : ℕ) (shifters : ℕ → F) (coset : F) (q : Slice F) (t : ℕ)
      → AvoidsDomain n rounds i shifters coset
      → t < q.len
      → (gpu_loop_failing n rounds i shifters coset q).1.at t
        ≡ q.at t
          ⊗ ((k.exp (coset ⊗ prod (suc rounds) (λ u. shifters (i + u))) n ⊖ k.one)
              ⊗ k.exp (prod (suc rounds) (λ u. shifters (i + u))) t)
  unfolding gpu_loop_failing
  gpu_loop_failing_lem n zero i shifters coset q t h p =
      blind_scale_lem n (coset ⊗ shifters i) (shifters i) q t p
      ∙ last_round n i t shifters coset (q.at t)
  gpu_loop_failing_lem n (suc rounds) i shifters coset q t h p =
      gpu_loop_failing_lem n rounds (suc i) shifters (coset ⊗ shifters i) _ t
        (rest_avoids n rounds i shifters coset h)
        (omega (arith, round-len n (coset ⊗ shifters i) (shifters i) q))
      ∙ ap
          (λ x.
            x
            ⊗ ((k.exp ((coset ⊗ shifters i) ⊗ prod (suc rounds) (λ u. shifters (suc i + u))) n
                  ⊖ k.one)
                ⊗ k.exp (prod (suc rounds) (λ u. shifters (suc i + u))) t))
          (round_lem n (coset ⊗ shifters i) (shifters i) q t
            (first_avoids n rounds i shifters coset h) p)
      ∙ one_more_round n t (q.at t) coset (shifters i) _
      ∙ ap (λ x. q.at t ⊗ ((k.exp (coset ⊗ x) n ⊖ k.one) ⊗ k.exp x t))
          (sym (from_second i (suc rounds) shifters))

  -- After a failure in iteration i on the GPU, the CPU loop over all cosets and the restoring leave at
  -- index t the coefficient multiplied by (coset ^ n - 1) * coset ^ t, where coset is the product of
  -- the shifters up to i. The shifters are not zero, and the cosets of
  -- the iterations before i and of the CPU loop do not meet the domain.
  pub fall_back_lem :
      (n rounds i : ℕ) (shifters : ℕ → F) (q : Slice F) (t : ℕ)
      → AvoidsDomain n i 0 shifters k.one
      → AvoidsDomain n (suc rounds) 0 shifters (prod (suc i) (λ u. shifters (0 + u)))
      → ((j : ℕ) → j < suc rounds → shifters j ≢ k.zero)
      → t < q.len
      → (fall_back n rounds i shifters q).at t
        ≡ q.at t
          ⊗ ((k.exp (prod (suc i) (λ u. shifters (0 + u))) n ⊖ k.one)
              ⊗ k.exp (prod (suc i) (λ u. shifters (0 + u))) t)
  unfolding fall_back
  fall_back_lem n rounds i shifters q t h h' nz p =
      restored_at n rounds shifters _ (gpu_loop_failing n i 0 shifters k.one q).1 t
        (subst (AvoidsDomain n (suc rounds) 0 shifters)
          (sym (gpu_loop_failing-coset n i 0 shifters k.one q ∙ one-mul _)) h')
        nz (omega (arith, gpu_loop_failing-len n i 0 shifters k.one q))
      ∙ gpu_loop_failing_lem n i 0 shifters k.one q t h p
      ∙ ap (λ x. q.at t ⊗ ((k.exp x n ⊖ k.one) ⊗ k.exp (prod (suc i) (λ u. shifters (0 + u))) t))
          (one-mul _)
