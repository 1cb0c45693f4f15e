-- ===== src/Numerator/Loop/Twiddles.antt =====
-- The powers of the generator of the small domain, and the denominators of an iteration.
use gnark_cuda.Prelude.{
  ℕ, zero, suc, ◌+◌, ◌-◌, ◌≤◌, ◌<◌, ◌≡◌, ◌≢◌, ◌∙◌, sym, ap, arith, inl, inr, ◌==◌, Bool-cases,
  false, ==→≡,
}
use gnark_cuda.Field.{Field, ◌⊗◌, ◌⊖◌}
use gnark_cuda.Field.Ring.{mul_comm}
use gnark_cuda.Field.Exp.{exp-suc, exp-zero, exp-one}
use gnark_cuda.Slice.{Slice, update, update_self}
use gnark_cuda.BatchInvert.Products.{update_cases}
use gnark_cuda.BatchInvert.Main.{batch_invert-inverse}
use gnark_cuda.Numerator.Loop.{extend_loop, init_twiddles, denominator_loop, invert_denominators}

module _ {F : Type 0} ⦃k : Field F⦄ where
  -- What gnark-crypto documents of the first table of `Twiddles` of a domain with more than one
  -- element: it starts with the powers of the generator, at least the first two.
  pub record HasTwiddles (n : ℕ) (twiddles : Slice F) (a : F) : Type 0 where
    pub at_least_two : n ≢ 1 → 2 ≤ twiddles.len
    pub fits : n ≢ 1 → twiddles.len ≤ n
    pub powers : (i : ℕ) → i < twiddles.len → twiddles.at i ≡ k.exp a i

  extend_loop_lem :
      (rounds i : ℕ) (a : F) (t : ℕ → F)
      → ((j : ℕ) → j ≤ i → t j ≡ k.exp a j)
      → (j : ℕ) → j ≤ i + rounds
      → extend_loop rounds i a t j ≡ k.exp a j
  unfolding extend_loop
  extend_loop_lem zero i a t h j p = h j (omega arith)
  extend_loop_lem (suc rounds) i a t h j p =
      extend_loop_lem rounds (suc i) a (update t (suc i) (t i ⊗ a))
        (λ j q. elim (update_cases t (suc i) j (t i ⊗ a)) [
          | inl (e, u) ↦
              u
              ∙ ap (λ x. x ⊗ a) (h i (omega arith))
              ∙ mul_comm _ _
              ∙ sym (exp-suc a i)
              ∙ ap (k.exp a) (sym e)
          | inr (d, u) ↦ u ∙ h j (omega arith)
        ])
        j (omega arith)

  -- `twiddles0` holds the first n powers of the generator, also for n = 1.
  pub init_twiddles-exp :
      (n : ℕ) (twiddles : Slice F) (a : F)
      → HasTwiddles n twiddles a
      → (i : ℕ) → i < n
      → init_twiddles n twiddles i ≡ k.exp a i
  unfolding init_twiddles
  init_twiddles-exp n twiddles a h i p = elim (Bool-cases (n == 1)) [
    | inl e ↦ rw e (only i (omega (arith, ==→≡ n 1 e)))
    | inr e ↦ rw e (several e)
  ]
    where
      only : (i : ℕ) → i ≡ 0 → update (λ _. k.zero) 0 k.one i ≡ k.exp a i
      only i e = rw e (update_self (λ _. k.zero) 0 k.one ∙ sym (exp-zero a))

      more : (n == 1) ≡ false → n ≢ 1
      more e q = ground (arith, e, q)

      several :
          (n == 1) ≡ false
          → extend_loop (n - twiddles.len) (twiddles.len - 1) (twiddles.at 1) twiddles.at i
            ≡ k.exp a i
      several e =
          ap (λ b. extend_loop (n - twiddles.len) (twiddles.len - 1) b twiddles.at i)
            (h.powers 1 (omega (arith, h.at_least_two (more e))) ∙ exp-one a)
          ∙ extend_loop_lem (n - twiddles.len) (twiddles.len - 1) a twiddles.at
              (λ j q. h.powers j (omega (arith, h.at_least_two (more e)))) i
              (omega (arith, h.at_least_two (more e), h.fits (more e)))

  denominator_loop_lem :
      (rounds j : ℕ) (coset : F) (twiddles0 v : ℕ → F)
      → ((t : ℕ) → t < j → v t ≡ (coset ⊗ twiddles0 t) ⊖ k.one)
      → (t : ℕ) → t < j + rounds
      → denominator_loop rounds j coset twiddles0 v t ≡ (coset ⊗ twiddles0 t) ⊖ k.one
  unfolding denominator_loop
  denominator_loop_lem zero j coset twiddles0 v h t p = h t (omega arith)
  denominator_loop_lem (suc rounds) j coset twiddles0 v h t p =
      denominator_loop_lem rounds (suc j) coset twiddles0
        (update v j ((coset ⊗ twiddles0 j) ⊖ k.one))
        (λ t q. elim (update_cases v j t ((coset ⊗ twiddles0 j) ⊖ k.one)) [
          | inl (e, u) ↦ u ∙ ap (λ i. (coset ⊗ twiddles0 i) ⊖ k.one) (sym e)
          | inr (d, u) ↦ u ∙ h t (omega arith)
        ])
        t (omega arith)

  pub invert_denominators_lem :
      (num_cpu n : ℕ) (coset : F) (twiddles0 v : ℕ → F)
      → ((j : ℕ) → j < n → (coset ⊗ twiddles0 j) ⊖ k.one ≢ k.zero)
      → (j : ℕ) → j < n
      → invert_denominators num_cpu n coset twiddles0 v j
        ≡ k.inverse ((coset ⊗ twiddles0 j) ⊖ k.one)
  unfolding invert_denominators
  invert_denominators_lem num_cpu n coset twiddles0 v h j p =
      batch_invert-inverse num_cpu n (denominator_loop n 0 coset twiddles0 v)
        (λ t q e. h t q (sym (filled t q) ∙ e)) j p
      ∙ ap k.inverse (filled j p)
    where
      filled :
          (t : ℕ) → t < n → denominator_loop n 0 coset twiddles0 v t ≡ (coset ⊗ twiddles0 t) ⊖ k.one
      filled t q =
          denominator_loop_lem n 0 coset twiddles0 v (λ t r. absurd (omega arith)) t (omega arith)
