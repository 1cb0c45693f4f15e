-- ===== src/Field/Exp.antt =====
-- Powers and inverses in the scalar field.
use gnark_cuda.Prelude.{ℕ, zero, suc, ◌+◌, ◌*◌, ◌≡◌, ◌≢◌, sym, ap, ◌∙◌, arith}
use gnark_cuda.Field.{Field, ◌⊗◌}
use gnark_cuda.Field.Ring.{ring, one-mul, mul-one, mul_comm, mul_assoc, zero-mul, mul-zero}

module _ {F : Type 0} ⦃k : Field F⦄ where
  pub exp-zero : (a : F) → k.exp a 0 ≡ k.one
  exp-zero = k.exp-zero

  pub exp-suc : (a : F) (n : ℕ) → k.exp a (suc n) ≡ a ⊗ k.exp a n
  exp-suc = k.exp-suc

  pub exp-add_one : (a : F) (n : ℕ) → k.exp a (n + 1) ≡ a ⊗ k.exp a n
  exp-add_one a n = ap (k.exp a) {y = suc n} (omega arith) ∙ k.exp-suc a n

  pub exp-one : (a : F) → k.exp a 1 ≡ a
  exp-one a = k.exp-suc a 0 ∙ ap (λ x. a ⊗ x) (k.exp-zero a) ∙ mul-one a

  pub exp-add : (a : F) (n m : ℕ) → k.exp a (n + m) ≡ k.exp a n ⊗ k.exp a m
  exp-add a zero m =
      ap (k.exp a) {y = m} (omega arith) ∙ sym (ap (λ x. x ⊗ k.exp a m) (k.exp-zero a) ∙ one-mul _)
  exp-add a (suc n) m =
      ap (k.exp a) {y = suc (n + m)} (omega arith) ∙ simp (exp-suc, exp-add a n m, mul_assoc)

  pub one-exp : (n : ℕ) → k.exp k.one n ≡ k.one
  one-exp zero = k.exp-zero k.one
  one-exp (suc n) = k.exp-suc k.one n ∙ one-mul _ ∙ one-exp n

  pub mul-exp : (a b : F) (n : ℕ) → k.exp (a ⊗ b) n ≡ k.exp a n ⊗ k.exp b n
  mul-exp a b zero = simp (exp-zero, one-mul)
  mul-exp a b (suc n) = simp (exp-suc, mul-exp a b n, ring)

  pub exp-mul : (a : F) (n m : ℕ) → k.exp a (n * m) ≡ k.exp (k.exp a n) m
  exp-mul a n zero = ap (k.exp a) {y = 0} (omega arith) ∙ k.exp-zero a ∙ sym (k.exp-zero _)
  exp-mul a n (suc m) =
      ap (k.exp a) {y = n + n * m} (omega arith)
      ∙ exp-add a n (n * m)
      ∙ ap (λ x. k.exp a n ⊗ x) (exp-mul a n m)
      ∙ sym (k.exp-suc _ m)

  pub mul-exp_mod_cycle :
      (w : F) (m i : ℕ) → k.exp w m ≡ k.one → (j : ℕ) → k.exp w (m * j + i) ≡ k.exp w i
  mul-exp_mod_cycle w m i h j = exp-add w (m * j) i ∙ simp (exp-mul w m j, h, one-exp, one-mul)

  -- An inverse on the right determines `inverse`.
  pub ne_zero_of_mul : (a b : F) → a ⊗ b ≡ k.one → a ≢ k.zero
  ne_zero_of_mul a b h e = k.one-ne-zero (sym h ∙ ap (λ x. x ⊗ b) e ∙ zero-mul b)

  pub inverse-mul_self : (a : F) → a ≢ k.zero → k.inverse a ⊗ a ≡ k.one
  inverse-mul_self a h = mul_comm _ a ∙ k.mul-inverse a h

  pub inverse_unique : (a b : F) → a ⊗ b ≡ k.one → k.inverse a ≡ b
  inverse_unique a b h =
      sym (mul-one _)
      ∙ ap (λ x. k.inverse a ⊗ x) (sym h)
      ∙ sym (mul_assoc _ a b)
      ∙ ap (λ x. x ⊗ b) (inverse-mul_self a (ne_zero_of_mul a b h))
      ∙ one-mul b

  pub mul_ne_zero : (a b : F) → a ≢ k.zero → b ≢ k.zero → a ⊗ b ≢ k.zero
  mul_ne_zero a b ha hb e = hb (
      sym (one-mul b)
      ∙ ap (λ x. x ⊗ b) (sym (inverse-mul_self a ha))
      ∙ mul_assoc _ a b
      ∙ ap (λ x. k.inverse a ⊗ x) e
      ∙ mul-zero _)

  pub exp_ne_zero : (a : F) (n : ℕ) → a ≢ k.zero → k.exp a n ≢ k.zero
  exp_ne_zero a zero h e = k.one-ne-zero (sym (k.exp-zero a) ∙ e)
  exp_ne_zero a (suc n) h e =
      mul_ne_zero a (k.exp a n) h (exp_ne_zero a n h) (sym (k.exp-suc a n) ∙ e)

  pub inverse_ne_zero : (a : F) → a ≢ k.zero → k.inverse a ≢ k.zero
  inverse_ne_zero a h = ne_zero_of_mul (k.inverse a) a (inverse-mul_self a h)

  pub mul-inverse_cancel : (a b : F) → b ≢ k.zero → (a ⊗ b) ⊗ k.inverse b ≡ a
  mul-inverse_cancel a b h = mul_assoc a b _ ∙ ap (λ x. a ⊗ x) (k.mul-inverse b h) ∙ mul-one a

pub ruleset powers = (exp-zero, exp-suc, exp-add_one, exp-one, exp-add, one-exp)
