-- ===== src/Sum.antt =====
-- Sums and products over an index range, the notation in which the theorems speak of loops.
use gnark_cuda.Prelude.{ℕ, zero, suc, ◌+◌, ◌<◌, ◌≡◌, ◌≢◌, refl, sym, ap, ◌∙◌, arith}
use gnark_cuda.Field.{Field, ◌⊕◌, ◌⊗◌}
use gnark_cuda.Field.Ring.{
  ring, add-zero, mul-zero, mul_assoc, mul_comm, mul-add, add_assoc, neg-zero, neg-add,
}
use gnark_cuda.Field.Exp.{mul_ne_zero}

module _ {F : Type 0} ⦃k : Field F⦄ where
  unfoldable pub sum : ℕ → (ℕ → F) → F
  sum zero f = k.zero
  sum (suc n) f = sum n f ⊕ f n

  unfoldable pub prod : ℕ → (ℕ → F) → F
  prod zero f = k.one
  prod (suc n) f = prod n f ⊗ f n

  pub sum_congr : (n : ℕ) (f g : ℕ → F) → ((i : ℕ) → i < n → f i ≡ g i) → sum n f ≡ sum n g
  unfolding sum
  sum_congr zero f g h = refl
  sum_congr (suc n) f g h = rw (sum_congr n f g (λ i p. h i (omega arith)), h n (omega arith)) refl

  pub prod_congr : (n : ℕ) (f g : ℕ → F) → ((i : ℕ) → i < n → f i ≡ g i) → prod n f ≡ prod n g
  unfolding prod
  prod_congr zero f g h = refl
  prod_congr (suc n) f g h =
      rw (prod_congr n f g (λ i p. h i (omega arith)), h n (omega arith)) refl

  pub sum-zero : (n : ℕ) (f : ℕ → F) → ((i : ℕ) → i < n → f i ≡ k.zero) → sum n f ≡ k.zero
  unfolding sum
  sum-zero zero f h = refl
  sum-zero (suc n) f h =
      rw (sum-zero n f (λ i p. h i (omega arith)), h n (omega arith)) (add-zero k.zero)

  pub sum-add : (n : ℕ) (f g : ℕ → F) → sum n (λ i. f i ⊕ g i) ≡ sum n f ⊕ sum n g
  unfolding sum
  sum-add zero f g = sym (add-zero k.zero)
  sum-add (suc n) f g = simp (sum-add n f g, ring)

  pub sum-neg : (n : ℕ) (f : ℕ → F) → sum n (λ i. k.neg (f i)) ≡ k.neg (sum n f)
  unfolding sum
  sum-neg zero f = sym neg-zero
  sum-neg (suc n) f = simp (sum-neg n f, neg-add)

  pub mul-sum : (n : ℕ) (a : F) (f : ℕ → F) → sum n (λ i. a ⊗ f i) ≡ a ⊗ sum n f
  unfolding sum
  mul-sum zero a f = sym (mul-zero a)
  mul-sum (suc n) a f = simp (mul-sum n a f, mul-add)

  pub sum_split : (n m : ℕ) (f : ℕ → F) → sum (n + m) f ≡ sum n f ⊕ sum m (λ i. f (n + i))
  unfolding sum
  sum_split n zero f = ap (λ t. sum t f) {y = n} (omega arith) ∙ sym (add-zero _)
  sum_split n (suc m) f =
      ap (λ t. sum t f) {y = suc (n + m)} (omega arith)
      ∙ ap (λ x. x ⊕ f (n + m)) (sum_split n m f)
      ∙ add_assoc _ _ _

  pub prod_ne_zero : (n : ℕ) (f : ℕ → F) → ((i : ℕ) → i < n → f i ≢ k.zero) → prod n f ≢ k.zero
  unfolding prod
  prod_ne_zero zero f h = k.one-ne-zero
  prod_ne_zero (suc n) f h =
      mul_ne_zero _ _ (prod_ne_zero n f (λ i p. h i (omega arith))) (h n (omega arith))

  -- The first factor in front.
  pub prod_front : (n : ℕ) (f : ℕ → F) → prod (suc n) f ≡ f 0 ⊗ prod n (λ i. f (suc i))
  unfolding prod
  prod_front zero f = mul_comm _ _
  prod_front (suc n) f = ap (λ x. x ⊗ f (suc n)) (prod_front n f) ∙ mul_assoc _ _ _
