-- ===== src/Poly.antt =====
-- Polynomials in canonical regular form: coefficients, lowest degree first. `Evaluate` of
-- gnark-crypto's iop package is a parameter with its documented meaning.
use gnark_cuda.Prelude.{
  ℕ, ◌+◌, ◌-◌, ◌<◌, ◌≤◌, ◌≡◌, ◌∙◌, ap, arith, lt→ltb, le→ltb, ltb, if◌then◌else◌,
}
use gnark_cuda.Field.{Field, ◌⊕◌, ◌⊗◌}
use gnark_cuda.Field.Ring.{ring, mul_left_comm, mul_assoc}
use gnark_cuda.Field.Exp.{exp-add}
use gnark_cuda.Slice.{Slice, append}
use gnark_cuda.Sum.{sum, sum_congr, sum_split, sum-add, mul-sum, sum-neg, sum-zero}

module _ {F : Type 0} ⦃k : Field F⦄ where
  -- The value at x of the polynomial with n coefficients c.
  abbrev pub value : ℕ → (ℕ → F) → F → F
  value n c x = sum n (λ i. c i ⊗ k.exp x i)

  -- The value at x of a slice of coefficients.
  abbrev pub eval : Slice F → F → F
  eval p x = value p.len p.at x

  pub value_congr :
      (n : ℕ) (c d : ℕ → F) (x : F) → ((i : ℕ) → i < n → c i ≡ d i) → value n c x ≡ value n d x
  value_congr n c d x h = sum_congr n _ _ (λ i p. ap (λ y. y ⊗ k.exp x i) (h i p))

  -- Coefficients from index n on weigh x ^ n.
  pub value_split :
      (n m : ℕ) (c : ℕ → F) (x : F)
      → value (n + m) c x ≡ value n c x ⊕ k.exp x n ⊗ value m (λ i. c (n + i)) x
  value_split n m c x =
      sum_split n m _
      ∙ ap (λ y. value n c x ⊕ y)
          (sum_congr m _ _ (λ i p. ap (λ y. c (n + i) ⊗ y) (exp-add x n i) ∙ mul_left_comm _ _ _)
            ∙ mul-sum m (k.exp x n) _)

  pub value-add :
      (n : ℕ) (c d : ℕ → F) (x : F) → value n (λ i. c i ⊕ d i) x ≡ value n c x ⊕ value n d x
  value-add n c d x = sum_congr n _ _ (λ i p. simp ring) ∙ sum-add n _ _

  pub value-mul : (n : ℕ) (a : F) (c : ℕ → F) (x : F) → value n (λ i. a ⊗ c i) x ≡ a ⊗ value n c x
  value-mul n a c x = sum_congr n _ _ (λ i p. mul_assoc _ _ _) ∙ mul-sum n a _

  pub value-neg : (n : ℕ) (c : ℕ → F) (x : F) → value n (λ i. k.neg (c i)) x ≡ k.neg (value n c x)
  value-neg n c x = sum_congr n _ _ (λ i p. simp ring) ∙ sum-neg n _

  pub value-zero :
      (n : ℕ) (c : ℕ → F) (x : F) → ((i : ℕ) → i < n → c i ≡ k.zero) → value n c x ≡ k.zero
  value-zero n c x h = sum-zero n _ (λ i p. rw (h i p) (simp ring))

  pub eval-append :
      (a b : Slice F) (x : F) → eval (append a b) x ≡ eval a x ⊕ k.exp x a.len ⊗ eval b x
  unfolding append
  eval-append a b x =
      value_split a.len b.len (append a b).at x
      ∙ ap (λ y. y ⊕ k.exp x a.len ⊗ value b.len (λ i. (append a b).at (a.len + i)) x)
          (value_congr a.len _ _ x (λ i p. rw (lt→ltb i a.len p)))
      ∙ ap (λ y. eval a x ⊕ k.exp x a.len ⊗ y)
          (value_congr b.len _ _ x (λ i p.
            rw (le→ltb (a.len + i) a.len (omega arith))
              (ap b.at (let e : a.len + i - a.len ≡ i = omega arith in e))))

  -- A slice continued by zeros, as coefficients of a polynomial of any greater length.
  abbrev pub padded : Slice F → ℕ → F
  padded b i = if ltb i b.len then b.at i else k.zero

  pub value-padded : (m : ℕ) (b : Slice F) (x : F) → value (b.len + m) (padded b) x ≡ eval b x
  value-padded m b x =
      value_split b.len m (padded b) x
      ∙ ap (λ y. value b.len (padded b) x ⊕ k.exp x b.len ⊗ y)
          (value-zero m _ x (λ i p. rw (le→ltb (b.len + i) b.len (omega arith))))
      ∙ drop _ _
      ∙ value_congr b.len (padded b) b.at x (λ i p. rw (lt→ltb i b.len p))
    where
      drop : (y z : F) → y ⊕ z ⊗ k.zero ≡ y
      drop y z = simp ring

  pub value-padded_le : (n : ℕ) (b : Slice F) (x : F) → b.len ≤ n → value n (padded b) x ≡ eval b x
  value-padded_le n b x h =
      ap (λ t. value t (padded b) x) {y = b.len + (n - b.len)} (omega arith)
      ∙ value-padded (n - b.len) b x

-- `(*iop.Polynomial).Evaluate` on a polynomial in canonical regular form.
pub record Evaluator {F : Type 0} (k : Field F) : Type 0 where
  pub evaluate : Slice F → F → F
  pub evaluate-eval : (p : Slice F) (x : F) → evaluate p x ≡ eval ⦃k = k⦄ p x
