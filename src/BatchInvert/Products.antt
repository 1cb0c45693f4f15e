-- ===== src/BatchInvert/Products.antt =====
-- Running products: what the first half of Montgomery's trick leaves in a vector.
use native.Mathlib.Decide.{ℕ_discrete}
use gnark_cuda.Prelude.{ℕ, suc, ◌+◌, ◌≤◌, ◌≡◌, ◌≢◌, ◌⊎◌, inl, inr, refl, arith}
use gnark_cuda.Field.{Field, ◌⊗◌}
use gnark_cuda.Sum.{prod, prod_ne_zero}
use gnark_cuda.Slice.{update, update_self, update_ne}

module _ {F : Type 0} ⦃k : Field F⦄ where
  -- f(start) * … * f(start + i)
  unfoldable pub chain : (start i : ℕ) → (ℕ → F) → F
  chain start i f = prod (suc i) (λ u. f (start + u))

  pub chain-zero : (start : ℕ) (f : ℕ → F) → k.one ⊗ f (start + 0) ≡ chain start 0 f
  unfolding chain prod
  chain-zero start f = refl

  pub chain-suc :
      (start i : ℕ) (f : ℕ → F) → chain start (suc i) f ≡ chain start i f ⊗ f (start + suc i)
  unfolding chain prod
  chain-suc start i f = refl

  pub chain_ne_zero :
      (start i : ℕ) (f : ℕ → F)
      → ((j : ℕ) → j ≤ start + i → f j ≢ k.zero)
      → chain start i f ≢ k.zero
  unfolding chain
  chain_ne_zero start i f h = prod_ne_zero (suc i) _ (λ u p. h (start + u) (omega arith))

-- To read an updated function at an index that is or is not the updated one.
pub update_cases {ℓ} :
    {A : Type ℓ} (f : ℕ → A) (i j : ℕ) (v : A)
    → ((j ≡ i) × (update f i v j ≡ v)) ⊎ ((i ≢ j) × (update f i v j ≡ f j))
update_cases f i j v = elim (ℕ_discrete i j) [
  | yes e ↦ inl (omega arith, rw (← e) (update_self f i v))
  | no d ↦ inr (d, update_ne f i j v d)
]
