-- ===== src/Transform/Scaled.antt =====
-- A polynomial at a multiple of the variable, by its coefficients and by its values.
use gnark_cuda.Prelude.{ℕ, ◌^◌, ◌<◌, ◌≡◌, ◌∙◌, sym, ap}
use gnark_cuda.Field.{Field, ◌⊗◌}
use gnark_cuda.Field.Ring.{ring}
use gnark_cuda.Field.Exp.{mul-exp}
use gnark_cuda.Sum.{sum_congr}
use gnark_cuda.Poly.{value}
use gnark_cuda.Quotient.Divide.{Domain, canonical, lagrange, regular, Polynomial}
use gnark_cuda.Transform.{Represents, position, entry}

module _ {F : Type 0} ⦃k : Field F⦄ where
  -- The coefficients of f (s X).
  abbrev pub scaled_by : F → (ℕ → F) → ℕ → F
  scaled_by s f t = f t ⊗ k.exp s t

  pub value-scaled_by :
      (n : ℕ) (s : F) (f : ℕ → F) (x : F) → value n (scaled_by s f) x ≡ value n f (s ⊗ x)
  value-scaled_by n s f x = sum_congr n _ _ (λ t p. one_term (f t) s x t)
    where
      one_term : (a s x : F) (t : ℕ) → (a ⊗ k.exp s t) ⊗ k.exp x t ≡ a ⊗ k.exp (s ⊗ x) t
      one_term a s x t = rw (mul-exp s x t) (simp ring)

  module _ {d : Domain F} {w : ℕ} {p : Polynomial F} {f : ℕ → F} (r : Represents d w p f) where
    -- In canonical form the coefficients can be read off.
    pub at-canonical :
        p.basis ≡ canonical → (i : ℕ) → i < 2 ^ w → p.coefficients.at (position p.layout w i) ≡ f i
    at-canonical b i h = r.entries i h ∙ ap (λ b. entry d b (2 ^ w) f i) b

    -- In Lagrange form and in order, the values on the domain can.
    pub at-lagrange :
        p.basis ≡ lagrange
        → p.layout ≡ regular
        → (i : ℕ) → i < 2 ^ w
        → p.coefficients.at i ≡ value (2 ^ w) f (k.exp d.generator i)
    at-lagrange b l i h =
        ap (λ l. p.coefficients.at (position l w i)) (sym l)
        ∙ r.entries i h
        ∙ ap (λ b. entry d b (2 ^ w) f i) b
