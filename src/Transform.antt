-- ===== src/Transform.antt =====
-- The polynomials of gnark-crypto's iop package on a domain of 2 ^ w elements, and what their methods
-- document: ToCanonical, ToLagrange and ToRegular change the form and not the polynomial.
pub mod Scaled
use gnark_cuda.Prelude.{ℕ, ◌^◌, ◌<◌, ◌≡◌}
use gnark_cuda.Field.{Field, ◌⊗◌}
use gnark_cuda.Slice.{Slice}
use gnark_cuda.Poly.{value}
use gnark_cuda.Bits.{reverse_bits}
use gnark_cuda.Quotient.Divide.{
  Domain, Basis, canonical, lagrange, lagrange_coset, Layout, regular, bit_reverse, Polynomial,
}

-- Where a layout puts entry i of 2 ^ w.
abbrev pub position : Layout → (w : ℕ) → ℕ → ℕ
position regular w i = i
position bit_reverse w i = reverse_bits w i

module _ {F : Type 0} ⦃k : Field F⦄ where
  -- Entry i, in a basis, of the polynomial with the n coefficients f.
  abbrev pub entry : Domain F → Basis → (n : ℕ) (f : ℕ → F) → ℕ → F
  entry d canonical n f i = f i
  entry d lagrange n f i = value n f (k.exp d.generator i)
  entry d lagrange_coset n f i = value n f (d.fr_multiplicative_gen ⊗ k.exp d.generator i)

  -- The polynomial p, in whatever form it has, has the 2 ^ w coefficients f.
  pub record Represents (d : Domain F) (w : ℕ) (p : Polynomial F) (f : ℕ → F) : Type 0 where
    pub len : p.coefficients.len ≡ 2 ^ w
    pub entries :
        (i : ℕ)
        → i < 2 ^ w
        → p.coefficients.at (position p.layout w i) ≡ entry d p.basis (2 ^ w) f i

  pub record Transform (d : Domain F) (w : ℕ) : Type 0 where
    pub to_canonical : Polynomial F → Polynomial F
    pub to_lagrange : Polynomial F → Polynomial F
    pub to_regular : Polynomial F → Polynomial F
    pub to_canonical_lem :
        (p : Polynomial F) (f : ℕ → F)
        → Represents d w p f
        → Represents d w (to_canonical p) f × ((to_canonical p).basis ≡ canonical)
    pub to_lagrange_lem :
        (p : Polynomial F) (f : ℕ → F)
        → Represents d w p f
        → Represents d w (to_lagrange p) f × ((to_lagrange p).basis ≡ lagrange)
    pub to_regular_lem :
        (p : Polynomial F) (f : ℕ → F)
        → Represents d w p f
        → Represents d w (to_regular p) f
          × ((to_regular p).basis ≡ p.basis)
          × ((to_regular p).layout ≡ regular)
