-- ===== src/Numerator/OnCoset.antt =====
-- `allConstraints` for a row of a coset: what it reads are the tables of `computeNumerator`.
use native.Mathlib.Nat.{mod-lt}
use gnark_cuda.Prelude.{ℕ, ◌+◌, ◌*◌, ◌%◌, ◌<◌, ◌≡◌, ◌∙◌, refl, sym, ap, ap₂, arith}
use gnark_cuda.Field.{Field, ◌⊕◌, ◌⊗◌, ◌⊖◌}
use gnark_cuda.Field.Ring.{mul-one, mul_comm}
use gnark_cuda.Field.Exp.{mul-exp}
use gnark_cuda.Slice.{Slice}
use gnark_cuda.Poly.{Evaluator, eval}
use gnark_cuda.Numerator.{
  Context, Blinds, all_constraints, compute_lagrange_one_on_coset, id_l, id_r, id_o, id_z, id_zs,
  id_ql, id_qr, id_qm, id_qo, id_qk, id_s1, id_s2, id_s3, id_qci,
}
use gnark_cuda.Numerator.Constraints.{
  Row, row_of, gate_polynomial, copy_polynomial, all_constraints_lem,
}
use gnark_cuda.Numerator.Loop.Points.{lagrange_one, next_power, root_of_power}

module _ {F : Type 0} ⦃k : Field F⦄ where
  -- The tables hold the powers of the generator a of the small domain, cosetⁿ - 1, and at the index
  -- the inverse of coset * aⁱ - 1.
  pub record HasTables (c : Context F) (a : F) (index : ℕ) : Type 0 where
    pub root : k.exp a c.n ≡ k.one
    pub twiddles : (t : ℕ) → t < c.n → c.twiddles0 t ≡ k.exp a t
    pub exponentiated : c.coset_exponentiated_to_n_minus_one ≡ k.exp c.coset c.n ⊖ k.one
    pub denominator :
        c.precomputed_denominators index ≡ k.inverse ((c.coset ⊗ k.exp a index) ⊖ k.one)

  -- The row u with the blinding polynomials added at aⁱ, and at the next power of a for the next row.
  abbrev pub blinded_row : (a : F) → Blinds F → (index : ℕ) → (ℕ → F) → Row F
  blinded_row a b index u = record {
    l = u id_l ⊕ eval b.bl (k.exp a index);
    r = u id_r ⊕ eval b.br (k.exp a index);
    o = u id_o ⊕ eval b.bo (k.exp a index);
    z = u id_z ⊕ eval b.bz (k.exp a index);
    z_next = u id_zs ⊕ eval b.bz (a ⊗ k.exp a index);
    ql = u id_ql;
    qr = u id_qr;
    qm = u id_qm;
    qo = u id_qo;
    qk = u id_qk;
    sigma1 = u id_s1;
    sigma2 = u id_s2;
    sigma3 = u id_s3;
    qcp = λ i. u (id_qci + 2 * i);
    pi = λ i. u (id_qci + 2 * i + 1);
  }

  -- gates + α copy + α² (z - 1) L₁ at the point x, on the values w.
  abbrev pub row_constraint : Context F → (x : F) → Row F → F
  row_constraint c x w =
      (gate_polynomial c.nb_bsb_gates w ⊕ c.alpha ⊗ copy_polynomial x c.beta c.gamma c.cs c.css w)
      ⊕ (c.alpha ⊗ c.alpha) ⊗ ((w.z ⊖ k.one) ⊗ lagrange_one c.n c.cardinality_inv x)

  module _ (e : Evaluator k) (c : Context F) (b : Blinds F) (a : F) (index : ℕ) (u : ℕ → F)
      (p : index < c.n) (h : HasTables c a index) where
    added :
        (q : Slice F) (t : ℕ) (x : F)
        → t < c.n
        → k.exp a t ≡ x
        → e.evaluate q (c.twiddles0 t) ≡ eval q x
    added q t x r s = e.evaluate-eval q _ ∙ ap (eval q) (h.twiddles t r ∙ s)

    row_lem : row_of e.evaluate c b index u ≡ blinded_row a b index u
    row_lem i = record {
      l = u id_l ⊕ added b.bl index _ p refl i;
      r = u id_r ⊕ added b.br index _ p refl i;
      o = u id_o ⊕ added b.bo index _ p refl i;
      z = u id_z ⊕ added b.bz index _ p refl i;
      z_next =
          u id_zs
          ⊕ added b.bz ((index + 1) % c.n) _ (mod-lt (index + 1) (omega arith))
              (next_power a c.n index h.root p) i;
      ql = u id_ql;
      qr = u id_qr;
      qm = u id_qm;
      qo = u id_qo;
      qk = u id_qk;
      sigma1 = u id_s1;
      sigma2 = u id_s2;
      sigma3 = u id_s3;
      qcp = λ i. u (id_qci + 2 * i);
      pi = λ i. u (id_qci + 2 * i + 1);
    }

    point_lem : c.twiddles0 index ⊗ c.coset ≡ c.coset ⊗ k.exp a index
    point_lem = ap (λ y. y ⊗ c.coset) (h.twiddles index p) ∙ mul_comm _ _

    lagrange_lem :
        compute_lagrange_one_on_coset c index
        ≡ lagrange_one c.n c.cardinality_inv (c.coset ⊗ k.exp a index)
    unfolding compute_lagrange_one_on_coset
    lagrange_lem =
        ap₂ (λ y z. (y ⊗ c.cardinality_inv) ⊗ z)
          (h.exponentiated
            ∙ ap (λ y. y ⊖ k.one)
                (sym (
                  mul-exp c.coset (k.exp a index) c.n
                  ∙ ap (λ y. k.exp c.coset c.n ⊗ y) (root_of_power a c.n index h.root)
                  ∙ mul-one _)))
          h.denominator

    -- For a row with index i < n of the small domain, whose generator a has aⁿ = 1, `allConstraints`
    -- returns gates + α copy + α² (z - 1) L₁ at the point X = coset * aⁱ, on the values of the row with
    -- the blinding polynomials of L, R, O and Z added at aⁱ, and that of the next row's Z at a * aⁱ;
    -- L₁ is (Xⁿ - 1) / (n (X - 1)), where 1 / n is the inverse of the cardinality that the domain
    -- holds. The tables hold the powers of a, cosetⁿ - 1, and the inverse of coset * aⁱ - 1.
    pub all_constraints_on_coset :
        all_constraints e.evaluate c b index u
        ≡ row_constraint c (c.coset ⊗ k.exp a index) (blinded_row a b index u)
    all_constraints_on_coset = all_constraints_lem e.evaluate c b index u ∙ λ i.
        (gate_polynomial c.nb_bsb_gates (row_lem i)
          ⊕ c.alpha ⊗ copy_polynomial (point_lem i) c.beta c.gamma c.cs c.css (row_lem i))
        ⊕ (c.alpha ⊗ c.alpha) ⊗ (((row_lem i).z ⊖ k.one) ⊗ lagrange_lem i)
