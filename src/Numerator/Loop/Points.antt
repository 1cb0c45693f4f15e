-- ===== src/Numerator/Loop/Points.antt =====
-- The points that the loop visits, and the constraint polynomial at a point.
use native.Mathlib.Nat.{mod-eq_of_lt, mod_self}
use gnark_cuda.Prelude.{ℕ, ◌+◌, ◌*◌, ◌%◌, ◌^◌, ◌<◌, ◌≡◌, ◌≢◌, ◌∙◌, inl, inr, ◌⊎◌, sym, ap, arith}
use gnark_cuda.Field.{Field, ◌⊕◌, ◌⊗◌, ◌⊖◌}
use gnark_cuda.Field.Ring.{ring}
use gnark_cuda.Field.Exp.{exp-add_one, exp-mul, one-exp}
use gnark_cuda.Poly.{eval, value}
use gnark_cuda.Blinding.{get_blinded_coefficients}
use gnark_cuda.Quotient.Divide.{Polynomial}
use gnark_cuda.Transform.{Represents}
use gnark_cuda.Numerator.{
  Blinds, id_l, id_r, id_o, id_z, id_zs, id_ql, id_qr, id_qm, id_qo, id_qk, id_s1, id_s2, id_s3,
  id_qci,
}
use gnark_cuda.Numerator.Constraints.{Row, gate_polynomial, copy_polynomial}
use gnark_cuda.Numerator.Loop.{Setting}
use gnark_cuda.Numerator.Loop.Twiddles.{HasTwiddles}

module _ {F : Type 0} ⦃k : Field F⦄ where
  -- What the loop starts from: a domain of 2 ^ w elements with its twiddles, and polynomials in any
  -- form that represent the coefficients fs.
  pub record IsSetUp (s : Setting F k) (x : ℕ → Polynomial F) (fs : ℕ → ℕ → F) : Type 0 where
    pub size : s.small.cardinality ≡ 2 ^ s.w
    pub root : k.exp s.small.generator s.small.cardinality ≡ k.one
    pub twiddles : HasTwiddles s.small.cardinality s.twiddles s.small.generator
    pub represents : (id : ℕ) → id ≢ id_zs → Represents s.small s.w (x id) (fs id)

  -- The polynomials at the point X, the columns and Z blinded; n is the size of the domain and a its
  -- generator.
  abbrev pub point_row : (n : ℕ) (a : F) → (fs : ℕ → ℕ → F) → Blinds F → F → Row F
  point_row n a fs b x = record {
    l = eval (get_blinded_coefficients (record { len = n; at = fs id_l }) b.bl) x;
    r = eval (get_blinded_coefficients (record { len = n; at = fs id_r }) b.br) x;
    o = eval (get_blinded_coefficients (record { len = n; at = fs id_o }) b.bo) x;
    z = eval (get_blinded_coefficients (record { len = n; at = fs id_z }) b.bz) x;
    z_next = eval (get_blinded_coefficients (record { len = n; at = fs id_z }) b.bz) (a ⊗ x);
    ql = value n (fs id_ql) x;
    qr = value n (fs id_qr) x;
    qm = value n (fs id_qm) x;
    qo = value n (fs id_qo) x;
    qk = value n (fs id_qk) x;
    sigma1 = value n (fs id_s1) x;
    sigma2 = value n (fs id_s2) x;
    sigma3 = value n (fs id_s3) x;
    qcp = λ i. value n (fs (id_qci + 2 * i)) x;
    pi = λ i. value n (fs (id_qci + 2 * i + 1)) x;
  }

  -- (Xⁿ - 1) / (n (X - 1))
  abbrev pub lagrange_one : (n : ℕ) (cardinality_inv : F) → F → F
  lagrange_one n cardinality_inv x = ((k.exp x n ⊖ k.one) ⊗ cardinality_inv) ⊗ k.inverse (x ⊖ k.one)

  -- gates + α copy + α² (Z - 1) L₁ at X.
  abbrev pub constraint_at : Setting F k → (fs : ℕ → ℕ → F) → Blinds F → F → F
  constraint_at s fs b x =
      let n = s.small.cardinality in
      let g = s.big.fr_multiplicative_gen in
      let v = point_row n s.small.generator fs b x in
      (gate_polynomial s.nb_bsb_gates v ⊕ s.alpha ⊗ copy_polynomial x s.beta s.gamma g (g ⊗ g) v)
      ⊕ (s.alpha ⊗ s.alpha) ⊗ ((v.z ⊖ k.one) ⊗ lagrange_one n s.small.cardinality_inv x)

  pub sub_self : (a : F) → a ⊖ a ≡ k.zero
  sub_self a = k.sub_lem a a ∙ k.add-neg a

  pub eq_of_sub : (a b : F) → a ⊖ b ≡ k.zero → a ≡ b
  eq_of_sub a b e = sym (restore a b) ∙ ap (λ x. x ⊕ b) e ∙ k.zero-add b
    where
      restore : (a b : F) → (a ⊖ b) ⊕ b ≡ a
      restore a b = simp ring

  -- The powers of the generator go round.
  pub next_power :
      (a : F) (n j : ℕ) → k.exp a n ≡ k.one → j < n → k.exp a ((j + 1) % n) ≡ a ⊗ k.exp a j
  next_power a n j root p = elim (inside_or_last j n p) [
    | inl q ↦ ap (k.exp a) (mod-eq_of_lt q) ∙ exp-add_one a j
    | inr q ↦
        ap (λ m. k.exp a (m % n)) q
        ∙ ap (k.exp a) (mod_self n)
        ∙ k.exp-zero a
        ∙ sym root
        ∙ ap (k.exp a) (sym q)
        ∙ exp-add_one a j
  ]
    where
      inside_or_last : (j n : ℕ) → j < n → (j + 1 < n) ⊎ (j + 1 ≡ n)
      inside_or_last j n p = omega arith

  pub root_of_power : (a : F) (n j : ℕ) → k.exp a n ≡ k.one → k.exp (k.exp a j) n ≡ k.one
  root_of_power a n j root =
      sym (exp-mul a j n)
      ∙ ap (k.exp a) {x = j * n} {y = n * j} (omega arith)
      ∙ exp-mul a n j
      ∙ ap (λ x. k.exp x j) root
      ∙ one-exp j
