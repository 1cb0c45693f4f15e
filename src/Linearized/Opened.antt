-- ===== src/Linearized/Opened.antt =====
-- The linearized polynomial at ζ, from the opened values: its description, and that the scalars of
-- `innerComputeLinearizedPoly` give it.
use gnark_cuda.Prelude.{ℕ, ◌≡◌, ◌∙◌, refl, ap}
use gnark_cuda.Field.{Field, ◌⊕◌, ◌⊗◌, ◌⊖◌}
use gnark_cuda.Field.Ring.{ring, mul_comm}
use gnark_cuda.Slice.{Slice}
use gnark_cuda.Sum.{sum_congr}
use gnark_cuda.Poly.{Evaluator, eval}
use gnark_cuda.Numerator.Constraints.{Row, gate_polynomial}
use gnark_cuda.Numerator.Loop.Points.{lagrange_one}
use gnark_cuda.Linearized.{Challenges, Openings, Trace, Gates, Scalars, scalars}
use gnark_cuda.Linearized.Laws.{gate_value}

module _ {F : Type 0} ⦃k : Field F⦄ where
  -- The values at ζ: l, r, o, Z(μζ) and Qcp are opened, the others are those of the polynomials.
  abbrev pub opened_row :
      Challenges F → Openings F → Trace F → Gates F → (blinded_z : Slice F) → Row F
  opened_row c v trace g blinded_z = record {
    l = v.l_zeta;
    r = v.r_zeta;
    o = v.o_zeta;
    z = eval blinded_z c.zeta;
    z_next = v.zu;
    ql = eval trace.ql c.zeta;
    qr = eval trace.qr c.zeta;
    qm = eval trace.qm c.zeta;
    qo = eval trace.qo c.zeta;
    qk = eval trace.qk c.zeta;
    sigma1 = eval trace.s1 c.zeta;
    sigma2 = eval trace.s2 c.zeta;
    sigma3 = eval trace.s3 c.zeta;
    qcp = g.qcp_zeta;
    pi = λ j. eval (g.pi2 j) c.zeta;
  }

  -- (l + β σ₁ + γ) (r + β σ₂ + γ) β σ₃ z_next - (l + β ζ + γ) (r + β u ζ + γ) (o + β u² ζ + γ) z
  abbrev pub linearized_copy : (zeta beta gamma u : F) → Row F → F
  linearized_copy zeta beta gamma u w =
      (((w.l ⊕ beta ⊗ w.sigma1 ⊕ gamma) ⊗ (w.r ⊕ beta ⊗ w.sigma2 ⊕ gamma)) ⊗ (beta ⊗ w.sigma3))
        ⊗ w.z_next
      ⊖ ((((w.l ⊕ beta ⊗ zeta ⊕ gamma) ⊗ (w.r ⊕ beta ⊗ (u ⊗ zeta) ⊕ gamma))
            ⊗ (w.o ⊕ beta ⊗ ((u ⊗ u) ⊗ zeta) ⊕ gamma))
          ⊗ w.z)

  -- gates + α copy + α² L₁(ζ) z; the quotient is not in it.
  abbrev pub linearized_at :
      (n : ℕ) (cardinality_inv coset_shift : F) → Challenges F → (count : ℕ) → Row F → F
  linearized_at n cardinality_inv coset_shift c count w =
      (gate_polynomial count w ⊕ c.alpha ⊗ linearized_copy c.zeta c.beta c.gamma coset_shift w)
      ⊕ (c.alpha ⊗ c.alpha) ⊗ (lagrange_one n cardinality_inv c.zeta ⊗ w.z)

  -- The terms of the source and those above, over the factors of the two products.
  terms :
      (z s3 a b zn beta alpha i1 i2 i3 zh d cinv gates h : F)
      → ((((z ⊗ (k.neg ((i1 ⊗ i2) ⊗ i3) ⊗ alpha)) ⊕ s3 ⊗ ((((a ⊗ b) ⊗ zn) ⊗ beta) ⊗ alpha)) ⊕ gates)
            ⊕ z ⊗ ((((zh ⊗ d) ⊗ alpha) ⊗ alpha) ⊗ cinv))
          ⊖ h
        ≡ ((gates ⊕ alpha ⊗ (((a ⊗ b) ⊗ (beta ⊗ s3)) ⊗ zn ⊖ (((i1 ⊗ i2) ⊗ i3) ⊗ z)))
            ⊕ (alpha ⊗ alpha) ⊗ (((zh ⊗ cinv) ⊗ d) ⊗ z))
          ⊖ h
  terms z s3 a b zn beta alpha i1 i2 i3 zh d cinv gates h = simp ring

  module _ (e : Evaluator k) (n : ℕ) (cardinality_inv coset_shift : F) (c : Challenges F)
      (v : Openings F) (trace : Trace F) (g : Gates F) where
    abbrev all : Scalars F
    all = scalars e n cardinality_inv coset_shift c v trace

    gates-polynomial :
        (blinded_z : Slice F)
        → gate_value all v trace g c.zeta
          ≡ gate_polynomial g.count (opened_row c v trace g blinded_z)
    unfolding scalars
    gates-polynomial blinded_z =
        ap
          (λ x.
            ((((eval trace.qm c.zeta ⊗ (v.r_zeta ⊗ v.l_zeta) ⊕ eval trace.ql c.zeta ⊗ v.l_zeta)
                  ⊕ eval trace.qr c.zeta ⊗ v.r_zeta)
                ⊕ eval trace.qo c.zeta ⊗ v.o_zeta)
              ⊕ eval trace.qk c.zeta)
            ⊕ x)
          (sum_congr g.count _ _ (λ j p. mul_comm _ _))
        ∙ sorted _ _ _ _ _ _ _ _ _
      where
        sorted :
            (ql qr qm qo qk l r o x : F)
            → ((((qm ⊗ (r ⊗ l) ⊕ ql ⊗ l) ⊕ qr ⊗ r) ⊕ qo ⊗ o) ⊕ qk) ⊕ x
              ≡ (((((ql ⊗ l) ⊕ (qr ⊗ r)) ⊕ ((qm ⊗ l) ⊗ r)) ⊕ (qo ⊗ o)) ⊕ qk) ⊕ x
        sorted ql qr qm qo qk l r o x = simp ring

    sigma_factor :
        (s : Slice F) (w : F)
        → (e.evaluate s c.zeta ⊗ c.beta ⊕ w) ⊕ c.gamma ≡ w ⊕ c.beta ⊗ eval s c.zeta ⊕ c.gamma
    sigma_factor s w =
        ap (λ y. (y ⊗ c.beta ⊕ w) ⊕ c.gamma) (e.evaluate-eval s c.zeta) ∙ sorted _ w c.beta c.gamma
      where
        sorted : (y w b d : F) → (y ⊗ b ⊕ w) ⊕ d ≡ w ⊕ b ⊗ y ⊕ d
        sorted y w b d = simp ring

    identity_factor : (x y w : F) → x ≡ y → (c.beta ⊗ x ⊕ w) ⊕ c.gamma ≡ w ⊕ c.beta ⊗ y ⊕ c.gamma
    identity_factor x y w q =
        ap (λ y. (c.beta ⊗ y ⊕ w) ⊕ c.gamma) q ∙ ap (λ t. t ⊕ c.gamma) (k.add_comm _ w)

    twice_shifted : (z u : F) → (z ⊗ u) ⊗ u ≡ (u ⊗ u) ⊗ z
    twice_shifted z u = simp ring

    pub scalars-linearized_at :
        (blinded_z : Slice F) (h : F)
        → (((eval blinded_z c.zeta ⊗ all.s2 ⊕ eval trace.s3 c.zeta ⊗ all.s1)
                ⊕ gate_value all v trace g c.zeta)
              ⊕ eval blinded_z c.zeta ⊗ all.alpha_square_lagrange_zero)
            ⊖ h ⊗ all.zh_zeta
          ≡ linearized_at n cardinality_inv coset_shift c g.count (opened_row c v trace g blinded_z)
            ⊖ h ⊗ (k.exp c.zeta n ⊖ k.one)
    unfolding scalars
    scalars-linearized_at blinded_z h = terms _ _ _ _ _ _ _ _ _ _ _ _ _ _ _ ∙ λ i.
        ((gates-polynomial blinded_z i
            ⊕ c.alpha
              ⊗ (((sigma_factor trace.s1 v.l_zeta i ⊗ sigma_factor trace.s2 v.r_zeta i)
                      ⊗ (c.beta ⊗ eval trace.s3 c.zeta))
                    ⊗ v.zu
                  ⊖ (((identity_factor c.zeta c.zeta v.l_zeta refl i
                          ⊗ identity_factor _ _ v.r_zeta (mul_comm c.zeta coset_shift) i)
                        ⊗ identity_factor _ _ v.o_zeta (twice_shifted c.zeta coset_shift) i)
                      ⊗ eval blinded_z c.zeta)))
          ⊕ (c.alpha ⊗ c.alpha) ⊗ (lagrange_one n cardinality_inv c.zeta ⊗ eval blinded_z c.zeta))
        ⊖ h ⊗ (k.exp c.zeta n ⊖ k.one)
