-- ===== src/Linearized/Verified.antt =====
-- The linearized polynomial at ζ for a quotient of the constraint: the constant of the verifier.
use gnark_cuda.Prelude.{ℕ, ◌+◌, ◌*◌, ◌≤◌, ◌≡◌, ◌∙◌, sym, ap, ap₂, Bool, none}
use gnark_cuda.Field.{Field, ◌⊕◌, ◌⊗◌, ◌⊖◌}
use gnark_cuda.Field.Ring.{ring, sub_lem, neg-add, add_assoc, add_left_comm, add-neg_cancel}
use gnark_cuda.Slice.{Slice}
use gnark_cuda.Outcome.{ok}
use gnark_cuda.Poly.{Evaluator, value, eval}
use gnark_cuda.Numerator.Constraints.{Row, gate_polynomial, copy_polynomial}
use gnark_cuda.Numerator.Loop.Points.{lagrange_one}
use gnark_cuda.Linearized.{Challenges, Openings, Trace, Gates, inner_compute_linearized_poly}
use gnark_cuda.Linearized.Terms.{HasOneLength}
use gnark_cuda.Linearized.Opened.{opened_row, linearized_at}
use gnark_cuda.Linearized.Main.{linearized-eval}

module _ {F : Type 0} ⦃k : Field F⦄ where
  -- gates + α copy + α² (z - 1) L₁ at ζ, on the values w with qk for the value of the completed Qk:
  -- the constraint polynomial whose quotient is h.
  abbrev pub completed_constraint :
      (n : ℕ) (cardinality_inv u : F) → Challenges F → (count : ℕ) → (qk : F) → Row F → F
  completed_constraint n cardinality_inv u c count qk w =
      (gate_polynomial count (record w { qk = qk })
        ⊕ c.alpha ⊗ copy_polynomial c.zeta c.beta c.gamma u (u ⊗ u) w)
      ⊕ (c.alpha ⊗ c.alpha) ⊗ ((w.z ⊖ k.one) ⊗ lagrange_one n cardinality_inv c.zeta)

  -- α² L₁(ζ) - α (l + β σ₁ + γ) (r + β σ₂ + γ) (o + γ) z_next - (completed Qk(ζ) - Qk(ζ))
  abbrev pub verifier_constant : (n : ℕ) (cardinality_inv : F) → Challenges F → (qk : F) → Row F → F
  verifier_constant n cardinality_inv c qk w =
      ((c.alpha ⊗ c.alpha) ⊗ lagrange_one n cardinality_inv c.zeta
        ⊖ c.alpha
          ⊗ ((((w.l ⊕ c.beta ⊗ w.sigma1 ⊕ c.gamma) ⊗ (w.r ⊕ c.beta ⊗ w.sigma2 ⊕ c.gamma))
                ⊗ (w.o ⊕ c.gamma))
              ⊗ w.z_next))
      ⊖ (qk ⊖ w.qk)

  sub_common : (a b c : F) → (a ⊕ b) ⊖ (a ⊕ c) ≡ b ⊖ c
  sub_common a b c =
      simp (sub_lem, neg-add, add_assoc, add_left_comm b (k.neg a) (k.neg c), add-neg_cancel)

  -- What the linearized polynomial and the constraint do not share.
  difference :
      (g s qk q alpha f m o d zn i z lone : F)
      → ((((g ⊕ qk) ⊕ s) ⊕ alpha ⊗ ((f ⊗ m) ⊗ zn ⊖ i ⊗ z)) ⊕ (alpha ⊗ alpha) ⊗ (lone ⊗ z))
          ⊖ ((((g ⊕ q) ⊕ s) ⊕ alpha ⊗ ((f ⊗ (o ⊕ m ⊕ d)) ⊗ zn ⊖ i ⊗ z))
              ⊕ (alpha ⊗ alpha) ⊗ ((z ⊖ k.one) ⊗ lone))
        ≡ ((alpha ⊗ alpha) ⊗ lone ⊖ alpha ⊗ ((f ⊗ (o ⊕ d)) ⊗ zn)) ⊖ (q ⊖ qk)
  difference g s qk q alpha f m o d zn i z lone =
      ap₂ (λ x y. x ⊖ y) linearized constraint ∙ sub_common common qk _ ∙ rest
    where
      common : F
      common = (g ⊕ s) ⊕ (alpha ⊗ ((f ⊗ m) ⊗ zn ⊖ i ⊗ z) ⊕ (alpha ⊗ alpha) ⊗ (lone ⊗ z))

      other : F
      other = q ⊕ (alpha ⊗ ((f ⊗ (o ⊕ d)) ⊗ zn) ⊕ k.neg ((alpha ⊗ alpha) ⊗ lone))

      linearized :
          (((g ⊕ qk) ⊕ s) ⊕ alpha ⊗ ((f ⊗ m) ⊗ zn ⊖ i ⊗ z)) ⊕ (alpha ⊗ alpha) ⊗ (lone ⊗ z)
          ≡ common ⊕ qk
      linearized = simp ring

      constraint :
          (((g ⊕ q) ⊕ s) ⊕ alpha ⊗ ((f ⊗ (o ⊕ m ⊕ d)) ⊗ zn ⊖ i ⊗ z))
            ⊕ (alpha ⊗ alpha) ⊗ ((z ⊖ k.one) ⊗ lone)
          ≡ common ⊕ other
      constraint = simp ring

      rest : qk ⊖ other ≡ ((alpha ⊗ alpha) ⊗ lone ⊖ alpha ⊗ ((f ⊗ (o ⊕ d)) ⊗ zn)) ⊖ (q ⊖ qk)
      rest = simp ring

  pub linearized_at-constraint :
      (n : ℕ) (cardinality_inv u : F) (c : Challenges F) (count : ℕ) (qk : F) (w : Row F)
      → linearized_at n cardinality_inv u c count w
          ⊖ completed_constraint n cardinality_inv u c count qk w
        ≡ verifier_constant n cardinality_inv c qk w
  linearized_at-constraint n cardinality_inv u c count qk w =
      difference _ _ w.qk qk c.alpha _ (c.beta ⊗ w.sigma3) w.o c.gamma w.z_next _ w.z _

  module _ (e : Evaluator k) (n : ℕ) (cardinality_inv coset_shift : F) (c : Challenges F)
      (v : Openings F) (trace : Trace F) (g : Gates F) where
    -- Let h be a quotient by Xⁿ - 1, at ζ, of the constraint polynomial on the opened values, with qk
    -- for the value of the completed Qk: its first 3 * (n + 2) coefficients have at ζ a value h(ζ) with
    -- h(ζ) (ζⁿ - 1) = gates + α copy + α² (Z - 1) L₁. Then for a blinded Z of n + 3 coefficients,
    -- trace polynomials of one length that fit and no folded quotient, `innerComputeLinearizedPoly`
    -- succeeds, with or without blinding of the shards, and its result has at ζ the value
    --   α² L₁(ζ) - α (l + β S1(ζ) + γ) (r + β S2(ζ) + γ) (o + γ) Z(μζ) - (qk - Qk(ζ)),
    -- in which Z, the quotient, S3 and the selectors but Qk no longer occur.
    pub linearized-constant :
        (zk : Bool) (r0 r1 qk : F) (h blinded_z : Slice F)
        → 3 * (n + 2) ≤ h.len
        → blinded_z.len ≡ n + 3
        → trace.s3.len ≤ blinded_z.len
        → trace.qm.len ≤ blinded_z.len
        → HasOneLength trace g
        → completed_constraint n cardinality_inv coset_shift c g.count qk
            (opened_row c v trace g blinded_z)
          ≡ value (3 * (n + 2)) h.at c.zeta ⊗ (k.exp c.zeta n ⊖ k.one)
        → (out : Slice F) × (inner_compute_linearized_poly e n cardinality_inv coset_shift c v trace
              g zk r0 r1 h none blinded_z
            ≡ ok out)
          × (eval out c.zeta
              ≡ verifier_constant n cardinality_inv c qk (opened_row c v trace g blinded_z))
    linearized-constant zk r0 r1 qk h blinded_z long len s3 qm same quotient =
        let (out, returns, at_zeta) =
          linearized-eval e n cardinality_inv coset_shift c v trace g zk r0 r1 h blinded_z long len
            s3 qm same in
        (
          out,
          returns,
          at_zeta
              ∙ ap
                  (λ x.
                    linearized_at n cardinality_inv coset_shift c g.count
                      (opened_row c v trace g blinded_z)
                    ⊖ x)
                  (sym quotient)
              ∙ linearized_at-constraint n cardinality_inv coset_shift c g.count qk
                  (opened_row c v trace g blinded_z),
        )
