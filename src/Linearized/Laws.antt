-- ===== src/Linearized/Laws.antt =====
-- The value of the linearized polynomial at a point, from its coefficients.
use gnark_cuda.Prelude.{ℕ, zero, suc, ◌<◌, ◌≤◌, ◌≡◌, ◌∙◌, refl, sym, ap, ap₂, arith}
use gnark_cuda.Field.{Field, ◌⊕◌, ◌⊗◌, ◌⊖◌}
use gnark_cuda.Field.Ring.{mul_comm}
use gnark_cuda.Slice.{Slice}
use gnark_cuda.Sum.{sum}
use gnark_cuda.Poly.{
  value, eval, value_congr, value-add, value-mul, value-neg, value-zero, padded, value-padded_le,
}
use gnark_cuda.Linearized.{Openings, Trace, Gates, Shards, Scalars}
use gnark_cuda.Linearized.Terms.{gate_term, HasOneLength, closed_term}

module _ {F : Type 0} ⦃k : Field F⦄ where
  -- Rules by which the value of a combination of coefficients is computed.
  value_add :
      (n : ℕ) (c d : ℕ → F) (x p q : F)
      → value n c x ≡ p
      → value n d x ≡ q
      → value n (λ i. c i ⊕ d i) x ≡ p ⊕ q
  value_add n c d x p q e f = value-add n c d x ∙ ap₂ (λ y z. y ⊕ z) e f

  value_scale : (n : ℕ) (c : ℕ → F) (a x p : F) → value n c x ≡ p → value n (λ i. c i ⊗ a) x ≡ p ⊗ a
  value_scale n c a x p e =
      value_congr n _ (λ i. a ⊗ c i) x (λ i q. mul_comm _ a)
      ∙ value-mul n a c x
      ∙ mul_comm a _
      ∙ ap (λ y. y ⊗ a) e

  value_sub :
      (n : ℕ) (c d : ℕ → F) (x p q : F)
      → value n c x ≡ p
      → value n d x ≡ q
      → value n (λ i. c i ⊖ d i) x ≡ p ⊖ q
  value_sub n c d x p q e f =
      value_congr n _ (λ i. c i ⊕ k.neg (d i)) x (λ i r. k.sub_lem _ _)
      ∙ value_add n c (λ i. k.neg (d i)) x p (k.neg q) e (value-neg n d x ∙ ap k.neg f)
      ∙ sym (k.sub_lem p q)

  value-sum :
      (n m : ℕ) (c : ℕ → ℕ → F) (x : F) (p : ℕ → F)
      → ((j : ℕ) → j < m → value n (c j) x ≡ p j)
      → value n (λ i. sum m (λ j. c j i)) x ≡ sum m p
  unfolding sum
  value-sum n zero c x p h = value-zero n _ x (λ i q. refl)
  value-sum n (suc m) c x p h =
      value_add n (λ i. sum m (λ j. c j i)) (c m) x _ _
        (value-sum n m c x p (λ j q. h j (omega arith))) (h m (omega arith))

  -- l(ζ)r(ζ) Qm(x) + l(ζ) Ql(x) + r(ζ) Qr(x) + o(ζ) Qo(x) + Qk(x) + Σ Qcp_j(ζ) Pi_j(x)
  abbrev pub gate_value : Scalars F → Openings F → Trace F → Gates F → F → F
  gate_value s v trace g x =
      ((((eval trace.qm x ⊗ s.rl ⊕ eval trace.ql x ⊗ v.l_zeta) ⊕ eval trace.qr x ⊗ v.r_zeta)
          ⊕ eval trace.qo x ⊗ v.o_zeta)
        ⊕ eval trace.qk x)
      ⊕ sum g.count (λ j. eval (g.pi2 j) x ⊗ g.qcp_zeta j)

  -- H₀(x) + ζᵐ⁺² H₁(x) + ζ²⁽ᵐ⁺²⁾ H₂(x)
  abbrev pub shards_value : Scalars F → Shards F → F → F
  shards_value s h x =
      ((eval h.third x ⊗ s.zeta_n_plus_two ⊕ eval h.second x) ⊗ s.zeta_n_plus_two) ⊕ eval h.first x

  abbrev pub linearized_value :
      Scalars F → Openings F → Trace F → Gates F → Shards F → Slice F → F → F
  linearized_value s v trace g h blinded_z x =
      (((eval blinded_z x ⊗ s.s2 ⊕ eval trace.s3 x ⊗ s.s1) ⊕ gate_value s v trace g x)
        ⊕ eval blinded_z x ⊗ s.alpha_square_lagrange_zero)
      ⊖ shards_value s h x ⊗ s.zh_zeta

  -- What fits below the length of the blinded Z.
  pub record Fits (trace : Trace F) (h : Shards F) (n : ℕ) : Type 0 where
    pub s3_fits : trace.s3.len ≤ n
    pub qm_fits : trace.qm.len ≤ n
    pub first_fits : h.first.len ≤ n
    pub second_fits : h.second.len ≤ n
    pub third_fits : h.third.len ≤ n

  pub closed_term-value :
      (s : Scalars F) (v : Openings F) (trace : Trace F) (g : Gates F) (h : Shards F) (z : Slice F)
      (x : F)
      → HasOneLength trace g
      → Fits trace h z.len
      → value z.len (closed_term s v trace g h z) x ≡ linearized_value s v trace g h z x
  closed_term-value s v trace g h z x same fits =
      value_sub n _ _ x _ _
        (value_add n _ _ x _ _
          (value_add n _ _ x _ _
            (value_add n _ _ x _ _ (scaled z s.s2 (omega arith))
              (scaled trace.s3 s.s1 fits.s3_fits))
            gates)
          (scaled z s.alpha_square_lagrange_zero (omega arith)))
        (value_scale n _ s.zh_zeta x _ (
          value_add n _ _ x _ _
            (value_scale n _ s.zeta_n_plus_two x _ (
              value_add n _ _ x _ _ (scaled h.third s.zeta_n_plus_two fits.third_fits)
                (value-padded_le n h.second x fits.second_fits)))
            (value-padded_le n h.first x fits.first_fits)))
    where
      n : ℕ
      n = z.len

      scaled :
          (c : Slice F) (a : F) → c.len ≤ z.len → value z.len (λ i. padded c i ⊗ a) x ≡ eval c x ⊗ a
      scaled c a p = value_scale z.len (padded c) a x _ (value-padded_le z.len c x p)

      gates : value z.len (gate_term s v trace g) x ≡ gate_value s v trace g x
      gates =
          value_add z.len _ _ x _ _
            (value_add z.len _ _ x _ _
              (value_add z.len _ _ x _ _
                (value_add z.len _ _ x _ _
                  (value_add z.len _ _ x _ _ (scaled trace.qm s.rl fits.qm_fits)
                    (scaled trace.ql v.l_zeta (omega (arith, same.ql_len, fits.qm_fits))))
                  (scaled trace.qr v.r_zeta (omega (arith, same.qr_len, fits.qm_fits))))
                (scaled trace.qo v.o_zeta (omega (arith, same.qo_len, fits.qm_fits))))
              (value-padded_le z.len trace.qk x (omega (arith, same.qk_len, fits.qm_fits))))
            (value-sum z.len g.count (λ j i. padded (g.pi2 j) i ⊗ g.qcp_zeta j) x _
              (λ j p.
                scaled (g.pi2 j) (g.qcp_zeta j) (omega (arith, same.pi2_len j p, fits.qm_fits))))
