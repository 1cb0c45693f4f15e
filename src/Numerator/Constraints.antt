-- ===== src/Numerator/Constraints.antt =====
-- `allConstraints` of a row and the constraint polynomial of PLONK on blinded values.
use gnark_cuda.Prelude.{ℕ, zero, suc, ◌+◌, ◌*◌, ◌%◌, ◌≡◌, ◌∙◌, sym, ap, ap₂, arith, ne→==}
use gnark_cuda.Field.{Field, ◌⊕◌, ◌⊗◌, ◌⊖◌}
use gnark_cuda.Field.Ring.{ring, add-zero}
use gnark_cuda.Slice.{Slice}
use gnark_cuda.Sum.{sum, sum_congr}
use gnark_cuda.Numerator.{
  Context, Blinds, bsb_loop, gate_constraint, ordering_constraint, compute_lagrange_one_on_coset,
  local_constraint, blind_row, all_constraints, id_l, id_r, id_o, id_z, id_zs, id_ql, id_qr, id_qm,
  id_qo, id_qk, id_s1, id_s2, id_s3, id_qci,
}

-- The values of a row at one point, by name, L, R, O and Z blinded and the σ not yet scaled.
pub record Row (F : Type 0) : Type 0 where
  pub l : F
  pub r : F
  pub o : F
  pub z : F
  pub z_next : F
  pub ql : F
  pub qr : F
  pub qm : F
  pub qo : F
  pub qk : F
  pub sigma1 : F
  pub sigma2 : F
  pub sigma3 : F
  pub qcp : ℕ → F
  pub pi : ℕ → F

module _ {F : Type 0} ⦃k : Field F⦄ where
  -- What `u` holds, with the values of the blinding polynomials added.
  abbrev pub row_of : (ev : Slice F → F → F) → Context F → Blinds F → (index : ℕ) → (ℕ → F) → Row F
  row_of ev c b index u = record {
    l = u id_l ⊕ ev b.bl (c.twiddles0 index);
    r = u id_r ⊕ ev b.br (c.twiddles0 index);
    o = u id_o ⊕ ev b.bo (c.twiddles0 index);
    z = u id_z ⊕ ev b.bz (c.twiddles0 index);
    z_next = u id_zs ⊕ ev b.bz (c.twiddles0 ((index + 1) % c.n));
    ql = u id_ql;
    qr = u id_qr;
    qm = u id_qm;
    qo = u id_qo;
    qk = u id_qk;
    sigma1 = u id_s1;
    sigma2 = u id_s2;
    sigma3 = u id_s3;
    qcp = λ i. u (id_qci + 2 * i);
    pi = λ i. u (id_qci + 2 * i + 1);
  }

  -- ql l + qr r + qm l r + qo o + qk + Σ qcp_i pi_i
  abbrev pub gate_polynomial : (count : ℕ) → Row F → F
  gate_polynomial count v =
      (((((v.ql ⊗ v.l) ⊕ (v.qr ⊗ v.r)) ⊕ ((v.qm ⊗ v.l) ⊗ v.r)) ⊕ (v.qo ⊗ v.o)) ⊕ v.qk)
      ⊕ sum count (λ i. v.qcp i ⊗ v.pi i)

  -- The copy constraint at the point x, with the coset shifts cs and css of the columns R and O.
  abbrev pub copy_polynomial : (x beta gamma cs css : F) → Row F → F
  copy_polynomial x beta gamma cs css v =
      ((((v.l ⊕ beta ⊗ v.sigma1 ⊕ gamma) ⊗ (v.r ⊕ beta ⊗ v.sigma2 ⊕ gamma))
          ⊗ (v.o ⊕ beta ⊗ v.sigma3 ⊕ gamma))
        ⊗ v.z_next)
      ⊖ ((((v.l ⊕ beta ⊗ x ⊕ gamma) ⊗ (v.r ⊕ beta ⊗ (cs ⊗ x) ⊕ gamma))
            ⊗ (v.o ⊕ beta ⊗ (css ⊗ x) ⊕ gamma))
          ⊗ v.z)

  bsb_loop-sum :
      (u : ℕ → F) (t0 : F) (rounds i : ℕ) (t : F)
      → t ≡ t0 ⊕ sum i (λ j. u (id_qci + 2 * j) ⊗ u (id_qci + 2 * j + 1))
      → bsb_loop rounds i u t
        ≡ t0 ⊕ sum (i + rounds) (λ j. u (id_qci + 2 * j) ⊗ u (id_qci + 2 * j + 1))
  unfolding bsb_loop sum
  bsb_loop-sum u t0 zero i t h = let e : i + 0 ≡ i = omega arith in rw e h
  bsb_loop-sum u t0 (suc rounds) i t h =
      let e : i + suc rounds ≡ suc i + rounds = omega arith in
      rw e (
        bsb_loop-sum u t0 rounds (suc i) _
          (ap (λ x. x ⊕ u (id_qci + 2 * i) ⊗ u (id_qci + 2 * i + 1)) h ∙ k.add_assoc _ _ _))

  bsb_loop_all :
      (u : ℕ → F) (count : ℕ) (t : F)
      → bsb_loop count 0 u t ≡ t ⊕ sum count (λ j. u (id_qci + 2 * j) ⊗ u (id_qci + 2 * j + 1))
  unfolding sum
  bsb_loop_all u count t =
      bsb_loop-sum u t count 0 t (sym (add-zero t))
      ∙ ap (λ n. t ⊕ sum n (λ j. u (id_qci + 2 * j) ⊗ u (id_qci + 2 * j + 1))) {y = count}
          (omega arith)

  -- The factors of the two products, as the source adds them up and as they are written above.
  copy_factors :
      (l r o z zn s1 s2 s3 x beta gamma cs css : F)
      → (((((s1 ⊗ beta ⊕ l) ⊕ gamma) ⊗ ((s2 ⊗ beta ⊕ r) ⊕ gamma)) ⊗ ((s3 ⊗ beta ⊕ o) ⊕ gamma)) ⊗ zn)
          ⊖ (((((gamma ⊕ l) ⊕ x ⊗ beta) ⊗ (((x ⊗ beta) ⊗ cs ⊕ r) ⊕ gamma))
                ⊗ (((x ⊗ beta) ⊗ css ⊕ o) ⊕ gamma))
              ⊗ z)
        ≡ ((((l ⊕ beta ⊗ s1 ⊕ gamma) ⊗ (r ⊕ beta ⊗ s2 ⊕ gamma)) ⊗ (o ⊕ beta ⊗ s3 ⊕ gamma)) ⊗ zn)
          ⊖ ((((l ⊕ beta ⊗ x ⊕ gamma) ⊗ (r ⊕ beta ⊗ (cs ⊗ x) ⊕ gamma))
                ⊗ (o ⊕ beta ⊗ (css ⊗ x) ⊕ gamma))
              ⊗ z)
  copy_factors l r o z zn s1 s2 s3 x beta gamma cs css i =
      (((sigma s1 l i ⊗ sigma s2 r i) ⊗ sigma s3 o i) ⊗ zn)
      ⊖ (((first i ⊗ shifted cs r i) ⊗ shifted css o i) ⊗ z)
    where
      sigma : (s w : F) → (s ⊗ beta ⊕ w) ⊕ gamma ≡ w ⊕ beta ⊗ s ⊕ gamma
      sigma s w = simp ring

      first : (gamma ⊕ l) ⊕ x ⊗ beta ≡ l ⊕ beta ⊗ x ⊕ gamma
      first = simp ring

      shifted : (d w : F) → ((x ⊗ beta) ⊗ d ⊕ w) ⊕ gamma ≡ w ⊕ beta ⊗ (d ⊗ x) ⊕ gamma
      shifted d w = simp ring

  module _ (ev : Slice F → F → F) (c : Context F) (b : Blinds F) (index : ℕ) (u : ℕ → F) where
    -- Blinding leaves the commitment gates alone.
    blind_row_after : (j : ℕ) → blind_row ev c b index u (id_qci + j) ≡ u (id_qci + j)
    unfolding blind_row
    blind_row_after j = rw (
      ne→== id_zs (id_qci + j) (omega arith),
      ne→== id_z (id_qci + j) (omega arith),
      ne→== id_o (id_qci + j) (omega arith),
      ne→== id_r (id_qci + j) (omega arith),
      ne→== id_l (id_qci + j) (omega arith),
      ne→== id_s3 (id_qci + j) (omega arith),
      ne→== id_s2 (id_qci + j) (omega arith),
      ne→== id_s1 (id_qci + j) (omega arith),
    )

    gate_lem :
        gate_constraint c (blind_row ev c b index u)
        ≡ gate_polynomial c.nb_bsb_gates (row_of ev c b index u)
    unfolding gate_constraint blind_row
    gate_lem =
        bsb_loop_all (blind_row ev c b index u) c.nb_bsb_gates _
        ∙ ap
            (λ x.
              (((((u id_ql ⊗ (u id_l ⊕ ev b.bl (c.twiddles0 index)))
                      ⊕ (u id_qr ⊗ (u id_r ⊕ ev b.br (c.twiddles0 index))))
                    ⊕ ((u id_qm ⊗ (u id_l ⊕ ev b.bl (c.twiddles0 index)))
                        ⊗ (u id_r ⊕ ev b.br (c.twiddles0 index))))
                  ⊕ (u id_qo ⊗ (u id_o ⊕ ev b.bo (c.twiddles0 index))))
                ⊕ u id_qk)
              ⊕ x)
            (sum_congr c.nb_bsb_gates _ _ (λ i p.
              ap₂ (λ x y. x ⊗ y) (blind_row_after (2 * i))
                (ap (blind_row ev c b index u) {x = id_qci + 2 * i + 1} {y = id_qci + (2 * i + 1)}
                    (omega arith)
                  ∙ blind_row_after (2 * i + 1)
                  ∙ ap u {y = id_qci + 2 * i + 1} (omega arith))))

    ordering_lem :
        ordering_constraint c index (blind_row ev c b index u)
        ≡ copy_polynomial
            (c.twiddles0 index ⊗ c.coset)
            c.beta
            c.gamma
            c.cs
            c.css
            (row_of ev c b index u)
    unfolding ordering_constraint blind_row
    ordering_lem =
        copy_factors (u id_l ⊕ ev b.bl (c.twiddles0 index)) (u id_r ⊕ ev b.br (c.twiddles0 index))
          (u id_o ⊕ ev b.bo (c.twiddles0 index)) (u id_z ⊕ ev b.bz (c.twiddles0 index))
          (u id_zs ⊕ ev b.bz (c.twiddles0 ((index + 1) % c.n))) (u id_s1) (u id_s2) (u id_s3)
          (c.twiddles0 index ⊗ c.coset) c.beta c.gamma c.cs c.css

    combine : (g o l a : F) → ((l ⊗ a ⊕ o) ⊗ a) ⊕ g ≡ (g ⊕ a ⊗ o) ⊕ (a ⊗ a) ⊗ l
    combine g o l a = simp ring

    -- For every row, `allConstraints` returns gates + α * copy + α² * (z - 1) * L₁ on the blinded
    -- values of the row, where the copy constraint is taken at the point coset * ωⁱ, i the index.
    pub all_constraints_lem :
        all_constraints ev c b index u
        ≡ (gate_polynomial c.nb_bsb_gates (row_of ev c b index u)
            ⊕ c.alpha
              ⊗ copy_polynomial
                  (c.twiddles0 index ⊗ c.coset)
                  c.beta
                  c.gamma
                  c.cs
                  c.css
                  (row_of ev c b index u))
          ⊕ (c.alpha ⊗ c.alpha)
            ⊗ (((row_of ev c b index u).z ⊖ k.one) ⊗ compute_lagrange_one_on_coset c index)
    unfolding all_constraints
    all_constraints_lem =
        ap₂
          (λ g o.
            (((local_constraint c index (blind_row ev c b index u)) ⊗ c.alpha ⊕ o) ⊗ c.alpha) ⊕ g)
          gate_lem ordering_lem
        ∙ combine _ _ _ c.alpha
