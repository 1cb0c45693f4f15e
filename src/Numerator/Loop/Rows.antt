-- ===== src/Numerator/Loop/Rows.antt =====
-- The rows that the loop evaluates: the constraint polynomial on blinded polynomials, at coset * ωʲ.
use native.Mathlib.Nat.{mod-lt}
use gnark_cuda.Prelude.{
  ℕ, suc, ◌+◌, ◌*◌, ◌%◌, ◌^◌, ◌<◌, ◌≡◌, ◌≢◌, ◌∙◌, sym, ap, ap₂, arith, ◌==◌, ne→==, if◌then◌else◌,
}
use gnark_cuda.Field.{Field, ◌⊕◌, ◌⊗◌, ◌⊖◌}
use gnark_cuda.Field.Ring.{mul-one, mul_comm, mul_left_comm}
use gnark_cuda.Field.Exp.{mul-exp, one-exp}
use gnark_cuda.Slice.{Slice}
use gnark_cuda.Sum.{prod}
use gnark_cuda.Poly.{eval, value}
use gnark_cuda.Blinding.{get_blinded_coefficients}
use gnark_cuda.Quotient.Divide.{Polynomial, lagrange, regular}
use gnark_cuda.Transform.Scaled.{value-scaled_by, at-lagrange}
use gnark_cuda.Numerator.{
  Blinds, all_constraints, compute_lagrange_one_on_coset, blind_scale, id_l, id_r, id_o, id_z,
  id_zs, id_ql, id_qr, id_qm, id_qo, id_qk, id_s1, id_s2, id_s3, id_qci,
}
use gnark_cuda.Numerator.Constraints.{
  Row, row_of, gate_polynomial, copy_polynomial, all_constraints_lem,
}
use gnark_cuda.Numerator.Loop.{
  Setting, LoopState, shifters, init_twiddles, context_of, each_blind, prepare, buffer, loop_state,
}
use gnark_cuda.Numerator.Loop.Twiddles.{init_twiddles-exp, invert_denominators_lem}
use gnark_cuda.Numerator.Loop.Polynomials.{
  loop_state-coset, loop_state-Represents, prepare-Represents,
}
use gnark_cuda.Numerator.Loop.Blinding.{AvoidsDomain, blind_state, blinded_value, prepare-bp}
use gnark_cuda.Numerator.Loop.Points.{
  IsSetUp, point_row, lagrange_one, constraint_at, sub_self, eq_of_sub, next_power, root_of_power,
}

module _ {F : Type 0} ⦃k : Field F⦄ where
  module _ (s : Setting F k) (rho : ℕ) (x : ℕ → Polynomial F) (bp : Blinds F) (fs : ℕ → ℕ → F)
      (h : IsSetUp s x fs) (i j : ℕ) (p : j < s.small.cardinality)
      (avoids : AvoidsDomain s.small.cardinality (suc i) (shifters s.big)) where
    abbrev n : ℕ
    n = s.small.cardinality

    abbrev a : F
    a = s.small.generator

    -- The coset of iteration i.
    abbrev c : F
    c = prod (suc i) (shifters s.big)

    abbrev at_row : LoopState F
    at_row = prepare s rho i (loop_state s rho i x bp)

    twiddle : (t : ℕ) → t < n → init_twiddles n s.twiddles t ≡ k.exp a t
    twiddle t q = init_twiddles-exp n s.twiddles a h.twiddles t q

    -- The value that a polynomial has in the iteration.
    poly_at :
        (id t : ℕ)
        → id ≢ id_zs
        → t < n
        → (at_row.x id).coefficients.at t ≡ value n (fs id) (c ⊗ k.exp a t)
    poly_at id t ne q =
        let (r, b, l) =
          prepare-Represents s rho x bp i id (fs id) ne
            (loop_state-Represents s rho x bp i id (fs id) ne (h.represents id ne)) in
        at-lagrange r b l t (omega (arith, h.size))
        ∙ value-scaled_by (2 ^ s.w) c (fs id) (k.exp a t)
        ∙ ap (λ m. value m (fs id) (c ⊗ k.exp a t)) (sym h.size)

    -- The value of a blinding polynomial completes that of the polynomial it blinds.
    blind_sum :
        (f : ℕ → F) (q q' : Slice F) (t : ℕ)
        → q' ≡ blind_scale n c (shifters s.big i) (blind_state n (shifters s.big) i q)
        → t < n
        → value n f (c ⊗ k.exp a t) ⊕ s.evaluator.evaluate q' (init_twiddles n s.twiddles t)
          ≡ eval (get_blinded_coefficients (record { len = n; at = f }) q) (c ⊗ k.exp a t)
    blind_sum f q q' t e r =
        ap (λ y. value n f (c ⊗ k.exp a t) ⊕ y)
          (s.evaluator.evaluate-eval q' _
            ∙ ap (eval q') (twiddle t r)
            ∙ ap (λ q. eval q (k.exp a t)) e)
        ∙ blinded_value n (shifters s.big) i f q (k.exp a t) (λ t r. avoids t (omega arith))
            (root_of_power a n t h.root)

    -- What `iop.Evaluate` passes to the closure for row j.
    abbrev row : ℕ → F
    row id =
        if id == id_zs
        then (at_row.x id_z).coefficients.at ((j + 1) % n)
        else (at_row.x id).coefficients.at j

    row_at : (id : ℕ) → id ≢ id_zs → row id ≡ value n (fs id) (c ⊗ k.exp a j)
    row_at id ne = rw (ne→== id id_zs ne) (poly_at id j ne p)

    blinds :
        (π : Blinds F → Slice F)
        → π at_row.bp
          ≡ π (
              each_blind
                (λ q. blind_scale n c (shifters s.big i) (blind_state n (shifters s.big) i q))
                bp)
    blinds π = ap π (prepare-bp s rho x bp i)

    next_row : ℕ
    next_row = (j + 1) % n

    next_point : c ⊗ k.exp a ((j + 1) % n) ≡ a ⊗ (c ⊗ k.exp a j)
    next_point = ap (λ y. c ⊗ y) (next_power a n j h.root p) ∙ mul_left_comm _ _ _

    next_inside : (j + 1) % n < n
    next_inside = mod-lt (j + 1) (omega arith)

    row_eq :
        row_of s.evaluator.evaluate (context_of s rho at_row) at_row.bp j row
        ≡ point_row n a fs bp (c ⊗ k.exp a j)
    unfolding context_of
    row_eq t = record {
      l =
          (ap (λ y. y ⊕ s.evaluator.evaluate at_row.bp.bl (init_twiddles n s.twiddles j))
                (row_at id_l (omega arith))
              ∙ blind_sum (fs id_l) bp.bl at_row.bp.bl j (blinds (λ b. b.bl)) p)
            t;
      r =
          (ap (λ y. y ⊕ s.evaluator.evaluate at_row.bp.br (init_twiddles n s.twiddles j))
                (row_at id_r (omega arith))
              ∙ blind_sum (fs id_r) bp.br at_row.bp.br j (blinds (λ b. b.br)) p)
            t;
      o =
          (ap (λ y. y ⊕ s.evaluator.evaluate at_row.bp.bo (init_twiddles n s.twiddles j))
                (row_at id_o (omega arith))
              ∙ blind_sum (fs id_o) bp.bo at_row.bp.bo j (blinds (λ b. b.bo)) p)
            t;
      z =
          (ap (λ y. y ⊕ s.evaluator.evaluate at_row.bp.bz (init_twiddles n s.twiddles j))
                (row_at id_z (omega arith))
              ∙ blind_sum (fs id_z) bp.bz at_row.bp.bz j (blinds (λ b. b.bz)) p)
            t;
      z_next =
          (ap
                (λ y.
                  y ⊕ s.evaluator.evaluate at_row.bp.bz (init_twiddles n s.twiddles ((j + 1) % n)))
                (poly_at id_z ((j + 1) % n) (omega arith) next_inside)
              ∙ blind_sum (fs id_z) bp.bz at_row.bp.bz ((j + 1) % n) (blinds (λ b. b.bz))
                  next_inside
              ∙ ap (eval (get_blinded_coefficients (record { len = n; at = fs id_z }) bp.bz))
                  next_point)
            t;
      ql = row_at id_ql (omega arith) t;
      qr = row_at id_qr (omega arith) t;
      qm = row_at id_qm (omega arith) t;
      qo = row_at id_qo (omega arith) t;
      qk = row_at id_qk (omega arith) t;
      sigma1 = row_at id_s1 (omega arith) t;
      sigma2 = row_at id_s2 (omega arith) t;
      sigma3 = row_at id_s3 (omega arith) t;
      qcp = λ m. row_at (id_qci + 2 * m) (omega arith) t;
      pi = λ m. row_at (id_qci + 2 * m + 1) (omega arith) t;
    }

    coset_lem : at_row.coset ≡ c
    unfolding prepare prod
    coset_lem = ap (λ y. y ⊗ shifters s.big i) (loop_state-coset s rho x bp i)

    power_of_point : k.exp (c ⊗ k.exp a j) n ≡ k.exp c n
    power_of_point =
        mul-exp c (k.exp a j) n ∙ ap (λ y. k.exp c n ⊗ y) (root_of_power a n j h.root) ∙ mul-one _

    -- No denominator of the iteration is zero.
    point_ne_one : (t : ℕ) → t < n → (at_row.coset ⊗ init_twiddles n s.twiddles t) ⊖ k.one ≢ k.zero
    point_ne_one t q e = avoids i (omega arith) (
        ap (λ y. y ⊖ k.one)
          (sym (mul-one _)
            ∙ ap (λ y. k.exp c n ⊗ y) (sym (root_of_power a n t h.root))
            ∙ sym (mul-exp c (k.exp a t) n)
            ∙ ap (λ y. k.exp y n)
                (sym (ap₂ (λ y z. y ⊗ z) coset_lem (twiddle t q)) ∙ eq_of_sub _ _ e)
            ∙ one-exp n)
        ∙ sub_self k.one)

    denominators_lem :
        at_row.denominators j ≡ k.inverse ((at_row.coset ⊗ init_twiddles n s.twiddles j) ⊖ k.one)
    unfolding prepare
    denominators_lem =
        invert_denominators_lem s.num_cpu n _ (init_twiddles n s.twiddles) _ point_ne_one j p

    lagrange_lem :
        compute_lagrange_one_on_coset (context_of s rho at_row) j
        ≡ lagrange_one n s.small.cardinality_inv (c ⊗ k.exp a j)
    unfolding compute_lagrange_one_on_coset context_of
    lagrange_lem =
        ap₂ (λ y z. ((y ⊖ k.one) ⊗ s.small.cardinality_inv) ⊗ z)
          (ap (λ y. k.exp y n) coset_lem ∙ sym power_of_point)
          (denominators_lem
            ∙ ap (λ y. k.inverse (y ⊖ k.one)) (ap₂ (λ y z. y ⊗ z) coset_lem (twiddle j p)))

    point_lem : init_twiddles n s.twiddles j ⊗ at_row.coset ≡ c ⊗ k.exp a j
    point_lem = ap₂ (λ y z. y ⊗ z) (twiddle j p) coset_lem ∙ mul_comm _ _

    abbrev formula : (x lone : F) → Row F → F
    formula x lone v =
        (gate_polynomial s.nb_bsb_gates v
          ⊕ s.alpha
            ⊗ copy_polynomial x s.beta s.gamma s.big.fr_multiplicative_gen
                (s.big.fr_multiplicative_gen ⊗ s.big.fr_multiplicative_gen) v)
        ⊕ (s.alpha ⊗ s.alpha) ⊗ ((v.z ⊖ k.one) ⊗ lone)

    formula_at_point :
        formula
          (init_twiddles n s.twiddles j ⊗ at_row.coset)
          (compute_lagrange_one_on_coset (context_of s rho at_row) j)
          (row_of s.evaluator.evaluate (context_of s rho at_row) at_row.bp j row)
        ≡ constraint_at s fs bp (c ⊗ k.exp a j)
    formula_at_point t = formula (point_lem t) (lagrange_lem t) (row_eq t)

    all_constraints_at :
        all_constraints s.evaluator.evaluate (context_of s rho at_row) at_row.bp j row
        ≡ constraint_at s fs bp (c ⊗ k.exp a j)
    unfolding context_of
    all_constraints_at =
        all_constraints_lem s.evaluator.evaluate (context_of s rho at_row) at_row.bp j row
        ∙ formula_at_point

    -- Every polynomial but ZS has the form that `iop.Evaluate` expects.
    in_form :
        (id : ℕ) → id ≢ id_zs → ((at_row.x id).basis ≡ lagrange) × ((at_row.x id).layout ≡ regular)
    in_form id ne =
        let (r, b, l) =
          prepare-Represents s rho x bp i id (fs id) ne
            (loop_state-Represents s rho x bp i id (fs id) ne (h.represents id ne)) in
        (b, l)

    -- In iteration i, row j of the buffer is gates + α copy + α² (Z - 1) L₁ at the point
    -- X = coset * ωʲ, where coset is the product of the shifters up to i and ω generates the small
    -- domain of n elements, and L, R, O and Z are blinded by `getBlindedCoefficients`. The polynomials
    -- are given by their coefficients, in whatever form they are; ωⁿ = 1, and the cosets up to i do
    -- not meet the domain.
    pub buffer-constraint_at :
        buffer s rho (prepare s rho i (loop_state s rho i x bp)) j
        ≡ constraint_at s fs bp (prod (suc i) (shifters s.big) ⊗ k.exp s.small.generator j)
    unfolding buffer
    buffer-constraint_at = s.rows.evaluate_lem n _ at_row.x in_form j p ∙ all_constraints_at
