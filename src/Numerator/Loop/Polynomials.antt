-- ===== src/Numerator/Loop/Polynomials.antt =====
-- The polynomials of `s.x` in the iterations of the loop, and after the restoring.
use mathlib.Core.Path.{fun_ext}
use gnark_cuda.Prelude.{
  ℕ, zero, suc, ◌+◌, ◌^◌, ◌<◌, ◌≡◌, ◌≢◌, ◌∙◌, refl, sym, ap, ap₂, subst, arith, ne→==,
}
use gnark_cuda.Field.{Field, ◌⊗◌}
use gnark_cuda.Field.Ring.{mul_assoc, mul-one}
use gnark_cuda.Field.Exp.{mul-exp, one-exp}
use gnark_cuda.Sum.{prod, prod_ne_zero}
use gnark_cuda.Bits.{reverse_bits}
use gnark_cuda.Quotient.Divide.{
  Domain, canonical, lagrange, Layout, regular, bit_reverse, Polynomial,
}
use gnark_cuda.Transform.{Transform, Represents, position, entry}
use gnark_cuda.Transform.Scaled.{scaled_by, at-canonical}
use gnark_cuda.Numerator.{Blinds, id_zs}
use gnark_cuda.Numerator.Restore.{scale_powers_lem}
use gnark_cuda.Numerator.Cosets.{shifter_product_lem, inverse_cancels, from_second}
use gnark_cuda.Numerator.Loop.{
  Vectors, Setting, shifters, choose, multiply, scale_polynomial, restore_polynomial, next_vectors,
  prepare, iteration, loop_state,
}

module _ {F : Type 0} ⦃k : Field F⦄ where
  -- The two scaling vectors hold the powers of a, in order and in bit-reversed order.
  pub record Scales (w : ℕ) (v : Vectors F) (a : F) : Type 0 where
    pub in_order : (j : ℕ) → j < 2 ^ w → v.in_order j ≡ k.exp a j
    pub reversed : (j : ℕ) → j < 2 ^ w → v.reversed (reverse_bits w j) ≡ k.exp a j

  choose_lem :
      (l : Layout) (w : ℕ) (v : Vectors F) (a : F)
      → Scales w v a
      → (j : ℕ) → j < 2 ^ w
      → choose l v (position l w j) ≡ k.exp a j
  choose_lem regular w v a h j p = h.in_order j p
  choose_lem bit_reverse w v a h j p = h.reversed j p

  module _ {d : Domain F} {w : ℕ} (t : Transform d w) where
    multiply-Represents :
        (p : Polynomial F) (f : ℕ → F) (v : Vectors F) (a : F)
        → Represents d w p f
        → p.basis ≡ canonical
        → Scales w v a
        → Represents d w
            (record p { coefficients = multiply p.coefficients (choose p.layout v) })
            (scaled_by a f)
    multiply-Represents p f v a r b h = record {
      len = r.len;
      entries = λ j q.
          ap₂ (λ x y. x ⊗ y) (at-canonical r b j q) (choose_lem p.layout w v a h j q)
          ∙ ap (λ b. entry d b (2 ^ w) (scaled_by a f) j) (sym b);
    }

    -- The body of `batchApply` turns a polynomial in any form that represents f into one in Lagrange
    -- form and in order that represents f (a X).
    pub scale_polynomial_lem :
        (p : Polynomial F) (f : ℕ → F) (v : Vectors F) (a : F)
        → Represents d w p f
        → Scales w v a
        → Represents d w (scale_polynomial t v p) (scaled_by a f)
          × ((scale_polynomial t v p).basis ≡ lagrange)
          × ((scale_polynomial t v p).layout ≡ regular)
    unfolding scale_polynomial
    scale_polynomial_lem p f v a r h =
        let (rc, b) = t.to_canonical_lem p f r in
        let (rl, bl) =
          t.to_lagrange_lem _ _ (multiply-Represents (t.to_canonical p) f v a rc b h) in
        let (rr, br, lr) = t.to_regular_lem _ _ rl in (rr, br ∙ bl, lr)

    -- After the loop, coefficient j of the restored polynomial is the original one.
    pub restore_polynomial_lem :
        (rounds : ℕ) (sh : ℕ → F) (p : Polynomial F) (f : ℕ → F)
        → Represents d w p (scaled_by (prod (suc rounds) (λ u. sh (0 + u))) f)
        → ((i : ℕ) → i < suc rounds → sh i ≢ k.zero)
        → ((restore_polynomial t rounds sh p).basis ≡ canonical)
          × ((restore_polynomial t rounds sh p).layout ≡ regular)
          × ((j : ℕ) → j < 2 ^ w → (restore_polynomial t rounds sh p).coefficients.at j ≡ f j)
    unfolding restore_polynomial
    restore_polynomial_lem rounds sh p f r nz =
        let (rc, b) = t.to_canonical_lem p _ r in
        let (rr, br, lr) = t.to_regular_lem _ _ rc in
        (
          br ∙ b,
          lr,
          λ j q.
              scale_powers_lem (t.to_regular (t.to_canonical p)).coefficients _ j
                (omega (arith, rr.len))
              ∙ ap₂ (λ x y. x ⊗ k.exp (k.inverse y) j)
                  (ap (λ l. (t.to_regular (t.to_canonical p)).coefficients.at (position l w j))
                      (sym lr)
                    ∙ at-canonical rr (br ∙ b) j q)
                  (shifter_product_lem rounds 0 sh (sh 0) ∙ sym (from_second 0 rounds sh))
              ∙ inverse_cancels (f j) _ j (
                  prod_ne_zero (suc rounds) (λ u. sh (0 + u))
                    (λ i p e. nz (0 + i) (omega arith) e)),
        )

  scaled_by-scaled_by : (a b : F) (f : ℕ → F) → scaled_by b (scaled_by a f) ≡ scaled_by (a ⊗ b) f
  scaled_by-scaled_by a b f =
      fun_ext (λ t. mul_assoc _ _ _ ∙ ap (λ x. f t ⊗ x) (sym (mul-exp a b t)))

  scaled_by-one : (f : ℕ → F) → scaled_by k.one f ≡ f
  scaled_by-one f = fun_ext (λ t. ap (λ x. f t ⊗ x) (one-exp t) ∙ mul-one _)

  module _ (s : Setting F k) (rho : ℕ) (x : ℕ → Polynomial F) (bp : Blinds F) where
    pub loop_state-coset : (i : ℕ) → (loop_state s rho i x bp).coset ≡ prod i (shifters s.big)
    unfolding loop_state iteration prepare prod
    loop_state-coset zero = refl
    loop_state-coset (suc i) = ap (λ c. c ⊗ shifters s.big i) (loop_state-coset i)

    first_vectors :
        Scales s.w (next_vectors s rho 0 (loop_state s rho 0 x bp).vectors) (shifters s.big 0)
    unfolding loop_state next_vectors
    first_vectors = record {
      in_order = s.tables.coset_table_lem;
      reversed = λ j p. s.tables.reverse_lem _ j p ∙ s.tables.coset_table_lem j p;
    }

    second_vectors : (v : Vectors F) → Scales s.w (next_vectors s rho 1 v) (shifters s.big 1)
    unfolding next_vectors
    second_vectors v = record {
      in_order = s.tables.build_exp_table_lem s.big.generator;
      reversed =
          λ j p. s.tables.reverse_lem _ j p ∙ s.tables.build_exp_table_lem s.big.generator j p;
    }

    later_vectors : (i : ℕ) (v : Vectors F) → next_vectors s rho (suc (suc i)) v ≡ v
    unfolding next_vectors
    later_vectors i v = rw (ne→== (suc (suc i)) 1 (omega arith))

    later_shifter : (i : ℕ) → shifters s.big (suc i) ≡ s.big.generator
    later_shifter i = rw (ne→== (suc i) 0 (omega arith))

    loop_state-vectors :
        (i : ℕ)
        → (loop_state s rho (suc i) x bp).vectors
          ≡ next_vectors s rho i (loop_state s rho i x bp).vectors
    unfolding loop_state iteration prepare
    loop_state-vectors i = refl

    -- In iteration i the scaling vectors hold the powers of shifter i.
    pub vectors-Scales :
        (i : ℕ)
        → Scales s.w (next_vectors s rho i (loop_state s rho i x bp).vectors) (shifters s.big i)
    vectors-Scales zero = first_vectors
    vectors-Scales (suc zero) = second_vectors _
    vectors-Scales (suc (suc i)) =
        subst (λ v. Scales s.w v (shifters s.big (suc (suc i))))
          (sym (later_vectors i _ ∙ loop_state-vectors (suc i)))
          (subst (Scales s.w (next_vectors s rho (suc i) (loop_state s rho (suc i) x bp).vectors))
            (later_shifter i ∙ sym (later_shifter (suc i))) (vectors-Scales (suc i)))

    prepare-x :
        (i id : ℕ)
        → id ≢ id_zs
        → (prepare s rho i (loop_state s rho i x bp)).x id
          ≡ scale_polynomial s.transform
              (next_vectors s rho i (loop_state s rho i x bp).vectors)
              ((loop_state s rho i x bp).x id)
    unfolding prepare
    prepare-x i id ne = rw (ne→== id id_zs ne)

    loop_state-x :
        (i : ℕ) → (loop_state s rho (suc i) x bp).x ≡ (prepare s rho i (loop_state s rho i x bp)).x
    unfolding loop_state iteration
    loop_state-x i = refl

    -- In iteration i the polynomial of index id is in Lagrange form and in order, and represents
    -- f (c X) with the product c of the shifters up to i.
    pub prepare-Represents :
        (i id : ℕ) (f : ℕ → F)
        → id ≢ id_zs
        → Represents s.small s.w
            ((loop_state s rho i x bp).x id)
            (scaled_by (prod i (shifters s.big)) f)
        → Represents s.small s.w
            ((prepare s rho i (loop_state s rho i x bp)).x id)
            (scaled_by (prod (suc i) (shifters s.big)) f)
          × (((prepare s rho i (loop_state s rho i x bp)).x id).basis ≡ lagrange)
          × (((prepare s rho i (loop_state s rho i x bp)).x id).layout ≡ regular)
    unfolding prod
    prepare-Represents i id f ne q =
        let (rs, b, l) = scale_polynomial_lem s.transform _ _ _ _ q (vectors-Scales i) in
        rw (prepare-x i id ne) (
          subst (Represents s.small s.w _)
              (scaled_by-scaled_by (prod i (shifters s.big)) (shifters s.big i) f) rs,
          b,
          l,
        )

    pub loop_state-Represents :
        (i id : ℕ) (f : ℕ → F)
        → id ≢ id_zs
        → Represents s.small s.w (x id) f
        → Represents s.small s.w
            ((loop_state s rho i x bp).x id)
            (scaled_by (prod i (shifters s.big)) f)
    loop_state-Represents zero id f ne r =
        unfold loop_state prod in subst (Represents s.small s.w (x id)) (sym (scaled_by-one f)) r
    loop_state-Represents (suc i) id f ne r =
        subst (λ y. Represents s.small s.w (y id) (scaled_by (prod (suc i) (shifters s.big)) f))
          (sym (loop_state-x i))
          (prepare-Represents i id f ne (loop_state-Represents i id f ne r)).0
