-- ===== src/Examples/Transforms.antt =====
-- The methods that change the form of a polynomial, mod 17 on the domain of two elements.
use gnark_cuda.Prelude.{ℕ, zero, suc, ◌<◌, ◌≡◌, ◌∙◌, refl, sym, ap, ap₂, arith}
use gnark_cuda.Field.{◌⊕◌, ◌⊗◌, ◌⊖◌}
use gnark_cuda.Field.Seventeen.{F17, f17, reduce, val, eq_of_val}
use gnark_cuda.Field.Seventeen
use gnark_cuda.Field.Exp.{exp-one}
use gnark_cuda.Field.Ring.{ring, one-mul}
use gnark_cuda.Sum.{sum}
use gnark_cuda.Poly.{value}
use gnark_cuda.Bits.{reverse_bits}
use gnark_cuda.Quotient.Divide.{
  Basis, canonical, lagrange, lagrange_coset, Layout, regular, bit_reverse, Polynomial,
}
use gnark_cuda.Transform.{position, entry, Represents, Transform}
use gnark_cuda.Examples.Polynomials.{small_domain}

abbrev pub pair : F17 → F17 → ℕ → F17
pair a b zero = a
pair a b (suc i) = b

-- Half of the sum and half of the difference.
abbrev pub mean : F17 → F17 → F17
mean a b = reduce 9 ⊗ (a ⊕ b)

abbrev pub half_difference : F17 → F17 → F17
half_difference a b = reduce 9 ⊗ (a ⊖ b)

abbrev pub coefficients_of : Basis → (ℕ → F17) → ℕ → F17
coefficients_of canonical v = v
coefficients_of lagrange v = pair (mean (v 0) (v 1)) (half_difference (v 0) (v 1))
coefficients_of lagrange_coset v = pair (mean (v 0) (v 1)) (reduce 6 ⊗ half_difference (v 0) (v 1))

abbrev pub values_of : (ℕ → F17) → ℕ → F17
values_of c = pair (c 0 ⊕ c 1) (c 0 ⊖ c 1)

mean_lem : (a b : F17) → mean (a ⊕ b) (a ⊖ b) ≡ a
unfolding Seventeen.mul Seventeen.sub Seventeen.add Seventeen.neg reduce
mean_lem a b = eq_of_val (omega (arith, a.1, b.1))

half_difference_lem : (a b : F17) → half_difference (a ⊕ b) (a ⊖ b) ≡ b
unfolding Seventeen.mul Seventeen.sub Seventeen.add Seventeen.neg reduce
half_difference_lem a b = eq_of_val (omega (arith, a.1, b.1))

third_lem : (a : F17) → reduce 6 ⊗ (reduce 3 ⊗ a) ≡ a
unfolding Seventeen.mul reduce
third_lem a = eq_of_val (omega (arith, a.1))

value_two : (f : ℕ → F17) (y : F17) → value 2 f y ≡ f 0 ⊕ (f 1 ⊗ y)
unfolding sum
value_two f y =
    ap₂ (λ a b. (f17.zero ⊕ (f 0 ⊗ a)) ⊕ (f 1 ⊗ b)) (f17.exp-zero y) (exp-one y)
    ∙ first_term (f 0) (f 1 ⊗ y)
  where
    first_term : (a b : F17) → (f17.zero ⊕ (a ⊗ f17.one)) ⊕ b ≡ a ⊕ b
    first_term a b = simp ring

minus_one : f17.exp (reduce 16) 1 ≡ f17.neg f17.one
unfolding Seventeen.exp Seventeen.mul Seventeen.neg reduce
minus_one = eq_of_val refl

value_first : (f : ℕ → F17) (g : F17) → value 2 f (g ⊗ f17.exp (reduce 16) 0) ≡ f 0 ⊕ (g ⊗ f 1)
value_first f g =
    ap (λ a. value 2 f (g ⊗ a)) (f17.exp-zero (reduce 16)) ∙ value_two f _ ∙ swap (f 0) (f 1) g
  where
    swap : (a b g : F17) → a ⊕ (b ⊗ (g ⊗ f17.one)) ≡ a ⊕ (g ⊗ b)
    swap a b g = simp ring

value_second : (f : ℕ → F17) (g : F17) → value 2 f (g ⊗ f17.exp (reduce 16) 1) ≡ f 0 ⊖ (g ⊗ f 1)
value_second f g = ap (λ a. value 2 f (g ⊗ a)) minus_one ∙ value_two f _ ∙ swap (f 0) (f 1) g
  where
    swap : (a b g : F17) → a ⊕ (b ⊗ (g ⊗ f17.neg f17.one)) ≡ a ⊖ (g ⊗ b)
    swap a b g = simp ring

-- In all forms the two entries stand in order.
position_lem : (l : Layout) (i : ℕ) → i < 2 → position l 1 i ≡ i
unfolding reverse_bits
position_lem regular i p = refl
position_lem bit_reverse zero p = refl
position_lem bit_reverse (suc zero) p = refl
position_lem bit_reverse (suc (suc i)) p = absurd (omega arith)

module _ (p : Polynomial F17) (f : ℕ → F17) (r : Represents small_domain 1 p f) where
  pub entries : (i : ℕ) → i < 2 → p.coefficients.at i ≡ entry small_domain p.basis 2 f i
  entries i q = ap p.coefficients.at (sym (position_lem p.layout i q)) ∙ r.entries i q

  lagrange_entry :
      (g : F17) (v : ℕ → F17)
      → ((i : ℕ) → i < 2 → v i ≡ value 2 f (g ⊗ f17.exp (reduce 16) i))
      → (mean (v 0) (v 1) ≡ f 0) × (half_difference (v 0) (v 1) ≡ g ⊗ f 1)
  lagrange_entry g v h =
      let e = h 0 (omega arith) ∙ value_first f g in
      let e' = h 1 (omega arith) ∙ value_second f g in
      (ap₂ mean e e' ∙ mean_lem _ _, ap₂ half_difference e e' ∙ half_difference_lem _ _)

  pub coefficients_of_lem :
      (b : Basis) (v : ℕ → F17)
      → ((i : ℕ) → i < 2 → v i ≡ entry small_domain b 2 f i)
      → (coefficients_of b v 0 ≡ f 0) × (coefficients_of b v 1 ≡ f 1)
  coefficients_of_lem canonical v h = (h 0 (omega arith), h 1 (omega arith))
  coefficients_of_lem lagrange v h =
      let (a, b) = lagrange_entry f17.one v (λ i q. h i q ∙ ap (value 2 f) (sym (one-mul _))) in
      (a, b ∙ one-mul (f 1))
  coefficients_of_lem lagrange_coset v h =
      let (a, b) = lagrange_entry (reduce 3) v h in (a, ap (λ y. reduce 6 ⊗ y) b ∙ third_lem (f 1))

  pub in_two :
      (v : ℕ → F17) (b : Basis) (l : Layout)
      → v 0 ≡ entry small_domain b 2 f 0
      → v 1 ≡ entry small_domain b 2 f 1
      → Represents small_domain 1
          (record {
            coefficients = record { len = p.coefficients.len; at = v };
            basis = b;
            layout = l;
          })
          f
  in_two v b l e e' = record { len = r.len; entries = λ i q. ap v (position_lem l i q) ∙ each i q }
    where
      each : (i : ℕ) → i < 2 → v i ≡ entry small_domain b 2 f i
      each zero q = e
      each (suc zero) q = e'
      each (suc (suc i)) q = absurd (omega arith)

  pub to_values :
      (c : ℕ → F17)
      → c 0 ≡ f 0
      → c 1 ≡ f 1
      → (c 0 ⊕ c 1 ≡ value 2 f (f17.exp (reduce 16) 0))
        × (c 0 ⊖ c 1 ≡ value 2 f (f17.exp (reduce 16) 1))
  to_values c e e' = (
    ap₂ (λ a b. a ⊕ b) e e'
        ∙ ap (λ b. f 0 ⊕ b) (sym (one-mul (f 1)))
        ∙ sym (value_first f f17.one)
        ∙ ap (value 2 f) (one-mul _),
    ap₂ (λ a b. a ⊖ b) e e'
        ∙ ap (λ b. f 0 ⊖ b) (sym (one-mul (f 1)))
        ∙ sym (value_second f f17.one)
        ∙ ap (value 2 f) (one-mul _),
  )

abbrev pub to_canonical : Polynomial F17 → Polynomial F17
to_canonical p = record {
  coefficients = record {
    len = p.coefficients.len;
    at = coefficients_of p.basis p.coefficients.at;
  };
  basis = canonical;
  layout = p.layout;
}

abbrev pub to_lagrange : Polynomial F17 → Polynomial F17
to_lagrange p = record {
  coefficients = record {
    len = p.coefficients.len;
    at = values_of (coefficients_of p.basis p.coefficients.at);
  };
  basis = lagrange;
  layout = p.layout;
}

abbrev pub to_regular : Polynomial F17 → Polynomial F17
to_regular p = record {
  coefficients = record { len = p.coefficients.len; at = p.coefficients.at };
  basis = p.basis;
  layout = regular;
}

abbrev pub transform : Transform small_domain 1
transform = record {
  to_canonical = to_canonical;
  to_lagrange = to_lagrange;
  to_regular = to_regular;
  to_canonical_lem = λ p f r.
      let (a, b) = coefficients_of_lem p f r p.basis p.coefficients.at (entries p f r) in
      (in_two p f r (coefficients_of p.basis p.coefficients.at) canonical p.layout a b, refl);
  to_lagrange_lem = λ p f r.
      let (a, b) = coefficients_of_lem p f r p.basis p.coefficients.at (entries p f r) in
      let (u, v) = to_values p f r (coefficients_of p.basis p.coefficients.at) a b in
      (
        in_two p f r (values_of (coefficients_of p.basis p.coefficients.at)) lagrange p.layout u v,
        refl,
      );
  to_regular_lem = λ p f r. (
    in_two p f r p.coefficients.at p.basis regular (entries p f r 0 (omega arith))
        (entries p f r 1 (omega arith)),
    refl,
    refl,
  );
}
