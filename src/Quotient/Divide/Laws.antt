-- ===== src/Quotient/Divide/Laws.antt =====
-- Division by Xⁿ - 1, value by value, on the coset of the large domain.
use native.Mathlib.Nat.{mod-lt, mod-add-div}
use native.Mathlib.Decide.{dec_lt}
use gnark_cuda.Prelude.{
  ℕ, zero, suc, ◌+◌, ◌-◌, ◌*◌, ◌/◌, ◌%◌, ◌^◌, ◌<◌, ◌≡◌, ◌≢◌, ◌∙◌, sym, ap, arith, inl, inr,
}
use gnark_cuda.Field.{Field, ◌⊗◌, ◌⊖◌}
use gnark_cuda.Field.Ring.{ring, mul-one, mul_assoc}
use gnark_cuda.Field.Exp.{exp-zero, exp-suc, exp-mul, mul-exp, inverse-mul_self, mul-exp_mod_cycle}
use gnark_cuda.Slice.{Slice, update, update_self, update_ne}
use gnark_cuda.Bits.{reversed_index, reverse_bits}
use gnark_cuda.Bits.Reverse.{reversed_index-pow, reverse_bits-reverse_bits, reverse_bits-lt}
use gnark_cuda.BatchInvert.Products.{update_cases}
use gnark_cuda.Quotient.Divide.{
  Domain, BatchInverter, powers_loop, evaluate_xn_minus_one, divide_coefficients,
}

module _ {F : Type 0} ⦃k : Field F⦄ where
  powers_loop_lem :
      (rounds i : ℕ) (a t : F) (res : ℕ → F)
      → ((j : ℕ) → j < i → res j ≡ (a ⊗ k.exp t j) ⊖ k.one)
      → res i ≡ a ⊗ k.exp t i
      → ((j : ℕ) → j < i + rounds → powers_loop rounds i t res j ≡ (a ⊗ k.exp t j) ⊖ k.one)
        × (powers_loop rounds i t res (i + rounds) ≡ a ⊗ k.exp t (i + rounds))
  unfolding powers_loop
  powers_loop_lem zero i a t res below here =
      let e : i + 0 ≡ i = omega arith in ((λ j p. below j (omega arith)), rw e here)
  powers_loop_lem (suc rounds) i a t res below here =
      let next = update res (suc i) (res i ⊗ t) in
      let same : next i ≡ res i = update_ne res (suc i) i _ (omega arith) in
      let (b, h) =
        powers_loop_lem rounds (suc i) a t (update next i (next i ⊖ k.one))
          (λ j p. elim (update_cases next i j (next i ⊖ k.one)) [
            | inl (e, q) ↦ q ∙ ap (λ x. x ⊖ k.one) (same ∙ here ∙ ap (λ x. a ⊗ k.exp t x) (sym e))
            | inr (d, q) ↦ q ∙ update_ne res (suc i) j _ (omega arith) ∙ below j (omega arith)
          ])
          (update_ne next i (suc i) _ (omega arith)
            ∙ update_self res (suc i) _
            ∙ ap (λ x. x ⊗ t) here
            ∙ rw (exp-suc t i) (simp ring)) in
      let e : i + suc rounds ≡ suc i + rounds = omega arith in ((λ j p. b j (omega arith)), rw e h)

  module _ (small big : Domain F) where
    -- (g * ω ^ i) ^ n - 1, for the generators g and ω of the large domain and n of the small one.
    abbrev pub zh_on_coset : ℕ → F
    zh_on_coset i =
        k.exp (big.fr_multiplicative_gen ⊗ k.exp big.generator i) small.cardinality ⊖ k.one

    abbrev pub rho : ℕ
    rho = big.cardinality / small.cardinality

    zh_power :
        (i : ℕ)
        → (k.exp big.fr_multiplicative_gen small.cardinality
              ⊗ k.exp (k.exp big.generator small.cardinality) i)
            ⊖ k.one
          ≡ zh_on_coset i
    zh_power i =
        ap (λ x. x ⊖ k.one)
          (sym (
            mul-exp big.fr_multiplicative_gen (k.exp big.generator i) small.cardinality
            ∙ ap (λ x. k.exp big.fr_multiplicative_gen small.cardinality ⊗ x)
                (sym (exp-mul big.generator i small.cardinality)
                  ∙ ap (k.exp big.generator) {y = small.cardinality * i} (omega arith)
                  ∙ exp-mul big.generator small.cardinality i)))

    -- Entry i is the inverse of the value of Xⁿ - 1 at g * ω ^ i.
    pub evaluate_xn_minus_one-inverse :
        (inv : BatchInverter k) (i : ℕ)
        → i < rho
        → evaluate_xn_minus_one inv small big i ≡ k.inverse (zh_on_coset i)
    unfolding evaluate_xn_minus_one
    evaluate_xn_minus_one-inverse inv i p =
        inv.invert_lem rho _ i p
        ∙ ap k.inverse (
            elim (update_cases res last i (res last ⊖ k.one)) [
              | inl (e, h) ↦
                  h ∙ ap (λ x. x ⊖ k.one) (loop.1 ∙ ap (λ x. a ⊗ k.exp t x) {y = i} (omega arith))
              | inr (d, h) ↦ h ∙ loop.0 i (omega arith)
            ]
            ∙ zh_power i)
      where
        a : F
        a = k.exp big.fr_multiplicative_gen small.cardinality

        t : F
        t = k.exp big.generator small.cardinality

        last : ℕ
        last = rho - 1

        start : ℕ → F
        start = update (λ _. k.zero) 0 a

        res : ℕ → F
        res = powers_loop last 0 t start

        first : start 0 ≡ a ⊗ k.exp t 0
        first = update_self (λ _. k.zero) 0 a ∙ sym (rw (exp-zero t) (mul-one a))

        loop_from :
            ((j : ℕ) → j < 0 + last → res j ≡ (a ⊗ k.exp t j) ⊖ k.one)
            × (res (0 + last) ≡ a ⊗ k.exp t (0 + last))
        loop_from = powers_loop_lem last 0 a t start (λ j q. absurd (omega arith)) first

        loop :
            ((j : ℕ) → j < last → res j ≡ (a ⊗ k.exp t j) ⊖ k.one) × (res last ≡ a ⊗ k.exp t last)
        loop =
            let e : 0 + last ≡ last = omega arith in
            ((λ j q. loop_from.0 j (omega arith)), rw e at loop_from.1)

    -- The two domains as `newInstance` builds them: the large one refines the small one, and
    -- Xⁿ - 1 has no zero on the coset, where it takes rho values.
    pub record IsRefinement : Type 0 where
      pub small_pos : 0 < small.cardinality
      pub big_pos : 0 < big.cardinality
      pub divides : big.cardinality % small.cardinality ≡ 0
      pub root : k.exp big.generator big.cardinality ≡ k.one
      pub no_zero : (i : ℕ) → i < rho → zh_on_coset i ≢ k.zero

    module _ (d : IsRefinement) where
      pub rho-mul : small.cardinality * rho ≡ big.cardinality
      rho-mul = omega (arith, mod-add-div big.cardinality small.cardinality, d.divides)

      pub rho_pos : 0 < rho
      rho_pos = elim (dec_lt 0 rho) [
        | yes p ↦ p
        | no p ↦
            let e : rho ≡ 0 = omega arith in
            let z : small.cardinality * rho ≡ 0 = rw e (omega arith) in
            absurd (omega (arith, rho-mul, z, d.big_pos))
      ]

      -- Xⁿ - 1 takes only rho values on the coset.
      pub zh_on_coset-mod : (i : ℕ) → zh_on_coset (i % rho) ≡ zh_on_coset i
      zh_on_coset-mod i =
          sym (zh_power (i % rho))
          ∙ ap (λ x. (k.exp big.fr_multiplicative_gen small.cardinality ⊗ x) ⊖ k.one)
              (sym (
                  mul-exp_mod_cycle t rho (i % rho)
                    (sym (exp-mul big.generator small.cardinality rho)
                      ∙ ap (k.exp big.generator) rho-mul
                      ∙ d.root)
                    (i / rho))
                ∙ ap (k.exp t) {y = i} (omega (arith, mod-add-div i rho)))
          ∙ zh_power i
        where
          t : F
          t = k.exp big.generator small.cardinality

      -- For a large domain that refines the small one and whose coset does not meet it, and a vector
      -- of 2 ^ w values in bit-reversed order, w < 64: the entry for the coset point g * ω ^ i, times
      -- the value of Xⁿ - 1 at that point, is the entry that was there before.
      pub divide_coefficients-zh :
          (inv : BatchInverter k) (w : ℕ) (r : Slice F)
          → w < 64
          → r.len ≡ 2 ^ w
          → (i : ℕ) → i < 2 ^ w
          → (divide_coefficients inv small big r).at (reverse_bits w i) ⊗ zh_on_coset i
            ≡ r.at (reverse_bits w i)
      unfolding divide_coefficients
      divide_coefficients-zh inv w r small_w e i p =
          ap
            (λ x.
              (r.at (reverse_bits w i) ⊗ evaluate_xn_minus_one inv small big (x % rho))
              ⊗ zh_on_coset i)
            where_it_was
          ∙ ap (λ x. (r.at (reverse_bits w i) ⊗ x) ⊗ zh_on_coset i)
              (evaluate_xn_minus_one-inverse inv (i % rho) (mod-lt i rho_pos)
                ∙ ap k.inverse (zh_on_coset-mod i))
          ∙ mul_assoc _ _ _
          ∙ ap (λ x. r.at (reverse_bits w i) ⊗ x)
              (inverse-mul_self (zh_on_coset i)
                (λ e. d.no_zero (i % rho) (mod-lt i rho_pos) (zh_on_coset-mod i ∙ e)))
          ∙ mul-one _
        where
          where_it_was : reversed_index r.len (reverse_bits w i) ≡ i
          where_it_was =
              ap (λ x. reversed_index x (reverse_bits w i)) e
              ∙ reversed_index-pow w (reverse_bits w i) small_w (reverse_bits-lt w i)
              ∙ reverse_bits-reverse_bits w i p
