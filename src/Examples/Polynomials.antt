-- ===== src/Examples/Polynomials.antt =====
-- Blinding, shards, division and linearization on small polynomials mod 17.
use gnark_cuda.Prelude.{
  ℕ, zero, suc, ◌+◌, ◌*◌, ◌^◌, ◌≤◌, ◌<◌, ◌≡◌, ◌≢◌, refl, ap, arith, true, none,
}
use gnark_cuda.Field.{◌⊕◌, ◌⊗◌, ◌⊖◌}
use gnark_cuda.Field.Seventeen.{F17, f17, reduce, val, eq_of_val}
use gnark_cuda.Field.Seventeen
use gnark_cuda.Slice.{Slice}
use gnark_cuda.Sum.{sum}
use gnark_cuda.Outcome.{ok, panic}
use gnark_cuda.Poly.{eval, value}
use gnark_cuda.Bits.{reversed_index, reverse_bits}
use gnark_cuda.Bits.Reverse.{reversed_index-pow}
use gnark_cuda.Blinding.{get_blinded_coefficients, evaluate_blinded}
use gnark_cuda.Blinding.Laws.{eval-blinded, evaluate_blinded-eval}
use gnark_cuda.Quotient.{h1, h2, h3, domain_cardinalities}
use gnark_cuda.Quotient.Shards.{HasLengths, Recombines, shards-eval}
use gnark_cuda.Quotient.Domains.{small, big, quotient_fits, one_row_panics}
use gnark_cuda.Quotient.Divide.{Domain, divide_coefficients}
use gnark_cuda.Quotient.Divide.Laws.{IsRefinement, zh_on_coset, divide_coefficients-zh}
use gnark_cuda.Linearized.{Challenges, Openings, Trace, Gates, inner_compute_linearized_poly}
use gnark_cuda.Linearized.Terms.{HasOneLength}
use gnark_cuda.Linearized.Opened.{opened_row, linearized_at}
use gnark_cuda.Linearized.Main.{linearized-eval}
use gnark_cuda.Linearized.Verified.{completed_constraint, verifier_constant, linearized-constant}
use gnark_cuda.Examples.Instances.{evaluator, inverter}
use gnark_cuda.Examples.Rounding.{round_up, round_up-IsPowerRounding}

-- n coefficients 1, 2, …
abbrev ramp : ℕ → Slice F17
ramp n = record { len = n; at = λ i. reduce (i + 1) }

eval-blinded_example :
    eval (get_blinded_coefficients (ramp 4) (ramp 2)) (reduce 3)
    ≡ eval (ramp 4) (reduce 3) ⊕ (f17.exp (reduce 3) 4 ⊖ f17.one) ⊗ eval (ramp 2) (reduce 3)
eval-blinded_example = eval-blinded (ramp 4) (ramp 2) (reduce 3)

evaluate_blinded-eval_example :
    evaluate_blinded evaluator (ramp 4) (ramp 2) (reduce 3)
    ≡ eval (get_blinded_coefficients (ramp 4) (ramp 2)) (reduce 3)
evaluate_blinded-eval_example = evaluate_blinded-eval evaluator (ramp 4) (ramp 2) (reduce 3)

shards-eval_example :
    (s1 : Slice F17) × (s2 : Slice F17) × (s3 : Slice F17) × (h1 true 1 (reduce 5) (ramp 9) ≡ ok s1)
    × (h2 true 1 (reduce 5) (reduce 6) (ramp 9) ≡ ok s2)
    × (h3 true 1 (reduce 6) (ramp 9) ≡ ok s3)
    × HasLengths true 1 s1 s2 s3
    × Recombines 1 (ramp 9) s1 s2 s3
shards-eval_example = shards-eval true 1 (reduce 5) (reduce 6) (ramp 9) (omega arith)

quotient_fits_example : 3 * (small round_up-IsPowerRounding 5 + 2) ≤ big round_up-IsPowerRounding 5
quotient_fits_example = quotient_fits round_up-IsPowerRounding 5 (omega arith)

one_row_is_eight : big round_up-IsPowerRounding 1 ≡ 8
unfolding domain_cardinalities round_up
one_row_is_eight = refl

one_row_panics_example :
    h3 true
      (small round_up-IsPowerRounding 1)
      (reduce 6)
      (record { len = big round_up-IsPowerRounding 1; at = λ i. reduce i })
    ≡ panic
one_row_panics_example =
    one_row_panics round_up-IsPowerRounding true (reduce 6)
      (record { len = big round_up-IsPowerRounding 1; at = λ i. reduce i }) refl

reversed_index-pow_example : reversed_index (2 ^ 3) 6 ≡ reverse_bits 3 6
reversed_index-pow_example = reversed_index-pow 3 6 (omega arith) (omega arith)

reverse_runs : reverse_bits 3 6 ≡ 3
unfolding reverse_bits
reverse_runs = refl

-- Domains of 2 and 8 elements; 2 has order 8, and 3 generates all units.
abbrev pub small_domain : Domain F17
small_domain = record {
  cardinality = 2;
  cardinality_inv = reduce 9;
  generator = reduce 16;
  fr_multiplicative_gen = reduce 3;
}

abbrev pub big_domain : Domain F17
big_domain = record {
  cardinality = 8;
  cardinality_inv = reduce 15;
  generator = reduce 2;
  fr_multiplicative_gen = reduce 3;
}

zh_ne_zero : (i : ℕ) → i < 4 → zh_on_coset small_domain big_domain i ≢ f17.zero
unfolding Seventeen.exp Seventeen.mul Seventeen.sub Seventeen.neg Seventeen.add reduce
zh_ne_zero zero p e = absurd (omega (arith, ap val e))
zh_ne_zero (suc zero) p e = absurd (omega (arith, ap val e))
zh_ne_zero (suc (suc zero)) p e = absurd (omega (arith, ap val e))
zh_ne_zero (suc (suc (suc zero))) p e = absurd (omega (arith, ap val e))
zh_ne_zero (suc (suc (suc (suc i)))) p e = absurd (omega arith)

two_is_root : f17.exp (reduce 2) 8 ≡ f17.one
unfolding Seventeen.exp Seventeen.mul reduce
two_is_root = eq_of_val refl

pub refined : IsRefinement small_domain big_domain
refined = record {
  small_pos = omega arith;
  big_pos = omega arith;
  divides = refl;
  root = two_is_root;
  no_zero = zh_ne_zero;
}

divide_coefficients-zh_example :
    (divide_coefficients inverter small_domain big_domain (ramp 8)).at (reverse_bits 3 5)
      ⊗ zh_on_coset small_domain big_domain 5
    ≡ (ramp 8).at (reverse_bits 3 5)
divide_coefficients-zh_example =
    divide_coefficients-zh small_domain big_domain refined inverter 3 (ramp 8) (omega arith) refl 5
      (omega arith)

abbrev challenges : Challenges F17
challenges = record { alpha = reduce 2; beta = reduce 3; gamma = reduce 5; zeta = reduce 7 }

abbrev openings : Openings F17
openings = record { l_zeta = reduce 4; r_zeta = reduce 6; o_zeta = reduce 8; zu = reduce 9 }

abbrev trace : Trace F17
trace = record {
  ql = ramp 1;
  qr = ramp 1;
  qm = ramp 1;
  qo = ramp 1;
  qk = ramp 1;
  s1 = ramp 1;
  s2 = ramp 1;
  s3 = ramp 1;
}

abbrev gates : Gates F17
gates = record { count = 1; qcp_zeta = λ _. reduce 11; pi2 = λ _. ramp 1 }

one_length : HasOneLength trace gates
one_length = record {
  ql_len = refl;
  qr_len = refl;
  qo_len = refl;
  qk_len = refl;
  pi2_len = λ j p. refl;
}

linearized-eval_example :
    (out : Slice F17) × (inner_compute_linearized_poly evaluator 1
        (reduce 1)
        (reduce 3)
        challenges
        openings
        trace
        gates
        true
        (reduce 5)
        (reduce 6)
        (ramp 9)
        none
        (ramp 4)
      ≡ ok out)
    × (eval out (reduce 7)
        ≡ linearized_at 1
            (reduce 1)
            (reduce 3)
            challenges
            1
            (opened_row challenges openings trace gates (ramp 4))
          ⊖ value (3 * (1 + 2)) (ramp 9).at (reduce 7) ⊗ (f17.exp (reduce 7) 1 ⊖ f17.one))
linearized-eval_example =
    linearized-eval evaluator 1 (reduce 1) (reduce 3) challenges openings trace gates true
      (reduce 5) (reduce 6) (ramp 9) (ramp 4) (omega arith) refl (omega arith) (omega arith)
      one_length

-- The value of the completed Qk for which the quotient is one of the constraint.
is_quotient :
    completed_constraint 1
      (reduce 1)
      (reduce 3)
      challenges
      1
      (reduce 6)
      (opened_row challenges openings trace gates (ramp 4))
    ≡ value (3 * (1 + 2)) (ramp 9).at (reduce 7) ⊗ (f17.exp (reduce 7) 1 ⊖ f17.one)
unfolding sum Seventeen.exp Seventeen.mul Seventeen.sub Seventeen.neg Seventeen.add
    Seventeen.inverse reduce
is_quotient = eq_of_val refl

linearized-constant_example :
    (out : Slice F17) × (inner_compute_linearized_poly evaluator 1
        (reduce 1)
        (reduce 3)
        challenges
        openings
        trace
        gates
        true
        (reduce 5)
        (reduce 6)
        (ramp 9)
        none
        (ramp 4)
      ≡ ok out)
    × (eval out (reduce 7)
        ≡ verifier_constant 1
            (reduce 1)
            challenges
            (reduce 6)
            (opened_row challenges openings trace gates (ramp 4)))
linearized-constant_example =
    linearized-constant evaluator 1 (reduce 1) (reduce 3) challenges openings trace gates true
      (reduce 5) (reduce 6) (reduce 6) (ramp 9) (ramp 4) (omega arith) refl (omega arith)
      (omega arith) one_length is_quotient
