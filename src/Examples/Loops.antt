-- ===== src/Examples/Loops.antt =====
-- The loop of `computeNumerator` mod 17, on a domain of two elements and four cosets of it.
use gnark_cuda.Prelude.{
  ℕ, zero, suc, ◌+◌, ◌^◌, ◌%◌, ◌≡◌, refl, ap, arith, ◌==◌, if◌then◌else◌, some,
}
use gnark_cuda.Field.{◌⊗◌}
use gnark_cuda.Field.Seventeen.{F17, f17, reduce, val, eq_of_val, ne_zero_of_val}
use gnark_cuda.Field.Seventeen
use gnark_cuda.Slice.{Slice}
use gnark_cuda.Sum.{prod}
use gnark_cuda.Poly.{value}
use gnark_cuda.Bits.{reverse_bits}
use gnark_cuda.Bits.Reverse.{reverse_bits-reverse_bits}
use gnark_cuda.Quotient.Divide.{Polynomial, lagrange, regular, divide_coefficients}
use gnark_cuda.Quotient.Divide.Laws.{zh_on_coset, rho}
use gnark_cuda.Numerator.{Blinds, id_zs}
use gnark_cuda.Numerator.Loop.{
  Tables, RowEvaluator, Setting, shifters, init_twiddles, prepare, buffer, loop_state,
  restore_polynomials,
}
use gnark_cuda.Numerator.Loop.Twiddles.{HasTwiddles, init_twiddles-exp}
use gnark_cuda.Numerator.Loop.Blinding.{AvoidsDomain}
use gnark_cuda.Numerator.Loop.Points.{IsSetUp, constraint_at}
use gnark_cuda.Numerator.Loop.Rows.{buffer-constraint_at}
use gnark_cuda.Numerator.Loop.Quotient.{quotient-constraint_at}
use gnark_cuda.Numerator.Loop.Restored.{HasCoefficients, restore_polynomials-loop_state}
use gnark_cuda.Examples.Instances.{evaluator, inverter}
use gnark_cuda.Examples.Polynomials.{small_domain, big_domain, refined}
use gnark_cuda.Examples.Transforms.{transform}

abbrev tables : Tables f17 1 (reduce 3)
tables = record {
  coset_table = f17.exp (reduce 3);
  build_exp_table = f17.exp;
  reverse = λ v i. v (reverse_bits 1 i);
  coset_table_lem = λ j p. refl;
  build_exp_table_lem = λ a j p. refl;
  reverse_lem = λ v j p. ap v (reverse_bits-reverse_bits 1 j p);
}

abbrev rows : RowEvaluator F17
rows = record {
  evaluate = λ n f x j.
      f j (λ id.
        if id == id_zs then (x 3).coefficients.at ((j + 1) % n) else (x id).coefficients.at j);
  evaluate_lem = λ n f x h j p. refl;
}

abbrev powers_of : (len : ℕ) → F17 → Slice F17
powers_of len a = record { len = len; at = f17.exp a }

abbrev setting : Setting F17 f17
setting = record {
  num_cpu = 4;
  small = small_domain;
  big = big_domain;
  w = 1;
  transform = transform;
  tables = tables;
  rows = rows;
  evaluator = evaluator;
  twiddles = powers_of 2 (reduce 16);
  alpha = reduce 2;
  beta = reduce 4;
  gamma = reduce 5;
  nb_bsb_gates = 1;
}

abbrev coefficients : ℕ → ℕ → F17
coefficients id i = reduce (id + i + 1)

-- In Lagrange form and in order.
abbrev x : ℕ → Polynomial F17
x id = record {
  coefficients = record { len = 2; at = λ i. value 2 (coefficients id) (f17.exp (reduce 16) i) };
  basis = lagrange;
  layout = regular;
}

abbrev blind : ℕ → Slice F17
blind n = record { len = n; at = λ i. reduce (i + 1) }

abbrev blinding : Blinds F17
blinding = record { bl = blind 2; br = blind 2; bo = blind 2; bz = blind 3 }

root : f17.exp (reduce 16) 2 ≡ f17.one
unfolding Seventeen.exp Seventeen.mul reduce
root = eq_of_val refl

set_up : IsSetUp setting x coefficients
set_up = record {
  size = refl;
  root = root;
  twiddles = record {
    at_least_two = λ h. omega arith;
    fits = λ h. omega arith;
    powers = λ i p. refl;
  };
  represents = λ id h. record { len = refl; entries = λ i p. refl };
}

avoids : AvoidsDomain 2 2 (shifters big_domain)
unfolding prod Seventeen.exp Seventeen.mul Seventeen.sub Seventeen.neg Seventeen.add reduce
avoids zero p e = absurd (omega (arith, ap val e))
avoids (suc zero) p e = absurd (omega (arith, ap val e))
avoids (suc (suc i)) p e = absurd (omega arith)

nested : reduce 16 ≡ f17.exp (reduce 2) (rho small_domain big_domain)
unfolding Seventeen.exp Seventeen.mul reduce
nested = eq_of_val refl

long_twiddles : HasTwiddles 8 (powers_of 4 (reduce 2)) (reduce 2)
long_twiddles = record {
  at_least_two = λ h. omega arith;
  fits = λ h. omega arith;
  powers = λ i p. refl;
}

init_twiddles-exp_example : init_twiddles 8 (powers_of 4 (reduce 2)) 7 ≡ f17.exp (reduce 2) 7
init_twiddles-exp_example =
    init_twiddles-exp 8 (powers_of 4 (reduce 2)) (reduce 2) long_twiddles 7 (omega arith)

buffer-constraint_at_example :
    buffer setting 4 (prepare setting 4 1 (loop_state setting 4 1 x blinding)) 1
    ≡ constraint_at setting coefficients blinding
        (prod 2 (shifters big_domain) ⊗ f17.exp (reduce 16) 1)
buffer-constraint_at_example =
    buffer-constraint_at setting 4 x blinding coefficients set_up 1 1 (omega arith) avoids

quotient-constraint_at_example :
    (divide_coefficients inverter small_domain big_domain
          (record { len = 2 ^ 3; at = (loop_state setting 4 4 x blinding).cres })).at
        (reverse_bits 3 5)
      ⊗ zh_on_coset small_domain big_domain 5
    ≡ constraint_at setting coefficients blinding (reduce 3 ⊗ f17.exp (reduce 2) 5)
quotient-constraint_at_example =
    quotient-constraint_at setting x blinding coefficients set_up refined nested inverter 3 5
      (omega arith) refl (omega arith)

restore_polynomials-loop_state_example :
    (p : Polynomial F17) × (restore_polynomials setting 4 (loop_state setting 4 4 x blinding).x 2
      ≡ some p)
    × HasCoefficients 2 (coefficients 2) p
restore_polynomials-loop_state_example =
    restore_polynomials-loop_state setting x blinding 4 2 (coefficients 2) (omega arith)
      (ne_zero_of_val 3 (omega arith)) (ne_zero_of_val 2 (omega arith)) (omega arith) (omega arith)
      (set_up.represents 2 (omega arith))
