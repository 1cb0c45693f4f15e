-- ===== src/Examples/Cosets.antt =====
-- `computeNumerator` mod 17, on a domain of two elements and four cosets of it.
use gnark_cuda.Prelude.{
  ℕ, zero, suc, ◌+◌, ◌*◌, ◌^◌, ◌<◌, ◌≡◌, ◌≢◌, refl, ap, arith, ◌==◌, ne→==, if◌then◌else◌,
}
use gnark_cuda.Field.{◌⊕◌, ◌⊗◌, ◌⊖◌}
use gnark_cuda.Field.Seventeen.{F17, f17, reduce, val, eq_of_val, ne_zero_of_val}
use gnark_cuda.Field.Seventeen
use gnark_cuda.Slice.{Slice}
use gnark_cuda.Sum.{prod}
use gnark_cuda.Poly.{eval}
use gnark_cuda.Bits.{reverse_bits}
use gnark_cuda.Blinding.{get_blinded_coefficients}
use gnark_cuda.Numerator.{
  Context, Blinds, all_constraints, rho_blinds, restore_blind, blind_scale, scatter_all,
}
use gnark_cuda.Numerator.OnCoset.{HasTables, blinded_row, row_constraint, all_constraints_on_coset}
use gnark_cuda.Numerator.Cosets.{AvoidsDomain, coset_at, restore_blind-rho_blinds, rho_blinds-eval}
use gnark_cuda.Quotient.Divide.{divide_coefficients}
use gnark_cuda.Quotient.Divide.Laws.{zh_on_coset, rho}
use gnark_cuda.Numerator.Divided.{divide_coefficients-scatter_all}
use gnark_cuda.Examples.Instances.{evaluator, inverter}
use gnark_cuda.Examples.Polynomials.{small_domain, big_domain, refined}

abbrev context : Context F17
context = record {
  n = 2;
  twiddles0 = λ i. if i == 0 then reduce 1 else reduce 16;
  coset = reduce 3;
  coset_exponentiated_to_n_minus_one = reduce 8;
  precomputed_denominators = λ i. f17.inverse ((reduce 3 ⊗ f17.exp (reduce 16) i) ⊖ f17.one);
  cardinality_inv = reduce 9;
  cs = reduce 3;
  css = reduce 9;
  alpha = reduce 2;
  beta = reduce 4;
  gamma = reduce 5;
  nb_bsb_gates = 1;
}

abbrev blind : ℕ → Slice F17
blind n = record { len = n; at = λ i. reduce (i + 1) }

abbrev blinding : Blinds F17
blinding = record { bl = blind 2; br = blind 2; bo = blind 2; bz = blind 3 }

abbrev row : ℕ → F17
row j = reduce (j + 2)

-- 3 shifts to the first coset, 2 generates the domain of eight elements.
abbrev shifters : ℕ → F17
shifters i = if i == 0 then reduce 3 else reduce 2

avoids : AvoidsDomain 2 4 0 shifters f17.one
unfolding prod Seventeen.exp Seventeen.mul Seventeen.sub Seventeen.neg Seventeen.add reduce
avoids zero p e = absurd (omega (arith, ap val e))
avoids (suc zero) p e = absurd (omega (arith, ap val e))
avoids (suc (suc zero)) p e = absurd (omega (arith, ap val e))
avoids (suc (suc (suc zero))) p e = absurd (omega (arith, ap val e))
avoids (suc (suc (suc (suc i)))) p e = absurd (omega arith)

shifters_ne_zero : (i : ℕ) → i < 4 → shifters i ≢ f17.zero
shifters_ne_zero zero p = ne_zero_of_val 3 (omega arith)
shifters_ne_zero (suc i) p = rw (ne→== (suc i) 0 (omega arith)) (ne_zero_of_val 2 (omega arith))

restore_blind-rho_blinds_example :
    ((restore_blind 3 shifters (rho_blinds 2 4 0 shifters f17.one (blind 3))).len ≡ 3)
    × ((t : ℕ)
        → t < 3
        → (restore_blind 3 shifters (rho_blinds 2 4 0 shifters f17.one (blind 3))).at t
          ≡ (blind 3).at t)
restore_blind-rho_blinds_example =
    restore_blind-rho_blinds 2 3 shifters (blind 3) avoids shifters_ne_zero

minus_one_is_root : f17.exp (reduce 16) 2 ≡ f17.one
unfolding Seventeen.exp Seventeen.mul reduce
minus_one_is_root = eq_of_val refl

two_twiddles : (t : ℕ) → t < 2 → context.twiddles0 t ≡ f17.exp (reduce 16) t
unfolding Seventeen.exp Seventeen.mul reduce
two_twiddles zero p = eq_of_val refl
two_twiddles (suc zero) p = eq_of_val refl
two_twiddles (suc (suc t)) p = absurd (omega arith)

three_squared : reduce 8 ≡ f17.exp (reduce 3) 2 ⊖ f17.one
unfolding Seventeen.exp Seventeen.mul Seventeen.sub Seventeen.neg Seventeen.add reduce
three_squared = eq_of_val refl

tables : HasTables context (reduce 16) 1
tables = record {
  root = minus_one_is_root;
  twiddles = two_twiddles;
  exponentiated = three_squared;
  denominator = refl;
}

all_constraints_on_coset_example :
    all_constraints evaluator.evaluate context blinding 1 row
    ≡ row_constraint context
        (reduce 3 ⊗ f17.exp (reduce 16) 1)
        (blinded_row (reduce 16) blinding 1 row)
all_constraints_on_coset_example =
    all_constraints_on_coset evaluator context blinding (reduce 16) 1 row (omega arith) tables

rho_blinds-eval_example :
    eval (blind 2) (coset_at shifters 3 ⊗ reduce 16)
      ⊕ eval
          (blind_scale 2
            (coset_at shifters 3)
            (shifters 3)
            (rho_blinds 2 3 0 shifters f17.one (blind 3)))
          (reduce 16)
    ≡ eval (get_blinded_coefficients (blind 2) (blind 3)) (coset_at shifters 3 ⊗ reduce 16)
rho_blinds-eval_example =
    rho_blinds-eval 2 3 shifters (blind 2) (blind 3) (reduce 16) (λ j p. avoids j (omega arith))
      refl minus_one_is_root

abbrev buffers : ℕ → ℕ → F17
buffers i j = reduce (2 * i + j)

-- The quotient at row 1 of coset 2, on the domains of two and eight elements.
divide_coefficients-scatter_all_example :
    (divide_coefficients inverter small_domain big_domain (record {
      len = 2 ^ 3;
      at =
          scatter_all
            (rho small_domain big_domain)
            0
            2
            (rho small_domain big_domain)
            (2 ^ 3)
            buffers
            (λ x. reduce 0);
    })).at
        (reverse_bits 3 (rho small_domain big_domain * 1 + 2))
      ⊗ zh_on_coset small_domain big_domain 2
    ≡ buffers 2 1
divide_coefficients-scatter_all_example =
    divide_coefficients-scatter_all small_domain big_domain refined inverter 3 buffers
      (λ x. reduce 0) 1 2 (omega arith) refl (omega arith) (omega arith)
