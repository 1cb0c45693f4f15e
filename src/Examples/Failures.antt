-- ===== src/Examples/Failures.antt =====
-- A failure on the GPU in the first iteration, mod 17, with four cosets of the domain {1}.
use gnark_cuda.Prelude.{ℕ, zero, suc, ◌+◌, ◌<◌, ◌≡◌, ◌≢◌, ap, arith, ◌==◌, ne→==, if◌then◌else◌}
use gnark_cuda.Field.{◌⊗◌, ◌⊖◌}
use gnark_cuda.Field.Seventeen.{F17, f17, reduce, val, ne_zero_of_val}
use gnark_cuda.Field.Seventeen
use gnark_cuda.Slice.{Slice}
use gnark_cuda.Sum.{prod}
use gnark_cuda.Numerator.Cosets.{AvoidsDomain}
use gnark_cuda.Fallback.{fall_back}
use gnark_cuda.Fallback.Blinds.{fall_back_lem}

-- 3 shifts to the first coset, 4 generates a domain of four elements.
abbrev shifts : ℕ → F17
shifts i = if i == 0 then reduce 3 else reduce 4

shifts_ne_zero : (i : ℕ) → i < 4 → shifts i ≢ f17.zero
shifts_ne_zero zero p = ne_zero_of_val 3 (omega arith)
shifts_ne_zero (suc i) p = rw (ne→== (suc i) 0 (omega arith)) (ne_zero_of_val 4 (omega arith))

cpu_avoids : AvoidsDomain 1 4 0 shifts (prod (suc 0) (λ u. shifts (0 + u)))
unfolding prod Seventeen.exp Seventeen.mul Seventeen.sub Seventeen.neg Seventeen.add reduce
cpu_avoids zero p e = absurd (omega (arith, ap val e))
cpu_avoids (suc zero) p e = absurd (omega (arith, ap val e))
cpu_avoids (suc (suc zero)) p e = absurd (omega (arith, ap val e))
cpu_avoids (suc (suc (suc zero))) p e = absurd (omega (arith, ap val e))
cpu_avoids (suc (suc (suc (suc i)))) p e = absurd (omega arith)

abbrev blinding : Slice F17
blinding = record { len = 3; at = λ i. reduce (i + 1) }

fall_back_lem_example :
    (fall_back 1 3 0 shifts blinding).at 1
    ≡ reduce 2
      ⊗ ((f17.exp (prod (suc 0) (λ u. shifts (0 + u))) 1 ⊖ f17.one)
          ⊗ f17.exp (prod (suc 0) (λ u. shifts (0 + u))) 1)
fall_back_lem_example =
    fall_back_lem 1 3 0 shifts blinding 1 (λ j p. absurd (omega arith)) cpu_avoids shifts_ne_zero
      (omega arith)
