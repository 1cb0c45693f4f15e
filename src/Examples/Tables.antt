-- ===== src/Examples/Tables.antt =====
-- Power tables mod 17, with tasks of one index each.
use gnark_cuda.Prelude.{suc, ◌≡◌, refl, arith}
use gnark_cuda.Field.Seventeen.{F17, f17, reduce}
use gnark_cuda.Slice.{Slice}
use gnark_cuda.Outcome.{ok, panic}
use gnark_cuda.Numerator.{scale_powers}
use gnark_cuda.Powers.{Parallelize, calculate_nb_tasks, build_power_table, scale_powers_precomputed}
use gnark_cuda.Powers.Table.{scale_powers_precomputed-build_power_table}

abbrev one_by_one : Parallelize
one_by_one = record {
  tasks = λ n nb_tasks. n;
  cut = λ n nb_tasks t. t;
  first_cut = λ n nb_tasks. refl;
  last_cut = λ n nb_tasks. refl;
  cut_le = λ n nb_tasks t. omega arith;
}

abbrev ramp : Slice F17
ramp = record { len = 4; at = λ i. reduce (suc i) }

scale_powers_precomputed-build_power_table_example :
    (scale_powers_precomputed one_by_one 2 ramp (build_power_table one_by_one 2 5 (reduce 3))).at 2
    ≡ (scale_powers ramp (reduce 3)).at 2
scale_powers_precomputed-build_power_table_example =
    scale_powers_precomputed-build_power_table one_by_one 2 5 (reduce 3) ramp 2 (omega arith)
      (omega arith)

sixteen_processors : calculate_nb_tasks 16 12 ≡ ok 1
unfolding calculate_nb_tasks
sixteen_processors = refl

few_processors : calculate_nb_tasks 4 12 ≡ ok 1
unfolding calculate_nb_tasks
few_processors = refl

no_polynomials : calculate_nb_tasks 4 0 ≡ panic
unfolding calculate_nb_tasks
no_polynomials = refl
