-- ===== src/Examples/Commitments.antt =====
-- `commitToLRO` on a domain of four elements, with points mod 17.
use gnark_cuda.Prelude.{ℕ, ◌+◌, ◌≤◌, ◌<◌, ◌≡◌, ◌⊎◌, refl, arith, some, ltb, if◌then◌else◌, ◌&&◌}
use gnark_cuda.Field.Seventeen.{F17, f17, reduce, val, eq_of_val}
use gnark_cuda.Field.Seventeen
use gnark_cuda.Slice.{Slice}
use gnark_cuda.Outcome.{ok}
use gnark_cuda.Curve.{gsum}
use gnark_cuda.Commit.{Columns, commit_to_lro}
use gnark_cuda.Commit.Full.{IsPadded, blinded_commitment, commit_to_lro_full}
use gnark_cuda.Examples.Instances.{line, sums}

abbrev witness_values : Slice F17
witness_values = record { len = 1; at = λ _. reduce 5 }

-- 1 + 2 + 3 + 4 = 10
abbrev lagrange_points : Slice F17
lagrange_points = record { len = 4; at = λ i. reduce (i + 1) }

abbrev canonical_points : Slice F17
canonical_points = record { len = 8; at = λ i. reduce (10 + i) }

-- One public input, two constraints, one row of padding.
abbrev column : Slice F17
column = record { len = 4; at = λ i. if ltb 0 i && ltb i 3 then reduce (7 + i) else reduce 5 }

abbrev blinds : Slice F17
blinds = record { len = 2; at = λ i. reduce (3 + i) }

abbrev columns : Columns F17
columns = record { l = column; r = column; o = column }

abbrev blind_columns : Columns F17
blind_columns = record { l = blinds; r = blinds; o = blinds }

lagrange_sum : gsum line 4 lagrange_points.at ≡ canonical_points.at 0
unfolding gsum Seventeen.add reduce
lagrange_sum = eq_of_val refl

IsPadded-column : (lo : ℕ) → lo ≤ 1 → IsPadded sums 4 lo (1 + 2) (reduce 5) column
IsPadded-column lo le = record { full = refl; padding = λ i h p. pad i h p }
  where
    pad : (i : ℕ) → (i < lo) ⊎ (1 + 2 ≤ i) → i < 4 → column.at i ≡ reduce 5
    pad i h p = ground arith

commit_to_lro_full_example :
    (after : Columns F17) × (commit_to_lro sums 4 1 2
        (some witness_values)
        lagrange_points
        canonical_points
        columns
        blind_columns
      ≡ ok (
        after,
        record {
          l = blinded_commitment sums 4 lagrange_points canonical_points column blinds;
          r = blinded_commitment sums 4 lagrange_points canonical_points column blinds;
          o = blinded_commitment sums 4 lagrange_points canonical_points column blinds;
        },
      ))
    × ((i : ℕ)
        → (after.l.at i ≡ column.at i)
          × (after.r.at i ≡ column.at i)
          × (after.o.at i ≡ column.at i))
commit_to_lro_full_example =
    commit_to_lro_full sums 4 1 2 witness_values lagrange_points canonical_points columns
      blind_columns (omega arith) (omega arith) refl lagrange_sum (IsPadded-column 0 (omega arith))
      (IsPadded-column 1 (omega arith)) (IsPadded-column 1 (omega arith)) (omega arith)
      (omega arith) (omega arith) (omega arith)
