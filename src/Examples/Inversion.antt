-- ===== src/Examples/Inversion.antt =====
-- `batchInvert` on small vectors mod 17, also with the chunked branch.
use gnark_cuda.Prelude.{ℕ, ◌+◌, ◌/◌, ◌%◌, ◌<◌, ◌≡◌, ◌≢◌, refl, arith}
use gnark_cuda.Field.Seventeen.{F17, f17, reduce, val, eq_of_val, ne_zero_of_val}
use gnark_cuda.Field.Seventeen
use gnark_cuda.BatchInvert.{batch_invert, invert_chunked, invert_sequential, chunk_bounds}
use gnark_cuda.BatchInvert.Main.{batch_invert-inverse, invert_chunked-invert_sequential}
use gnark_cuda.BatchInvert.Chunks.{IsPartition, bound, chunk_bounds-IsPartition}

abbrev counting : ℕ → F17
counting j = reduce (j + 2)

counting_ne_zero : (n : ℕ) → n < 8 → (j : ℕ) → j < n → counting j ≢ f17.zero
counting_ne_zero n h j p = ne_zero_of_val (j + 2) (omega arith)

-- 2, …, 8 in three chunks: the inverse of 5 is 7.
chunked_runs : val (invert_chunked 7 3 counting counting 3) ≡ 7
unfolding invert_chunked Seventeen.mul Seventeen.inverse reduce
chunked_runs = refl

sequential_runs : val (invert_sequential 7 counting counting 3) ≡ 7
unfolding invert_sequential Seventeen.mul Seventeen.inverse reduce
sequential_runs = refl

batch_invert-inverse_example : batch_invert 8 7 counting 3 ≡ f17.inverse (counting 3)
batch_invert-inverse_example =
    batch_invert-inverse 8 7 counting (counting_ne_zero 7 (omega arith)) 3 (omega arith)

invert_chunked-invert_sequential_example :
    invert_chunked 7 3 counting counting 3 ≡ invert_sequential 7 counting counting 3
invert_chunked-invert_sequential_example =
    invert_chunked-invert_sequential 7 3 counting (omega arith) (omega arith)
      (counting_ne_zero 7 (omega arith)) 3 (omega arith)

chunk_bounds-IsPartition_example : IsPartition 7 3 (chunk_bounds 7 3) (bound (7 / 3) (7 % 3))
chunk_bounds-IsPartition_example = chunk_bounds-IsPartition 7 3 (omega arith) (omega arith)
