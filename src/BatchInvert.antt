-- ===== src/BatchInvert.antt =====
-- `batchInvert` of integration/prove.go: Montgomery's trick, in one pass or in chunks.
-- Slices are read as functions of the index. A goroutine works on one chunk; they are run here in
-- the order in which they are started, and no chunk reads or writes an index of another one.
pub mod Products
pub mod Sequential
pub mod Chunks
pub mod Chunked
pub mod Inverses
pub mod Passes
pub mod Main
use gnark_cuda.Prelude.{
  ℕ, zero, suc, ◌+◌, ◌-◌, ◌/◌, ◌%◌, ◌^◌, ◌≡◌, Bool, ◌||◌, ltb, ◌==◌, if◌then◌else◌,
}
use gnark_cuda.Field.{Field, ◌⊗◌}
use gnark_cuda.Slice.{update}

module _ {F : Type 0} ⦃k : Field F⦄ where
  -- `for i := 1; i < n; i++ { vec[i].Mul(&vec[i], &vec[i-1]) }`, from index i + 1 on.
  accumulate : (rounds i : ℕ) → (ℕ → F) → ℕ → F
  accumulate zero i vec = vec
  accumulate (suc rounds) i vec =
      accumulate rounds (suc i) (update vec (suc i) (vec (suc i) ⊗ vec i))

  -- `for i := n - 1; i > 0; i-- { vec[i].Mul(&acc, &vec[i-1]); acc.Mul(&acc, &buf[i]) }`
  unwind : (i : ℕ) (vec buf : ℕ → F) → F → (ℕ → F) × F
  unwind zero vec buf acc = (vec, acc)
  unwind (suc i) vec buf acc = unwind i (update vec (suc i) (acc ⊗ vec i)) buf (acc ⊗ buf (suc i))

  -- The branch for short input, n > 1.
  unfoldable pub invert_sequential : ℕ → (vec buf : ℕ → F) → ℕ → F
  unfolding accumulate unwind
  invert_sequential n vec buf =
      let vec' = accumulate (n - 1) 0 vec in
      let (vec'', acc) = unwind (n - 1) vec' buf (k.inverse (vec' (n - 1))) in update vec'' 0 acc

-- The loop that fills chunkStarts and chunkEnds.
pub record Bounds : Type 0 where
  pub starts : ℕ → ℕ
  pub ends : ℕ → ℕ

pub chunk_loop : (rounds i start base extra : ℕ) → Bounds → Bounds
chunk_loop zero i start base extra b = b
chunk_loop (suc rounds) i start base extra b =
    let size = if ltb i extra then base + 1 else base in
    chunk_loop rounds (suc i) (start + size) base extra
      (record { starts = update b.starts i start; ends = update b.ends i (start + size) })

pub chunk_bounds : (n nb_tasks : ℕ) → Bounds
unfolding chunk_loop
chunk_bounds n nb_tasks =
    chunk_loop nb_tasks 0 0 (n / nb_tasks) (n % nb_tasks)
      (record { starts = λ _. 0; ends = λ _. 0 })

module _ {F : Type 0} ⦃k : Field F⦄ where
  -- `for j := start + 1; j < end; j++ { vec[j].Mul(&vec[j-1], &buf[j]) }`, from start + i + 1 on.
  pub chunk_accumulate : (start rounds i : ℕ) (vec buf : ℕ → F) → ℕ → F
  chunk_accumulate start zero i vec buf = vec
  chunk_accumulate start (suc rounds) i vec buf =
      chunk_accumulate start rounds (suc i)
        (update vec (start + suc i) (vec (start + i) ⊗ buf (start + suc i))) buf

  -- The first kind of goroutine, for every chunk from `chunk` on.
  pub first_pass :
      (rounds chunk : ℕ) → Bounds → (buf : ℕ → F) (vec chunk_prod : ℕ → F) → (ℕ → F) × (ℕ → F)
  unfolding chunk_accumulate
  first_pass zero chunk b buf vec chunk_prod = (vec, chunk_prod)
  first_pass (suc rounds) chunk b buf vec chunk_prod =
      let start = b.starts chunk in
      let end = b.ends chunk in
      let vec' = chunk_accumulate start (end - start - 1) 0 (update vec start (buf start)) buf in
      first_pass rounds (suc chunk) b buf vec' (update chunk_prod chunk (vec' (end - 1)))

  -- `for i := 1; i < nbTasks; i++ { prefixBefore[i].Mul(&prefixBefore[i-1], &chunkProd[i-1]) }`
  pub prefix_loop : (rounds i : ℕ) (chunk_prod prefix : ℕ → F) → ℕ → F
  prefix_loop zero i chunk_prod prefix = prefix
  prefix_loop (suc rounds) i chunk_prod prefix =
      prefix_loop rounds (suc i) chunk_prod (update prefix (suc i) (prefix i ⊗ chunk_prod i))

  -- `for i := nbTasks - 2; i >= 0; i-- { suffixAfter[i].Mul(&suffixAfter[i+1], &chunkProd[i+1]) }`
  pub suffix_loop : (i : ℕ) (chunk_prod suffix : ℕ → F) → ℕ → F
  suffix_loop zero chunk_prod suffix = suffix
  suffix_loop (suc i) chunk_prod suffix =
      suffix_loop i chunk_prod (update suffix i (suffix (suc i) ⊗ chunk_prod (suc i)))

  -- The loop that replaces each chunk's product by its inverse.
  pub invert_loop : (rounds i : ℕ) (total_inv : F) (prefix suffix chunk_prod : ℕ → F) → ℕ → F
  invert_loop zero i total_inv prefix suffix chunk_prod = chunk_prod
  invert_loop (suc rounds) i total_inv prefix suffix chunk_prod =
      let c = (total_inv ⊗ prefix i) ⊗ suffix i in
      invert_loop rounds (suc i) total_inv prefix suffix (update chunk_prod i c)

  pub chunk_inverses : ℕ → (ℕ → F) → ℕ → F
  unfolding prefix_loop suffix_loop invert_loop
  chunk_inverses nb_tasks chunk_prod =
      let prefix = prefix_loop (nb_tasks - 1) 0 chunk_prod (update (λ _. k.zero) 0 k.one) in
      let suffix =
        suffix_loop (nb_tasks - 1) chunk_prod (update (λ _. k.zero) (nb_tasks - 1) k.one) in
      let total_inv = k.inverse (prefix (nb_tasks - 1) ⊗ chunk_prod (nb_tasks - 1)) in
      invert_loop nb_tasks 0 total_inv prefix suffix chunk_prod

  -- `for j := end - 1; j > start; j-- { vec[j].Mul(&vec[j-1], &acc); acc.Mul(&acc, &buf[j]) }`,
  -- where j is start + i, and `vec[start].Set(&acc)`.
  pub chunk_unwind : (start i : ℕ) (vec buf : ℕ → F) → F → ℕ → F
  chunk_unwind start zero vec buf acc = update vec start acc
  chunk_unwind start (suc i) vec buf acc =
      chunk_unwind start i (update vec (start + suc i) (vec (start + i) ⊗ acc)) buf
        (acc ⊗ buf (start + suc i))

  -- The second kind of goroutine, for every chunk from `chunk` on.
  pub second_pass : (rounds chunk : ℕ) → Bounds → (buf vec chunk_inv : ℕ → F) → ℕ → F
  unfolding chunk_unwind
  second_pass zero chunk b buf vec chunk_inv = vec
  second_pass (suc rounds) chunk b buf vec chunk_inv =
      let start = b.starts chunk in
      let end = b.ends chunk in
      second_pass rounds (suc chunk) b buf
        (chunk_unwind start (end - start - 1) vec buf (chunk_inv chunk)) chunk_inv

  -- The branch for long input.
  unfoldable pub invert_chunked : (n nb_tasks : ℕ) (vec buf : ℕ → F) → ℕ → F
  unfolding chunk_bounds first_pass chunk_inverses second_pass
  invert_chunked n nb_tasks vec buf =
      let b = chunk_bounds n nb_tasks in
      let (vec', chunk_prod) = first_pass nb_tasks 0 b buf vec (λ _. k.zero) in
      second_pass nb_tasks 0 b buf vec' (chunk_inverses nb_tasks chunk_prod)

-- `nbTasks`, from the number of processors.
pub clamp_tasks : (num_cpu n : ℕ) → ℕ
clamp_tasks num_cpu n =
    let at_least_one = if ltb num_cpu 1 then 1 else num_cpu in
    if ltb n at_least_one then n else at_least_one

module _ {F : Type 0} ⦃k : Field F⦄ where
  -- `batchInvert(vec, buf)` on vectors of length n; `copy(buf, vec)` makes `buf` the input.
  pub batch_invert : (num_cpu n : ℕ) (vec : ℕ → F) → ℕ → F
  unfolding clamp_tasks invert_sequential invert_chunked
  batch_invert num_cpu n vec =
      if n == 0
      then vec
      else if n == 1
      then update vec 0 (k.inverse (vec 0))
      else (let nb_tasks = clamp_tasks num_cpu n in
          if ltb n (2 ^ 16) || nb_tasks == 1
          then invert_sequential n vec vec
          else invert_chunked n nb_tasks vec vec)
