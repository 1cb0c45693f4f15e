-- ===== src/BatchInvert/Chunks.antt =====
-- The chunk bounds of `batchInvert` as a partition of the index range.
use native.Mathlib.Decide.{ℕ_discrete}
use gnark_cuda.Prelude.{
  ℕ, zero, suc, ◌+◌, ◌*◌, ◌/◌, ◌%◌, ◌<◌, ◌≤◌, ◌≡◌, ◌∙◌, sym, ap, inl, inr, arith, ltb,
  if◌then◌else◌, Bool-cases, ltb→lt, ltb→le,
}
use gnark_cuda.Slice.{update_self, update_ne}
use gnark_cuda.BatchInvert.{Bounds, chunk_loop, chunk_bounds, clamp_tasks}
use gnark_cuda.BatchInvert.Products.{update_cases}

-- Chunk t is [bound t, bound (t + 1)).
pub record IsPartition (n nb_tasks : ℕ) (b : Bounds) (bound : ℕ → ℕ) : Type 0 where
  pub starts_bound : (t : ℕ) → t < nb_tasks → b.starts t ≡ bound t
  pub ends_bound : (t : ℕ) → t < nb_tasks → b.ends t ≡ bound (suc t)
  pub first : bound 0 ≡ 0
  pub last : bound nb_tasks ≡ n
  pub grows : (t : ℕ) → t < nb_tasks → bound t < bound (suc t)

-- The first `extra` chunks hold one index more than the others.
unfoldable pub bound : (base extra : ℕ) → ℕ → ℕ
bound base extra i = i * base + (if ltb i extra then i else extra)

bound-suc :
    (base extra i : ℕ)
    → bound base extra (suc i) ≡ bound base extra i + (if ltb i extra then base + 1 else base)
unfolding bound
bound-suc base extra i = ground arith

abbrev Filled : (base extra i : ℕ) → Bounds → Type 0
Filled base extra i b =
    (t : ℕ) → t < i → (b.starts t ≡ bound base extra t) × (b.ends t ≡ bound base extra (suc t))

chunk_loop-Filled :
    (rounds i start base extra : ℕ) (b : Bounds)
    → start ≡ bound base extra i
    → Filled base extra i b
    → Filled base extra (i + rounds) (chunk_loop rounds i start base extra b)
unfolding chunk_loop
chunk_loop-Filled zero i start base extra b e done t p = done t (omega arith)
chunk_loop-Filled (suc rounds) i start base extra b e done t p =
    let size = if ltb i extra then base + 1 else base in
    let next : start + size ≡ bound base extra (suc i) = rw e (sym (bound-suc base extra i)) in
    chunk_loop-Filled rounds (suc i) (start + size) base extra _ next
      (λ u q. elim (update_cases b.starts i u start) [
        | inl (s, h) ↦ (
          h ∙ e ∙ ap (bound base extra) (sym s),
          rw s (update_self b.ends i _) ∙ next ∙ ap (λ x. bound base extra (suc x)) (sym s),
        )
        | inr (d, h) ↦
            let old = done u (omega arith) in (h ∙ old.0, update_ne b.ends i u _ d ∙ old.1)
      ])
      t (omega arith)

-- With 0 < nb_tasks ≤ n the bounds of the source cut [0, n) into nb_tasks chunks that follow each
-- other, none of them empty.
pub chunk_bounds-IsPartition :
    (n nb_tasks : ℕ)
    → 0 < nb_tasks
    → nb_tasks ≤ n
    → IsPartition n nb_tasks (chunk_bounds n nb_tasks) (bound (n / nb_tasks) (n % nb_tasks))
unfolding chunk_bounds bound
chunk_bounds-IsPartition n nb_tasks pos le = record {
  starts_bound = λ t p. (filled t (omega arith)).0;
  ends_bound = λ t p. (filled t (omega arith)).1;
  first = ground arith;
  last = ground arith;
  grows = λ t p. ground arith;
}
  where
    filled : Filled (n / nb_tasks) (n % nb_tasks) (0 + nb_tasks) (chunk_bounds n nb_tasks)
    filled =
        chunk_loop-Filled nb_tasks 0 0 (n / nb_tasks) (n % nb_tasks) _ (ground arith)
          (λ t p. absurd (omega arith))

pub bound_mono :
    {n nb_tasks : ℕ} {b : Bounds} {f : ℕ → ℕ}
    → IsPartition n nb_tasks b f
    → (c t : ℕ) → t < c
    → c ≤ nb_tasks
    → f (suc t) ≤ f c
bound_mono part zero t p q = absurd (omega arith)
bound_mono {f} part (suc c) t p q = elim (ℕ_discrete t c) [
  | yes e ↦ rw e (omega arith)
  | no d ↦
      omega (arith, bound_mono part c t (omega arith) (omega arith), part.grows c (omega arith))
]

-- Every index lies in a chunk.
pub chunk_of :
    {n nb_tasks : ℕ} {b : Bounds} {f : ℕ → ℕ}
    → IsPartition n nb_tasks b f
    → (c j : ℕ) → c ≤ nb_tasks
    → j < f c
    → (t : ℕ) × (t < c) × (f t ≤ j) × (j < f (suc t))
chunk_of part zero j q p = absurd (omega (arith, part.first))
chunk_of {f} part (suc c) j q p = elim (Bool-cases (ltb j (f c))) [
  | inl h ↦
      let (t, a, d, e) = chunk_of part c j (omega arith) (ltb→lt _ _ h) in (t, omega arith, d, e)
  | inr h ↦ (c, omega arith, ltb→le _ _ h, p)
]

-- The number of tasks of the source is fit for this.
pub clamp_tasks_bounds :
    (num_cpu n : ℕ) → 0 < n → (0 < clamp_tasks num_cpu n) × (clamp_tasks num_cpu n ≤ n)
unfolding clamp_tasks
clamp_tasks_bounds num_cpu n h = ground arith
