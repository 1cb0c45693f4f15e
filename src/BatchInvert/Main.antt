-- ===== src/BatchInvert/Main.antt =====
-- `batchInvert` as a whole: its branches and the inverses of the entries.
use gnark_cuda.Prelude.{
  ℕ, suc, ◌+◌, ◌-◌, ◌/◌, ◌%◌, ◌^◌, ◌<◌, ◌≤◌, ◌≡◌, ◌≢◌, ◌∙◌, ◌||◌, sym, ap, inl, inr, refl, arith,
  ltb, ◌==◌, Bool-cases, ==→≡,
}
use gnark_cuda.Field.{Field, ◌⊗◌}
use gnark_cuda.Field.Ring.{mul_comm}
use gnark_cuda.Field.Exp.{inverse_unique}
use gnark_cuda.Slice.{update, update_self}
use gnark_cuda.BatchInvert.{
  batch_invert, invert_sequential, invert_chunked, chunk_bounds, clamp_tasks, first_pass,
  chunk_inverses,
}
use gnark_cuda.BatchInvert.Products.{chain, chain_ne_zero}
use gnark_cuda.BatchInvert.Sequential.{invert_sequential-mul}
use gnark_cuda.BatchInvert.Chunks.{
  IsPartition, bound, bound_mono, chunk_bounds-IsPartition, clamp_tasks_bounds,
}
use gnark_cuda.BatchInvert.Inverses.{chunk_inverses-mul}
use gnark_cuda.BatchInvert.Passes.{Running, first_pass-Running, second_pass-mul}

module _ {F : Type 0} ⦃k : Field F⦄ where
  pub invert_chunked-mul :
      (n nb_tasks : ℕ) (vec : ℕ → F)
      → 0 < nb_tasks
      → nb_tasks ≤ n
      → ((j : ℕ) → j < n → vec j ≢ k.zero)
      → (j : ℕ) → j < n
      → invert_chunked n nb_tasks vec vec j ⊗ vec j ≡ k.one
  unfolding invert_chunked
  invert_chunked-mul n nb_tasks vec pos le h j p =
      second_pass-mul part vec pass1.0 (chunk_inverses nb_tasks pass1.1) run.0 inverses nb_tasks 0
        pass1.0 (omega arith) ((λ i q. absurd (omega (arith, part.first))), λ i q. refl) j p
    where
      f : ℕ → ℕ
      f = bound (n / nb_tasks) (n % nb_tasks)

      part : IsPartition n nb_tasks (chunk_bounds n nb_tasks) f
      part = chunk_bounds-IsPartition n nb_tasks pos le

      pass1 : (ℕ → F) × (ℕ → F)
      pass1 = first_pass nb_tasks 0 (chunk_bounds n nb_tasks) vec vec (λ _. k.zero)

      run : Running part vec nb_tasks pass1
      run =
          first_pass-Running part vec nb_tasks 0 vec (λ _. k.zero) (omega arith)
            ((λ t u q. absurd (omega arith)), λ t q. absurd (omega arith))

      inside : (t : ℕ) → t < nb_tasks → f t + (f (suc t) - f t - 1) < n
      inside t q =
          omega (arith, part.grows t q, bound_mono part nb_tasks t q (omega arith), part.last)

      inverses :
          (t : ℕ)
          → t < nb_tasks
          → chunk_inverses nb_tasks pass1.1 t ⊗ chain (f t) (f (suc t) - f t - 1) vec ≡ k.one
      inverses t q =
          ap (λ x. chunk_inverses nb_tasks pass1.1 t ⊗ x) (sym (run.1 t q))
          ∙ chunk_inverses-mul nb_tasks pass1.1 pos
              (λ u r e.
                chain_ne_zero (f u) (f (suc u) - f u - 1) vec
                  (λ i s. h i (omega (arith, inside u r))) (sym (run.1 u r) ∙ e))
              t q

  -- Whatever the number of processors and the length, each of the n entries, none of them zero,
  -- is replaced by its inverse.
  pub batch_invert-inverse :
      (num_cpu n : ℕ) (vec : ℕ → F)
      → ((j : ℕ) → j < n → vec j ≢ k.zero)
      → (j : ℕ) → j < n
      → batch_invert num_cpu n vec j ≡ k.inverse (vec j)
  unfolding batch_invert
  batch_invert-inverse num_cpu n vec h j p = elim (Bool-cases (n == 0)) [
    | inl e ↦ absurd (omega (arith, ==→≡ n 0 e))
    | inr d0 ↦ elim (Bool-cases (n == 1)) [
      | inl e ↦ rw (d0, e) (only j (omega (arith, ==→≡ n 1 e)))
      | inr d1 ↦
          rw (d0, d1)
            (elim (Bool-cases (ltb n (2 ^ 16) || clamp_tasks num_cpu n == 1)) [
              | inl short ↦ rw short (of_mul j (invert_sequential-mul n vec (omega arith) h j p))
              | inr long ↦
                  let (pos, le) = clamp_tasks_bounds num_cpu n (omega arith) in
                  rw long (of_mul j (invert_chunked-mul n (clamp_tasks num_cpu n) vec pos le h j p))
            ])
    ]
  ]
    where
      of_mul : (i : ℕ) {x : F} → x ⊗ vec i ≡ k.one → x ≡ k.inverse (vec i)
      of_mul i {x} e = sym (inverse_unique (vec i) x (mul_comm (vec i) x ∙ e))

      only : (i : ℕ) → i ≡ 0 → update vec 0 (k.inverse (vec 0)) i ≡ k.inverse (vec i)
      only i e = rw e (update_self vec 0 _)

  -- For n entries that are not zero and any number of chunks between 1 and n, the chunked branch
  -- leaves at each of the n indices what the one-pass branch leaves there.
  pub invert_chunked-invert_sequential :
      (n nb_tasks : ℕ) (vec : ℕ → F)
      → 0 < nb_tasks
      → nb_tasks ≤ n
      → ((j : ℕ) → j < n → vec j ≢ k.zero)
      → (j : ℕ) → j < n
      → invert_chunked n nb_tasks vec vec j ≡ invert_sequential n vec vec j
  invert_chunked-invert_sequential n nb_tasks vec pos le h j p =
      sym (inverse_unique (vec j) _ (mul_comm _ _ ∙ invert_chunked-mul n nb_tasks vec pos le h j p))
      ∙ inverse_unique (vec j) _ (mul_comm _ _ ∙ invert_sequential-mul n vec (omega arith) h j p)
