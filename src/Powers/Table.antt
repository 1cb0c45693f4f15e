-- ===== src/Powers/Table.antt =====
-- The table of powers, and scaling by it.
use gnark_cuda.Prelude.{
  ℕ, zero, suc, ◌+◌, ◌-◌, ◌≤◌, ◌<◌, ◌≡◌, ◌∙◌, refl, sym, ap, arith, inl, inr, ◌==◌, ne→==,
  if◌then◌else◌,
}
use gnark_cuda.Field.{Field, ◌⊗◌}
use gnark_cuda.Field.Ring.{mul_comm}
use gnark_cuda.Field.Exp.{exp-zero, exp-suc}
use gnark_cuda.Slice.{Slice, update, update_ne}
use gnark_cuda.BatchInvert.Products.{update_cases}
use gnark_cuda.Numerator.{scale_powers}
use gnark_cuda.Numerator.Restore.{scale_powers_lem}
use gnark_cuda.Powers.{
  Parallelize, at_least_one, power_loop, power_task, power_tasks, build_power_table, multiply_loop,
  multiply_tasks, scale_powers_precomputed,
}

module _ {F : Type 0} ⦃k : Field F⦄ where
  -- The first entries are powers of w.
  abbrev pub HasPowers : (count : ℕ) (w : F) → (ℕ → F) → Type 0
  HasPowers count w v = (j : ℕ) → j < count → v j ≡ k.exp w j

  power_loop_lem :
      (rounds i : ℕ) (acc w : F) (powers : ℕ → F)
      → acc ≡ k.exp w i
      → HasPowers i w powers
      → HasPowers (i + rounds) w (power_loop rounds i acc w powers)
  unfolding power_loop
  power_loop_lem zero i acc w powers e h j p = h j (omega arith)
  power_loop_lem (suc rounds) i acc w powers e h j p =
      power_loop_lem rounds (suc i) (acc ⊗ w) w (update powers i acc)
        (ap (λ x. x ⊗ w) e ∙ mul_comm _ _ ∙ sym (exp-suc w i))
        (λ t q. elim (update_cases powers i t acc) [
          | inl (z, u) ↦ u ∙ e ∙ ap (k.exp w) (sym z)
          | inr (d, u) ↦ u ∙ h t (omega arith)
        ])
        j (omega arith)

  power_task_lem :
      (start stop : ℕ) (w : F) (powers : ℕ → F)
      → start ≤ stop
      → HasPowers start w powers
      → HasPowers stop w (power_task start stop w powers)
  unfolding power_task
  power_task_lem start stop w powers le h j p =
      power_loop_lem (stop - start) start _ w powers (initial start) h j (omega arith)
    where
      initial : (start : ℕ) → (if start == 0 then k.one else k.exp w start) ≡ k.exp w start
      initial zero = sym (exp-zero w)
      initial (suc start) = rw (ne→== (suc start) 0 (omega arith))

  power_tasks_lem :
      (rounds t : ℕ) (cut : ℕ → ℕ) (w : F) (powers : ℕ → F)
      → ((t : ℕ) → cut t ≤ cut (suc t))
      → HasPowers (cut t) w powers
      → HasPowers (cut (t + rounds)) w (power_tasks rounds t cut w powers)
  unfolding power_tasks
  power_tasks_lem zero t cut w powers le h j p =
      h j (omega (arith, p, ap cut {x = t + 0} {y = t} (omega arith)))
  power_tasks_lem (suc rounds) t cut w powers le h j p =
      power_tasks_lem rounds (suc t) cut w (power_task (cut t) (cut (suc t)) w powers) le
        (power_task_lem (cut t) (cut (suc t)) w powers (le t) h) j
        (omega (arith, p, ap cut {x = t + suc rounds} {y = suc t + rounds} (omega arith)))

  -- Entry j of the table is the power j of w, however the work is split.
  build_power_table-exp :
      (par : Parallelize) (num_cpu n : ℕ) (w : F)
      → HasPowers n w (build_power_table par num_cpu n w).at
  unfolding build_power_table
  build_power_table-exp par num_cpu n w j p =
      rw (ne→== n 0 (omega arith)) (elim (update_cases tasks 0 j k.one) [
        | inl (e, u) ↦ u ∙ sym (exp-zero w) ∙ ap (k.exp w) (sym e)
        | inr (d, u) ↦
            u
            ∙ power_tasks_lem (par.tasks n (at_least_one num_cpu)) 0
                (par.cut n (at_least_one num_cpu)) w (λ _. k.zero)
                (par.cut_le n (at_least_one num_cpu))
                (λ i q. absurd (omega (arith, q, par.first_cut n (at_least_one num_cpu)))) j
                (inside p)
      ])
    where
      tasks : ℕ → F
      tasks =
          power_tasks (par.tasks n (at_least_one num_cpu)) 0 (par.cut n (at_least_one num_cpu)) w
            (λ _. k.zero)

      inside : j < n → j < par.cut n (at_least_one num_cpu) (0 + par.tasks n (at_least_one num_cpu))
      inside p = omega (
        arith,
        p,
        par.last_cut n (at_least_one num_cpu),
        ap (par.cut n (at_least_one num_cpu)) {x = 0 + par.tasks n (at_least_one num_cpu)}
            {y = par.tasks n (at_least_one num_cpu)} (omega arith),
      )

  -- Entries below the count are multiplied, the others are as before.
  abbrev IsMultiplied : (count : ℕ) (powers cp v : ℕ → F) → Type 0
  IsMultiplied count powers cp v =
      ((j : ℕ) → j < count → v j ≡ cp j ⊗ powers j) × ((j : ℕ) → count ≤ j → v j ≡ cp j)

  multiply_loop_lem :
      (rounds i : ℕ) (powers cp v : ℕ → F)
      → IsMultiplied i powers cp v
      → IsMultiplied (i + rounds) powers cp (multiply_loop rounds i powers v)
  unfolding multiply_loop
  multiply_loop_lem zero i powers cp v (below, above) =
      ((λ j p. below j (omega arith)), (λ j p. above j (omega arith)))
  multiply_loop_lem (suc rounds) i powers cp v (below, above) =
      let (b, c) = multiply_loop_lem rounds (suc i) powers cp (update v i (v i ⊗ powers i)) (
        (λ j p. elim (update_cases v i j (v i ⊗ powers i)) [
          | inl (e, u) ↦
              u ∙ ap (λ x. x ⊗ powers i) (above i (omega arith)) ∙ ap (λ t. cp t ⊗ powers t) (sym e)
          | inr (d, u) ↦ u ∙ below j (omega arith)
        ]),
        (λ j p. update_ne v i j _ (omega arith) ∙ above j (omega arith)),
      ) in
      ((λ j p. b j (omega arith)), (λ j p. c j (omega arith)))

  multiply_tasks_lem :
      (rounds t : ℕ) (cut : ℕ → ℕ) (powers cp v : ℕ → F)
      → ((t : ℕ) → cut t ≤ cut (suc t))
      → IsMultiplied (cut t) powers cp v
      → IsMultiplied (cut (t + rounds)) powers cp (multiply_tasks rounds t cut powers v)
  unfolding multiply_tasks
  multiply_tasks_lem zero t cut powers cp v le h = rw (ap cut {x = t + 0} {y = t} (omega arith)) h
  multiply_tasks_lem (suc rounds) t cut powers cp v le h =
      let (b, c) = multiply_loop_lem (cut (suc t) - cut t) (cut t) powers cp v h in
      rw (ap cut {x = t + suc rounds} {y = suc t + rounds} (omega arith)) (
        multiply_tasks_lem rounds (suc t) cut powers cp
          (multiply_loop (cut (suc t) - cut t) (cut t) powers v) le
          ((λ j p. b j (omega (arith, le t))), (λ j p. c j (omega (arith, le t)))))

  -- Scaling by a table of powers of w, built for at least as many entries as the polynomial has, is
  -- `scalePowers` with w, coefficient by coefficient, however the work is split.
  pub scale_powers_precomputed-build_power_table :
      (par : Parallelize) (num_cpu n : ℕ) (w : F) (p : Slice F) (j : ℕ)
      → p.len ≤ n
      → j < p.len
      → (scale_powers_precomputed par num_cpu p (build_power_table par num_cpu n w)).at j
        ≡ (scale_powers p w).at j
  unfolding scale_powers_precomputed
  scale_powers_precomputed-build_power_table par num_cpu n w p j le inside =
      (multiply_tasks_lem tasks 0 cut (build_power_table par num_cpu n w).at p.at p.at
          (par.cut_le p.len (at_least_one num_cpu))
          (
            (λ i q. absurd (omega (arith, q, par.first_cut p.len (at_least_one num_cpu)))),
            (λ i q. refl),
          )).0
        j within
      ∙ ap (λ x. p.at j ⊗ x) (build_power_table-exp par num_cpu n w j (omega arith))
      ∙ sym (scale_powers_lem p w j inside)
    where
      tasks : ℕ
      tasks = par.tasks p.len (at_least_one num_cpu)

      cut : ℕ → ℕ
      cut = par.cut p.len (at_least_one num_cpu)

      within : j < cut (0 + tasks)
      within = omega (
        arith,
        inside,
        par.last_cut p.len (at_least_one num_cpu),
        ap cut {x = 0 + tasks} {y = tasks} (omega arith),
      )
