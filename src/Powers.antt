-- ===== src/Powers.antt =====
-- `buildPowerTable`, `scalePowersPrecomputed` and `calculateNbTasks` of integration/prove.go.
-- `utils.Parallelize` is a parameter: the bounds of its tasks, which are run in order.
pub mod Table
use gnark_cuda.Prelude.{
  ℕ, zero, suc, ◌+◌, ◌-◌, ◌/◌, ◌≤◌, ◌≡◌, ◌==◌, ltb, if◌then◌else◌, Option, none, some,
}
use gnark_cuda.Field.{Field, ◌⊗◌}
use gnark_cuda.Slice.{Slice, update, set}
use gnark_cuda.Outcome.{Outcome, ok, panic}

-- The tasks of `utils.Parallelize(n, work, nbTasks)`: task t is [cut t, cut (t + 1)), and the tasks
-- cover [0, n) one after the other.
pub record Parallelize : Type 0 where
  pub tasks : (n nb_tasks : ℕ) → ℕ
  pub cut : (n nb_tasks : ℕ) → ℕ → ℕ
  pub first_cut : (n nb_tasks : ℕ) → cut n nb_tasks 0 ≡ 0
  pub last_cut : (n nb_tasks : ℕ) → cut n nb_tasks (tasks n nb_tasks) ≡ n
  pub cut_le : (n nb_tasks t : ℕ) → cut n nb_tasks t ≤ cut n nb_tasks (suc t)

-- `nbTasks := runtime.NumCPU(); if nbTasks < 1 { nbTasks = 1 }`
abbrev pub at_least_one : ℕ → ℕ
at_least_one nb_tasks = if ltb nb_tasks 1 then 1 else nb_tasks

-- `calculateNbTasks(n)`; the division by zero panics.
unfoldable pub calculate_nb_tasks : (num_cpu n : ℕ) → Outcome ℕ
calculate_nb_tasks num_cpu n =
    let nb_available_cpu = if ltb num_cpu n then 1 else num_cpu - n in
    if n == 0 then panic else ok (1 + nb_available_cpu / n)

module _ {F : Type 0} ⦃k : Field F⦄ where
  -- `for i := start; i < end; i++ { powers[i].Set(&acc); acc.Mul(&acc, &w) }`
  unfoldable pub power_loop : (rounds i : ℕ) (acc w : F) → (ℕ → F) → ℕ → F
  power_loop zero i acc w powers = powers
  power_loop (suc rounds) i acc w powers =
      power_loop rounds (suc i) (acc ⊗ w) w (update powers i acc)

  -- A task of `buildPowerTable`.
  unfoldable pub power_task : (start stop : ℕ) (w : F) → (ℕ → F) → ℕ → F
  unfolding power_loop
  power_task start stop w powers =
      power_loop (stop - start) start (if start == 0 then k.one else k.exp w start) w powers

  unfoldable pub power_tasks : (rounds t : ℕ) (cut : ℕ → ℕ) (w : F) → (ℕ → F) → ℕ → F
  unfolding power_task
  power_tasks zero t cut w powers = powers
  power_tasks (suc rounds) t cut w powers =
      power_tasks rounds (suc t) cut w (power_task (cut t) (cut (suc t)) w powers)

  -- `buildPowerTable(n, w)`; nil is the slice of length 0.
  unfoldable pub build_power_table : Parallelize → (num_cpu n : ℕ) (w : F) → Slice F
  unfolding power_tasks
  build_power_table par num_cpu n w =
      if n == 0
      then record { len = 0; at = λ _. k.zero }
      else (let nb_tasks = at_least_one num_cpu in
          record {
            len = n;
            at =
                update (power_tasks (par.tasks n nb_tasks) 0 (par.cut n nb_tasks) w (λ _. k.zero)) 0
                  k.one;
          })

  -- `for i := start; i < end; i++ { cp[i].Mul(&cp[i], &powers[i]) }`
  unfoldable pub multiply_loop : (rounds i : ℕ) (powers : ℕ → F) → (ℕ → F) → ℕ → F
  multiply_loop zero i powers cp = cp
  multiply_loop (suc rounds) i powers cp =
      multiply_loop rounds (suc i) powers (update cp i (cp i ⊗ powers i))

  unfoldable pub multiply_tasks : (rounds t : ℕ) (cut : ℕ → ℕ) (powers : ℕ → F) → (ℕ → F) → ℕ → F
  unfolding multiply_loop
  multiply_tasks zero t cut powers cp = cp
  multiply_tasks (suc rounds) t cut powers cp =
      multiply_tasks rounds (suc t) cut powers
        (multiply_loop (cut (suc t) - cut t) (cut t) powers cp)

  -- `scalePowersPrecomputed(p, powers)`
  unfoldable pub scale_powers_precomputed :
      Parallelize → (num_cpu : ℕ) → Slice F → Slice F → Slice F
  unfolding multiply_tasks
  scale_powers_precomputed par num_cpu p powers =
      let nb_tasks = at_least_one num_cpu in
      record {
        len = p.len;
        at = multiply_tasks (par.tasks p.len nb_tasks) 0 (par.cut p.len nb_tasks) powers.at p.at;
      }
