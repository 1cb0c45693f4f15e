-- ===== src/Numerator/Loop/Quotient.antt =====
-- The result vector of the loop, divided by `divideByZH`: the values of the quotient on the coset of
-- the large domain.
use native.Mathlib.Nat.{mod-lt, mod-add-div, div-lt_iff_lt-mul}
use gnark_cuda.Prelude.{
  ℕ, zero, suc, ◌+◌, ◌*◌, ◌/◌, ◌%◌, ◌^◌, ◌<◌, ◌≡◌, ◌∙◌, refl, sym, ap, ap₂, arith, ne→==,
}
use gnark_cuda.Field.{Field, ◌⊗◌, ◌⊖◌}
use gnark_cuda.Field.Ring.{ring, mul-one, one-mul, mul_assoc, mul_comm}
use gnark_cuda.Field.Exp.{exp-zero, exp-suc, exp-mul, exp-add}
use gnark_cuda.Slice.{Slice}
use gnark_cuda.Sum.{prod}
use gnark_cuda.Bits.{reverse_bits}
use gnark_cuda.Quotient.Divide.{Domain, BatchInverter, Polynomial, divide_coefficients}
use gnark_cuda.Quotient.Divide.Laws.{
  IsRefinement, zh_on_coset, zh_on_coset-mod, rho, rho-mul, rho_pos,
}
use gnark_cuda.Numerator.{Blinds, scatter_loop, scatter_all}
use gnark_cuda.Numerator.Divided.{divide_coefficients-scatter_all}
use gnark_cuda.Numerator.Loop.{Setting, shifters, prepare, buffer, iteration, loop_state}
use gnark_cuda.Numerator.Loop.Blinding.{AvoidsDomain}
use gnark_cuda.Numerator.Loop.Points.{IsSetUp, constraint_at}
use gnark_cuda.Numerator.Loop.Rows.{buffer-constraint_at}

module _ {F : Type 0} ⦃k : Field F⦄ where
  -- The last of the scatters in front.
  scatter_all-suc :
      (iterations i n r m : ℕ) (bufs : ℕ → ℕ → F) (cres : ℕ → F)
      → scatter_all (suc iterations) i n r m bufs cres
        ≡ scatter_loop n 0 r
            (i + iterations)
            m
            (bufs (i + iterations))
            (scatter_all iterations i n r m bufs cres)
  unfolding scatter_all
  scatter_all-suc zero i n r m bufs cres =
      ap (λ t. scatter_loop n 0 r t m (bufs t) cres) {x = i} {y = i + 0} (omega arith)
  scatter_all-suc (suc iterations) i n r m bufs cres =
      scatter_all-suc iterations (suc i) n r m bufs (scatter_loop n 0 r i m (bufs i) cres)
      ∙ ap
          (λ t.
            scatter_loop n 0 r t m (bufs t)
              (scatter_all iterations (suc i) n r m bufs (scatter_loop n 0 r i m (bufs i) cres)))
          {x = suc i + iterations} {y = i + suc iterations} (omega arith)

  coset_power :
      (big : Domain F) (i : ℕ)
      → prod (suc i) (shifters big) ≡ big.fr_multiplicative_gen ⊗ k.exp big.generator i
  unfolding prod
  coset_power big zero =
      one-mul _ ∙ sym (ap (λ y. big.fr_multiplicative_gen ⊗ y) (exp-zero _) ∙ mul-one _)
  coset_power big (suc i) =
      ap₂ (λ y z. y ⊗ z) (coset_power big i) (rw (ne→== (suc i) 0 (omega arith)))
      ∙ regroup _ _ _
      ∙ ap (λ y. big.fr_multiplicative_gen ⊗ y) (sym (exp-suc big.generator i))
    where
      regroup : (g a e : F) → (g ⊗ e) ⊗ a ≡ g ⊗ (a ⊗ e)
      regroup g a e = simp ring

  module _ (s : Setting F k) (x : ℕ → Polynomial F) (bp : Blinds F) where
    -- The result vector in an iteration.
    cres_step :
        (r i : ℕ)
        → (loop_state s r (suc i) x bp).cres
          ≡ scatter_loop s.small.cardinality 0 r i s.big.cardinality
              (buffer s r (prepare s r i (loop_state s r i x bp)))
              (loop_state s r i x bp).cres
    unfolding loop_state iteration prepare
    cres_step r i = refl

    abbrev buffers : (r : ℕ) → ℕ → ℕ → F
    buffers r t = buffer s r (prepare s r t (loop_state s r t x bp))

    last_scatter :
        (r i : ℕ)
        → scatter_all (suc i) 0 s.small.cardinality r s.big.cardinality (buffers r) (λ _. k.zero)
          ≡ scatter_loop s.small.cardinality 0 r i s.big.cardinality
              (buffers r i)
              (scatter_all i 0 s.small.cardinality r s.big.cardinality (buffers r) (λ _. k.zero))
    last_scatter r i =
        scatter_all-suc i 0 s.small.cardinality r s.big.cardinality (buffers r) (λ _. k.zero)
        ∙ ap
            (λ t.
              scatter_loop s.small.cardinality 0 r t s.big.cardinality (buffers r t)
                (scatter_all i 0 s.small.cardinality r s.big.cardinality (buffers r) (λ _. k.zero)))
            {x = 0 + i} {y = i} (omega arith)

    loop_state-cres :
        (r i : ℕ)
        → (loop_state s r i x bp).cres
          ≡ scatter_all i 0 s.small.cardinality r s.big.cardinality (buffers r) (λ _. k.zero)
    loop_state-cres r zero = unfold loop_state in unfold scatter_all in refl
    loop_state-cres r (suc i) =
        cres_step r i
        ∙ ap (scatter_loop s.small.cardinality 0 r i s.big.cardinality (buffers r i))
            (loop_state-cres r i)
        ∙ sym (last_scatter r i)

    module _ (fs : ℕ → ℕ → F) (h : IsSetUp s x fs) (d : IsRefinement s.small s.big)
        (nested : s.small.generator ≡ k.exp s.big.generator (rho s.small s.big)) where
      abbrev r : ℕ
      r = rho s.small s.big

      avoids : (i : ℕ) → i < r → AvoidsDomain s.small.cardinality (suc i) (shifters s.big)
      avoids i p j q e =
          d.no_zero j (omega arith)
            (ap (λ y. k.exp y s.small.cardinality ⊖ k.one) (sym (coset_power s.big j)) ∙ e)

      -- Row j of coset i is the point g * ω ^ (rho * j + i) of the large coset.
      point :
          (i j : ℕ)
          → prod (suc i) (shifters s.big) ⊗ k.exp s.small.generator j
            ≡ s.big.fr_multiplicative_gen ⊗ k.exp s.big.generator (r * j + i)
      point i j =
          ap₂ (λ y z. y ⊗ z) (coset_power s.big i)
            (ap (λ y. k.exp y j) nested ∙ sym (exp-mul s.big.generator r j))
          ∙ mul_assoc _ _ _
          ∙ ap (λ y. s.big.fr_multiplicative_gen ⊗ y)
              (mul_comm _ _ ∙ sym (exp-add s.big.generator (r * j) i))

      abbrev numerator : ℕ → Slice F
      numerator m = record {
        len = 2 ^ m;
        at = scatter_all r 0 s.small.cardinality r (2 ^ m) (buffers r) (λ _. k.zero);
      }

      -- The claim at row j of coset i.
      at_row :
          (inv : BatchInverter k) (m i j t : ℕ)
          → m < 64
          → s.big.cardinality ≡ 2 ^ m
          → i < r
          → j < s.small.cardinality
          → t % r ≡ i
          → r * j + i ≡ t
          → (divide_coefficients inv s.small s.big (numerator m)).at (reverse_bits m t)
              ⊗ zh_on_coset s.small s.big t
            ≡ constraint_at s fs bp (s.big.fr_multiplicative_gen ⊗ k.exp s.big.generator t)
      at_row inv m i j t small_m size p q e split =
          ap₂
            (λ u z. (divide_coefficients inv s.small s.big (numerator m)).at (reverse_bits m u) ⊗ z)
            (sym split) (sym (zh_on_coset-mod s.small s.big d t) ∙ ap (zh_on_coset s.small s.big) e)
          ∙ divide_coefficients-scatter_all s.small s.big d inv m (buffers r) (λ _. k.zero) j i
              small_m size p q
          ∙ buffer-constraint_at s r x bp fs h i j q (avoids i p)
          ∙ ap (constraint_at s fs bp)
              (point i j ∙ ap (λ u. s.big.fr_multiplicative_gen ⊗ k.exp s.big.generator u) split)

      -- `divideByZH` on the vector that the loop leaves, for domains that `newInstance` builds: the
      -- large one has 2 ^ m elements, m < 64, refines the small one and its coset does not meet it,
      -- and the generator of the small one is ω ^ rho. At every point g * ω ^ t of the large coset, the
      -- entry for this point, times the value of Xⁿ - 1 there, is gates + α copy + α² (Z - 1) L₁, on the
      -- blinded polynomials, at this point.
      pub quotient-constraint_at :
          (inv : BatchInverter k) (m t : ℕ)
          → m < 64
          → s.big.cardinality ≡ 2 ^ m
          → t < 2 ^ m
          → (divide_coefficients inv s.small s.big (record {
            len = 2 ^ m;
            at = (loop_state s (rho s.small s.big) (rho s.small s.big) x bp).cres;
          })).at
                (reverse_bits m t)
              ⊗ zh_on_coset s.small s.big t
            ≡ constraint_at s fs bp (s.big.fr_multiplicative_gen ⊗ k.exp s.big.generator t)
      quotient-constraint_at inv m t small_m size p =
          ap
            (λ v.
              (divide_coefficients inv s.small s.big (record { len = 2 ^ m; at = v })).at
                (reverse_bits m t)
              ⊗ zh_on_coset s.small s.big t)
            (loop_state-cres r r
              ∙ ap (λ c. scatter_all r 0 s.small.cardinality r c (buffers r) (λ _. k.zero)) size)
          ∙ at_row inv m (t % r) (t / r) t small_m size (mod-lt t (rho_pos s.small s.big d)) inside
              refl (omega (arith, mod-add-div t r))
        where
          inside : t / r < s.small.cardinality
          inside =
              (div-lt_iff_lt-mul (rho_pos s.small s.big d)).1
                (omega (arith, rho-mul s.small s.big d, size, p))
