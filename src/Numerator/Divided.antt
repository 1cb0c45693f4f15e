-- ===== src/Numerator/Divided.antt =====
-- `divideByZH` on the result vector of `computeNumerator`: the values of the quotient.
use native.Mathlib.Nat.{mul-add-mod_self_left, mod-eq_of_lt}
use gnark_cuda.Prelude.{ℕ, ◌+◌, ◌*◌, ◌%◌, ◌^◌, ◌<◌, ◌≡◌, ◌∙◌, refl, sym, ap, arith}
use gnark_cuda.Field.{Field, ◌⊗◌}
use gnark_cuda.Slice.{Slice}
use gnark_cuda.Bits.{reverse_bits}
use gnark_cuda.Quotient.Divide.{Domain, BatchInverter, divide_coefficients}
use gnark_cuda.Quotient.Divide.Laws.{
  IsRefinement, zh_on_coset, zh_on_coset-mod, divide_coefficients-zh, rho, rho-mul,
}
use gnark_cuda.Numerator.{scatter_all}
use gnark_cuda.Numerator.Scatter.{position-lt, scatter_all-reverse_bits}

module _ {F : Type 0} ⦃k : Field F⦄ (small big : Domain F) (d : IsRefinement small big) where
  row_mod : (j i : ℕ) → i < rho small big → (rho small big * j + i) % rho small big ≡ i
  row_mod j i p = mul-add-mod_self_left _ _ _ ∙ mod-eq_of_lt p

  -- For a large domain of 2 ^ w elements, w < 64, that refines the small one and whose coset does not
  -- meet it: after the writes of all iterations and the division, the entry for row j of coset i,
  -- times the value (g * ω ^ i) ^ n - 1 that Xⁿ - 1 has on this coset, is the value that iteration i
  -- computed for row j, where g shifts to the coset and ω generates the large domain.
  pub divide_coefficients-scatter_all :
      (inv : BatchInverter k) (w : ℕ) (bufs : ℕ → ℕ → F) (cres : ℕ → F) (j i : ℕ)
      → w < 64
      → big.cardinality ≡ 2 ^ w
      → i < rho small big
      → j < small.cardinality
      → (divide_coefficients inv small big (record {
        len = 2 ^ w;
        at = scatter_all (rho small big) 0 small.cardinality (rho small big) (2 ^ w) bufs cres;
      })).at
            (reverse_bits w (rho small big * j + i))
          ⊗ zh_on_coset small big i
        ≡ bufs i j
  divide_coefficients-scatter_all inv w bufs cres j i h size p q =
      ap
        (λ x.
          (divide_coefficients inv small big numerator).at (reverse_bits w (rho small big * j + i))
          ⊗ x)
        (ap (zh_on_coset small big) (sym (row_mod j i p))
          ∙ zh_on_coset-mod small big d (rho small big * j + i))
      ∙ divide_coefficients-zh small big d inv w numerator h refl (rho small big * j + i)
          (omega (arith, position-lt (rho small big) small.cardinality j i p q, total))
      ∙ scatter_all-reverse_bits w (rho small big) small.cardinality h total bufs cres j i p q
    where
      numerator : Slice F
      numerator = record {
        len = 2 ^ w;
        at = scatter_all (rho small big) 0 small.cardinality (rho small big) (2 ^ w) bufs cres;
      }

      total : rho small big * small.cardinality ≡ 2 ^ w
      total = omega (arith, rho-mul small big d, size)
