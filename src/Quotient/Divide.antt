-- ===== src/Quotient/Divide.antt =====
-- `evaluateXnMinusOneDomainBigCoset` and `divideByZH` of integration/prove.go. The FFT of
-- gnark-crypto, its `BatchInvert` and the other methods of a polynomial are parameters.
pub mod Laws
use gnark_cuda.Prelude.{
  ℕ, zero, suc, ◌+◌, ◌-◌, ◌*◌, ◌/◌, ◌%◌, ◌≡◌, ◌<◌, Bool, true, false, ◌||◌, Option, none, some,
  ◌==◌, if◌then◌else◌, not,
}
use gnark_cuda.Field.{Field, ◌⊗◌, ◌⊖◌}
use gnark_cuda.Slice.{Slice, update}
use gnark_cuda.Bits.{reversed_index}

-- `fft.Domain`, as far as the prover reads it.
pub record Domain (F : Type 0) : Type 0 where
  pub cardinality : ℕ
  pub cardinality_inv : F
  pub generator : F
  pub fr_multiplicative_gen : F

-- `iop.Form`
pub data Basis : Type 0 where
  canonical lagrange lagrange_coset : Basis

pub data Layout : Type 0 where
  regular bit_reverse : Layout

-- `iop.Polynomial`
pub record Polynomial (F : Type 0) : Type 0 where
  pub coefficients : Slice F
  pub basis : Basis
  pub layout : Layout

abbrev pub is_lagrange_coset : Basis → Bool
is_lagrange_coset lagrange_coset = true
is_lagrange_coset _ = false

abbrev pub is_bit_reverse : Layout → Bool
is_bit_reverse bit_reverse = true
is_bit_reverse _ = false

-- The four errors of `divideByZH`.
pub data DivideError : Type 0 where
  invalid_domain invalid_cardinality invalid_ratio invalid_form : DivideError

pub data Divided (A : Type 0) : Type 0 where
  divided : A → Divided A
  failed : DivideError → Divided A

-- `fr.BatchInvert`
pub record BatchInverter {F : Type 0} (k : Field F) : Type 0 where
  pub invert : (n : ℕ) → (ℕ → F) → ℕ → F
  pub invert_lem : (n : ℕ) (f : ℕ → F) (i : ℕ) → i < n → invert n f i ≡ k.inverse (f i)

module _ {F : Type 0} ⦃k : Field F⦄ where
  -- `for i := 1; i < rho; i++ { res[i].Mul(&res[i-1], &t); res[i-1].Sub(&res[i-1], &one) }`,
  -- from index i + 1 on.
  unfoldable pub powers_loop : (rounds i : ℕ) (t : F) → (ℕ → F) → ℕ → F
  powers_loop zero i t res = res
  powers_loop (suc rounds) i t res =
      let next = update res (suc i) (res i ⊗ t) in
      powers_loop rounds (suc i) t (update next i (next i ⊖ k.one))

  -- `evaluateXnMinusOneDomainBigCoset(domains)`, a slice of big.cardinality / small.cardinality.
  unfoldable pub evaluate_xn_minus_one : BatchInverter k → (small big : Domain F) → ℕ → F
  unfolding powers_loop
  evaluate_xn_minus_one inv small big =
      let rho = big.cardinality / small.cardinality in
      let start = update (λ _. k.zero) 0 (k.exp big.fr_multiplicative_gen small.cardinality) in
      let t = k.exp big.generator small.cardinality in
      let res = powers_loop (rho - 1) 0 t start in
      inv.invert rho (update res (rho - 1) (res (rho - 1) ⊖ k.one))

  -- The loop body of `divideByZH`, for every index of the vector.
  unfoldable pub divide_coefficients : BatchInverter k → (small big : Domain F) → Slice F → Slice F
  unfolding evaluate_xn_minus_one
  divide_coefficients inv small big r =
      let rho = big.cardinality / small.cardinality in
      let inverses = evaluate_xn_minus_one inv small big in
      record { len = r.len; at = λ i. r.at i ⊗ inverses (reversed_index r.len i % rho) }

  -- `divideByZH(a, domains)`; `to_canonical` is `ToCanonical` on the large domain and `ToRegular`.
  unfoldable pub divide_by_zh :
      BatchInverter k
      → (to_canonical : Domain F → Polynomial F → Polynomial F) → Polynomial F
      → (small big : Option (Domain F)) → Divided (Polynomial F)
  divide_by_zh inv to_canonical a none big = failed invalid_domain
  divide_by_zh inv to_canonical a (some small) none = failed invalid_domain
  divide_by_zh inv to_canonical a (some small) (some big) =
      if small.cardinality == 0 || big.cardinality == 0
      then failed invalid_cardinality
      else if not (big.cardinality % small.cardinality == 0)
      then failed invalid_ratio
      else if not (is_lagrange_coset a.basis) || not (is_bit_reverse a.layout)
      then failed invalid_form
      else divided (
          to_canonical big
            (record a { coefficients = divide_coefficients inv small big a.coefficients }))
