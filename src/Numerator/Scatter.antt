-- ===== src/Numerator/Scatter.antt =====
-- The writes of `computeNumerator` into the result vector: coset by coset, at bit-reversed indices.
use native.Mathlib.Nat.{mul-le-mul_left}
use native.Mathlib.Decide.{ℕ_discrete}
use gnark_cuda.Field.{Field}
use gnark_cuda.Prelude.{
  ℕ, zero, suc, ◌+◌, ◌*◌, ◌^◌, ◌<◌, ◌≤◌, ◌≡◌, ◌⊎◌, ◌∙◌, refl, sym, ap, arith, inl, inr,
}
use gnark_cuda.Slice.{update, update_self, update_ne}
use gnark_cuda.Bits.{reverse_bits, reversed_index}
use gnark_cuda.Bits.Reverse.{reverse_bits-reverse_bits, reversed_index-pow}
use gnark_cuda.Numerator.{scatter_loop, scatter_all}

-- Two indices below 2 ^ w that have one reversal are equal.
reverse_bits_injective :
    (w x y : ℕ) → x < 2 ^ w → y < 2 ^ w → reverse_bits w x ≡ reverse_bits w y → x ≡ y
reverse_bits_injective w x y p q e =
    sym (reverse_bits-reverse_bits w x p) ∙ ap (reverse_bits w) e ∙ reverse_bits-reverse_bits w y q

three_cases : (a b : ℕ) → (a < b) ⊎ ((a ≡ b) ⊎ (b < a))
three_cases a b = omega arith

pub reversed_index_injective :
    (w x y : ℕ)
    → w < 64
    → x < 2 ^ w
    → y < 2 ^ w
    → reversed_index (2 ^ w) x ≡ reversed_index (2 ^ w) y
    → x ≡ y
reversed_index_injective w x y h p q e =
    reverse_bits_injective w x y p q
      (sym (reversed_index-pow w x h p) ∙ e ∙ reversed_index-pow w y h q)

-- The position of row j of coset i among rho cosets is below rho * n.
pub position-lt : (rho n j i : ℕ) → i < rho → j < n → rho * j + i < rho * n
position-lt rho n j i p q = omega (arith, mul-le-mul_left rho q)

-- The position determines the coset and the row.
position_injective :
    (rho j i j' i' : ℕ) → i < rho → i' < rho → rho * j + i ≡ rho * j' + i' → (j ≡ j') × (i ≡ i')
position_injective rho j i j' i' p q e = elim (three_cases j j') [
  | inl r ↦ absurd (omega (arith, mul-le-mul_left rho r))
  | inr (inl d) ↦ (d, omega (arith, ap (λ (t : ℕ). rho * t) d))
  | inr (inr r) ↦ absurd (omega (arith, mul-le-mul_left rho r))
]

module _ {F : Type 0} ⦃k : Field F⦄ (w rho n : ℕ) (h : w < 64) (size : rho * n ≡ 2 ^ w) where
  -- Writes at other positions leave an entry alone.
  scatter_loop_other :
      (rounds j i : ℕ) (buf cres : ℕ → F) (j' i' : ℕ)
      → i < rho
      → i' < rho
      → j' < n
      → j + rounds ≤ n
      → ((t : ℕ) → j ≤ t → t < j + rounds → (t ≡ j') × (i ≡ i') → ⊥)
      → scatter_loop rounds j rho i (2 ^ w) buf cres (reversed_index (2 ^ w) (rho * j' + i'))
        ≡ cres (reversed_index (2 ^ w) (rho * j' + i'))
  unfolding scatter_loop
  scatter_loop_other zero j i buf cres j' i' p p' q' b d = refl
  scatter_loop_other (suc rounds) j i buf cres j' i' p p' q' b d =
      scatter_loop_other rounds (suc j) i buf _ j' i' p p' q' (omega arith)
        (λ t r s. d t (omega arith) (omega arith))
      ∙ update_ne cres _ _ (buf j) (λ e. d j (omega arith) (omega arith) (
          position_injective rho j i j' i' p p' (
            reversed_index_injective w (rho * j + i) (rho * j' + i') h
              (omega (arith, position-lt rho n j i p (omega arith), size))
              (omega (arith, position-lt rho n j' i' p' q', size)) e)))

  -- The loop of one coset writes row j at the position of (j, i).
  scatter_loop_lem :
      (rounds j i : ℕ) (buf cres : ℕ → F) (j' : ℕ)
      → i < rho
      → j ≤ j'
      → j' < j + rounds
      → j + rounds ≤ n
      → scatter_loop rounds j rho i (2 ^ w) buf cres (reversed_index (2 ^ w) (rho * j' + i))
        ≡ buf j'
  unfolding scatter_loop
  scatter_loop_lem zero j i buf cres j' p q r b = absurd (omega arith)
  scatter_loop_lem (suc rounds) j i buf cres j' p q r b = elim (ℕ_discrete j j') [
    | yes e ↦
        scatter_loop_other rounds (suc j) i buf _ j' i p p (omega arith) (omega arith)
          (λ t lo hi d. omega (arith, d.0))
        ∙ ap
            (λ x.
              update cres (reversed_index (2 ^ w) (rho * j + i)) (buf j)
                (reversed_index (2 ^ w) (rho * x + i)))
            (sym e)
        ∙ update_self cres _ (buf j)
        ∙ ap buf e
    | no d ↦ scatter_loop_lem rounds (suc j) i buf _ j' p (omega arith) (omega arith) (omega arith)
  ]

  scatter_all_other :
      (iterations i : ℕ) (bufs : ℕ → ℕ → F) (cres : ℕ → F) (j' i' : ℕ)
      → i + iterations ≤ rho
      → i' < i
      → j' < n
      → scatter_all iterations i n rho (2 ^ w) bufs cres (reversed_index (2 ^ w) (rho * j' + i'))
        ≡ cres (reversed_index (2 ^ w) (rho * j' + i'))
  unfolding scatter_all
  scatter_all_other zero i bufs cres j' i' b p q = refl
  scatter_all_other (suc iterations) i bufs cres j' i' b p q =
      scatter_all_other iterations (suc i) bufs _ j' i' (omega arith) (omega arith) q
      ∙ scatter_loop_other n 0 i (bufs i) cres j' i' (omega arith) (omega arith) q (omega arith)
          (λ t lo hi d. omega (arith, d.1))

  scatter_all_lem :
      (iterations i : ℕ) (bufs : ℕ → ℕ → F) (cres : ℕ → F) (j' i' : ℕ)
      → i + iterations ≤ rho
      → i ≤ i'
      → i' < i + iterations
      → j' < n
      → scatter_all iterations i n rho (2 ^ w) bufs cres (reversed_index (2 ^ w) (rho * j' + i'))
        ≡ bufs i' j'
  unfolding scatter_all
  scatter_all_lem zero i bufs cres j' i' b p r q = absurd (omega arith)
  scatter_all_lem (suc iterations) i bufs cres j' i' b p r q = elim (ℕ_discrete i i') [
    | yes e ↦
        scatter_all_other iterations (suc i) bufs _ j' i' (omega arith) (omega arith) q
        ∙ ap
            (λ x.
              scatter_loop n 0 rho i (2 ^ w) (bufs i) cres (reversed_index (2 ^ w) (rho * j' + x)))
            (sym e)
        ∙ scatter_loop_lem n 0 i (bufs i) cres j' (omega arith) (omega arith) (omega arith)
            (omega arith)
        ∙ ap (λ x. bufs x j') e
    | no d ↦
        scatter_all_lem iterations (suc i) bufs _ j' i' (omega arith) (omega arith) (omega arith) q
  ]

  -- After all rho iterations, with rho * n = 2 ^ w entries in the result vector and w < 64, the value
  -- that iteration i computed for row j stands at the reversal of the w bits of rho * j + i, for every
  -- i < rho and j < n: no later write replaces it.
  pub scatter_all-reverse_bits :
      (bufs : ℕ → ℕ → F) (cres : ℕ → F) (j i : ℕ)
      → i < rho
      → j < n
      → scatter_all rho 0 n rho (2 ^ w) bufs cres (reverse_bits w (rho * j + i)) ≡ bufs i j
  scatter_all-reverse_bits bufs cres j i p q =
      ap (scatter_all rho 0 n rho (2 ^ w) bufs cres) (
        sym (reversed_index-pow w (rho * j + i) h (omega (arith, position-lt rho n j i p q, size))))
      ∙ scatter_all_lem rho 0 bufs cres j i (omega arith) (omega arith) (omega arith) q
