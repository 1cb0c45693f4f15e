-- ===== src/Blinding.antt =====
-- Blinding polynomials (integration/prove.go): their random coefficients, the blinded form of a
-- polynomial, and its value at a point.
pub mod Laws
use gnark_cuda.Prelude.{ℕ, zero, suc, ◌+◌, ◌≡◌, Option, none, some}
use gnark_cuda.Field.{Field, ◌⊕◌, ◌⊗◌, ◌⊖◌}
use gnark_cuda.Slice.{Slice, append, set}
use gnark_cuda.Poly.{Evaluator}

-- `order_blinding_L` and the others.
abbrev pub order_blinding_l : ℕ
order_blinding_l = 1

abbrev pub order_blinding_r : ℕ
order_blinding_r = 1

abbrev pub order_blinding_o : ℕ
order_blinding_o = 1

abbrev pub order_blinding_z : ℕ
order_blinding_z = 2

module _ {F : Type 0} ⦃k : Field F⦄ where
  -- `getRandomPolynomial(n)`: the random source is the argument `draw`, its i-th draw from the
  -- debug generator or from SetRandom; `none` is the argument -1, which switches blinding off.
  unfoldable pub get_random_polynomial : (draw : ℕ → F) → Option ℕ → Slice F
  get_random_polynomial draw none = record { len = 1; at = λ _. k.zero }
  get_random_polynomial draw (some n) = record { len = n + 1; at = draw }

  -- `for i := 0; i < len(cbp); i++ { cp[i].Sub(&cp[i], &cbp[i]) }`, from index i on.
  unfoldable pub subtract_loop : (rounds i : ℕ) → (cp cbp : Slice F) → Slice F
  subtract_loop zero i cp cbp = cp
  subtract_loop (suc rounds) i cp cbp =
      subtract_loop rounds (suc i) (set cp i (cp.at i ⊖ cbp.at i)) cbp

  -- `getBlindedCoefficients(p, bp)`
  unfoldable pub get_blinded_coefficients : (p bp : Slice F) → Slice F
  unfolding subtract_loop append set
  get_blinded_coefficients p bp = subtract_loop bp.len 0 (append p bp) bp

  -- `evaluateBlinded(p, bp, zeta)`
  unfoldable pub evaluate_blinded : Evaluator k → (p bp : Slice F) → F → F
  evaluate_blinded e p bp zeta = e.evaluate p zeta ⊕ e.evaluate bp zeta ⊗ (k.exp zeta p.len ⊖ k.one)
