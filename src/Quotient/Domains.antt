-- ===== src/Quotient/Domains.antt =====
-- The cardinalities of the two domains: the room for the quotient, and divisibility.
use gnark_cuda.Prelude.{
  ℕ, zero, suc, ◌+◌, ◌-◌, ◌*◌, ◌%◌, ◌^◌, ◌<◌, ◌≤◌, ◌≡◌, ◌∙◌, ap, arith, ltb, inl, inr, Bool-cases,
  ltb→le, Bool,
}
use native.Mathlib.Nat.{mul-mod_left}
use gnark_cuda.Field.{Field}
use gnark_cuda.Slice.{Slice}
use gnark_cuda.Outcome.{panic}
use gnark_cuda.Quotient.{domain_cardinalities, big_domain_request, h3}
use gnark_cuda.Quotient.Shards.{h3_panics}

-- What `fft.NewDomain` documents of its argument: the cardinality is the least power of two that
-- is not below it.
pub record IsPowerRounding (round : ℕ → ℕ) : Type 0 where
  pub exponent : ℕ → ℕ
  pub is_power : (m : ℕ) → round m ≡ 2 ^ exponent m
  pub not_below : (m : ℕ) → m ≤ round m
  pub least : (m a : ℕ) → m ≤ 2 ^ a → round m ≤ 2 ^ a

pow-pos : (a : ℕ) → 0 < 2 ^ a
pow-pos zero = omega arith
pow-pos (suc a) = omega (arith, pow-pos a)

pow-two : (b : ℕ) → 2 ^ suc (suc b) ≡ 4 * 2 ^ b
pow-two b = omega arith

pow_reflects_le : (a b : ℕ) → 2 ^ a ≤ 2 ^ b → a ≤ b
pow_reflects_le zero b h = omega arith
pow_reflects_le (suc a) zero h = absurd (omega (arith, pow-pos a))
pow_reflects_le (suc a) (suc b) h = omega (arith, pow_reflects_le a b (omega arith))

pow-double : (b : ℕ) → 2 ^ suc b ≡ 2 * 2 ^ b
pow-double b = omega arith

-- 2 ^ a divides every higher power of two.
pow_quotient : (a d : ℕ) → 2 ^ (a + d) ≡ 2 ^ d * 2 ^ a
pow_quotient a zero = ap (λ x. 2 ^ x) {y = a} (omega arith) ∙ omega arith
pow_quotient a (suc d) =
    ap (λ x. 2 ^ x) {y = suc (a + d)} (omega arith)
    ∙ omega (arith, pow_quotient a d, ap (λ (t : ℕ). t * 2 ^ a) (pow-double d), pow-double (a + d))

module _ {round : ℕ → ℕ} (r : IsPowerRounding round) where
  four_times : (m : ℕ) → 0 < m → 4 * round m ≤ round (4 * m)
  four_times m pos = go (r.exponent (4 * m)) (r.is_power (4 * m))
    where
      go : (b : ℕ) → round (4 * m) ≡ 2 ^ b → 4 * round m ≤ round (4 * m)
      go zero e = absurd (omega (arith, r.not_below (4 * m)))
      go (suc zero) e = absurd (omega (arith, r.not_below (4 * m)))
      go (suc (suc b)) e =
          omega (arith, r.least m b (omega (arith, r.not_below (4 * m), pow-two b)), pow-two b)

  eight_times : (m : ℕ) → 0 < m → 8 * round m ≤ round (8 * m)
  eight_times m pos = go (r.exponent (8 * m)) (r.is_power (8 * m))
    where
      go : (b : ℕ) → round (8 * m) ≡ 2 ^ b → 8 * round m ≤ round (8 * m)
      go zero e = absurd (omega (arith, r.not_below (8 * m)))
      go (suc zero) e = absurd (omega (arith, r.not_below (8 * m)))
      go (suc (suc zero)) e = absurd (omega (arith, r.not_below (8 * m)))
      go (suc (suc (suc b))) e = omega (
        arith,
        r.least m b (omega (arith, r.not_below (8 * m), pow-two (suc b))),
        pow-two (suc b),
      )

  abbrev pub small : ℕ → ℕ
  small size = (domain_cardinalities round size).0

  abbrev pub big : ℕ → ℕ
  big size = (domain_cardinalities round size).1

  -- For a system of at least two rows the large domain has room for the 3 * (n + 2) coefficients of
  -- the three shards, where n is the cardinality of the small domain.
  pub quotient_fits : (size : ℕ) → 2 ≤ size → 3 * (small size + 2) ≤ big size
  unfolding domain_cardinalities
  quotient_fits size h = elim (Bool-cases (ltb size 6)) [
    | inl s ↦ rw s (omega (arith, eight_times size (omega arith), r.not_below size))
    | inr s ↦ rw s (omega (arith, four_times size (omega arith), r.not_below size, ltb→le size 6 s))
  ]

  small-le-big : (size : ℕ) → 0 < size → 4 * small size ≤ big size
  unfolding domain_cardinalities
  small-le-big size h = elim (Bool-cases (ltb size 6)) [
    | inl s ↦ rw s (omega (arith, eight_times size (omega arith)))
    | inr s ↦ rw s (omega (arith, four_times size (omega arith)))
  ]

  -- For a system of at least one row the cardinality of the large domain is a multiple of the
  -- cardinality of the small one, which `divideByZH` checks.
  small-divides-big : (size : ℕ) → 0 < size → big size % small size ≡ 0
  unfolding domain_cardinalities
  small-divides-big size h =
      rw (r.is_power size, r.is_power (big_domain_request size))
        (ap (λ x. x % 2 ^ a) split ∙ mul-mod_left (2 ^ (b - a)) (2 ^ a))
    where
      a : ℕ
      a = r.exponent size

      b : ℕ
      b = r.exponent (big_domain_request size)

      le : a ≤ b
      le = pow_reflects_le a b (
          omega (arith, small-le-big size h, r.is_power size, r.is_power (big_domain_request size)))

      split : 2 ^ b ≡ 2 ^ (b - a) * 2 ^ a
      split = ap (λ x. 2 ^ x) {y = a + (b - a)} (omega (arith, le)) ∙ pow_quotient a (b - a)

  one_row : (small 1 ≡ 1) × (big 1 ≡ 8)
  unfolding domain_cardinalities
  one_row = (
    omega (arith, r.least 1 0 (omega arith), r.not_below 1),
    omega (arith, r.least 8 3 (omega arith), r.not_below 8),
  )

  -- For a system of one row a quotient with as many coefficients as the large domain has elements is
  -- too short, and `h3` panics, with or without the blinding of the shards.
  pub one_row_panics :
      {F : Type 0} ⦃k : Field F⦄ (zk : Bool) (r1 : F) (h : Slice F)
      → h.len ≡ big 1
      → h3 zk (small 1) r1 h ≡ panic
  one_row_panics zk r1 h e = h3_panics zk (small 1) r1 h (omega (arith, one_row))
