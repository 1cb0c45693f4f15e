-- ===== src/Examples/Rounding.antt =====
-- The least power of two that is not below a number, as `fft.NewDomain` documents its cardinality.
use gnark_cuda.Prelude.{
  ℕ, zero, suc, ◌^◌, ◌*◌, ◌≤◌, ◌≡◌, refl, arith, ltb, if◌then◌else◌, inl, inr, Bool-cases, ltb→lt,
  ltb→le,
}
use gnark_cuda.Quotient.Domains.{IsPowerRounding}

log_up : ℕ → ℕ
log_up zero = 0
log_up (suc m) = let l = log_up m in if ltb (2 ^ l) (suc m) then suc l else l

double : (a : ℕ) → 2 ^ suc a ≡ 2 * 2 ^ a
double a = omega arith

one-le-pow : (a : ℕ) → 1 ≤ 2 ^ a
one-le-pow zero = omega arith
one-le-pow (suc a) = omega (arith, double a, one-le-pow a)

pow_mono : (a b : ℕ) → a ≤ b → 2 ^ a ≤ 2 ^ b
pow_mono zero b h = one-le-pow b
pow_mono (suc a) zero h = absurd (omega arith)
pow_mono (suc a) (suc b) h = omega (arith, double a, double b, pow_mono a b (omega arith))

log_up-above : (m : ℕ) → m ≤ 2 ^ log_up m
unfolding log_up
log_up-above zero = omega arith
log_up-above (suc m) = elim (Bool-cases (ltb (2 ^ log_up m) (suc m))) [
  | inl h ↦ rw h (omega (arith, double (log_up m), log_up-above m, one-le-pow (log_up m)))
  | inr h ↦ rw h (ltb→le _ _ h)
]

log_up-least : (m a : ℕ) → m ≤ 2 ^ a → log_up m ≤ a
unfolding log_up
log_up-least zero a h = omega arith
log_up-least (suc m) a h = elim (Bool-cases (ltb (2 ^ log_up m) (suc m))) [
  | inl q ↦ rw q (elim (Bool-cases (ltb (log_up m) a)) [
    | inl r ↦ ltb→lt _ _ r
    | inr r ↦
        absurd (omega (arith, ltb→lt _ _ q, log_up-above m, pow_mono a (log_up m) (ltb→le _ _ r)))
  ])
  | inr q ↦ rw q (log_up-least m a (omega arith))
]

unfoldable pub round_up : ℕ → ℕ
unfolding log_up
round_up m = 2 ^ log_up m

pub round_up-IsPowerRounding : IsPowerRounding round_up
unfolding round_up
round_up-IsPowerRounding = record {
  exponent = log_up;
  is_power = λ m. refl;
  not_below = log_up-above;
  least = λ m a h. pow_mono (log_up m) a (log_up-least m a h);
}
