-- ===== src/Field/Seventeen.antt =====
-- The integers mod 17: a field in which the interface of Field.antt has a value, so that the
-- definitions run and the hypotheses of the theorems can be met. It has a root of unity of order 16.
use native.Mathlib.Nat
use native.Mathlib.Nat.{mod-lt, mul_comm}
use native.Mathlib.Bridge.{le_prop}
use mathlib.Core.HLevel.{Σ_prop_path}
use gnark_cuda.Prelude.{
  ℕ, zero, suc, ◌+◌, ◌-◌, ◌*◌, ◌%◌, ◌<◌, ◌≡◌, ◌≢◌, refl, sym, ap, ◌∙◌, Bool, true, false,
  if◌then◌else◌, ◌||◌, ◌==◌, ◌/◌, inl, inr, Bool-cases, ==→≡, arith,
}
use gnark_cuda.Field.{Field}

abbrev pub F17 : Type 0
F17 = (n : ℕ) × (n < 17)

unfoldable pub reduce : ℕ → F17
reduce n = (n % 17, mod-lt n (omega arith))

abbrev pow17 : ℕ → ℕ → ℕ
pow17 a zero = 1
pow17 a (suc n) = a * pow17 a n % 17

-- The test that the 15th power of v inverts it.
inverts : ℕ → Bool
inverts v = (v == 0) || (v * pow17 v 15 % 17 == 1)

inverts_upto : ℕ → Bool
unfolding inverts
inverts_upto zero = true
inverts_upto (suc bound) = let rest = inverts_upto bound in if inverts bound then rest else false

inverts_upto_lem : (bound v : ℕ) → v < bound → inverts_upto bound ≡ true → inverts v ≡ true
unfolding inverts_upto
inverts_upto_lem zero v p h = absurd (omega arith)
inverts_upto_lem (suc bound) v p h = ground (arith, inverts_upto_lem bound v)

inv_table : inverts_upto 17 ≡ true
unfolding inverts_upto inverts
inv_table = refl

split-mul : (a b q r : ℕ) → a ≡ 17 * q + r → r * b % 17 ≡ a * b % 17
split-mul a b q r e = omega (arith, ap (λ (t : ℕ). t * b) e)

mod-mul_left : (a b : ℕ) → a % 17 * b % 17 ≡ a * b % 17
mod-mul_left a b = split-mul a b (a / 17) (a % 17) (omega arith)

mod-mul_right : (a b : ℕ) → a * (b % 17) % 17 ≡ a * b % 17
mod-mul_right a b =
    ap (λ (t : ℕ). t % 17) (mul_comm a (b % 17))
    ∙ mod-mul_left b a
    ∙ ap (λ (t : ℕ). t % 17) (mul_comm b a)

pub eq_of_val : {a b : F17} → a.0 ≡ b.0 → a ≡ b
eq_of_val = Σ_prop_path (λ n. le_prop)

unfoldable pub add : F17 → F17 → F17
add a b = reduce (a.0 + b.0)

unfoldable pub mul : F17 → F17 → F17
mul a b = reduce (a.0 * b.0)

unfoldable pub neg : F17 → F17
neg a = reduce (17 - a.0)

unfoldable pub sub : F17 → F17 → F17
sub a b = add a (neg b)

unfoldable pub exp : F17 → ℕ → F17
exp a zero = reduce 1
exp a (suc n) = mul a (exp a n)

unfoldable pub inverse : F17 → F17
inverse a = reduce (pow17 a.0 15)

pub add_assoc : (a b c : F17) → add (add a b) c ≡ add a (add b c)
unfolding add reduce
add_assoc a b c = eq_of_val (omega arith)

pub add_comm : (a b : F17) → add a b ≡ add b a
unfolding add reduce
add_comm a b = eq_of_val (omega arith)

pub zero-add : (a : F17) → add (reduce 0) a ≡ a
unfolding add reduce
zero-add a = eq_of_val (omega (arith, a.1))

pub add-neg : (a : F17) → add a (neg a) ≡ reduce 0
unfolding add neg reduce
add-neg a = eq_of_val (omega (arith, a.1))

pub mul_assoc : (a b c : F17) → mul (mul a b) c ≡ mul a (mul b c)
unfolding mul reduce
mul_assoc a b c = eq_of_val (
    mod-mul_left (a.0 * b.0) c.0
    ∙ ap (λ (t : ℕ). t % 17) (Nat.mul_assoc a.0 b.0 c.0)
    ∙ sym (mod-mul_right a.0 (b.0 * c.0)))

pub mul_comm' : (a b : F17) → mul a b ≡ mul b a
unfolding mul
mul_comm' a b = ap reduce (mul_comm a.0 b.0)

pub one-mul : (a : F17) → mul (reduce 1) a ≡ a
unfolding mul reduce
one-mul a = eq_of_val (omega (arith, a.1))

pub mul-add : (a b c : F17) → mul a (add b c) ≡ add (mul a b) (mul a c)
unfolding mul add reduce
mul-add a b c = eq_of_val (mod-mul_right a.0 (b.0 + c.0) ∙ omega arith)

pub one-ne-zero : reduce 1 ≢ reduce 0
unfolding reduce
one-ne-zero e = absurd (omega (arith, ap (λ (x : F17). x.0) e))

pub mul-inverse : (a : F17) → a ≢ reduce 0 → mul a (inverse a) ≡ reduce 1
unfolding mul inverse reduce inverts
mul-inverse a h =
    eq_of_val (mod-mul_right a.0 (pow17 a.0 15) ∙ check (inverts_upto_lem 17 a.0 a.1 inv_table))
  where
    check : ((a.0 == 0) || (a.0 * pow17 a.0 15 % 17 == 1)) ≡ true → a.0 * pow17 a.0 15 % 17 ≡ 1
    check e = elim (Bool-cases (a.0 == 0)) [
      | inl z ↦ absurd (h (eq_of_val (==→≡ a.0 0 z)))
      | inr z ↦ ==→≡ _ 1 (rw z at e)
    ]

pub sub_lem : (a b : F17) → sub a b ≡ add a (neg b)
unfolding sub
sub_lem a b = refl

pub exp-zero : (a : F17) → exp a 0 ≡ reduce 1
unfolding exp
exp-zero a = refl

pub exp-suc : (a : F17) (n : ℕ) → exp a (suc n) ≡ mul a (exp a n)
unfolding exp
exp-suc a n = refl

instance abbrev pub f17 : Field F17
f17 = record {
  zero = reduce 0;
  one = reduce 1;
  add = add;
  mul = mul;
  sub = sub;
  neg = neg;
  inverse = inverse;
  exp = exp;
  add_assoc = add_assoc;
  add_comm = add_comm;
  zero-add = zero-add;
  add-neg = add-neg;
  sub_lem = sub_lem;
  mul_assoc = mul_assoc;
  mul_comm = mul_comm';
  one-mul = one-mul;
  mul-add = mul-add;
  one-ne-zero = one-ne-zero;
  mul-inverse = mul-inverse;
  exp-zero = exp-zero;
  exp-suc = exp-suc;
}

-- A value as a number, for tests.
abbrev pub val : F17 → ℕ
val a = a.0

pub ne_zero_of_val : (n : ℕ) → n % 17 ≢ 0 → reduce n ≢ reduce 0
unfolding reduce
ne_zero_of_val n h e = h (ap (λ (x : F17). x.0) e)
