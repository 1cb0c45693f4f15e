-- ===== src/Bits/Reverse.antt =====
-- The 64-bit reversal and its shift, on a vector of 2 ^ w entries.
use native.Mathlib.Nat.{mul-div_cancel}
use gnark_cuda.Prelude.{
  ℕ, zero, suc, ◌+◌, ◌-◌, ◌*◌, ◌/◌, ◌%◌, ◌^◌, ◌<◌, ◌≡◌, ◌∙◌, ◌⊎◌, inl, inr, refl, ap, ap₂, arith,
}
use gnark_cuda.Bits.{reverse_bits, reverse64, trailing_zeros, trailing_zeros64, reversed_index}

pow-suc : (w : ℕ) → 2 ^ suc w ≡ 2 * 2 ^ w
pow-suc w = omega arith

pow-pos : (a : ℕ) → 0 < 2 ^ a
pow-pos zero = omega arith
pow-pos (suc a) = omega (arith, pow-pos a, pow-suc a)

reverse_bits-zero : (w : ℕ) → reverse_bits w 0 ≡ 0
unfolding reverse_bits
reverse_bits-zero zero = refl
reverse_bits-zero (suc w) = omega (arith, reverse_bits-zero w)

two_values : (b : ℕ) → b < 2 → (b ≡ 0) ⊎ (b ≡ 1)
two_values b h = omega arith

pub reverse_bits-lt : (w x : ℕ) → reverse_bits w x < 2 ^ w
unfolding reverse_bits
reverse_bits-lt zero x = omega arith
reverse_bits-lt (suc w) x = elim (two_values (x % 2) (omega arith)) [
  | inl e ↦ rw e (omega (arith, reverse_bits-lt w (x / 2), pow-suc w))
  | inr e ↦ rw e (omega (arith, reverse_bits-lt w (x / 2), pow-suc w))
]

pow-add : (w d : ℕ) → 2 ^ (w + d) ≡ 2 ^ w * 2 ^ d
pow-add zero d = ap (λ t. 2 ^ t) {y = d} (omega arith) ∙ omega arith
pow-add (suc w) d =
    ap (λ t. 2 ^ t) {y = suc (w + d)} (omega arith)
    ∙ omega (arith, pow-suc (w + d), pow-add w d, ap (λ (t : ℕ). t * 2 ^ d) (pow-suc w))

-- Reversing w + d bits of a number below 2 ^ w moves the reversal of its w bits up by d places.
reverse_bits-shift : (w d x : ℕ) → x < 2 ^ w → reverse_bits (w + d) x ≡ reverse_bits w x * 2 ^ d
unfolding reverse_bits
reverse_bits-shift zero d x p =
    let e : x ≡ 0 = omega arith in
    rw e (ap (λ t. reverse_bits t 0) {y = d} (omega arith) ∙ reverse_bits-zero d ∙ omega arith)
reverse_bits-shift (suc w) d x p =
    ap (λ t. reverse_bits t x) {y = suc (w + d)} (omega arith)
    ∙ ap (λ t. x % 2 * 2 ^ (w + d) + t) (reverse_bits-shift w d (x / 2) (omega (arith, pow-suc w)))
    ∙ distribute (x % 2)
  where
    distribute :
        (b : ℕ)
        → b * 2 ^ (w + d) + reverse_bits w (x / 2) * 2 ^ d
          ≡ (b * 2 ^ w + reverse_bits w (x / 2)) * 2 ^ d
    distribute b = omega (arith, ap (λ (t : ℕ). b * t) (pow-add w d))

-- The highest bit becomes the lowest.
reverse_bits-high :
    (w b r : ℕ)
    → b < 2
    → r < 2 ^ w
    → reverse_bits (suc w) (b * 2 ^ w + r) ≡ 2 * reverse_bits w r + b
unfolding reverse_bits
reverse_bits-high zero b r p q = omega arith
reverse_bits-high (suc w) b r p q =
    ap₂ (λ s t. s * 2 ^ suc w + reverse_bits (suc w) t) low rest
    ∙ ap (λ t. r % 2 * 2 ^ suc w + t) (reverse_bits-high w b (r / 2) p (omega (arith, pow-suc w)))
    ∙ omega (arith, ap (λ (t : ℕ). r % 2 * t) (pow-suc w))
  where
    e : b * 2 ^ suc w ≡ 2 * (b * 2 ^ w)
    e = omega (arith, ap (λ (t : ℕ). b * t) (pow-suc w))

    low : (b * 2 ^ suc w + r) % 2 ≡ r % 2
    low = rw e (omega arith)

    rest : (b * 2 ^ suc w + r) / 2 ≡ b * 2 ^ w + r / 2
    rest = rw e (omega arith)

-- Reversal of w bits is its own inverse.
pub reverse_bits-reverse_bits : (w x : ℕ) → x < 2 ^ w → reverse_bits w (reverse_bits w x) ≡ x
reverse_bits-reverse_bits zero x p = unfold reverse_bits in omega arith
reverse_bits-reverse_bits (suc w) x p =
    ap (reverse_bits (suc w)) {y = x % 2 * 2 ^ w + reverse_bits w (x / 2)}
      (unfold reverse_bits in refl)
    ∙ reverse_bits-high w (x % 2) (reverse_bits w (x / 2)) (omega arith) (reverse_bits-lt w (x / 2))
    ∙ omega (arith, reverse_bits-reverse_bits w (x / 2) (omega (arith, pow-suc w)))

trailing_zeros-pow : (fuel w : ℕ) → w < fuel → trailing_zeros fuel (2 ^ w) ≡ w
unfolding trailing_zeros
trailing_zeros-pow zero w p = elim p [ ]
trailing_zeros-pow (suc fuel) zero p = refl
trailing_zeros-pow (suc fuel) (suc w) p =
    let e : 2 ^ suc w % 2 ≡ 0 = omega (arith, pow-suc w) in
    let h : 2 ^ suc w / 2 ≡ 2 ^ w = omega (arith, pow-suc w) in
    rw (e, h) (ap suc (trailing_zeros-pow fuel w (omega arith)))

-- For a vector of 2 ^ w entries with w < 64, the source's index computation on x < 2 ^ w reverses the
-- w bits of x.
pub reversed_index-pow :
    (w x : ℕ) → w < 64 → x < 2 ^ w → reversed_index (2 ^ w) x ≡ reverse_bits w x
unfolding reversed_index reverse64 trailing_zeros64
reversed_index-pow w x p q =
    ap₂ (λ s t. reverse_bits s x / 2 ^ (64 - t)) {y = w + (64 - w)} (omega arith)
      (trailing_zeros-pow 64 w p)
    ∙ ap (λ t. t / 2 ^ (64 - w)) (reverse_bits-shift w (64 - w) x q)
    ∙ mul-div_cancel (reverse_bits w x) (pow-pos (64 - w))
