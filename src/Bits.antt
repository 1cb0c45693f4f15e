-- ===== src/Bits.antt =====
-- `bits.TrailingZeros64` and `bits.Reverse64` of Go's standard library, as the prover uses them: the
-- bit-reversed index of a vector whose length is a power of two.
pub mod Reverse
use gnark_cuda.Prelude.{ℕ, zero, suc, ◌+◌, ◌-◌, ◌*◌, ◌/◌, ◌%◌, ◌^◌, ◌==◌, if◌then◌else◌}

-- The lowest w bits of x, in reverse order.
unfoldable pub reverse_bits : (w : ℕ) → ℕ → ℕ
reverse_bits zero x = 0
reverse_bits (suc w) x = x % 2 * 2 ^ w + reverse_bits w (x / 2)

-- `bits.Reverse64(x)`
unfoldable pub reverse64 : ℕ → ℕ
reverse64 x = reverse_bits 64 x

trailing_zeros : (fuel x : ℕ) → ℕ
trailing_zeros zero x = 0
trailing_zeros (suc fuel) x =
    let rest = suc (trailing_zeros fuel (x / 2)) in if x % 2 == 0 then rest else 0

-- `bits.TrailingZeros64(x)`, which is 64 for 0.
unfoldable pub trailing_zeros64 : ℕ → ℕ
unfolding trailing_zeros
trailing_zeros64 x = trailing_zeros 64 x

-- `bits.Reverse64(uint64(x)) >> mm` with `mm = 64 - bits.TrailingZeros64(m)`.
unfoldable pub reversed_index : (m x : ℕ) → ℕ
unfolding reverse64 trailing_zeros64
reversed_index m x = reverse64 x / 2 ^ (64 - trailing_zeros64 m)
