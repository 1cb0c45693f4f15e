-- ===== src/Quotient.antt =====
-- The quotient polynomial h of integration/prove.go: its three shards `h1`, `h2`, `h3`, the sizes
-- of the two FFT domains that `newInstance` chooses, and `divideByZH`.
pub mod Shards
pub mod Domains
pub mod Divide
use gnark_cuda.Prelude.{ℕ, zero, suc, ◌+◌, ◌*◌, Bool, true, false, ltb, if◌then◌else◌}
use gnark_cuda.Field.{Field, ◌⊖◌}
use gnark_cuda.Slice.{Slice, slice, copy, set}
use gnark_cuda.Outcome.{Outcome, ok, ◌>>=◌}

module _ {F : Type 0} ⦃k : Field F⦄ where
  -- `make([]fr.Element, n)`
  unfoldable pub make : ℕ → Slice F
  make n = record { len = n; at = λ _. k.zero }

  -- `h1()`, with n the cardinality of the small domain and r0 the first shard randomizer.
  unfoldable pub h1 : (statistical_zk : Bool) (n : ℕ) (r0 : F) → Slice F → Outcome (Slice F)
  unfolding make copy set
  h1 false n r0 h = slice h 0 (n + 2)
  h1 true n r0 h = do low ← slice h 0 (n + 2); ok (set (copy (make (n + 3)) low) (n + 2) r0)

  unfoldable pub h2 : (statistical_zk : Bool) (n : ℕ) (r0 r1 : F) → Slice F → Outcome (Slice F)
  unfolding make copy set
  h2 false n r0 r1 h = slice h (n + 2) (2 * (n + 2))
  h2 true n r0 r1 h = do
    middle ← slice h (n + 2) (2 * (n + 2))
    let shard = copy (make (n + 3)) middle
    ok (set (set shard 0 (shard.at 0 ⊖ r0)) (n + 2) r1)

  unfoldable pub h3 : (statistical_zk : Bool) (n : ℕ) (r1 : F) → Slice F → Outcome (Slice F)
  unfolding make copy set
  h3 false n r1 h = slice h (2 * (n + 2)) (3 * (n + 2))
  h3 true n r1 h = do
    high ← slice h (2 * (n + 2)) (3 * (n + 2))
    let shard = copy (make (n + 2)) high
    ok (set shard 0 (shard.at 0 ⊖ r1))

-- The argument of `fft.NewDomain` for the large domain; `NewDomain` rounds it up to a power of two.
unfoldable pub big_domain_request : ℕ → ℕ
big_domain_request size_system = if ltb size_system 6 then 8 * size_system else 4 * size_system

-- The cardinalities of the two domains, with the rounding of `fft.NewDomain` as a parameter.
unfoldable pub domain_cardinalities : (round : ℕ → ℕ) → ℕ → ℕ × ℕ
unfolding big_domain_request
domain_cardinalities round size_system = (round size_system, round (big_domain_request size_system))
