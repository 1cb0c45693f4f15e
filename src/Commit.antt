-- ===== src/Commit.antt =====
-- Commitments in integration/prove.go: `commitToLRO`, `commitBlindingFactor`,
-- `commitToPolyAndBlinding` and `commitToQuotient`. The group G1 and the multi-scalar
-- multiplication of gnark-crypto are parameters with their documented laws.
pub mod Blinded
pub mod Lro
pub mod Full
use gnark_cuda.Prelude.{
  ℕ, zero, suc, ◌+◌, ◌-◌, ◌<◌, ◌≤◌, ◌≡◌, Option, none, some, ltb, if◌then◌else◌,
}
use gnark_cuda.Field.{Field, ◌⊕◌, ◌⊖◌}
use gnark_cuda.Slice.{Slice, slice, set, index}
use gnark_cuda.Outcome.{Outcome, ok, err, ◌>>=◌, ignore_err}
use gnark_cuda.Curve.{Group, msm}

-- `G1Affine.MultiExp` (an error unless scalars and points are equal in number) and `kzg.Commit`
-- (an error for no coefficient, or for more coefficients than points).
pub record Msm {F G : Type 0} {k : Field F} (g : Group k G) : Type 0 where
  pub multi_exp : Slice G → Slice F → Outcome G
  pub commit : Slice F → Slice G → Outcome G
  pub multi_exp_lem :
      (points : Slice G) (scalars : Slice F)
      → points.len ≡ scalars.len
      → multi_exp points scalars ≡ ok (msm g scalars.len scalars.at points.at)
  pub commit_lem :
      (scalars : Slice F) (points : Slice G)
      → 0 < scalars.len
      → scalars.len ≤ points.len
      → commit scalars points ≡ ok (msm g scalars.len scalars.at points.at)

-- The coefficients of L, R and O; also their blinding polynomials.
pub record Columns (F : Type 0) : Type 0 where
  pub l : Slice F
  pub r : Slice F
  pub o : Slice F

-- `proof.LRO`
pub record Digests (G : Type 0) : Type 0 where
  pub l : G
  pub r : G
  pub o : G

module _ {F G : Type 0} ⦃k : Field F⦄ {g : Group k G} (m : Msm g) where
  -- `commitBlindingFactor(n, b, key)`, with key.G1 as `points`; both errors are dropped there.
  unfoldable pub commit_blinding_factor : ℕ → Slice F → (points : Slice G) → Outcome G
  commit_blinding_factor n b points = do
    low ← slice points 0 b.len
    tmp ← ignore_err g.zero (m.multi_exp low b)
    high ← slice points n (n + b.len)
    res ← ignore_err g.zero (m.multi_exp high b)
    ok (g.sub res tmp)

  -- `commitToPolyAndBlinding(p, b)`. The blinding is computed also when `kzg.Commit` fails.
  unfoldable pub commit_to_poly_and_blinding :
      ℕ → (p b : Slice F) → (lagrange points : Slice G) → Outcome G
  unfolding commit_blinding_factor
  commit_to_poly_and_blinding n p b lagrange points = do
    cb ← commit_blinding_factor n b points
    commit ← m.commit p lagrange
    ok (g.add commit cb)

  -- `commitToQuotient(h1, h2, h3, proof, kzgPk)`
  unfoldable pub commit_to_quotient :
      (h1 h2 h3 : Slice F) → (points : Slice G) → Outcome (G × G × G)
  commit_to_quotient h1 h2 h3 points = do
    d1 ← m.commit h1 points
    d2 ← m.commit h2 points
    d3 ← m.commit h3 points
    ok (d1, d2, d3)

-- `for i := lo; i < offset; i++ { coeffs[i].Sub(&coeffs[i], &s0) }`, from index i on; then with Add.
module _ {F : Type 0} ⦃k : Field F⦄ where
  unfoldable pub shift_loop : (rounds i : ℕ) → F → Slice F → Slice F
  shift_loop zero i s0 c = c
  shift_loop (suc rounds) i s0 c = shift_loop rounds (suc i) s0 (set c i (c.at i ⊖ s0))

  unfoldable pub restore_loop : (rounds i : ℕ) → F → Slice F → Slice F
  restore_loop zero i s0 c = c
  restore_loop (suc rounds) i s0 c = restore_loop rounds (suc i) s0 (set c i (c.at i ⊕ s0))

module _ {F G : Type 0} ⦃k : Field F⦄ {g : Group k G} (m : Msm g) where
  -- One goroutine of `commitToLRO`: lo is 0 for L and the number of public inputs for R and O.
  unfoldable pub commit_column :
      (n lo offset : ℕ) (s0 : F) (correction : G) (lagrange points : Slice G) (coeffs b : Slice F)
      → Outcome (Slice F × G)
  unfolding shift_loop restore_loop
  commit_column n lo offset s0 correction lagrange points coeffs b = do
    let shifted = shift_loop (offset - lo) lo s0 coeffs
    bases ← slice lagrange lo offset
    scalars ← slice shifted lo offset
    commit ← m.multi_exp bases scalars
    let restored = restore_loop (offset - lo) lo s0 shifted
    cb ← commit_blinding_factor m n b points
    ok (restored, g.add (g.add commit correction) cb)

  -- `commitToLRO`, once the blinding polynomials are there. The witness vector is `none` if the type
  -- assertion fails. The three goroutines work on different columns.
  unfoldable pub commit_to_lro :
      (n nb_public nb_constraints : ℕ) (w : Option (Slice F)) (lagrange points : Slice G)
      → (coeffs bp : Columns F) → Outcome (Columns F × Digests G)
  unfolding commit_column
  commit_to_lro n nb_public nb_constraints none lagrange points coeffs bp = err
  commit_to_lro n nb_public nb_constraints (some w) lagrange points coeffs bp = do
    let offset = nb_public + nb_constraints
    s0 ← index w 0
    first ← index points 0
    let correction = g.smul s0 first
    (l, dl) ← commit_column n 0 offset s0 correction lagrange points coeffs.l bp.l
    (r, dr) ← commit_column n nb_public offset s0 correction lagrange points coeffs.r bp.r
    (o, do') ← commit_column n nb_public offset s0 correction lagrange points coeffs.o bp.o
    ok (record { l = l; r = r; o = o }, record { l = dl; r = dr; o = do' })
