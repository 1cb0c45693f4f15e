-- ===== src/Commit/Blinded.antt =====
-- `commitBlindingFactor` in the group.
use gnark_cuda.Prelude.{ℕ, ◌+◌, ◌-◌, ◌≤◌, ◌≡◌, ◌∙◌, sym, ap, arith}
use gnark_cuda.Field.{Field}
use gnark_cuda.Slice.{Slice, slice_inside}
use gnark_cuda.Outcome.{ok}
use gnark_cuda.Curve.{Group, msm, sub_unique}
use gnark_cuda.Commit.{Msm, commit_blinding_factor}

module _ {F G : Type 0} ⦃k : Field F⦄ {g : Group k G} (m : Msm g) where
  -- Σ b(i) * points(n + i) - Σ b(i) * points(i)
  abbrev pub blinding_commitment : ℕ → Slice F → Slice G → G
  blinding_commitment n b points =
      g.sub (msm g b.len b.at (λ i. points.at (n + i))) (msm g b.len b.at points.at)

  pub commit_blinding_factor_lem :
      (n : ℕ) (b : Slice F) (points : Slice G)
      → n + b.len ≤ points.len
      → commit_blinding_factor m n b points ≡ ok (blinding_commitment n b points)
  unfolding commit_blinding_factor
  commit_blinding_factor_lem n b points h =
      rw
        (
          slice_inside points 0 b.len (omega arith) (omega arith),
          slice_inside points n (n + b.len) (omega arith) h,
          m.multi_exp_lem (record { len = b.len - 0; at = λ i. points.at (0 + i) }) b (omega arith),
          m.multi_exp_lem (record { len = n + b.len - n; at = λ i. points.at (n + i) }) b
              (omega arith),
        )
        (ap
          (λ (f : ℕ → G).
            ok (g.sub (msm g b.len b.at (λ i. points.at (n + i))) (msm g b.len b.at f)))
          (λ i j. points.at (zero_add j i)))
    where
      zero_add : (j : ℕ) → 0 + j ≡ j
      zero_add j = omega arith

module _ {F G : Type 0} ⦃k : Field F⦄ (g : Group k G) where
  add-sub_assoc : (a h l : G) → g.sub (g.add a h) l ≡ g.add a (g.sub h l)
  add-sub_assoc a h l = sym (
      sub_unique g (g.add a (g.sub h l)) l (g.add a h)
        (g.add_assoc _ _ _ ∙ ap (g.add a) (g.sub-add h l)))
