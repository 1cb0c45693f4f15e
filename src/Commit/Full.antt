-- ===== src/Commit/Full.antt =====
-- `commitToLRO` as a whole.
use gnark_cuda.Prelude.{
  ℕ, ◌+◌, ◌-◌, ◌<◌, ◌≤◌, ◌≡◌, ◌⊎◌, ◌∙◌, refl, sym, ap, ap₂, arith, inl, inr, some,
}
use gnark_cuda.Field.{Field}
use gnark_cuda.Slice.{Slice, slice_inside, index_inside}
use gnark_cuda.Outcome.{ok}
use gnark_cuda.Curve.{Group, gsum, msm, gsum_congr}
use gnark_cuda.Commit.{Msm, Columns, shift_loop, restore_loop, commit_column, commit_to_lro}
use gnark_cuda.Commit.Lro.{shift_loop-len, shift_loop_inside, restored, reduced_sum}
use gnark_cuda.Commit.Blinded.{blinding_commitment, commit_blinding_factor_lem}

module _ {F G : Type 0} ⦃k : Field F⦄ {g : Group k G} (m : Msm g) where
  -- What a column must be: s0 wherever the reduced sum leaves it out.
  pub record IsPadded (n lo offset : ℕ) (s0 : F) (c : Slice F) : Type 0 where
    pub full : c.len ≡ n
    pub padding : (i : ℕ) → (i < lo) ⊎ (offset ≤ i) → i < n → c.at i ≡ s0

  -- The commitment to a whole column in Lagrange form, blinded.
  abbrev pub blinded_commitment : (n : ℕ) (lagrange points : Slice G) (c b : Slice F) → G
  blinded_commitment n lagrange points c b =
      g.add (msm g n c.at lagrange.at) (blinding_commitment m n b points)

  module _ {n lo offset : ℕ} (ordered : lo ≤ offset) (fits : offset ≤ n) (lagrange points : Slice G)
      (enough : lagrange.len ≡ n) (partition : gsum g n lagrange.at ≡ points.at 0) where
    reduced_lem :
        (s0 : F) (c : Slice F)
        → IsPadded n lo offset s0 c
        → g.add
            (msm g
              (offset - lo)
              (λ i. (shift_loop (offset - lo) lo s0 c).at (lo + i))
              (λ i. lagrange.at (lo + i)))
            (g.smul s0 (points.at 0))
          ≡ msm g n c.at lagrange.at
    reduced_lem s0 c p =
        ap₂ g.add
          (gsum_congr g (offset - lo) _ _ (λ i q.
            ap (λ x. g.smul x (lagrange.at (lo + i)))
              (shift_loop_inside (offset - lo) lo s0 c (lo + i) (omega arith) (omega arith))))
          (ap (g.smul s0) (
            sym partition
            ∙ ap (λ t. gsum g t lagrange.at) {y = lo + ((offset - lo) + (n - offset))}
                (omega arith)))
        ∙ sym (reduced_sum g lo (offset - lo) (n - offset) s0 c.at lagrange.at padding)
        ∙ ap (λ t. msm g t c.at lagrange.at) {y = n} (omega arith)
      where
        padding :
            (i : ℕ)
            → (i < lo) ⊎ (lo + (offset - lo) ≤ i)
            → i < lo + ((offset - lo) + (n - offset))
            → c.at i ≡ s0
        padding i (inl a) b = p.padding i (inl a) (omega arith)
        padding i (inr a) b = p.padding i (inr (omega arith)) (omega arith)

    -- One goroutine returns the blinded commitment to the whole column and restores the column.
    pub commit_column_lem :
        (s0 : F) (c b : Slice F)
        → IsPadded n lo offset s0 c
        → n + b.len ≤ points.len
        → (after : Slice F) × (commit_column m n lo offset s0
              (g.smul s0 (points.at 0))
              lagrange
              points
              c
              b
            ≡ ok (after, blinded_commitment n lagrange points c b))
          × ((i : ℕ) → after.at i ≡ c.at i)
    unfolding commit_column
    commit_column_lem s0 c b p room = (
      restore_loop (offset - lo) lo s0 shifted,
      rw (
        slice_inside lagrange lo offset ordered (omega arith),
        slice_inside shifted lo offset ordered
            (omega (arith, shift_loop-len (offset - lo) lo s0 c, p.full)),
        m.multi_exp_lem (record { len = offset - lo; at = λ i. lagrange.at (lo + i) })
            (record { len = offset - lo; at = λ i. shifted.at (lo + i) }) refl,
        commit_blinding_factor_lem m n b points room,
        reduced_lem s0 c p,
      ),
      restored (offset - lo) lo s0 c,
    )
      where
        shifted : Slice F
        shifted = shift_loop (offset - lo) lo s0 c

  -- `commitToLRO` succeeds, returns the blinded commitments to the whole columns L, R and O, and
  -- leaves the columns as they were: if the columns have the length n of the domain and hold the
  -- first witness entry s0 at the padding (for R and O also at the public inputs), the Lagrange
  -- points add up to the first canonical point, the witness has an entry, the constraints and public
  -- inputs fit the domain, and there are points for the blinding.
  pub commit_to_lro_full :
      (n nb_public nb_constraints : ℕ) (w : Slice F) (lagrange points : Slice G) (c b : Columns F)
      → nb_public + nb_constraints ≤ n
      → 0 < w.len
      → lagrange.len ≡ n
      → gsum g n lagrange.at ≡ points.at 0
      → IsPadded n 0 (nb_public + nb_constraints) (w.at 0) c.l
      → IsPadded n nb_public (nb_public + nb_constraints) (w.at 0) c.r
      → IsPadded n nb_public (nb_public + nb_constraints) (w.at 0) c.o
      → n + b.l.len ≤ points.len
      → n + b.r.len ≤ points.len
      → n + b.o.len ≤ points.len
      → 0 < points.len
      → (after : Columns F) × (commit_to_lro m n nb_public nb_constraints
            (some w)
            lagrange
            points
            c
            b
          ≡ ok (
            after,
            record {
              l = blinded_commitment n lagrange points c.l b.l;
              r = blinded_commitment n lagrange points c.r b.r;
              o = blinded_commitment n lagrange points c.o b.o;
            },
          ))
        × ((i : ℕ)
            → (after.l.at i ≡ c.l.at i) × (after.r.at i ≡ c.r.at i) × (after.o.at i ≡ c.o.at i))
  unfolding commit_to_lro
  commit_to_lro_full n nb_public nb_constraints w lagrange points c b fits witness enough partition
        pl pr po bl br bo room =
      let (l, el, sl) =
        commit_column_lem {offset = nb_public + nb_constraints} (omega arith) fits lagrange points
          enough partition (w.at 0) c.l b.l pl bl in
      let (r, er, sr) =
        commit_column_lem {offset = nb_public + nb_constraints} (omega arith) fits lagrange points
          enough partition (w.at 0) c.r b.r pr br in
      let (o, eo, so) =
        commit_column_lem {offset = nb_public + nb_constraints} (omega arith) fits lagrange points
          enough partition (w.at 0) c.o b.o po bo in
      (
        record { l = l; r = r; o = o },
        rw (index_inside w 0 witness, index_inside points 0 room, el, er, eo),
        λ i. (sl i, sr i, so i),
      )
