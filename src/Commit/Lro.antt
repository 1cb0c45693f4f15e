-- ===== src/Commit/Lro.antt =====
-- One goroutine of `commitToLRO`: the reduced multi-scalar multiplication and its correction.
use gnark_cuda.Prelude.{
  ℕ, zero, suc, ◌+◌, ◌<◌, ◌≤◌, ◌≡◌, ◌⊎◌, ◌∙◌, refl, sym, ap, ap₂, arith, inl, inr,
}
use gnark_cuda.Field.{Field, ◌⊕◌, ◌⊖◌}
use gnark_cuda.Field.Ring.{ring}
use gnark_cuda.Slice.{Slice, set, update_ne}
use gnark_cuda.Curve.{Group, gsum, msm, gsum_congr, gsum-add, gsum-zero, gsum_split, smul-gsum}
use gnark_cuda.BatchInvert.Products.{update_cases}
use gnark_cuda.Commit.{shift_loop, restore_loop}

module _ {F : Type 0} ⦃k : Field F⦄ where
  sub-add_cancel : (a b : F) → (a ⊖ b) ⊕ b ≡ a
  sub-add_cancel a b = simp ring

  -- i is one of lo, …, lo + rounds - 1, or not.
  shift_loop_before :
      (rounds i : ℕ) (s0 : F) (c : Slice F) (j : ℕ)
      → j < i
      → (shift_loop rounds i s0 c).at j ≡ c.at j
  unfolding shift_loop set
  shift_loop_before zero i s0 c j p = refl
  shift_loop_before (suc rounds) i s0 c j p =
      shift_loop_before rounds (suc i) s0 _ j (omega arith) ∙ update_ne c.at i j _ (omega arith)

  pub shift_loop_inside :
      (rounds i : ℕ) (s0 : F) (c : Slice F) (j : ℕ)
      → i ≤ j
      → j < i + rounds
      → (shift_loop rounds i s0 c).at j ≡ c.at j ⊖ s0
  unfolding shift_loop set
  shift_loop_inside zero i s0 c j p q = absurd (omega arith)
  shift_loop_inside (suc rounds) i s0 c j p q = elim (update_cases c.at i j (c.at i ⊖ s0)) [
    | inl (e, h) ↦
        shift_loop_before rounds (suc i) s0 _ j (omega arith) ∙ h ∙ ap (λ x. c.at x ⊖ s0) (sym e)
    | inr (d, h) ↦
        shift_loop_inside rounds (suc i) s0 (set c i (c.at i ⊖ s0)) j (omega arith) (omega arith)
        ∙ ap (λ x. x ⊖ s0) h
  ]

  pub shift_loop-len :
      (rounds i : ℕ) (s0 : F) (c : Slice F) → (shift_loop rounds i s0 c).len ≡ c.len
  unfolding shift_loop set
  shift_loop-len zero i s0 c = refl
  shift_loop-len (suc rounds) i s0 c = shift_loop-len rounds (suc i) s0 (set c i (c.at i ⊖ s0))

  -- The second loop undoes the first.
  restore_loop_lem :
      (rounds i : ℕ) (s0 : F) (c d : Slice F)
      → ((j : ℕ) → i ≤ j → j < i + rounds → d.at j ≡ c.at j ⊖ s0)
      → ((j : ℕ) → (j < i) ⊎ (i + rounds ≤ j) → d.at j ≡ c.at j)
      → (j : ℕ) → (restore_loop rounds i s0 d).at j ≡ c.at j
  unfolding restore_loop set
  restore_loop_lem zero i s0 c d inside outside j = outside j (omega arith)
  restore_loop_lem (suc rounds) i s0 c d inside outside j =
      restore_loop_lem rounds (suc i) s0 c (set d i (d.at i ⊕ s0))
        (λ t p q. update_ne d.at i t _ (omega arith) ∙ inside t (omega arith) (omega arith))
        (λ t p. elim (update_cases d.at i t (d.at i ⊕ s0)) [
          | inl (e, h) ↦
              h
              ∙ ap (λ x. x ⊕ s0) (inside i (omega arith) (omega arith))
              ∙ sub-add_cancel _ s0
              ∙ ap c.at (sym e)
          | inr (e, h) ↦ h ∙ outside t (omega arith)
        ])
        j

  shift_loop_after :
      (rounds i : ℕ) (s0 : F) (c : Slice F) (j : ℕ)
      → i + rounds ≤ j
      → (shift_loop rounds i s0 c).at j ≡ c.at j
  unfolding shift_loop set
  shift_loop_after zero i s0 c j p = refl
  shift_loop_after (suc rounds) i s0 c j p =
      shift_loop_after rounds (suc i) s0 _ j (omega arith) ∙ update_ne c.at i j _ (omega arith)

  -- The column is left as it was.
  pub restored :
      (rounds i : ℕ) (s0 : F) (c : Slice F) (j : ℕ)
      → (restore_loop rounds i s0 (shift_loop rounds i s0 c)).at j ≡ c.at j
  restored rounds i s0 c j =
      restore_loop_lem rounds i s0 c (shift_loop rounds i s0 c) (shift_loop_inside rounds i s0 c)
        outside j
    where
      outside : (t : ℕ) → (t < i) ⊎ (i + rounds ≤ t) → (shift_loop rounds i s0 c).at t ≡ c.at t
      outside t (inl p) = shift_loop_before rounds i s0 c t p
      outside t (inr p) = shift_loop_after rounds i s0 c t p

module _ {F G : Type 0} ⦃k : Field F⦄ (g : Group k G) where
  -- Scalars that are s0 outside [lo, lo + m) may be shifted by s0 and summed over that range only.
  pub reduced_sum :
      (lo m rest : ℕ) (s0 : F) (c : ℕ → F) (points : ℕ → G)
      → ((i : ℕ) → (i < lo) ⊎ (lo + m ≤ i) → i < lo + (m + rest) → c i ≡ s0)
      → msm g (lo + (m + rest)) c points
        ≡ g.add
            (msm g m (λ i. c (lo + i) ⊖ s0) (λ i. points (lo + i)))
            (g.smul s0 (gsum g (lo + (m + rest)) points))
  reduced_sum lo m rest s0 c points padding =
      gsum_congr g n _ _
        (λ i p. ap (λ x. g.smul x (points i)) (sym (sub-add_cancel (c i) s0)) ∙ g.add-smul _ _ _)
      ∙ gsum-add g n (λ i. g.smul (c i ⊖ s0) (points i)) (λ i. g.smul s0 (points i))
      ∙ ap₂ g.add inner (smul-gsum g n s0 points)
    where
      n : ℕ
      n = lo + (m + rest)

      term : ℕ → G
      term i = g.smul (c i ⊖ s0) (points i)

      vanish : (i : ℕ) → c i ≡ s0 → term i ≡ g.zero
      vanish i e = ap (λ x. g.smul x (points i)) (rw e (simp ring)) ∙ g.zero-smul _

      inner : gsum g n term ≡ gsum g m (λ i. term (lo + i))
      inner =
          gsum_split g lo (m + rest) term
          ∙ ap₂ g.add (gsum-zero g lo term (λ i p. vanish i (padding i (inl p) (omega arith))))
              (gsum_split g m rest (λ i. term (lo + i)))
          ∙ g.zero-add _
          ∙ ap (g.add (gsum g m (λ i. term (lo + i)))) (
              gsum-zero g rest _ (λ i p.
                vanish (lo + (m + i)) (padding (lo + (m + i)) (inr (omega arith)) (omega arith))))
          ∙ g.add_comm _ _
          ∙ g.zero-add _
