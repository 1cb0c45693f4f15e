-- ===== src/BatchInvert/Inverses.antt =====
-- From the products of the chunks to their inverses, with a single field inversion.
use gnark_cuda.Prelude.{
  ℕ, zero, suc, ◌+◌, ◌-◌, ◌<◌, ◌≤◌, ◌≡◌, ◌≢◌, ◌∙◌, sym, ap, inl, inr, refl, arith,
}
use gnark_cuda.Field.{Field, ◌⊗◌}
use gnark_cuda.Field.Ring.{ring, mul-one}
use gnark_cuda.Field.Exp.{inverse-mul_self}
use gnark_cuda.Sum.{prod, prod_ne_zero}
use gnark_cuda.Slice.{update, update_self}
use gnark_cuda.BatchInvert.{prefix_loop, suffix_loop, invert_loop, chunk_inverses}
use gnark_cuda.BatchInvert.Products.{update_cases}

module _ {F : Type 0} ⦃k : Field F⦄ where
  prod-suc : (n : ℕ) (f : ℕ → F) → prod (suc n) f ≡ prod n f ⊗ f n
  unfolding prod
  prod-suc n f = refl

  prefix_loop-prod :
      (rounds i : ℕ) (c prefix : ℕ → F)
      → ((t : ℕ) → t ≤ i → prefix t ≡ prod t c)
      → (t : ℕ) → t ≤ i + rounds
      → prefix_loop rounds i c prefix t ≡ prod t c
  unfolding prefix_loop
  prefix_loop-prod zero i c prefix done t p = done t (omega arith)
  prefix_loop-prod (suc rounds) i c prefix done t p =
      prefix_loop-prod rounds (suc i) c _
        (λ u q. elim (update_cases prefix (suc i) u (prefix i ⊗ c i)) [
          | inl (e, h) ↦
              h
              ∙ ap (λ x. x ⊗ c i) (done i (omega arith))
              ∙ sym (prod-suc i c)
              ∙ ap (λ x. prod x c) (sym e)
          | inr (d, h) ↦ h ∙ done u (omega arith)
        ])
        t (omega arith)

  suffix_loop-prod :
      (last : ℕ) (total : F) (c : ℕ → F) (i : ℕ) (suffix : ℕ → F)
      → ((t : ℕ) → i ≤ t → t ≤ last → prod (suc t) c ⊗ suffix t ≡ total)
      → i ≤ last
      → (t : ℕ) → t ≤ last
      → prod (suc t) c ⊗ suffix_loop i c suffix t ≡ total
  unfolding suffix_loop
  suffix_loop-prod last total c zero suffix done le t p = done t (omega arith) p
  suffix_loop-prod last total c (suc i) suffix done le t p =
      suffix_loop-prod last total c i (update suffix i (suffix (suc i) ⊗ c (suc i)))
        (λ u q r. elim (update_cases suffix i u (suffix (suc i) ⊗ c (suc i))) [
          | inl (e, h) ↦
              ap (λ x. prod (suc u) c ⊗ x) h
              ∙ ap (λ x. prod (suc x) c ⊗ (suffix (suc i) ⊗ c (suc i))) e
              ∙ step
              ∙ done (suc i) (omega arith) le
          | inr (d, h) ↦ ap (λ x. prod (suc u) c ⊗ x) h ∙ done u (omega arith) r
        ])
        (omega arith) t p
    where
      step : prod (suc i) c ⊗ (suffix (suc i) ⊗ c (suc i)) ≡ prod (suc (suc i)) c ⊗ suffix (suc i)
      step = rw (prod-suc (suc i) c) (simp ring)

  invert_loop_lem :
      (rounds i : ℕ) (v : F) (prefix suffix c : ℕ → F)
      → ((t : ℕ) → t < i → c t ≡ (v ⊗ prefix t) ⊗ suffix t)
      → (t : ℕ) → t < i + rounds
      → invert_loop rounds i v prefix suffix c t ≡ (v ⊗ prefix t) ⊗ suffix t
  unfolding invert_loop
  invert_loop_lem zero i v prefix suffix c done t p = done t (omega arith)
  invert_loop_lem (suc rounds) i v prefix suffix c done t p =
      invert_loop_lem rounds (suc i) v prefix suffix _
        (λ u q. elim (update_cases c i u ((v ⊗ prefix i) ⊗ suffix i)) [
          | inl (e, h) ↦ h ∙ ap (λ x. (v ⊗ prefix x) ⊗ suffix x) (sym e)
          | inr (d, h) ↦ h ∙ done u (omega arith)
        ])
        t (omega arith)

  -- Each chunk's number times its product is one.
  pub chunk_inverses-mul :
      (nb_tasks : ℕ) (c : ℕ → F)
      → 0 < nb_tasks
      → ((t : ℕ) → t < nb_tasks → c t ≢ k.zero)
      → (t : ℕ) → t < nb_tasks
      → chunk_inverses nb_tasks c t ⊗ c t ≡ k.one
  unfolding chunk_inverses
  chunk_inverses-mul nb_tasks c pos h t p =
      ap (λ x. x ⊗ c t)
        (invert_loop_lem nb_tasks 0 _ _ _ c (λ u q. absurd (omega arith)) t (omega arith))
      ∙ rearrange _ _ _ (prefix_is t (omega arith))
      ∙ ap (λ x. k.inverse (x ⊗ c last) ⊗ (prod (suc t) c ⊗ suffix t))
          (prefix_is last (omega arith))
      ∙ ap (λ x. k.inverse (prod last c ⊗ c last) ⊗ x) (suffix_is t (omega arith))
      ∙ ap (λ x. k.inverse x ⊗ prod (suc last) c) (sym (prod-suc last c))
      ∙ inverse-mul_self _ (prod_ne_zero (suc last) c (λ u q. h u (omega arith)))
    where
      last : ℕ
      last = nb_tasks - 1

      suffix : ℕ → F
      suffix = suffix_loop last c (update (λ _. k.zero) last k.one)

      prefix_is :
          (u : ℕ) → u ≤ last → prefix_loop last 0 c (update (λ _. k.zero) 0 k.one) u ≡ prod u c
      prefix_is u q =
          prefix_loop-prod last 0 c _
            (λ v r. let e : v ≡ 0 = omega arith in rw e (sym (unfold prod in refl))) u (omega arith)

      suffix_is : (u : ℕ) → u ≤ last → prod (suc u) c ⊗ suffix u ≡ prod (suc last) c
      suffix_is u q =
          suffix_loop-prod last (prod (suc last) c) c last _
            (λ v r s.
              let e : v ≡ last = omega arith in
              rw (e, update_self (λ _. k.zero) last k.one) (mul-one _))
            (omega arith) u q

      rearrange : (v x y : F) → x ≡ prod t c → ((v ⊗ x) ⊗ y) ⊗ c t ≡ v ⊗ (prod (suc t) c ⊗ y)
      rearrange v x y e = rw (e, prod-suc t c) (simp ring)
