-- ===== src/BatchInvert/Sequential.antt =====
-- The one-pass branch of `batchInvert`.
use gnark_cuda.Prelude.{
  ℕ, zero, suc, ◌+◌, ◌-◌, ◌<◌, ◌≤◌, ◌≡◌, ◌≢◌, ◌∙◌, sym, ap, inl, inr, refl, arith, ne→==,
}
use gnark_cuda.Field.{Field, ◌⊗◌}
use gnark_cuda.Field.Ring.{ring, mul_comm, one-mul}
use gnark_cuda.Field.Exp.{inverse-mul_self}
use gnark_cuda.Sum.{prod, prod_ne_zero}
use gnark_cuda.Slice.{update, update_ne}
use gnark_cuda.BatchInvert.{accumulate, unwind, invert_sequential}
use gnark_cuda.BatchInvert.Products.{update_cases}

module _ {F : Type 0} ⦃k : Field F⦄ where
  prod-suc : (n : ℕ) (f : ℕ → F) → prod (suc n) f ≡ prod n f ⊗ f n
  unfolding prod
  prod-suc n f = refl

  accumulate-prod :
      (rounds i : ℕ) (vec orig : ℕ → F)
      → ((j : ℕ) → j ≤ i → vec j ≡ prod (suc j) orig)
      → ((j : ℕ) → i < j → vec j ≡ orig j)
      → (j : ℕ) → j ≤ i + rounds
      → accumulate rounds i vec j ≡ prod (suc j) orig
  unfolding accumulate
  accumulate-prod zero i vec orig done todo j p = done j (omega arith)
  accumulate-prod (suc rounds) i vec orig done todo j p =
      accumulate-prod rounds (suc i) _ orig
        (λ t q. elim (update_cases vec (suc i) t (vec (suc i) ⊗ vec i)) [
          | inl (e, h) ↦
              h
              ∙ rw (e, todo (suc i) (omega arith), done i (omega arith), prod-suc (suc i) orig)
                  (mul_comm _ _)
          | inr (d, h) ↦ h ∙ done t (omega arith)
        ])
        (λ t q. update_ne vec (suc i) t _ (omega arith) ∙ todo t (omega arith)) j (omega arith)

  abbrev Unwound : ℕ → (vec buf : ℕ → F) → (ℕ → F) × F → Type 0
  Unwound i vec buf r =
      ((j : ℕ) → 0 < j → j ≤ i → r.0 j ⊗ buf j ≡ k.one)
      × ((j : ℕ) → i < j → r.0 j ≡ vec j)
      × (r.1 ⊗ buf 0 ≡ k.one)

  unwind_lem :
      (i : ℕ) (vec buf : ℕ → F) (acc : F)
      → ((j : ℕ) → j ≤ i → vec j ≡ prod (suc j) buf)
      → acc ⊗ prod (suc i) buf ≡ k.one
      → Unwound i vec buf (unwind i vec buf acc)
  unfolding unwind
  unwind_lem zero vec buf acc full inv = (
    λ j p q. absurd (omega arith),
    λ j p. refl,
    ap (λ x. acc ⊗ x) (sym (prod-suc 0 buf ∙ (unfold prod in one-mul _))) ∙ inv,
  )
  unwind_lem (suc i) vec buf acc full inv =
      let vec' = update vec (suc i) (acc ⊗ vec i) in
      let (below, above, first) =
        unwind_lem i vec' buf (acc ⊗ buf (suc i))
          (λ j p. update_ne vec (suc i) j _ (omega arith) ∙ full j (omega arith)) (shift ∙ inv) in
      (
        (λ j p q. elim (update_cases vec (suc i) j (acc ⊗ vec i)) [
          | inl (e, h) ↦
              ap (λ x. x ⊗ buf j) (above j (omega arith) ∙ h)
              ∙ rw (e, full i (omega arith)) (here ∙ inv)
          | inr (d, h) ↦ below j p (omega arith)
        ]),
        (λ j p. above j (omega arith) ∙ update_ne vec (suc i) j _ (omega arith)),
        first,
      )
    where
      shift : (acc ⊗ buf (suc i)) ⊗ prod (suc i) buf ≡ acc ⊗ prod (suc (suc i)) buf
      shift = rw (prod-suc (suc i) buf) (simp ring)

      here : (acc ⊗ prod (suc i) buf) ⊗ buf (suc i) ≡ acc ⊗ prod (suc (suc i)) buf
      here = rw (prod-suc (suc i) buf) (simp ring)

  accumulate_all-prod :
      (i : ℕ) (vec : ℕ → F) (j : ℕ) → j ≤ i → accumulate i 0 vec j ≡ prod (suc j) vec
  accumulate_all-prod i vec j p =
      accumulate-prod i 0 vec vec
        (λ t q.
          let e : t ≡ 0 = omega arith in rw e (sym (prod-suc 0 vec ∙ (unfold prod in one-mul _))))
        (λ t q. refl) j (omega arith)

  passes_lem :
      (i : ℕ) (vec : ℕ → F)
      → ((j : ℕ) → j ≤ i → vec j ≢ k.zero)
      → let vec' = accumulate i 0 vec in Unwound i vec' vec (unwind i vec' vec (k.inverse (vec' i)))
  passes_lem i vec h = unwind_lem i (accumulate i 0 vec) vec _ (accumulate_all-prod i vec) (
      rw (accumulate_all-prod i vec i (omega arith))
        (inverse-mul_self _ (prod_ne_zero (suc i) vec (λ j p. h j (omega arith)))))

  -- With no zero among the first n entries, each of them times its replacement is one.
  pub invert_sequential-mul :
      (n : ℕ) (vec : ℕ → F)
      → 0 < n
      → ((j : ℕ) → j < n → vec j ≢ k.zero)
      → (j : ℕ) → j < n
      → invert_sequential n vec vec j ⊗ vec j ≡ k.one
  unfolding invert_sequential
  invert_sequential-mul n vec pos h zero p = (passes_lem (n - 1) vec (λ t q. h t (omega arith))).2
  invert_sequential-mul n vec pos h (suc j) p =
      rw (ne→== 0 (suc j) (omega arith))
        ((passes_lem (n - 1) vec (λ t q. h t (omega arith))).0 (suc j) (omega arith) (omega arith))
