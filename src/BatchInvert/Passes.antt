-- ===== src/BatchInvert/Passes.antt =====
-- The two rounds of goroutines over all chunks.
use gnark_cuda.Prelude.{
  ℕ, zero, suc, ◌+◌, ◌-◌, ◌<◌, ◌≤◌, ◌≡◌, ◌∙◌, sym, ap, subst, inl, inr, arith, ltb, Bool-cases,
  ltb→lt, ltb→le,
}
use gnark_cuda.Field.{Field, ◌⊗◌}
use gnark_cuda.Slice.{update}
use gnark_cuda.BatchInvert.{Bounds, first_pass, second_pass, chunk_accumulate, chunk_unwind}
use gnark_cuda.BatchInvert.Products.{chain, update_cases}
use gnark_cuda.BatchInvert.Chunks.{IsPartition, bound_mono}
use gnark_cuda.BatchInvert.Chunked.{
  first-chain, first-Outside, chunk_unwind-Outside, chunk_unwind-mul,
}

module _ {F : Type 0} ⦃k : Field F⦄ {n nb_tasks : ℕ} {b : Bounds} {f : ℕ → ℕ}
    (part : IsPartition n nb_tasks b f) (buf : ℕ → F) where
  -- The length of chunk t, less one.
  abbrev pub last_of : ℕ → ℕ
  last_of t = f (suc t) - f t - 1

  abbrev pub Running : (c : ℕ) → (ℕ → F) × (ℕ → F) → Type 0
  Running c s =
      ((t u : ℕ) → t < c → f t + u < f (suc t) → s.0 (f t + u) ≡ chain (f t) u buf)
      × ((t : ℕ) → t < c → s.1 t ≡ chain (f t) (last_of t) buf)

  -- One goroutine of the first kind.
  first_step-Running :
      (c : ℕ) (vec prods : ℕ → F)
      → c < nb_tasks
      → Running c (vec, prods)
      → let vec' = chunk_accumulate (f c) (last_of c) 0 (update vec (f c) (buf (f c))) buf in
        Running (suc c) (vec', update prods c (vec' (f (suc c) - 1)))
  first_step-Running c vec prods lt run = (
    (λ t u p q. elim (Bool-cases (ltb t c)) [
      | inl h ↦
          let before = bound_mono part c t (ltb→lt t c h) (omega arith) in
          first-Outside (f c) (last_of c) vec buf (f t + u) (inl (omega arith))
          ∙ run.0 t u (ltb→lt t c h) q
      | inr h ↦ let e : t ≡ c = let h' = ltb→le t c h in omega arith in here t u e q
    ]),
    λ t p. elim (update_cases prods c t (vec' (f (suc c) - 1))) [
      | inl (e, h) ↦
          h
          ∙ ap vec' {y = f c + last_of c} (omega (arith, part.grows c lt))
          ∙ first-chain (f c) (last_of c) vec buf (last_of c) (omega arith)
          ∙ ap (λ x. chain (f x) (last_of x) buf) (sym e)
      | inr (d, h) ↦ h ∙ run.1 t (omega arith)
    ],
  )
    where
      vec' : ℕ → F
      vec' = chunk_accumulate (f c) (last_of c) 0 (update vec (f c) (buf (f c))) buf

      here : (t u : ℕ) → t ≡ c → f t + u < f (suc t) → vec' (f t + u) ≡ chain (f t) u buf
      here t u e = rw e (λ q. first-chain (f c) (last_of c) vec buf u (omega arith))

  pub first_pass-Running :
      (rounds c : ℕ) (vec prods : ℕ → F)
      → c + rounds ≡ nb_tasks
      → Running c (vec, prods)
      → Running nb_tasks (first_pass rounds c b buf vec prods)
  unfolding first_pass
  first_pass-Running zero c vec prods e run = let e' : c ≡ nb_tasks = omega arith in rw (← e') run
  first_pass-Running (suc rounds) c vec prods e run = subst (Running nb_tasks) (sym step) (
      first_pass-Running rounds (suc c) _ _ (omega arith)
        (first_step-Running c vec prods (omega arith) run))
    where
      passed : (start end : ℕ) → (ℕ → F) × (ℕ → F)
      passed start end =
          let vec' =
            chunk_accumulate start (end - start - 1) 0 (update vec start (buf start)) buf in
          first_pass rounds (suc c) b buf vec' (update prods c (vec' (end - 1)))

      step : first_pass (suc rounds) c b buf vec prods ≡ passed (f c) (f (suc c))
      step i = passed (part.starts_bound c (omega arith) i) (part.ends_bound c (omega arith) i)

  abbrev Inverted : (c : ℕ) → (ℕ → F) → (ℕ → F) → Type 0
  Inverted c vec0 vec =
      ((j : ℕ) → j < f c → vec j ⊗ buf j ≡ k.one) × ((j : ℕ) → f c ≤ j → vec j ≡ vec0 j)

  -- One goroutine of the second kind.
  second_step-Inverted :
      (c : ℕ) (vec0 vec inv : ℕ → F)
      → c < nb_tasks
      → ((u : ℕ) → f c + u < f (suc c) → vec0 (f c + u) ≡ chain (f c) u buf)
      → inv c ⊗ chain (f c) (last_of c) buf ≡ k.one
      → Inverted c vec0 vec
      → Inverted (suc c) vec0 (chunk_unwind (f c) (last_of c) vec buf (inv c))
  second_step-Inverted c vec0 vec inv lt run inverse (below, above) = (
    (λ j p. elim (Bool-cases (ltb j (f c))) [
      | inl h ↦
          ap (λ x. x ⊗ buf j)
            (chunk_unwind-Outside (f c) (last_of c) vec buf (inv c) j (inl (ltb→lt j (f c) h)))
          ∙ below j (ltb→lt j (f c) h)
      | inr h ↦
          let e : f c + (j - f c) ≡ j = let h' = ltb→le j (f c) h in omega arith in
          ap (λ x. chunk_unwind (f c) (last_of c) vec buf (inv c) x ⊗ buf x) (sym e)
          ∙ chunk_unwind-mul (f c) (last_of c) vec buf (inv c)
              (λ u q. above (f c + u) (omega arith) ∙ run u (omega (arith, part.grows c lt)))
              inverse (j - f c) (let h' = ltb→le j (f c) h in omega arith)
    ]),
    λ j p.
        chunk_unwind-Outside (f c) (last_of c) vec buf (inv c) j
          (inr (omega (arith, part.grows c lt)))
        ∙ above j (omega (arith, part.grows c lt)),
  )

  pub second_pass-mul :
      (vec0 inv : ℕ → F)
      → ((t u : ℕ) → t < nb_tasks → f t + u < f (suc t) → vec0 (f t + u) ≡ chain (f t) u buf)
      → ((t : ℕ) → t < nb_tasks → inv t ⊗ chain (f t) (last_of t) buf ≡ k.one)
      → (rounds c : ℕ) (vec : ℕ → F) → c + rounds ≡ nb_tasks
      → Inverted c vec0 vec
      → (j : ℕ) → j < n
      → second_pass rounds c b buf vec inv j ⊗ buf j ≡ k.one
  unfolding second_pass
  second_pass-mul vec0 inv run inverse zero c vec e done j p =
      let e' : c ≡ nb_tasks = omega arith in done.0 j (rw (e', part.last) p)
  second_pass-mul vec0 inv run inverse (suc rounds) c vec e done j p =
      rw (part.starts_bound c (omega arith), part.ends_bound c (omega arith))
        (second_pass-mul vec0 inv run inverse rounds (suc c) _ (omega arith)
          (second_step-Inverted c vec0 vec inv (omega arith) (λ u q. run c u (omega arith) q)
            (inverse c (omega arith)) done)
          j p)
