-- ===== src/BatchInvert/Chunked.antt =====
-- One chunk of `batchInvert`: its two goroutines inside and outside the chunk.
use gnark_cuda.Prelude.{
  ℕ, zero, suc, ◌+◌, ◌<◌, ◌≤◌, ◌≡◌, ◌≢◌, ◌∙◌, ◌⊎◌, sym, ap, inl, inr, refl, arith,
}
use gnark_cuda.Field.{Field, ◌⊗◌}
use gnark_cuda.Field.Ring.{ring, one-mul}
use gnark_cuda.Slice.{update, update_self, update_ne}
use gnark_cuda.BatchInvert.{chunk_accumulate, chunk_unwind}
use gnark_cuda.BatchInvert.Products.{chain, chain-zero, chain-suc, update_cases}

-- j is not one of start, …, start + i.
abbrev pub Outside : (start i j : ℕ) → Type 0
Outside start i j = (j < start) ⊎ (start + i < j)

module _ {F : Type 0} ⦃k : Field F⦄ where
  chain_start : (start : ℕ) (f : ℕ → F) → f start ≡ chain start 0 f
  chain_start start f = ap f {y = start + 0} (omega arith) ∙ sym (one-mul _) ∙ chain-zero start f

  chunk_accumulate-chain :
      (start rounds i : ℕ) (vec buf : ℕ → F)
      → ((u : ℕ) → u ≤ i → vec (start + u) ≡ chain start u buf)
      → (u : ℕ) → u ≤ i + rounds
      → chunk_accumulate start rounds i vec buf (start + u) ≡ chain start u buf
  unfolding chunk_accumulate
  chunk_accumulate-chain start zero i vec buf done u p = done u (omega arith)
  chunk_accumulate-chain start (suc rounds) i vec buf done u p =
      chunk_accumulate-chain start rounds (suc i) _ buf
        (λ t q.
          elim (update_cases vec (start + suc i) (start + t)
            (vec (start + i) ⊗ buf (start + suc i))) [
              | inl (e, h) ↦
                  h
                  ∙ ap (λ x. x ⊗ buf (start + suc i)) (done i (omega arith))
                  ∙ sym (chain-suc start i buf)
                  ∙ ap (λ x. chain start x buf) {y = t} (omega arith)
              | inr (d, h) ↦
                  h ∙ done t (let d' : suc i ≢ t = λ e. d (ap (λ x. start + x) e) in omega arith)
            ])
        u (omega arith)

  chunk_accumulate-Outside :
      (start rounds i : ℕ) (vec buf : ℕ → F) (j : ℕ)
      → Outside start (i + rounds) j
      → chunk_accumulate start rounds i vec buf j ≡ vec j
  unfolding chunk_accumulate
  chunk_accumulate-Outside start zero i vec buf j out = refl
  chunk_accumulate-Outside start (suc rounds) i vec buf j out =
      chunk_accumulate-Outside start rounds (suc i) _ buf j (omega arith)
      ∙ update_ne vec (start + suc i) j _ (omega arith)

  -- The first goroutine leaves the running products of its chunk.
  pub first-chain :
      (start i : ℕ) (vec buf : ℕ → F) (u : ℕ)
      → u ≤ i
      → chunk_accumulate start i 0 (update vec start (buf start)) buf (start + u)
        ≡ chain start u buf
  first-chain start i vec buf u p =
      chunk_accumulate-chain start i 0 _ buf
        (λ t q.
          let e : t ≡ 0 = omega arith in
          ap (update vec start (buf start)) {y = start} (omega arith)
          ∙ update_self vec start (buf start)
          ∙ chain_start start buf
          ∙ ap (λ x. chain start x buf) (sym e))
        u (omega arith)

  pub first-Outside :
      (start i : ℕ) (vec buf : ℕ → F) (j : ℕ)
      → Outside start i j
      → chunk_accumulate start i 0 (update vec start (buf start)) buf j ≡ vec j
  first-Outside start i vec buf j out =
      chunk_accumulate-Outside start i 0 _ buf j (omega arith)
      ∙ update_ne vec start j (buf start) (omega arith)

  pub chunk_unwind-Outside :
      (start i : ℕ) (vec buf : ℕ → F) (acc : F) (j : ℕ)
      → Outside start i j
      → chunk_unwind start i vec buf acc j ≡ vec j
  unfolding chunk_unwind
  chunk_unwind-Outside start zero vec buf acc j out = update_ne vec start j acc (omega arith)
  chunk_unwind-Outside start (suc i) vec buf acc j out =
      chunk_unwind-Outside start i _ buf _ j (omega arith)
      ∙ update_ne vec (start + suc i) j _ (omega arith)

  -- The second goroutine, from running products and the inverse of their last one.
  pub chunk_unwind-mul :
      (start i : ℕ) (vec buf : ℕ → F) (acc : F)
      → ((u : ℕ) → u ≤ i → vec (start + u) ≡ chain start u buf)
      → acc ⊗ chain start i buf ≡ k.one
      → (u : ℕ) → u ≤ i
      → chunk_unwind start i vec buf acc (start + u) ⊗ buf (start + u) ≡ k.one
  unfolding chunk_unwind
  chunk_unwind-mul start zero vec buf acc full inv u p =
      let e : u ≡ 0 = omega arith in
      let f : start + u ≡ start = omega arith in
      rw f (
        ap (λ x. x ⊗ buf start) (update_self vec start acc)
        ∙ ap (λ x. acc ⊗ x) (chain_start start buf)
        ∙ inv)
  chunk_unwind-mul start (suc i) vec buf acc full inv u p =
      elim (update_cases vec (start + suc i) (start + u) (vec (start + i) ⊗ acc)) [
        | inl (e, h) ↦
            ap (λ x. x ⊗ buf (start + u))
              (chunk_unwind-Outside start i _ buf _ (start + u) (omega arith)
                ∙ h
                ∙ ap (λ x. x ⊗ acc) (full i (omega arith)))
            ∙ ap (λ x. (chain start i buf ⊗ acc) ⊗ buf x) e
            ∙ here
            ∙ inv
        | inr (d, h) ↦
            chunk_unwind-mul start i (update vec (start + suc i) (vec (start + i) ⊗ acc)) buf
              (acc ⊗ buf (start + suc i))
              (λ t q.
                update_ne vec (start + suc i) (start + t) _ (omega arith) ∙ full t (omega arith))
              (shift ∙ inv) u (let d' : suc i ≢ u = λ e. d (ap (λ x. start + x) e) in omega arith)
      ]
    where
      here : (chain start i buf ⊗ acc) ⊗ buf (start + suc i) ≡ acc ⊗ chain start (suc i) buf
      here = rw (chain-suc start i buf) (simp ring)

      shift : (acc ⊗ buf (start + suc i)) ⊗ chain start i buf ≡ acc ⊗ chain start (suc i) buf
      shift = rw (chain-suc start i buf) (simp ring)
