-- ===== src/Device/Counts.antt =====
-- How often a pointer stands in a range of cells.
use gnark_cuda.Prelude.{
  ℕ, zero, suc, ◌+◌, ◌≤◌, ◌<◌, ◌≡◌, ◌≢◌, ◌∙◌, refl, ap, ap₂, arith, Bool, true, false, ◌==◌, inl,
  inr, ne→==, ==_self, ◌⊎◌,
}
use gnark_cuda.Slice.{update, update_self, update_ne}
use gnark_cuda.Gpu.{Pointer, nil}

abbrev pub indicator : Bool → ℕ
indicator true = 1
indicator false = 0

pub indicator_injective : (a b : Bool) → indicator a ≡ indicator b → a ≡ b
indicator_injective true true e = refl
indicator_injective true false e = absurd (omega arith)
indicator_injective false true e = absurd (omega arith)
indicator_injective false false e = refl

-- 1 when the pointers are equal.
unfoldable pub counts : Pointer → Pointer → ℕ
counts p q = indicator (p == q)

pub counts_self : (p : Pointer) → counts p p ≡ 1
unfolding counts
counts_self p = rw (==_self p) refl

pub counts_ne : (p q : Pointer) → p ≢ q → counts p q ≡ 0
unfolding counts
counts_ne p q h = rw (ne→== p q h) refl

-- The number of indices from i on, in the given number of rounds, at which f has the value p.
unfoldable pub occurrences : (rounds i : ℕ) (f : ℕ → Pointer) → Pointer → ℕ
occurrences zero i f p = 0
occurrences (suc rounds) i f p = counts p (f i) + occurrences rounds (suc i) f p

pub occurrences_congr :
    (rounds i : ℕ) (f f' : ℕ → Pointer) (p : Pointer)
    → ((j : ℕ) → i ≤ j → j < i + rounds → f j ≡ f' j)
    → occurrences rounds i f p ≡ occurrences rounds i f' p
unfolding occurrences
occurrences_congr zero i f f' p h = refl
occurrences_congr (suc rounds) i f f' p h =
    rw
      (
        h i (omega arith) (omega arith),
        occurrences_congr rounds (suc i) f f' p (λ j q r. h j (omega arith) (omega arith)),
      )
      refl

-- A range without p.
pub occurrences-none :
    (rounds i : ℕ) (f : ℕ → Pointer) (p : Pointer)
    → ((j : ℕ) → i ≤ j → j < i + rounds → p ≢ f j)
    → occurrences rounds i f p ≡ 0
unfolding occurrences
occurrences-none zero i f p h = refl
occurrences-none (suc rounds) i f p h =
    rw
      (
        counts_ne p (f i) (h i (omega arith) (omega arith)),
        occurrences-none rounds (suc i) f p (λ j q r. h j (omega arith) (omega arith)),
      )
      refl

-- A write to one cell of the range replaces one value by another.
pub occurrences-update :
    (rounds i j : ℕ) (f : ℕ → Pointer) (v p : Pointer)
    → i ≤ j
    → j < i + rounds
    → occurrences rounds i (update f j v) p + counts p (f j) ≡ occurrences rounds i f p + counts p v
unfolding occurrences
occurrences-update zero i j f v p a b = absurd (omega arith)
occurrences-update (suc rounds) i j f v p a b = elim (first_or_later i j a) [
  | inl e ↦
      let same : occurrences rounds (suc i) (update f j v) p ≡ occurrences rounds (suc i) f p =
        occurrences_congr rounds (suc i) (update f j v) f p
          (λ t q r. update_ne f j t v (omega arith)) in
      let here : counts p (update f j v i) ≡ counts p v =
        ap (counts p) (ap (update f j v) {x = i} {y = j} e ∙ update_self f j v) in
      let there : counts p (f i) ≡ counts p (f j) = ap (λ t. counts p (f t)) e in
      omega (arith, same, here, there)
  | inr q ↦
      let here : counts p (update f j v i) ≡ counts p (f i) =
        ap (counts p) (update_ne f j i v (omega arith)) in
      let later = occurrences-update rounds (suc i) j f v p q (omega arith) in
      omega (arith, here, later)
]
  where
    first_or_later : (i j : ℕ) → i ≤ j → (i ≡ j) ⊎ (suc i ≤ j)
    first_or_later i j a = omega arith

-- Cells that are nil from some index on count for nothing.
pub occurrences-padded :
    (rounds more i : ℕ) (f f' : ℕ → Pointer) (p : Pointer)
    → ((j : ℕ) → i ≤ j → j < i + rounds → f' j ≡ f j)
    → ((j : ℕ) → i + rounds ≤ j → f' j ≡ nil)
    → p ≢ nil
    → occurrences (rounds + more) i f' p ≡ occurrences rounds i f p
unfolding occurrences
occurrences-padded zero more i f f' p h h' ne =
    ap (λ m. occurrences m i f' p) {x = 0 + more} {y = more} (omega arith)
    ∙ occurrences-none more i f' p (λ j q r e. ne (e ∙ h' j (omega arith)))
occurrences-padded (suc rounds) more i f f' p h h' ne =
    ap (λ m. occurrences m i f' p) {x = suc rounds + more} {y = suc (rounds + more)} (omega arith)
    ∙ ap₂ (λ a b. a + b) (ap (counts p) (h i (omega arith) (omega arith)))
        (occurrences-padded rounds more (suc i) f f' p (λ j q r. h j (omega arith) (omega arith))
          (λ j q. h' j (omega arith)) ne)
