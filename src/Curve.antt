-- ===== src/Curve.antt =====
-- The group G1 of gnark-crypto with its scalar multiplication, and sums of multiples of points.
use gnark_cuda.Prelude.{ℕ, zero, suc, ◌+◌, ◌<◌, ◌≡◌, ◌∙◌, refl, sym, ap, ap₂, arith}
use gnark_cuda.Field.{Field}

pub record Group {F : Type 0} (k : Field F) (G : Type 0) : Type 0 where
  pub zero : G
  pub add : G → G → G
  pub sub : G → G → G
  pub smul : F → G → G
  pub add_assoc : (a b c : G) → add (add a b) c ≡ add a (add b c)
  pub add_comm : (a b : G) → add a b ≡ add b a
  pub zero-add : (a : G) → add zero a ≡ a
  pub sub-add : (a b : G) → add (sub a b) b ≡ a
  pub add-sub : (a b : G) → sub (add a b) b ≡ a
  pub smul-add : (s : F) (a b : G) → smul s (add a b) ≡ add (smul s a) (smul s b)
  pub add-smul : (s t : F) (a : G) → smul (k.add s t) a ≡ add (smul s a) (smul t a)
  pub zero-smul : (a : G) → smul k.zero a ≡ zero
  pub smul-zero : (s : F) → smul s zero ≡ zero

module _ {F : Type 0} {k : Field F} {G : Type 0} (g : Group k G) where
  -- The sum of n group elements.
  unfoldable pub gsum : ℕ → (ℕ → G) → G
  gsum zero f = g.zero
  gsum (suc n) f = g.add (gsum n f) (f n)

  -- Σ scalars(i) * points(i)
  abbrev pub msm : ℕ → (scalars : ℕ → F) (points : ℕ → G) → G
  msm n scalars points = gsum n (λ i. g.smul (scalars i) (points i))

  pub gsum_congr : (n : ℕ) (f h : ℕ → G) → ((i : ℕ) → i < n → f i ≡ h i) → gsum n f ≡ gsum n h
  unfolding gsum
  gsum_congr zero f h e = refl
  gsum_congr (suc n) f h e =
      ap₂ g.add (gsum_congr n f h (λ i p. e i (omega arith))) (e n (omega arith))

  pub add_left_comm : (a b c : G) → g.add a (g.add b c) ≡ g.add b (g.add a c)
  add_left_comm a b c =
      sym (g.add_assoc a b c) ∙ ap (λ x. g.add x c) (g.add_comm a b) ∙ g.add_assoc b a c

  pub gsum-add :
      (n : ℕ) (f h : ℕ → G) → gsum n (λ i. g.add (f i) (h i)) ≡ g.add (gsum n f) (gsum n h)
  unfolding gsum
  gsum-add zero f h = sym (g.zero-add g.zero)
  gsum-add (suc n) f h = simp (gsum-add n f h, g.add_assoc, g.add_comm, add_left_comm)

  pub gsum-zero : (n : ℕ) (f : ℕ → G) → ((i : ℕ) → i < n → f i ≡ g.zero) → gsum n f ≡ g.zero
  unfolding gsum
  gsum-zero zero f e = refl
  gsum-zero (suc n) f e =
      ap₂ g.add (gsum-zero n f (λ i p. e i (omega arith))) (e n (omega arith)) ∙ g.zero-add g.zero

  pub smul-gsum : (n : ℕ) (s : F) (f : ℕ → G) → gsum n (λ i. g.smul s (f i)) ≡ g.smul s (gsum n f)
  unfolding gsum
  smul-gsum zero s f = sym (g.smul-zero s)
  smul-gsum (suc n) s f =
      ap (λ x. g.add x (g.smul s (f n))) (smul-gsum n s f) ∙ sym (g.smul-add s _ _)

  pub gsum_split :
      (n m : ℕ) (f : ℕ → G) → gsum (n + m) f ≡ g.add (gsum n f) (gsum m (λ i. f (n + i)))
  unfolding gsum
  gsum_split n zero f =
      ap (λ t. gsum t f) {y = n} (omega arith) ∙ sym (g.zero-add _) ∙ g.add_comm g.zero _
  gsum_split n (suc m) f =
      ap (λ t. gsum t f) {y = suc (n + m)} (omega arith)
      ∙ ap (λ x. g.add x (f (n + m))) (gsum_split n m f)
      ∙ g.add_assoc _ _ _

  -- a + b = c determines b.
  pub sub_unique : (a b c : G) → g.add a b ≡ c → a ≡ g.sub c b
  sub_unique a b c e = sym (g.add-sub a b) ∙ ap (λ x. g.sub x b) e
