-- ===== src/Quotient/Shards.antt =====
-- The three shards of the quotient, with and without their blinding.
use gnark_cuda.Prelude.{
  ℕ, zero, suc, ◌+◌, ◌-◌, ◌*◌, ◌<◌, ◌≤◌, ◌≡◌, ◌∙◌, refl, sym, ap, arith, lt→ltb, Bool, true, false,
}
use gnark_cuda.Field.{Field, ◌⊕◌, ◌⊗◌, ◌⊖◌}
use gnark_cuda.Field.Ring.{ring}
use gnark_cuda.Outcome.{ok, panic}
use gnark_cuda.Sum.{sum}
use gnark_cuda.Slice.{Slice, slice_inside, slice_outside, copy, set, update, update_self, update_ne}
use gnark_cuda.Poly.{eval, value, value_split, value_congr}
use gnark_cuda.Quotient.{make, h1, h2, h3}

module _ {F : Type 0} ⦃k : Field F⦄ where
  -- Values after a write at one index.
  value-update_last :
      (n : ℕ) (c : ℕ → F) (v x : F) → value (suc n) (update c n v) x ≡ value n c x ⊕ v ⊗ k.exp x n
  unfolding sum
  value-update_last n c v x = rw (update_self c n v) (
      ap (λ y. y ⊕ v ⊗ k.exp x n)
        (value_congr n (update c n v) c x (λ i p. update_ne c n i v (omega arith))))

  value-update_first :
      (n : ℕ) (c : ℕ → F) (v x : F) → value (suc n) (update c 0 (c 0 ⊖ v)) x ≡ value (suc n) c x ⊖ v
  unfolding sum
  value-update_first zero c v x = rw (k.exp-zero x) (simp ring)
  value-update_first (suc n) c v x =
      ap (λ y. y ⊕ update c 0 (c 0 ⊖ v) (suc n) ⊗ k.exp x (suc n)) (value-update_first n c v x)
      ∙ ap (λ y. (value (suc n) c x ⊖ v) ⊕ y ⊗ k.exp x (suc n))
          (update_ne c 0 (suc n) _ (omega arith))
      ∙ simp ring

  -- The blinding terms of neighbouring shards cancel.
  pass_on : (b c p s : F) → (b ⊕ s ⊗ p) ⊕ p ⊗ (c ⊖ s) ≡ b ⊕ p ⊗ c
  pass_on b c p s = simp ring

  recombine :
      (a b c p r s : F) → (a ⊕ r ⊗ p) ⊕ p ⊗ (((b ⊖ r) ⊕ s ⊗ p) ⊕ p ⊗ (c ⊖ s)) ≡ a ⊕ p ⊗ (b ⊕ p ⊗ c)
  recombine a b c p r s =
      ap (λ y. (a ⊕ r ⊗ p) ⊕ p ⊗ y) (pass_on (b ⊖ r) c p s)
      ∙ ap (λ y. (a ⊕ r ⊗ p) ⊕ p ⊗ y) {y = (b ⊕ p ⊗ c) ⊖ r} (simp ring)
      ∙ pass_on a (b ⊕ p ⊗ c) p r

  -- Shard number j without blinding: m coefficients from j * m on.
  part : Slice F → (m lo : ℕ) → F → F
  part h m lo x = value m (λ i. h.at (lo + i)) x

  thirds :
      (h : Slice F) (m : ℕ) (x : F)
      → part h m 0 x ⊕ k.exp x m ⊗ (part h m m x ⊕ k.exp x m ⊗ part h m (2 * m) x)
        ≡ value (3 * m) h.at x
  unfolding part
  thirds h m x = sym (
      ap (λ t. value t h.at x) {y = m + (m + m)} (omega arith)
      ∙ value_split m (m + m) h.at x
      ∙ ap (λ y. value m h.at x ⊕ k.exp x m ⊗ y) (value_split m m (λ i. h.at (m + i)) x)
      ∙ ap
          (λ y.
            y
            ⊕ k.exp x m
              ⊗ (value m (λ i. h.at (m + i)) x ⊕ k.exp x m ⊗ value m (λ i. h.at (m + (m + i))) x))
          (value_congr m _ _ x (λ i p. ap h.at {y = 0 + i} (omega arith)))
      ∙ ap
          (λ y.
            value m (λ i. h.at (0 + i)) x
            ⊕ k.exp x m ⊗ (value m (λ i. h.at (m + i)) x ⊕ k.exp x m ⊗ y))
          (value_congr m _ _ x (λ i p. ap h.at {y = 2 * m + i} (omega arith))))

  abbrev piece : Slice F → (lo hi : ℕ) → Slice F
  piece h lo hi = record { len = hi - lo; at = λ i. h.at (lo + i) }

  eval-piece :
      (h : Slice F) (m lo hi : ℕ) (x : F) → lo + m ≡ hi → eval (piece h lo hi) x ≡ part h m lo x
  unfolding part
  eval-piece h m lo hi x e = ap (λ t. value t (λ i. h.at (lo + i)) x) {y = m} (omega arith)

  -- What `copy` puts below index m.
  value-copied :
      (h : Slice F) (m n lo hi : ℕ) (x : F)
      → lo + m ≡ hi
      → value m (copy (make n) (piece h lo hi)).at x ≡ part h m lo x
  unfolding part copy
  value-copied h m n lo hi x e = value_congr m _ _ x (λ i p. rw (lt→ltb i (hi - lo) (omega arith)))

  eval-set_last :
      (s : Slice F) (m : ℕ) (v x : F)
      → s.len ≡ suc m
      → eval (set s m v) x ≡ value m s.at x ⊕ v ⊗ k.exp x m
  unfolding set
  eval-set_last s m v x e = ap (λ t. value t (update s.at m v) x) e ∙ value-update_last m s.at v x

  value-set_first :
      (s : Slice F) (m : ℕ) (v x : F)
      → 0 < m
      → value m (set s 0 (s.at 0 ⊖ v)).at x ≡ value m s.at x ⊖ v
  unfolding set
  value-set_first s m v x pos =
      let e : m ≡ suc (m - 1) = omega arith in
      ap (λ t. value t (update s.at 0 (s.at 0 ⊖ v)) x) e
      ∙ value-update_first (m - 1) s.at v x
      ∙ ap (λ t. value t s.at x ⊖ v) (sym e)

  copy-make-len : (n : ℕ) (s : Slice F) → (copy (make n) s).len ≡ n
  unfolding copy make
  copy-make-len n s = refl

  -- The shards with blinding, as slices.
  blind1 : (n : ℕ) (r0 : F) → Slice F → Slice F
  blind1 n r0 h = set (copy (make (n + 3)) (piece h 0 (n + 2))) (n + 2) r0

  middle : (n : ℕ) → Slice F → Slice F
  middle n h = copy (make (n + 3)) (piece h (n + 2) (2 * (n + 2)))

  blind2 : (n : ℕ) (r0 r1 : F) → Slice F → Slice F
  unfolding middle
  blind2 n r0 r1 h = set (set (middle n h) 0 ((middle n h).at 0 ⊖ r0)) (n + 2) r1

  high : (n : ℕ) → Slice F → Slice F
  high n h = copy (make (n + 2)) (piece h (2 * (n + 2)) (3 * (n + 2)))

  blind3 : (n : ℕ) (r1 : F) → Slice F → Slice F
  unfolding high
  blind3 n r1 h = set (high n h) 0 ((high n h).at 0 ⊖ r1)

  eval-blind1 :
      (n : ℕ) (r0 : F) (h : Slice F) (x : F)
      → eval (blind1 n r0 h) x ≡ part h (n + 2) 0 x ⊕ r0 ⊗ k.exp x (n + 2)
  unfolding blind1
  eval-blind1 n r0 h x =
      eval-set_last _ (n + 2) r0 x (copy-make-len (n + 3) _ ∙ omega arith)
      ∙ ap (λ y. y ⊕ r0 ⊗ k.exp x (n + 2))
          (value-copied h (n + 2) (n + 3) 0 (n + 2) x (omega arith))

  eval-blind2 :
      (n : ℕ) (r0 r1 : F) (h : Slice F) (x : F)
      → eval (blind2 n r0 r1 h) x ≡ (part h (n + 2) (n + 2) x ⊖ r0) ⊕ r1 ⊗ k.exp x (n + 2)
  unfolding blind2
  eval-blind2 n r0 r1 h x =
      eval-set_last _ (n + 2) r1 x
        (set-len (middle n h) 0 _ ∙ copy-make-len (n + 3) _ ∙ omega arith)
      ∙ ap (λ y. y ⊕ r1 ⊗ k.exp x (n + 2))
          (value-set_first (middle n h) (n + 2) r0 x (omega arith)
            ∙ ap (λ y. y ⊖ r0)
                (value-copied h (n + 2) (n + 3) (n + 2) (2 * (n + 2)) x (omega arith)))
    where
      set-len : (s : Slice F) (i : ℕ) (v : F) → (set s i v).len ≡ s.len
      set-len s i v = unfold set in refl

  eval-blind3 :
      (n : ℕ) (r1 : F) (h : Slice F) (x : F)
      → eval (blind3 n r1 h) x ≡ part h (n + 2) (2 * (n + 2)) x ⊖ r1
  unfolding blind3
  eval-blind3 n r1 h x =
      ap (λ t. value t (blind3 n r1 h).at x) {y = n + 2} (unfold set in copy-make-len (n + 2) _)
      ∙ value-set_first (high n h) (n + 2) r1 x (omega arith)
      ∙ ap (λ y. y ⊖ r1)
          (value-copied h (n + 2) (n + 2) (2 * (n + 2)) (3 * (n + 2)) x (omega arith))

  abbrev pub Recombines : ℕ → (h s1 s2 s3 : Slice F) → Type 0
  Recombines n h s1 s2 s3 =
      (x : F)
      → eval s1 x ⊕ k.exp x (n + 2) ⊗ (eval s2 x ⊕ k.exp x (n + 2) ⊗ eval s3 x)
        ≡ value (3 * (n + 2)) h.at x

  -- With the blinding the first two shards are one longer.
  unfoldable pub HasLengths : (zk : Bool) (n : ℕ) → (s1 s2 s3 : Slice F) → Type 0
  HasLengths false n s1 s2 s3 = (s1.len ≡ n + 2) × (s2.len ≡ n + 2) × (s3.len ≡ n + 2)
  HasLengths true n s1 s2 s3 = (s1.len ≡ n + 3) × (s2.len ≡ n + 3) × (s3.len ≡ n + 2)

  lengths :
      (n : ℕ) (r0 r1 : F) (h : Slice F)
      → HasLengths true n (blind1 n r0 h) (blind2 n r0 r1 h) (blind3 n r1 h)
  unfolding HasLengths blind1 blind2 blind3 set copy make
  lengths n r0 r1 h = (refl, refl, refl)

  -- With or without the blinding of the shards, a quotient of at least 3 * (n + 2) coefficients is
  -- cut without a panic, and h1(x) + x ^ (n + 2) * (h2(x) + x ^ (n + 2) * h3(x)) is the value at x
  -- of its first 3 * (n + 2) coefficients, whatever the randomizers. The shards have n + 2
  -- coefficients, the first two one more with blinding.
  pub shards-eval :
      (zk : Bool) (n : ℕ) (r0 r1 : F) (h : Slice F)
      → 3 * (n + 2) ≤ h.len
      → (s1 : Slice F) × (s2 : Slice F) × (s3 : Slice F) × (h1 zk n r0 h ≡ ok s1)
        × (h2 zk n r0 r1 h ≡ ok s2)
        × (h3 zk n r1 h ≡ ok s3)
        × HasLengths zk n s1 s2 s3
        × Recombines n h s1 s2 s3
  unfolding h1 h2 h3 HasLengths
  shards-eval false n r0 r1 h long = (
    piece h 0 (n + 2),
    piece h (n + 2) (2 * (n + 2)),
    piece h (2 * (n + 2)) (3 * (n + 2)),
    slice_inside h 0 (n + 2) (omega arith) (omega arith),
    slice_inside h (n + 2) (2 * (n + 2)) (omega arith) (omega arith),
    slice_inside h (2 * (n + 2)) (3 * (n + 2)) (omega arith) (omega arith),
    (omega arith, omega arith, omega arith),
    λ x.
        rw
          (
            eval-piece h (n + 2) 0 (n + 2) x (omega arith),
            eval-piece h (n + 2) (n + 2) (2 * (n + 2)) x (omega arith),
            eval-piece h (n + 2) (2 * (n + 2)) (3 * (n + 2)) x (omega arith),
          )
          (thirds h (n + 2) x),
  )
  shards-eval true n r0 r1 h long = (
    blind1 n r0 h,
    blind2 n r0 r1 h,
    blind3 n r1 h,
    rw (slice_inside h 0 (n + 2) (omega arith) (omega arith)) (unfold blind1 in refl),
    rw (slice_inside h (n + 2) (2 * (n + 2)) (omega arith) (omega arith)) (unfold blind2 in refl),
    rw (slice_inside h (2 * (n + 2)) (3 * (n + 2)) (omega arith) (omega arith))
        (unfold blind3 in refl),
    lengths n r0 r1 h,
    λ x.
        rw (eval-blind1 n r0 h x, eval-blind2 n r0 r1 h x, eval-blind3 n r1 h x)
          (recombine _ _ _ (k.exp x (n + 2)) r0 r1 ∙ thirds h (n + 2) x),
  )

  -- A shorter quotient makes `h3` panic.
  pub h3_panics :
      (zk : Bool) (n : ℕ) (r1 : F) (h : Slice F) → h.len < 3 * (n + 2) → h3 zk n r1 h ≡ panic
  unfolding h3
  h3_panics false n r1 h short = slice_outside h (2 * (n + 2)) (3 * (n + 2)) (omega arith)
  h3_panics true n r1 h short = rw (slice_outside h (2 * (n + 2)) (3 * (n + 2)) (omega arith))
