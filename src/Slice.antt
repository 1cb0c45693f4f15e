-- ===== src/Slice.antt =====
-- Go slices of field elements, group elements and numbers: a length and a value at each index.
-- A write outside the length is never read back; the theorems state the lengths that exclude it, or
-- the file of the code says that its panics are left out.
-- The capacity of a slice is taken to be its length.
use gnark_cuda.Prelude.{
  ℕ, suc, ◌+◌, ◌-◌, ◌<◌, ◌≤◌, ◌≡◌, ◌≢◌, ◌&&◌, arith, ltb, leb, ◌==◌, if◌then◌else◌, lt→ltb, ==_self,
  ne→==,
}
use gnark_cuda.Outcome.{Outcome, ok, panic}

module _ {ℓ} {A : Type ℓ} where
  -- `a[i] = v`
  abbrev pub update : (ℕ → A) → ℕ → A → ℕ → A
  update f i v j = if i == j then v else f j

  pub update_self : (f : ℕ → A) (i : ℕ) (v : A) → update f i v i ≡ v
  update_self f i v = rw (==_self i)

  pub update_ne : (f : ℕ → A) (i j : ℕ) (v : A) → i ≢ j → update f i v j ≡ f j
  update_ne f i j v h = rw (ne→== i j h)

pub record Slice {ℓ} (A : Type ℓ) : Type ℓ where
  pub len : ℕ
  pub at : ℕ → A

module _ {ℓ} {A : Type ℓ} where
  -- `copy(dst, src)`
  unfoldable pub copy : Slice A → Slice A → Slice A
  copy dst src = record { len = dst.len; at = λ i. if ltb i src.len then src.at i else dst.at i }

  -- `append(a, b...)`
  unfoldable pub append : Slice A → Slice A → Slice A
  append a b = record {
    len = a.len + b.len;
    at = λ i. if ltb i a.len then a.at i else b.at (i - a.len);
  }

  -- `a[lo:hi]`
  unfoldable pub slice : Slice A → ℕ → ℕ → Outcome (Slice A)
  slice a lo hi =
      if leb lo hi && leb hi a.len
      then ok (record { len = hi - lo; at = λ i. a.at (lo + i) })
      else panic

  -- A read `a[i]` of which nothing shows that it is within the length.
  unfoldable pub index : Slice A → ℕ → Outcome A
  index a i = if ltb i a.len then ok (a.at i) else panic

  -- `a[i] = v`
  unfoldable pub set : Slice A → ℕ → A → Slice A
  set a i v = record { len = a.len; at = update a.at i v }

module _ {A : Type 0} where
  -- A range within the length is sliced without a panic.
  pub slice_inside :
      (a : Slice A) (lo hi : ℕ)
      → lo ≤ hi
      → hi ≤ a.len
      → slice a lo hi ≡ ok (record { len = hi - lo; at = λ i. a.at (lo + i) })
  unfolding slice
  slice_inside a lo hi p q = ground arith

  pub slice_outside : (a : Slice A) (lo hi : ℕ) → suc a.len ≤ hi → slice a lo hi ≡ panic
  unfolding slice
  slice_outside a lo hi p = ground arith

  pub index_inside : (a : Slice A) (i : ℕ) → i < a.len → index a i ≡ ok (a.at i)
  unfolding index
  index_inside a i p = rw (lt→ltb i a.len p)
