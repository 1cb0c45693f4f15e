-- ===== src/Gpu.antt =====
-- The package gpu of gnark-crypto, as far as the prover calls it to keep buffers on the device.
use gnark_cuda.Prelude.{ℕ, ◌+◌, ◌*◌, ◌≤◌, ◌≡◌, ◌≢◌, Bool, true, false, ◌==◌, if◌then◌else◌}
use gnark_cuda.Slice.{Slice}

-- `unsafe.Pointer` to the device; 0 is nil.
abbrev pub Pointer : Type 0
Pointer = ℕ

abbrev pub nil : Pointer
nil = 0

-- Malloc, MemcpyH2D and Free of the package gpu, on a device whose state is a World: which buffers
-- are allocated, how many bytes they have, and which field elements they hold.
pub record Gpu (World A : Type 0) : Type 0 where
  pub live : World → Pointer → Bool
  pub capacity : World → Pointer → ℕ
  pub contents : World → Pointer → ℕ → A
  pub malloc : (size : ℕ) → World → Pointer × World
  pub memcpy_h2d : Pointer → Slice A → (size : ℕ) → World → Bool × World
  pub release : Pointer → World → World
  pub malloc_fresh :
      (size : ℕ) (w : World)
      → (malloc size w).0 ≢ nil
      → (live w (malloc size w).0 ≡ false) × (capacity (malloc size w).1 (malloc size w).0 ≡ size)
  pub malloc_live :
      (size : ℕ) (w : World) (p : Pointer)
      → p ≢ nil
      → live (malloc size w).1 p ≡ (if p == (malloc size w).0 then true else live w p)
  pub malloc_keeps :
      (size : ℕ) (w : World) (p : Pointer)
      → live w p ≡ true
      → (capacity (malloc size w).1 p ≡ capacity w p)
        × (contents (malloc size w).1 p ≡ contents w p)
  pub memcpy_live :
      (p q : Pointer) (src : Slice A) (size : ℕ) (w : World)
      → (live (memcpy_h2d p src size w).1 q ≡ live w q)
        × (capacity (memcpy_h2d p src size w).1 q ≡ capacity w q)
  pub memcpy_keeps :
      (p q : Pointer) (src : Slice A) (size : ℕ) (w : World)
      → q ≢ p
      → contents (memcpy_h2d p src size w).1 q ≡ contents w q
  pub memcpy_copies :
      (p : Pointer) (src : Slice A) (size : ℕ) (w : World)
      → (memcpy_h2d p src size w).0 ≡ true
      → live w p ≡ true
      → size ≤ capacity w p
      → size ≤ src.len * 32
      → (i : ℕ) → (i + 1) * 32 ≤ size
      → contents (memcpy_h2d p src size w).1 p i ≡ src.at i
  pub release_live :
      (p q : Pointer) (w : World)
      → live w p ≡ true
      → live (release p w) q ≡ (if q == p then false else live w q)
  pub release_keeps :
      (p q : Pointer) (w : World)
      → live w p ≡ true
      → q ≢ p
      → (capacity (release p w) q ≡ capacity w q) × (contents (release p w) q ≡ contents w q)
