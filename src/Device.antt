-- ===== src/Device.antt =====
-- `proverGPUContext` of integration/prove_gpu.go: the buffers on the device that a prover keeps, and
-- the functions that upload and release them. The package gpu is a parameter.
pub mod Counts
pub mod Owned
pub mod Kept
pub mod Runs
pub mod Uploads
pub mod Ensured
use gnark_cuda.Prelude.{
  ℕ, zero, suc, ◌+◌, ◌*◌, ◌≤◌, ◌<◌, ◌≡◌, ◌≢◌, Bool, true, false, ◌==◌, ◌&&◌, not, ltb,
  if◌then◌else◌,
}
use gnark_cuda.Gpu.{Pointer, nil, Gpu}
use gnark_cuda.Slice.{Slice, update}

-- The pointer fields of the struct are cells, in the order in which `free` lists them; the length
-- that belongs to a pointer has the same index.
abbrev pub d_l : ℕ
d_l = 0

abbrev pub d_r : ℕ
d_r = 1

abbrev pub d_o : ℕ
d_o = 2

abbrev pub d_s1 : ℕ
d_s1 = 3

abbrev pub d_s2 : ℕ
d_s2 = 4

abbrev pub d_s3 : ℕ
d_s3 = 5

abbrev pub d_twiddles0 : ℕ
d_twiddles0 = 6

abbrev pub d_numerator : ℕ
d_numerator = 7

abbrev pub d_h_folded : ℕ
d_h_folded = 8

abbrev pub d_blinded_z : ℕ
d_blinded_z = 9

abbrev pub d_blinded_l : ℕ
d_blinded_l = 10

abbrev pub d_blinded_r : ℕ
d_blinded_r = 11

abbrev pub d_blinded_o : ℕ
d_blinded_o = 12

abbrev pub d_linearized : ℕ
d_linearized = 13

abbrev pub d_inv_rho : ℕ
d_inv_rho = 14

abbrev pub nb_cells : ℕ
nb_cells = 15

-- `proverGPUContext` and the device.
pub record State (World : Type 0) : Type 0 where
  pub n : ℕ
  pub cells : ℕ → Pointer
  pub lens : ℕ → ℕ
  pub poly_ptrs : Slice Pointer
  pub world : World

-- What a call returns.
pub data Status : Type 0 where
  ok malloc_failed copy_failed panicked : Status

module _ {World A : Type 0} (g : Gpu World A) where
  -- `for _, ptr := range … { if ptr != nil { gpu.Free(ptr) } }`
  unfoldable pub free_loop : (rounds i : ℕ) (ptrs : ℕ → Pointer) → World → World
  free_loop zero i ptrs w = w
  free_loop (suc rounds) i ptrs w =
      free_loop rounds (suc i) ptrs (if ptrs i == nil then w else g.release (ptrs i) w)

  -- `ctx.free()`
  unfoldable pub free : State World → State World
  unfolding free_loop
  free st = record {
    n = 0;
    cells = λ _. nil;
    lens = λ _. 0;
    poly_ptrs = record { len = 0; at = λ _. nil };
    world = free_loop st.poly_ptrs.len 0 st.poly_ptrs.at (free_loop nb_cells 0 st.cells st.world);
  }

  abbrev copy_status : Bool → Status
  copy_status true = ok
  copy_status false = copy_failed

  -- `gpu.MemcpyH2D(*dst, &src[0], size)`
  unfoldable pub copy_to : (dst : ℕ) (src : Slice A) (size : ℕ) → State World → Status × State World
  copy_to dst src size st =
      let (b, w) = g.memcpy_h2d (st.cells dst) src size st.world in
      (copy_status b, record st { world = w })

  -- `if *dst == nil { *dst = gpu.Malloc(size); … }`: the cell after it is nil when it failed.
  unfoldable pub allocate : (dst size : ℕ) → State World → State World
  allocate dst size st =
      if st.cells dst == nil
      then record st {
        cells = update st.cells dst (g.malloc size st.world).0;
        world = (g.malloc size st.world).1;
      }
      else st

  -- `uploadResidentPoly(dst, src, size)`
  unfoldable pub upload_resident_poly :
      (dst : ℕ) (src : Slice A) (size : ℕ) → State World → Status × State World
  unfolding allocate copy_to
  upload_resident_poly dst src size st =
      if src.len == 0
      then (ok, st)
      else (let st' = allocate dst size st in
          if st'.cells dst == nil then (malloc_failed, st') else copy_to dst src size st')

  -- `ensureResidentPoly(dst, src, size)`
  unfoldable pub ensure_resident_poly :
      (dst : ℕ) (src : Slice A) (size : ℕ) → State World → Status × State World
  unfolding upload_resident_poly
  ensure_resident_poly dst src size st =
      if not (st.cells dst == nil) then (ok, st) else upload_resident_poly dst src size st

  -- `gpu.Free(*dst); *dst = nil; *dstLen = 0`
  unfoldable pub discard : (dst : ℕ) → State World → State World
  discard dst st = record st {
    cells = update st.cells dst nil;
    lens = update st.lens dst 0;
    world = g.release (st.cells dst) st.world;
  }

  abbrev set_length : (dst len : ℕ) → Status × State World → Status × State World
  set_length dst len (ok, st) = (ok, record st { lens = update st.lens dst len })
  set_length dst len (status, st) = (status, st)

  -- `if *dst != nil && *dstLen != len(src) { … }`
  unfoldable pub drop_stale : (dst len : ℕ) → State World → State World
  unfolding discard
  drop_stale dst len st =
      if not (st.cells dst == nil) && not (st.lens dst == len) then discard dst st else st

  -- The rest of `uploadResidentSlice`, after Malloc.
  unfoldable pub fill_slice : (dst : ℕ) (src : Slice A) → State World → Status × State World
  unfolding copy_to
  fill_slice dst src st =
      if st.cells dst == nil
      then (malloc_failed, st)
      else set_length dst src.len (copy_to dst src (src.len * 32) st)

  -- `uploadResidentSlice(dst, dstLen, src)`
  unfoldable pub upload_resident_slice :
      (dst : ℕ) (src : Slice A) → State World → Status × State World
  unfolding allocate drop_stale fill_slice
  upload_resident_slice dst src st =
      if src.len == 0
      then (ok, st)
      else fill_slice dst src (allocate dst (src.len * 32) (drop_stale dst src.len st))

  -- `releaseResidentSlice(dst, dstLen)`
  unfoldable pub release_resident_slice : (dst : ℕ) → State World → State World
  unfolding discard
  release_resident_slice dst st =
      if st.cells dst == nil then record st { lens = update st.lens dst 0 } else discard dst st

  -- `bestEffortUploadResidentSlice(dst, dstLen, src)`
  abbrev pub accept_malloc_failed : (dst : ℕ) → Status × State World → Status × State World
  accept_malloc_failed dst (malloc_failed, st) = (ok, release_resident_slice dst st)
  accept_malloc_failed dst (status, st) = (status, st)

  unfoldable pub best_effort_upload_resident_slice :
      (dst : ℕ) (src : Slice A) → State World → Status × State World
  best_effort_upload_resident_slice dst src st =
      accept_malloc_failed dst (upload_resident_slice dst src st)

  -- `ctx.ensurePolySlot(size)`
  unfoldable pub ensure_poly_slot : (size : ℕ) → State World → State World
  ensure_poly_slot size st =
      if ltb st.poly_ptrs.len size
      then record st {
        poly_ptrs = record {
          len = size;
          at = λ i. if ltb i st.poly_ptrs.len then st.poly_ptrs.at i else nil;
        };
      }
      else st

  -- `ctx.getPoly(id)`
  unfoldable pub get_poly : (id : ℕ) → State World → Pointer
  get_poly id st = if ltb id st.poly_ptrs.len then st.poly_ptrs.at id else nil

  -- The end of `ctx.ensurePoly(id, coeffs, size)`, on what MemcpyH2D returned.
  unfoldable pub keep_poly :
      (id : ℕ) (ptr : Pointer) → Bool × World → State World → Status × State World
  keep_poly id ptr (true, w) st = (
    ok,
    record st {
      poly_ptrs = record { len = st.poly_ptrs.len; at = update st.poly_ptrs.at id ptr };
      world = w;
    },
  )
  keep_poly id ptr (false, w) st = (copy_failed, record st { world = g.release ptr w })

  -- `ctx.ensurePoly(id, coeffs, size)` where the slot is there and empty, after Malloc.
  unfoldable pub fill_poly_slot :
      (id : ℕ) (coeffs : Slice A) (size : ℕ) (ptr : Pointer) → State World → Status × State World
  unfolding keep_poly
  fill_poly_slot id coeffs size ptr st =
      if ptr == nil
      then (malloc_failed, st)
      else if coeffs.len == 0
      then (panicked, st)
      else keep_poly id ptr (g.memcpy_h2d ptr coeffs size st.world) st

  -- `ctx.ensurePoly(id, coeffs, size)`
  unfoldable pub ensure_poly :
      (id : ℕ) (coeffs : Slice A) (size : ℕ) → State World → Status × State World
  unfolding ensure_poly_slot fill_poly_slot
  ensure_poly id coeffs size st =
      let st' = ensure_poly_slot (id + 1) st in
      if not (st'.poly_ptrs.at id == nil)
      then (ok, st')
      else fill_poly_slot id coeffs size (g.malloc size st'.world).0
          (record st' { world = (g.malloc size st'.world).1 })
