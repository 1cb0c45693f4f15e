-- ===== src/Examples/Devices.antt =====
-- A device whose Malloc fails when the next address is taken and whose MemcpyH2D copies at most 300
-- bytes, and the context on it.
use gnark_cuda.Prelude.{
  ℕ, suc, ◌+◌, ◌≡◌, ◌≢◌, ◌∙◌, ◌↔◌, refl, ap, arith, Bool, true, false, ◌==◌, leb, if◌then◌else◌,
  inl, inr, Bool-cases, ne→==, ==_self, List, [], ◌∷◌,
}
use gnark_cuda.Slice.{Slice}
use gnark_cuda.Gpu.{Pointer, nil, Gpu}
use gnark_cuda.Device.{
  ok, copy_failed, free, upload_resident_slice, ensure_resident_poly, get_poly, ensure_poly,
}
use gnark_cuda.Device.Counts.{indicator}
use gnark_cuda.Device.Owned.{held}
use gnark_cuda.Device.Runs.{
  Call, upload_poly, upload_slice, best_effort, ensure_at, run_all, new_context, run_all-held,
  free-run_all,
}
use gnark_cuda.Device.Uploads.{
  HasRoom, Holds, upload_resident_slice-Holds, upload_resident_slice-HasRoom,
}
use gnark_cuda.Device.Ensured.{ensure_resident_poly-again, ensure_poly-get_poly}

pub record Memory (A : Type 0) : Type 0 where
  pub next : Pointer
  pub live : Pointer → Bool
  pub capacity : Pointer → ℕ
  pub contents : Pointer → ℕ → A

abbrev pub address : {A : Type 0} → Memory A → Pointer
address w = if w.live w.next then nil else w.next

abbrev pub malloc : {A : Type 0} → ℕ → Memory A → Pointer × Memory A
malloc size w = (
  address w,
  record w {
    next = suc w.next;
    live = λ q. if q == address w then true else w.live q;
    capacity = λ q. if w.live q then w.capacity q else size;
  },
)

abbrev pub memcpy_h2d : {A : Type 0} → Pointer → Slice A → ℕ → Memory A → Bool × Memory A
memcpy_h2d p src size w = (
  leb size 300,
  record w {
    contents =
        λ q. if q == p then (if leb size 300 then src.at else w.contents q) else w.contents q;
  },
)

abbrev pub release : {A : Type 0} → Pointer → Memory A → Memory A
release p w = record w { live = λ q. if q == p then false else w.live q }

pub address_free : {A : Type 0} (w : Memory A) → address w ≢ nil → w.live (address w) ≡ false
address_free w ne = elim (Bool-cases (w.live w.next)) [
  | inl e ↦ absurd (ne (rw e refl))
  | inr e ↦ ap w.live (rw e refl) ∙ e
]

abbrev pub gpu : {A : Type 0} → Gpu (Memory A) A
gpu = record {
  live = λ w. w.live;
  capacity = λ w. w.capacity;
  contents = λ w. w.contents;
  malloc = malloc;
  memcpy_h2d = memcpy_h2d;
  release = release;
  malloc_fresh = λ size w ne. (address_free w ne, rw (address_free w ne) refl);
  malloc_live = λ size w p ne. refl;
  malloc_keeps = λ size w p h. (rw h refl, refl);
  memcpy_live = λ p q src size w. (refl, refl);
  memcpy_keeps = λ p q src size w ne. rw (ne→== q p ne) refl;
  memcpy_copies = λ p src size w h l c s i b. rw (==_self p, h) refl;
  release_live = λ p q w h. refl;
  release_keeps = λ p q w h ne. (refl, refl);
}

abbrev start : Memory ℕ
start = record { next = 1; live = λ _. false; capacity = λ _. 0; contents = λ _ _. 0 }

abbrev two : Slice ℕ
two = record { len = 2; at = λ i. i + 7 }

-- Too large for the copy.
abbrev ten : Slice ℕ
ten = record { len = 10; at = λ i. i + 7 }

abbrev calls : List (Call ℕ)
calls =
    upload_poly 0 (omega arith) two 64
    ∷ upload_slice 9 (omega arith) two
    ∷ best_effort 9 (omega arith) ten
    ∷ ensure_at 20 two (omega arith) 64
    ∷ ensure_at 21 ten (omega arith) 320
    ∷ []

run_all-held_example :
    held gpu (run_all gpu calls (new_context gpu start)) 1 + indicator false
    ≡ indicator ((run_all gpu calls (new_context gpu start)).world.live 1)
run_all-held_example = run_all-held gpu start calls 1 (omega arith)

free-run_all_example : (free gpu (run_all gpu calls (new_context gpu start))).world.live 2 ≡ false
free-run_all_example = free-run_all gpu start calls 2 (omega arith)

new_cell : HasRoom gpu 9 (new_context gpu start)
new_cell = record {
  empty = λ _. refl;
  allocated = λ used. absurd (used refl);
  room = λ used. absurd (used refl);
}

uploaded : (upload_resident_slice gpu 9 two (new_context gpu start)).0 ≡ ok
unfolding upload_resident_slice
uploaded = refl

upload_resident_slice-Holds_example :
    Holds gpu 9 two (upload_resident_slice gpu 9 two (new_context gpu start)).1
upload_resident_slice-Holds_example =
    upload_resident_slice-Holds gpu 9 two (new_context gpu start) (omega arith) new_cell uploaded

upload_resident_slice-HasRoom_example :
    HasRoom gpu 9 (upload_resident_slice gpu 9 ten (new_context gpu start)).1
upload_resident_slice-HasRoom_example =
    upload_resident_slice-HasRoom gpu 9 ten (new_context gpu start) new_cell

not_copied : (ensure_resident_poly gpu 0 ten 320 (new_context gpu start)).0 ≡ copy_failed
unfolding ensure_resident_poly
not_copied = refl

ensure_resident_poly-again_example :
    ensure_resident_poly gpu 0 ten 320
      (ensure_resident_poly gpu 0 ten 320 (new_context gpu start)).1
    ≡ (ok, (ensure_resident_poly gpu 0 ten 320 (new_context gpu start)).1)
ensure_resident_poly-again_example =
    ensure_resident_poly-again gpu 0 ten 320 (new_context gpu start) not_copied

ensure_poly-get_poly_example :
    ((ensure_poly gpu 20 two 64 (new_context gpu start)).0 ≡ ok)
    ↔ (get_poly gpu 20 (ensure_poly gpu 20 two 64 (new_context gpu start)).1 ≢ nil)
ensure_poly-get_poly_example = ensure_poly-get_poly gpu 20 two 64 (new_context gpu start)
