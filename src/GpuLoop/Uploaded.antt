-- ===== src/GpuLoop/Uploaded.antt =====
-- The upload of the polynomials: what is allocated on each way out.
use gnark_cuda.Prelude.{
  ℕ, zero, suc, ◌+◌, ◌-◌, ◌*◌, ◌≤◌, ◌<◌, ◌≡◌, ◌≢◌, ◌∙◌, refl, sym, ap, arith, Bool, true, false,
  ◌==◌, Option, none, some, inl, inr, Bool-cases, ne→==, ==→≡,
}
use gnark_cuda.Field.{Field}
use gnark_cuda.Slice.{update, update_ne}
use gnark_cuda.Quotient.Divide.{Polynomial}
use gnark_cuda.Numerator.{id_zs}
use gnark_cuda.Gpu.{Pointer, nil, Gpu}
use gnark_cuda.Device.Counts.{
  indicator, counts, counts_self, counts_ne, occurrences, occurrences_congr, occurrences-update,
  occurrences-padded,
}
use gnark_cuda.Device.Owned.{live_of, malloc_lem, free_loop_lem}
use gnark_cuda.Kernels.{Kernels}
use gnark_cuda.GpuLoop.{
  Inputs, Host, Result, upload_failed, owned, attempt, free_polys, upload_into, upload_one,
  upload_polys,
}

indicator-le : (b : Bool) → indicator b ≤ 1
indicator-le true = omega arith
indicator-le false = omega arith

module _ {World F : Type 0} ⦃k : Field F⦄ {g : Gpu World F} (ks : Kernels g) (a : Inputs F)
    (others : Pointer → ℕ) where
  -- The buffers of the device are those of the polynomials, each of them once, and those of others.
  abbrev pub Books : (d_polys : ℕ → Pointer) → World → Type 0
  Books d_polys w =
      (p : Pointer)
      → p ≢ nil
      → occurrences a.npolys 0 (owned d_polys) p + others p ≡ indicator (g.live w p)

  -- After any error but that of the upload the buffers are those of others; after that of the upload
  -- there is one more.
  pub record Tidy (r : Result World F) : Type 0 where
    pub released :
        r.0 ≢ upload_failed → (p : Pointer) → p ≢ nil → others p ≡ indicator (g.live r.2 p)
    pub leaked :
        r.0 ≡ upload_failed → (p : Pointer) × (p ≢ nil) × (others p ≡ 0) × (g.live r.2 p ≡ true)

  -- No buffer from index i on.
  abbrev EmptyFrom : ℕ → (ℕ → Pointer) → Type 0
  EmptyFrom i d_polys = (j : ℕ) → i ≤ j → d_polys j ≡ nil

  owned-nil : (d_polys : ℕ → Pointer) (j : ℕ) → d_polys j ≡ nil → owned d_polys j ≡ nil
  owned-nil d_polys j e = elim (Bool-cases (j == id_zs)) [ inl b ↦ rw b refl | inr b ↦ rw b e ]

  -- The release in front of the index that could not be allocated.
  free_polys_lem :
      (i : ℕ) (d_polys : ℕ → Pointer) (w : World)
      → i ≤ a.npolys
      → EmptyFrom i d_polys
      → Books d_polys w
      → (p : Pointer) → p ≢ nil
      → others p ≡ indicator (g.live (free_polys ks a i d_polys w) p)
  unfolding free_polys
  free_polys_lem i d_polys w le empty books p ne =
      free_loop_lem g others i 0 (owned d_polys) others w
        (λ q used.
          let shorter =
            occurrences-padded i (a.npolys - i) 0 (owned d_polys) (owned d_polys) q (λ j r s. refl)
              (λ j r. owned-nil d_polys j (empty j (omega arith))) used in
          let total = ap (λ m. occurrences m 0 (owned d_polys) q) (sum i a.npolys le) in
          omega (arith, books q used, shorter, total))
        p ne
    where
      sum : (i n : ℕ) → i ≤ n → i + (n - i) ≡ n
      sum i n le = omega arith

  -- A new buffer at index i.
  update-Books :
      (i : ℕ) (d_polys : ℕ → Pointer) (q : Pointer) (w : World)
      → i < a.npolys
      → i ≢ id_zs
      → d_polys i ≡ nil
      → ((p : Pointer)
          → p ≢ nil
          → counts p q + (occurrences a.npolys 0 (owned d_polys) p + others p)
            ≡ indicator (g.live w p))
      → Books (update d_polys i q) w
  update-Books i d_polys q w inside other empty h p ne =
      let moved = occurrences-update a.npolys 0 i (owned d_polys) q p (omega arith) (omega arith) in
      let none = counts_ne p (owned d_polys i) (λ z. ne (z ∙ owned-nil d_polys i empty)) in
      let same =
        occurrences_congr a.npolys 0 (owned (update d_polys i q)) (update (owned d_polys) i q) p
          (λ j r s. commute j) in
      omega (arith, h p ne, moved, none, same)
    where
      commute : (j : ℕ) → owned (update d_polys i q) j ≡ update (owned d_polys) i q j
      commute j = elim (Bool-cases (i == j)) [
        | inl e ↦ rw (e, ne→== j id_zs (λ z. other (==→≡ i j e ∙ z))) refl
        | inr e ↦ rw e refl
      ]

  upload_into-Tidy :
      (i : ℕ) (d_polys : ℕ → Pointer) (q : Pointer) (h : Host F) (p : Polynomial F)
      (next : (ℕ → Pointer) → World → Result World F) (w : World)
      → i < a.npolys
      → i ≢ id_zs
      → EmptyFrom i d_polys
      → ((p : Pointer)
          → p ≢ nil
          → counts p q + (occurrences a.npolys 0 (owned d_polys) p + others p)
            ≡ indicator (g.live w p))
      → ((w : World) → Books (update d_polys i q) w → Tidy (next (update d_polys i q) w))
      → Tidy (upload_into ks a i d_polys q h p next w)
  unfolding upload_into attempt
  upload_into-Tidy i d_polys q h p next w inside other empty counted tidy =
      elim (Bool-cases (q == nil)) [
        | inl e ↦ rw e (record {
          released = λ _. free_polys_lem i d_polys w (omega arith) empty (without e);
          leaked = λ bad. absurd (cc bad);
        })
        | inr e ↦ rw e (
            either (λ z. ground (arith, e, z)) (g.memcpy_h2d q p.coefficients (a.n * 32) w)
              (λ t. (g.memcpy_live q t p.coefficients (a.n * 32) w).0))
      ]
    where
      without : (q == nil) ≡ true → Books d_polys w
      without e t ne = omega (arith, counted t ne, counts_ne t q (λ z. ne (z ∙ ==→≡ _ _ e)))

      either :
          q ≢ nil
          → (r : Bool × World) → ((t : Pointer) → g.live r.1 t ≡ g.live w t)
          → Tidy (elim r.0 as (λ _. Result World F) [
            | true ↦ next (update d_polys i q) r.1
            | false ↦ (upload_failed, h, r.1)
          ])
      either used (true, w') same = tidy w' (
          update-Books i d_polys q w' inside other (empty i (omega arith))
            (λ t ne. counted t ne ∙ sym (ap indicator (same t))))
      either used (false, w') same = record {
        released = λ bad. absurd (bad refl);
        leaked = λ _. (
          q,
          used,
          alone,
          same q
              ∙ live_of g (g.live w q) (occurrences a.npolys 0 (owned d_polys) q + others q)
                  (omega (arith, counted q used, counts_self q)),
        );
      }
        where
          alone : others q ≡ 0
          alone = omega (arith, counted q used, counts_self q, indicator-le (g.live w q))

  upload_one-Tidy :
      (i : ℕ) (d_polys : ℕ → Pointer) (h : Host F) (p : Option (Polynomial F))
      (next : (ℕ → Pointer) → World → Result World F) (w : World)
      → i < a.npolys
      → EmptyFrom i d_polys
      → Books d_polys w
      → ((d : ℕ → Pointer) (w : World) → EmptyFrom (suc i) d → Books d w → Tidy (next d w))
      → Tidy (upload_one ks a i d_polys h p next w)
  unfolding upload_one
  upload_one-Tidy i d_polys h none next w inside empty books tidy =
      tidy d_polys w (λ j q. empty j (omega arith)) books
  upload_one-Tidy i d_polys h (some p) next w inside empty books tidy =
      elim (Bool-cases (i == id_zs)) [
        | inl e ↦ rw e (tidy d_polys w (λ j q. empty j (omega arith)) books)
        | inr e ↦ rw e (
            upload_into-Tidy i d_polys (g.malloc (a.n * 32) w).0 h p next (g.malloc (a.n * 32) w).1
              inside (λ z. ground (arith, e, z)) empty
              (λ t ne. omega (arith, books t ne, malloc_lem g (a.n * 32) w t ne))
              (λ w'.
                tidy (update d_polys i (g.malloc (a.n * 32) w).0) w'
                  (λ j q. update_ne d_polys i j _ (omega arith) ∙ empty j (omega arith))))
      ]

  pub upload_polys-Tidy :
      (rounds i : ℕ) (d_polys : ℕ → Pointer) (h : Host F)
      (next : (ℕ → Pointer) → World → Result World F) (w : World)
      → i + rounds ≤ a.npolys
      → EmptyFrom i d_polys
      → Books d_polys w
      → ((d : ℕ → Pointer) (w : World) → Books d w → Tidy (next d w))
      → Tidy (upload_polys ks a rounds i d_polys h next w)
  unfolding upload_polys
  upload_polys-Tidy zero i d_polys h next w le empty books tidy = tidy d_polys w books
  upload_polys-Tidy (suc rounds) i d_polys h next w le empty books tidy =
      upload_one-Tidy i d_polys h (h.x i) (λ d. upload_polys ks a rounds (suc i) d h next) w
        (omega arith) empty books
        (λ d w' empty' books'.
          upload_polys-Tidy rounds (suc i) d h next w' (omega arith) empty' books' tidy)
