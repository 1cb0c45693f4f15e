-- ===== src/Numerator.antt =====
-- `computeNumerator` of integration/prove.go: the constraints that it evaluates, the loop over the
-- rho cosets with its scaling of the blinding polynomials, and the restoring that follows.
pub mod Constraints
pub mod OnCoset
pub mod Cosets
pub mod Restore
pub mod Scatter
pub mod Divided
pub mod Loop
use gnark_cuda.Prelude.{ℕ, zero, suc, ◌+◌, ◌*◌, ◌%◌}
use gnark_cuda.Field.{Field, ◌⊕◌, ◌⊗◌, ◌⊖◌}
use gnark_cuda.Slice.{Slice, update, set}
use gnark_cuda.Bits.{reversed_index}

-- The indices into `s.x`.
abbrev pub id_l : ℕ
id_l = 0

abbrev pub id_r : ℕ
id_r = 1

abbrev pub id_o : ℕ
id_o = 2

abbrev pub id_z : ℕ
id_z = 3

abbrev pub id_zs : ℕ
id_zs = 4

abbrev pub id_ql : ℕ
id_ql = 5

abbrev pub id_qr : ℕ
id_qr = 6

abbrev pub id_qm : ℕ
id_qm = 7

abbrev pub id_qo : ℕ
id_qo = 8

abbrev pub id_qk : ℕ
id_qk = 9

abbrev pub id_s1 : ℕ
id_s1 = 10

abbrev pub id_s2 : ℕ
id_s2 = 11

abbrev pub id_s3 : ℕ
id_s3 = 12

abbrev pub id_qci : ℕ
id_qci = 13

-- What the closures of `computeNumerator` read of the instance and of the current coset.
pub record Context (F : Type 0) : Type 0 where
  pub n : ℕ
  pub twiddles0 : ℕ → F
  pub coset : F
  pub coset_exponentiated_to_n_minus_one : F
  pub precomputed_denominators : ℕ → F
  pub cardinality_inv : F
  pub cs : F
  pub css : F
  pub alpha : F
  pub beta : F
  pub gamma : F
  pub nb_bsb_gates : ℕ

-- The blinding polynomials of L, R, O and Z.
pub record Blinds (F : Type 0) : Type 0 where
  pub bl : Slice F
  pub br : Slice F
  pub bo : Slice F
  pub bz : Slice F

module _ {F : Type 0} ⦃k : Field F⦄ where
  -- The loop of `gateConstraint` over the commitment gates, from gate i on.
  bsb_loop : (rounds i : ℕ) → (u : ℕ → F) → F → F
  bsb_loop zero i u ic = ic
  bsb_loop (suc rounds) i u ic =
      bsb_loop rounds (suc i) u (ic ⊕ u (id_qci + 2 * i) ⊗ u (id_qci + 2 * i + 1))

  unfoldable pub gate_constraint : Context F → (u : ℕ → F) → F
  unfolding bsb_loop
  gate_constraint c u = bsb_loop c.nb_bsb_gates 0 u (
      ((((u id_ql ⊗ u id_l) ⊕ (u id_qr ⊗ u id_r)) ⊕ ((u id_qm ⊗ u id_l) ⊗ u id_r))
        ⊕ (u id_qo ⊗ u id_o))
      ⊕ u id_qk)

  unfoldable pub ordering_constraint : Context F → (index : ℕ) → (u : ℕ → F) → F
  ordering_constraint c index u =
      let id = (c.twiddles0 index ⊗ c.coset) ⊗ c.beta in
      let a = (c.gamma ⊕ u id_l) ⊕ id in
      let b = (id ⊗ c.cs ⊕ u id_r) ⊕ c.gamma in
      let d = (id ⊗ c.css ⊕ u id_o) ⊕ c.gamma in
      let r = ((a ⊗ b) ⊗ d) ⊗ u id_z in
      let a' = (u id_s1 ⊕ u id_l) ⊕ c.gamma in
      let b' = (u id_s2 ⊕ u id_r) ⊕ c.gamma in
      let d' = (u id_s3 ⊕ u id_o) ⊕ c.gamma in let l = ((a' ⊗ b') ⊗ d') ⊗ u id_zs in l ⊖ r

  -- `computeLagrangeOneOnCoset`
  unfoldable pub compute_lagrange_one_on_coset : Context F → (index : ℕ) → F
  compute_lagrange_one_on_coset c index =
      (c.coset_exponentiated_to_n_minus_one ⊗ c.cardinality_inv) ⊗ c.precomputed_denominators index

  unfoldable pub local_constraint : Context F → (index : ℕ) → (u : ℕ → F) → F
  unfolding compute_lagrange_one_on_coset
  local_constraint c index u = (u id_z ⊖ k.one) ⊗ compute_lagrange_one_on_coset c index

  -- The assignments to u at the start of `allConstraints`; `ev` is Evaluate.
  unfoldable pub blind_row :
      (ev : Slice F → F → F) → Context F → Blinds F → (index : ℕ) → (ℕ → F) → ℕ → F
  blind_row ev c b index u =
      let u1 = update u id_s1 (u id_s1 ⊗ c.beta) in
      let u2 = update u1 id_s2 (u1 id_s2 ⊗ c.beta) in
      let u3 = update u2 id_s3 (u2 id_s3 ⊗ c.beta) in
      let u4 = update u3 id_l (u3 id_l ⊕ ev b.bl (c.twiddles0 index)) in
      let u5 = update u4 id_r (u4 id_r ⊕ ev b.br (c.twiddles0 index)) in
      let u6 = update u5 id_o (u5 id_o ⊕ ev b.bo (c.twiddles0 index)) in
      let u7 = update u6 id_z (u6 id_z ⊕ ev b.bz (c.twiddles0 index)) in
      update u7 id_zs (u7 id_zs ⊕ ev b.bz (c.twiddles0 ((index + 1) % c.n)))

  unfoldable pub all_constraints :
      (ev : Slice F → F → F) → Context F → Blinds F → (index : ℕ) → (u : ℕ → F) → F
  unfolding blind_row gate_constraint ordering_constraint local_constraint
  all_constraints ev c b index u =
      let u' = blind_row ev c b index u in
      let gate = gate_constraint c u' in
      let ordering = ordering_constraint c index u' in
      let local = local_constraint c index u' in ((local ⊗ c.alpha ⊕ ordering) ⊗ c.alpha) ⊕ gate

  -- `acc := cosetExponentiatedToNMinusOne; for j … { cq[j].Mul(&cq[j], &acc); acc.Mul(&acc, &shifters[i]) }`
  -- and, with acc = 1, the loop of `scalePowers`; from index j on.
  unfoldable pub scale_loop : (rounds j : ℕ) (acc w : F) → Slice F → Slice F
  scale_loop zero j acc w q = q
  scale_loop (suc rounds) j acc w q = scale_loop rounds (suc j) (acc ⊗ w) w (set q j (q.at j ⊗ acc))

  -- `for j … { cq[j].Mul(&cq[j], &cosetExponentiatedToNMinusOne) }` with the inverse.
  unfoldable pub unscale_loop : (rounds j : ℕ) (v : F) → Slice F → Slice F
  unscale_loop zero j v q = q
  unscale_loop (suc rounds) j v q = unscale_loop rounds (suc j) v (set q j (q.at j ⊗ v))

  unfoldable pub scale_powers : Slice F → F → Slice F
  unfolding scale_loop
  scale_powers p w = scale_loop p.len 0 k.one w p

  -- What an iteration does to one blinding polynomial before and after its evaluations.
  unfoldable pub blind_scale : (n : ℕ) (coset shifter : F) → Slice F → Slice F
  unfolding scale_loop
  blind_scale n coset shifter q = scale_loop q.len 0 (k.exp coset n ⊖ k.one) shifter q

  unfoldable pub blind_unscale : (n : ℕ) (coset : F) → Slice F → Slice F
  unfolding unscale_loop
  blind_unscale n coset q = unscale_loop q.len 0 (k.inverse (k.exp coset n ⊖ k.one)) q

  -- A blinding polynomial through `rounds` iterations from iteration i on; `coset` is the value
  -- before the iteration's `coset.Mul(&coset, &shifters[i])`.
  unfoldable pub rho_blinds : (n rounds i : ℕ) (shifters : ℕ → F) (coset : F) → Slice F → Slice F
  unfolding blind_scale blind_unscale
  rho_blinds n zero i shifters coset q = q
  rho_blinds n (suc rounds) i shifters coset q =
      let coset' = coset ⊗ shifters i in
      rho_blinds n rounds (suc i) shifters coset'
        (blind_unscale n coset' (blind_scale n coset' (shifters i) q))

  -- `cs.Set(&shifters[0]); for i := 1; i < len(shifters); i++ { cs.Mul(&cs, &shifters[i]) }`
  unfoldable pub shifter_product : (rounds i : ℕ) (shifters : ℕ → F) → F → F
  shifter_product zero i shifters cs = cs
  shifter_product (suc rounds) i shifters cs =
      shifter_product rounds (suc i) shifters (cs ⊗ shifters (suc i))

  -- The restoring goroutine on one blinding polynomial, after rho iterations, rho > 0.
  unfoldable pub restore_blind : (rounds : ℕ) (shifters : ℕ → F) → Slice F → Slice F
  unfolding shifter_product scale_powers
  restore_blind rounds shifters q =
      scale_powers q (k.inverse (shifter_product rounds 0 shifters (shifters 0)))

  -- `for j … { cres[bits.Reverse64(uint64(rho*j+i))>>mm] = buf[j] }`, m the length of cres.
  unfoldable pub scatter_loop : (rounds j rho i m : ℕ) → (buf cres : ℕ → F) → ℕ → F
  scatter_loop zero j rho i m buf cres = cres
  scatter_loop (suc rounds) j rho i m buf cres =
      scatter_loop rounds (suc j) rho i m buf (update cres (reversed_index m (rho * j + i)) (buf j))

  -- The scatters of all iterations from iteration i on; `bufs i` is the buffer of iteration i.
  unfoldable pub scatter_all : (iterations i n rho m : ℕ) → (bufs : ℕ → ℕ → F) → (ℕ → F) → ℕ → F
  unfolding scatter_loop
  scatter_all zero i n rho m bufs cres = cres
  scatter_all (suc iterations) i n rho m bufs cres =
      scatter_all iterations (suc i) n rho m bufs (scatter_loop n 0 rho i m (bufs i) cres)
