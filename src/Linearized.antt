-- ===== src/Linearized.antt =====
-- `innerComputeLinearizedPoly` of integration/prove.go. The goroutines of `utils.Parallelize` work on
-- different indices, so the body is a function of the index.
pub mod Terms
pub mod Laws
pub mod Opened
pub mod Verified
pub mod Main
use gnark_cuda.Prelude.{
  ℕ, zero, suc, ◌+◌, Bool, true, false, ltb, if◌then◌else◌, Option, none, some,
}
use gnark_cuda.Field.{Field, ◌⊕◌, ◌⊗◌, ◌⊖◌}
use gnark_cuda.Slice.{Slice}
use gnark_cuda.Poly.{Evaluator}
use gnark_cuda.Outcome.{Outcome, ok, ◌>>=◌}
use gnark_cuda.Quotient.{h1, h2, h3}

pub record Challenges (F : Type 0) : Type 0 where
  pub alpha : F
  pub beta : F
  pub gamma : F
  pub zeta : F

-- l(ζ), r(ζ), o(ζ) and Z(μζ).
pub record Openings (F : Type 0) : Type 0 where
  pub l_zeta : F
  pub r_zeta : F
  pub o_zeta : F
  pub zu : F

-- The polynomials of the trace in canonical regular form.
pub record Trace (F : Type 0) : Type 0 where
  pub ql : Slice F
  pub qr : Slice F
  pub qm : Slice F
  pub qo : Slice F
  pub qk : Slice F
  pub s1 : Slice F
  pub s2 : Slice F
  pub s3 : Slice F

-- The commitments of the circuit: Qcp_j(ζ) and the polynomials Pi_j.
pub record Gates (F : Type 0) : Type 0 where
  pub count : ℕ
  pub qcp_zeta : ℕ → F
  pub pi2 : ℕ → Slice F

pub record Shards (F : Type 0) : Type 0 where
  pub first : Slice F
  pub second : Slice F
  pub third : Slice F

-- The scalars that the loop multiplies by.
pub record Scalars (F : Type 0) : Type 0 where
  pub rl : F
  pub s1 : F
  pub s2 : F
  pub zh_zeta : F
  pub zeta_n_plus_two : F
  pub alpha_square_lagrange_zero : F

module _ {F : Type 0} ⦃k : Field F⦄ where
  unfoldable pub scalars :
      Evaluator k
      → (n : ℕ) (cardinality_inv coset_shift : F) → Challenges F
      → Openings F
      → Trace F
      → Scalars F
  scalars e n cardinality_inv coset_shift c v trace =
      let first = (e.evaluate trace.s1 c.zeta ⊗ c.beta ⊕ v.l_zeta) ⊕ c.gamma in
      let second = (e.evaluate trace.s2 c.zeta ⊗ c.beta ⊕ v.r_zeta) ⊕ c.gamma in
      let uzeta = c.zeta ⊗ coset_shift in
      let uuzeta = uzeta ⊗ coset_shift in
      let id1 = (c.beta ⊗ c.zeta ⊕ v.l_zeta) ⊕ c.gamma in
      let id2 = (c.beta ⊗ uzeta ⊕ v.r_zeta) ⊕ c.gamma in
      let id3 = (c.beta ⊗ uuzeta ⊕ v.o_zeta) ⊕ c.gamma in
      let zeta_n = k.exp c.zeta n in
      let zh = zeta_n ⊖ k.one in
      let den = k.inverse (c.zeta ⊖ k.one) in
      record {
        rl = v.r_zeta ⊗ v.l_zeta;
        s1 = (((first ⊗ second) ⊗ v.zu) ⊗ c.beta) ⊗ c.alpha;
        s2 = k.neg ((id1 ⊗ id2) ⊗ id3) ⊗ c.alpha;
        zh_zeta = zh;
        zeta_n_plus_two = (zeta_n ⊗ c.zeta) ⊗ c.zeta;
        alpha_square_lagrange_zero = (((zh ⊗ den) ⊗ c.alpha) ⊗ c.alpha) ⊗ cardinality_inv;
      }

  -- `for j := range qcpZeta { t0.Mul(&pi2Canonical[j][i], &qcpZeta[j]); t.Add(&t, &t0) }`
  gates_loop : (rounds j : ℕ) → Gates F → (i : ℕ) → F → F
  gates_loop zero j g i t = t
  gates_loop (suc rounds) j g i t =
      gates_loop rounds (suc j) g i (t ⊕ (g.pi2 j).at i ⊗ g.qcp_zeta j)

  -- What the body subtracts: from the folded quotient if there is one, else from the shards.
  shard_term : Scalars F → (zk : Bool) → Option (Slice F) → Shards F → (i : ℕ) → F → F
  shard_term s zk (some folded) h i t = if ltb i folded.len then t ⊖ folded.at i ⊗ s.zh_zeta else t
  shard_term s zk none h i t =
      if ltb i h.third.len
      then t
        ⊖ (((h.third.at i ⊗ s.zeta_n_plus_two ⊕ h.second.at i) ⊗ s.zeta_n_plus_two) ⊕ h.first.at i)
          ⊗ s.zh_zeta
      else if zk
      then t ⊖ (h.second.at i ⊗ s.zeta_n_plus_two ⊕ h.first.at i) ⊗ s.zh_zeta
      else t

  -- The body of the loop for index i.
  unfoldable pub linearized_coefficient :
      Scalars F
      → Openings F
      → Trace F
      → Gates F
      → (zk : Bool) → Option (Slice F)
      → Shards F
      → (blinded_z : Slice F) → ℕ
      → F
  unfolding gates_loop shard_term
  linearized_coefficient s v trace g zk folded h blinded_z i =
      let t = blinded_z.at i ⊗ s.s2 in
      let t' = if ltb i trace.s3.len then t ⊕ trace.s3.at i ⊗ s.s1 else t in
      let gated = gates_loop g.count 0 g i (
        ((((t' ⊕ trace.qm.at i ⊗ s.rl) ⊕ trace.ql.at i ⊗ v.l_zeta) ⊕ trace.qr.at i ⊗ v.r_zeta)
          ⊕ trace.qo.at i ⊗ v.o_zeta)
        ⊕ trace.qk.at i) in
      let t'' = if ltb i trace.qm.len then gated else t' in
      shard_term s zk folded h i (t'' ⊕ blinded_z.at i ⊗ s.alpha_square_lagrange_zero)

  -- `innerComputeLinearizedPoly`, with the quotient h of the instance and its two randomizers.
  unfoldable pub inner_compute_linearized_poly :
      Evaluator k
      → (n : ℕ) (cardinality_inv coset_shift : F) → Challenges F
      → Openings F
      → Trace F
      → Gates F
      → (zk : Bool) (r0 r1 : F) (h : Slice F) → Option (Slice F)
      → (blinded_z : Slice F) → Outcome (Slice F)
  unfolding scalars linearized_coefficient
  inner_compute_linearized_poly e n cardinality_inv coset_shift c v trace g zk r0 r1 h folded
        blinded_z =
      do
        first ← h1 zk n r0 h
        second ← h2 zk n r0 r1 h
        third ← h3 zk n r1 h
        let s = scalars e n cardinality_inv coset_shift c v trace
        ok (record {
          len = blinded_z.len;
          at =
              linearized_coefficient s v trace g zk folded
                (record { first = first; second = second; third = third }) blinded_z;
        })
