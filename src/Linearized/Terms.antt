-- ===== src/Linearized/Terms.antt =====
-- One coefficient of the linearized polynomial, as a sum of coefficients continued by zeros.
use gnark_cuda.Prelude.{
  ℕ, zero, suc, ◌+◌, ◌<◌, ◌≡◌, ◌∙◌, sym, ap, arith, inl, inr, ltb, if◌then◌else◌, Bool, true, false,
  Bool-cases, lt→ltb, none,
}
use gnark_cuda.Field.{Field, ◌⊕◌, ◌⊗◌, ◌⊖◌}
use gnark_cuda.Field.Ring.{ring, add-zero, zero-mul}
use gnark_cuda.Slice.{Slice}
use gnark_cuda.Sum.{sum, sum_congr, sum-zero}
use gnark_cuda.Poly.{padded}
use gnark_cuda.Linearized.{
  Openings, Trace, Gates, Shards, Scalars, gates_loop, shard_term, linearized_coefficient,
}

module _ {F : Type 0} ⦃k : Field F⦄ where
  gates_loop-sum :
      (g : Gates F) (i : ℕ) (t0 : F) (rounds j : ℕ) (t : F)
      → t ≡ t0 ⊕ sum j (λ u. (g.pi2 u).at i ⊗ g.qcp_zeta u)
      → gates_loop rounds j g i t ≡ t0 ⊕ sum (j + rounds) (λ u. (g.pi2 u).at i ⊗ g.qcp_zeta u)
  unfolding gates_loop sum
  gates_loop-sum g i t0 zero j t h = let e : j + 0 ≡ j = omega arith in rw e h
  gates_loop-sum g i t0 (suc rounds) j t h =
      let e : j + suc rounds ≡ suc j + rounds = omega arith in
      rw e (
        gates_loop-sum g i t0 rounds (suc j) _
          (ap (λ x. x ⊕ (g.pi2 j).at i ⊗ g.qcp_zeta j) h ∙ k.add_assoc _ _ _))

  gates_loop_all :
      (g : Gates F) (i : ℕ) (t : F)
      → gates_loop g.count 0 g i t ≡ t ⊕ sum g.count (λ u. (g.pi2 u).at i ⊗ g.qcp_zeta u)
  unfolding sum
  gates_loop_all g i t =
      gates_loop-sum g i t g.count 0 t (sym (add-zero t))
      ∙ ap (λ n. t ⊕ sum n (λ u. (g.pi2 u).at i ⊗ g.qcp_zeta u)) {y = g.count} (omega arith)

  -- The gate part of coefficient i.
  abbrev pub gate_term : Scalars F → Openings F → Trace F → Gates F → ℕ → F
  gate_term s v trace g i =
      ((((padded trace.qm i ⊗ s.rl ⊕ padded trace.ql i ⊗ v.l_zeta) ⊕ padded trace.qr i ⊗ v.r_zeta)
          ⊕ padded trace.qo i ⊗ v.o_zeta)
        ⊕ padded trace.qk i)
      ⊕ sum g.count (λ j. padded (g.pi2 j) i ⊗ g.qcp_zeta j)

  -- The selectors and the polynomials of the commitments have one length, as on one domain.
  pub record HasOneLength (trace : Trace F) (g : Gates F) : Type 0 where
    pub ql_len : trace.ql.len ≡ trace.qm.len
    pub qr_len : trace.qr.len ≡ trace.qm.len
    pub qo_len : trace.qo.len ≡ trace.qm.len
    pub qk_len : trace.qk.len ≡ trace.qm.len
    pub pi2_len : (j : ℕ) → j < g.count → (g.pi2 j).len ≡ trace.qm.len

  regroup :
      (t a b c d e f : F)
      → (((((t ⊕ a) ⊕ b) ⊕ c) ⊕ d) ⊕ e) ⊕ f ≡ t ⊕ (((((a ⊕ b) ⊕ c) ⊕ d) ⊕ e) ⊕ f)
  regroup t a b c d e f = simp k.add_assoc

  gated_lem :
      (s : Scalars F) (v : Openings F) (trace : Trace F) (g : Gates F) (i : ℕ) (t : F)
      → HasOneLength trace g
      → (if ltb i trace.qm.len
          then gates_loop g.count 0 g i (
              ((((t ⊕ trace.qm.at i ⊗ s.rl) ⊕ trace.ql.at i ⊗ v.l_zeta) ⊕ trace.qr.at i ⊗ v.r_zeta)
                ⊕ trace.qo.at i ⊗ v.o_zeta)
              ⊕ trace.qk.at i)
          else t)
        ≡ t ⊕ gate_term s v trace g i
  gated_lem s v trace g i t same = elim (Bool-cases (ltb i trace.qm.len)) [
    | inl h ↦
        rw (same.ql_len, same.qr_len, same.qo_len, same.qk_len, h)
          (gates_loop_all g i start
            ∙ ap (λ x. start ⊕ x) (sum_congr g.count _ _ (λ j p. inside h j p))
            ∙ regroup t _ _ _ _ _ _)
    | inr h ↦
        rw (same.ql_len, same.qr_len, same.qo_len, same.qk_len, h)
          (sym (
            ap
              (λ x.
                t
                ⊕ (((((k.zero ⊗ s.rl ⊕ k.zero ⊗ v.l_zeta) ⊕ k.zero ⊗ v.r_zeta) ⊕ k.zero ⊗ v.o_zeta)
                      ⊕ k.zero)
                    ⊕ x))
              (sum-zero g.count _ (λ j p. outside h j p))
            ∙ simp ring))
  ]
    where
      start : F
      start =
          ((((t ⊕ trace.qm.at i ⊗ s.rl) ⊕ trace.ql.at i ⊗ v.l_zeta) ⊕ trace.qr.at i ⊗ v.r_zeta)
            ⊕ trace.qo.at i ⊗ v.o_zeta)
          ⊕ trace.qk.at i

      inside :
          ltb i trace.qm.len ≡ true
          → (j : ℕ) → j < g.count
          → (g.pi2 j).at i ⊗ g.qcp_zeta j ≡ padded (g.pi2 j) i ⊗ g.qcp_zeta j
      inside h j p = rw (same.pi2_len j p, h)

      outside :
          ltb i trace.qm.len ≡ false
          → (j : ℕ) → j < g.count
          → padded (g.pi2 j) i ⊗ g.qcp_zeta j ≡ k.zero
      outside h j p = rw (same.pi2_len j p, h) (zero-mul _)

  -- Lengths of the shards against that of the blinded Z, as `h1`, `h2` and `h3` make them.
  unfoldable pub HasShardLengths : (zk : Bool) → Shards F → ℕ → Type 0
  HasShardLengths true h n = (h.first.len ≡ n) × (h.second.len ≡ n) × (n ≡ suc h.third.len)
  HasShardLengths false h n =
      (h.first.len ≡ h.third.len) × (h.second.len ≡ h.third.len) × (n ≡ suc h.third.len)

  abbrev pub folded_term : Scalars F → Shards F → ℕ → F
  folded_term s h i =
      ((padded h.third i ⊗ s.zeta_n_plus_two ⊕ padded h.second i) ⊗ s.zeta_n_plus_two)
      ⊕ padded h.first i

  shard_term_lem :
      (s : Scalars F) (zk : Bool) (h : Shards F) (n i : ℕ) (t : F)
      → HasShardLengths zk h n
      → i < n
      → shard_term s zk none h i t ≡ t ⊖ folded_term s h i ⊗ s.zh_zeta
  unfolding shard_term HasShardLengths
  shard_term_lem s false h n i t (one, two, _) p = elim (Bool-cases (ltb i h.third.len)) [
    | inl q ↦ rw (one, two, q)
    | inr q ↦ rw (one, two, q) (simp ring)
  ]
  shard_term_lem s true h n i t (one, two, _) p = elim (Bool-cases (ltb i h.third.len)) [
    | inl q ↦ rw (one, two, lt→ltb i n p, q)
    | inr q ↦ rw (one, two, lt→ltb i n p, q) (simp (zero-mul, k.zero-add))
  ]

  -- Coefficient i, for a quotient that is not folded.
  abbrev pub closed_term : Scalars F → Openings F → Trace F → Gates F → Shards F → Slice F → ℕ → F
  closed_term s v trace g h blinded_z i =
      (((padded blinded_z i ⊗ s.s2 ⊕ padded trace.s3 i ⊗ s.s1) ⊕ gate_term s v trace g i)
        ⊕ padded blinded_z i ⊗ s.alpha_square_lagrange_zero)
      ⊖ folded_term s h i ⊗ s.zh_zeta

  s3_lem :
      (c : Slice F) (i : ℕ) (t a : F)
      → (if ltb i c.len then t ⊕ c.at i ⊗ a else t) ≡ t ⊕ padded c i ⊗ a
  s3_lem c i t a = elim (Bool-cases (ltb i c.len)) [ inl q ↦ rw q | inr q ↦ rw q (sym (simp ring)) ]

  pub linearized_coefficient_lem :
      (s : Scalars F) (v : Openings F) (trace : Trace F) (g : Gates F) (zk : Bool) (h : Shards F)
      (blinded_z : Slice F) (i : ℕ)
      → HasOneLength trace g
      → HasShardLengths zk h blinded_z.len
      → i < blinded_z.len
      → linearized_coefficient s v trace g zk none h blinded_z i
        ≡ closed_term s v trace g h blinded_z i
  unfolding linearized_coefficient
  linearized_coefficient_lem s v trace g zk h blinded_z i same lens p =
      shard_term_lem s zk h blinded_z.len i _ lens p
      ∙ ap
          (λ x. (x ⊕ blinded_z.at i ⊗ s.alpha_square_lagrange_zero) ⊖ folded_term s h i ⊗ s.zh_zeta)
          (gated_lem s v trace g i _ same
            ∙ ap (λ x. x ⊕ gate_term s v trace g i)
                (s3_lem trace.s3 i (blinded_z.at i ⊗ s.s2) s.s1))
      ∙ ap
          (λ x.
            (((x ⊗ s.s2 ⊕ padded trace.s3 i ⊗ s.s1) ⊕ gate_term s v trace g i)
              ⊕ x ⊗ s.alpha_square_lagrange_zero)
            ⊖ folded_term s h i ⊗ s.zh_zeta)
          {y = padded blinded_z i} (rw (lt→ltb i blinded_z.len p))
