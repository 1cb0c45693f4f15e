-- ===== src/Linearized/Main.antt =====
-- `innerComputeLinearizedPoly` as a whole, at the challenge ζ.
use gnark_cuda.Prelude.{ℕ, ◌+◌, ◌*◌, ◌≤◌, ◌≡◌, ◌∙◌, sym, ap, arith, Bool, true, false, none}
use gnark_cuda.Field.{Field, ◌⊕◌, ◌⊗◌, ◌⊖◌}
use gnark_cuda.Field.Ring.{ring}
use gnark_cuda.Field.Exp.{exp-add_one}
use gnark_cuda.Slice.{Slice}
use gnark_cuda.Outcome.{ok}
use gnark_cuda.Poly.{Evaluator, value, eval, value_congr}
use gnark_cuda.Quotient.Shards.{HasLengths, shards-eval}
use gnark_cuda.Linearized.{
  Challenges, Openings, Trace, Gates, Shards, Scalars, scalars, linearized_coefficient,
  inner_compute_linearized_poly,
}
use gnark_cuda.Linearized.Terms.{HasOneLength, HasShardLengths, linearized_coefficient_lem}
use gnark_cuda.Linearized.Laws.{Fits, gate_value, shards_value, closed_term-value}
use gnark_cuda.Linearized.Opened.{opened_row, linearized_at, scalars-linearized_at}

module _ {F : Type 0} ⦃k : Field F⦄ where
  shard_lengths :
      (zk : Bool) (n m : ℕ) (h : Shards F)
      → m ≡ n + 3
      → HasLengths zk n h.first h.second h.third
      → HasShardLengths zk h m
  unfolding HasLengths HasShardLengths
  shard_lengths true n m h e (a, b, c) = (omega arith, omega arith, omega arith)
  shard_lengths false n m h e (a, b, c) = (omega arith, omega arith, omega arith)

  shard-Fits :
      (zk : Bool) (n m : ℕ) (trace : Trace F) (h : Shards F)
      → m ≡ n + 3
      → trace.s3.len ≤ m
      → trace.qm.len ≤ m
      → HasLengths zk n h.first h.second h.third
      → Fits trace h m
  unfolding HasLengths
  shard-Fits true n m trace h e p q (a, b, c) = omega arith
  shard-Fits false n m trace h e p q (a, b, c) = omega arith

  module _ (e : Evaluator k) (n : ℕ) (cardinality_inv coset_shift : F) (c : Challenges F)
      (v : Openings F) (trace : Trace F) (g : Gates F) where
    abbrev all_scalars : Scalars F
    all_scalars = scalars e n cardinality_inv coset_shift c v trace

    zeta_power : all_scalars.zeta_n_plus_two ≡ k.exp c.zeta (n + 2)
    unfolding scalars
    zeta_power = sym (
        ap (k.exp c.zeta) {y = n + 1 + 1} (omega arith)
        ∙ exp-add_one c.zeta (n + 1)
        ∙ ap (λ x. c.zeta ⊗ x) (exp-add_one c.zeta n)
        ∙ simp ring)

    -- For a blinded Z of n + 3 coefficients, a quotient h of at least 3 * (n + 2), trace polynomials
    -- of one length that fit and no folded quotient, the call succeeds with or without blinding of
    -- the shards, and the result has at ζ the value
    --   gates(ζ) + α ((l + β S1(ζ) + γ) (r + β S2(ζ) + γ) β S3(ζ) Z(μζ)
    --     - (l + β ζ + γ) (r + β u ζ + γ) (o + β u² ζ + γ) Z(ζ)) + α² L₁(ζ) Z(ζ) - h(ζ) (ζⁿ - 1),
    -- with l, r, o and Z(μζ) the opened values, u the coset shift, gates(ζ) the gate polynomial with
    -- l, r and o opened, L₁(ζ) = (ζⁿ - 1) / (n (ζ - 1)), where 1 / n is the inverse of the cardinality
    -- that the domain holds, and h(ζ) the value of the first 3 * (n + 2) coefficients of h: the
    -- randomizers of the shards have cancelled.
    pub linearized-eval :
        (zk : Bool) (r0 r1 : F) (h blinded_z : Slice F)
        → 3 * (n + 2) ≤ h.len
        → blinded_z.len ≡ n + 3
        → trace.s3.len ≤ blinded_z.len
        → trace.qm.len ≤ blinded_z.len
        → HasOneLength trace g
        → (out : Slice F) × (inner_compute_linearized_poly e n cardinality_inv coset_shift c v trace
              g zk r0 r1 h none blinded_z
            ≡ ok out)
          × (eval out c.zeta
              ≡ linearized_at n cardinality_inv coset_shift c g.count
                  (opened_row c v trace g blinded_z)
                ⊖ value (3 * (n + 2)) h.at c.zeta ⊗ (k.exp c.zeta n ⊖ k.one))
    unfolding inner_compute_linearized_poly
    linearized-eval zk r0 r1 h blinded_z long len s3 qm same =
        let (first, second, third, e1, e2, e3, lens, sums) = shards-eval zk n r0 r1 h long in
        let shards : Shards F = record { first = first; second = second; third = third } in
        (
          record {
            len = blinded_z.len;
            at = linearized_coefficient all_scalars v trace g zk none shards blinded_z;
          },
          rw (e1, e2, e3),
          value_congr blinded_z.len _ _ c.zeta (λ i p.
                linearized_coefficient_lem all_scalars v trace g zk shards blinded_z i same
                  (shard_lengths zk n blinded_z.len shards len lens) p)
              ∙ closed_term-value all_scalars v trace g shards blinded_z c.zeta same
                  (shard-Fits zk n blinded_z.len trace shards len s3 qm lens)
              ∙ ap
                  (λ x.
                    (((eval blinded_z c.zeta ⊗ all_scalars.s2
                          ⊕ eval trace.s3 c.zeta ⊗ all_scalars.s1)
                        ⊕ gate_value all_scalars v trace g c.zeta)
                      ⊕ eval blinded_z c.zeta ⊗ all_scalars.alpha_square_lagrange_zero)
                    ⊖ x ⊗ all_scalars.zh_zeta)
                  (recombined shards (sums c.zeta))
              ∙ scalars-linearized_at e n cardinality_inv coset_shift c v trace g blinded_z _,
        )
      where
        recombined :
            (s : Shards F)
            → eval s.first c.zeta
                ⊕ k.exp c.zeta (n + 2)
                  ⊗ (eval s.second c.zeta ⊕ k.exp c.zeta (n + 2) ⊗ eval s.third c.zeta)
              ≡ value (3 * (n + 2)) h.at c.zeta
            → shards_value all_scalars s c.zeta ≡ value (3 * (n + 2)) h.at c.zeta
        recombined s q =
            ap (λ z. ((eval s.third c.zeta ⊗ z ⊕ eval s.second c.zeta) ⊗ z) ⊕ eval s.first c.zeta)
              zeta_power
            ∙ horner _ _ _ _
            ∙ q
          where
            horner : (a b d z : F) → ((d ⊗ z ⊕ b) ⊗ z) ⊕ a ≡ a ⊕ z ⊗ (b ⊕ z ⊗ d)
            horner a b d z = simp ring
