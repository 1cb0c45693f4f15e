-- ===== src/Numerator/Loop.antt =====
-- The loop of `computeNumerator` over the rho cosets as a whole: its twiddles, its denominators, the
-- polynomials of `s.x` from coset to coset, the rows that it evaluates, and what the loop leaves.
pub mod Twiddles
pub mod Polynomials
pub mod Blinding
pub mod Points
pub mod Rows
pub mod Quotient
pub mod Restored
use gnark_cuda.Prelude.{
  ℕ, zero, suc, ◌+◌, ◌-◌, ◌^◌, ◌%◌, ◌<◌, ◌≡◌, ◌≢◌, ◌==◌, ◌||◌, if◌then◌else◌, Option, none, some,
}
use gnark_cuda.Field.{Field, ◌⊗◌, ◌⊖◌}
use gnark_cuda.Slice.{Slice, update}
use gnark_cuda.Bits.{reverse_bits}
use gnark_cuda.Poly.{Evaluator}
use gnark_cuda.BatchInvert.{batch_invert}
use gnark_cuda.Quotient.Divide.{Domain, Layout, lagrange, regular, bit_reverse, Polynomial}
use gnark_cuda.Transform.{Transform}
use gnark_cuda.Numerator.{
  Context, Blinds, all_constraints, blind_scale, blind_unscale, scatter_loop, shifter_product,
  scale_powers, id_z, id_zs, id_qk,
}

-- `scalingVector` and `scalingVectorRev`.
pub record Vectors (F : Type 0) : Type 0 where
  pub in_order : ℕ → F
  pub reversed : ℕ → F

-- `CosetTable`, `BuildExpTable` and `BitReverse` of gnark-crypto's fft package on 2 ^ w entries. The
-- coset table is that of the small domain; `fft.NewDomain` gives every domain the same
-- FrMultiplicativeGen, so g is that of the large domain, as in `shifters`.
pub record Tables {F : Type 0} (k : Field F) (w : ℕ) (g : F) : Type 0 where
  pub coset_table : ℕ → F
  pub build_exp_table : F → ℕ → F
  pub reverse : (ℕ → F) → ℕ → F
  pub coset_table_lem : (j : ℕ) → j < 2 ^ w → coset_table j ≡ k.exp g j
  pub build_exp_table_lem : (a : F) (j : ℕ) → j < 2 ^ w → build_exp_table a j ≡ k.exp a j
  pub reverse_lem : (v : ℕ → F) (j : ℕ) → j < 2 ^ w → reverse v (reverse_bits w j) ≡ v j

module _ {F : Type 0} ⦃k : Field F⦄ where
  -- `for i := len(twiddles[0]); i < n; i++ { twiddles0[i].Mul(&twiddles0[i-1], &w) }`, at i + 1.
  extend_loop : (rounds i : ℕ) (w : F) → (ℕ → F) → ℕ → F
  extend_loop zero i w t = t
  extend_loop (suc rounds) i w t = extend_loop rounds (suc i) w (update t (suc i) (t i ⊗ w))

  -- `twiddles0`, from the first table of `Twiddles`.
  unfoldable pub init_twiddles : (n : ℕ) (twiddles : Slice F) → ℕ → F
  unfolding extend_loop
  init_twiddles n twiddles =
      if n == 1
      then update (λ _. k.zero) 0 k.one
      else extend_loop (n - twiddles.len) (twiddles.len - 1) (twiddles.at 1) twiddles.at

  -- `for j … { s.precomputedDenominators[j].Mul(&coset, &twiddles0[j]).Sub(…, &one) }`
  denominator_loop : (rounds j : ℕ) (coset : F) (twiddles0 : ℕ → F) → (ℕ → F) → ℕ → F
  denominator_loop zero j coset twiddles0 v = v
  denominator_loop (suc rounds) j coset twiddles0 v =
      denominator_loop rounds (suc j) coset twiddles0 (update v j ((coset ⊗ twiddles0 j) ⊖ k.one))

  unfoldable pub invert_denominators :
      (num_cpu n : ℕ) (coset : F) (twiddles0 : ℕ → F) → (ℕ → F) → ℕ → F
  unfolding denominator_loop
  invert_denominators num_cpu n coset twiddles0 v =
      batch_invert num_cpu n (denominator_loop n 0 coset twiddles0 v)

  -- `shifters`, from the shift to the first coset and the generator of the large domain.
  abbrev pub shifters : (big : Domain F) → ℕ → F
  shifters big i = if i == 0 then big.fr_multiplicative_gen else big.generator

  abbrev pub choose : Layout → Vectors F → ℕ → F
  choose regular v = v.in_order
  choose bit_reverse v = v.reversed

  -- `cp[j].Mul(&cp[j], &w[j])` for every j.
  abbrev pub multiply : Slice F → (ℕ → F) → Slice F
  multiply cp w = record { len = cp.len; at = λ j. cp.at j ⊗ w j }

  -- What `batchApply` does to one polynomial in an iteration.
  unfoldable pub scale_polynomial :
      {d : Domain F} {w : ℕ} → Transform d w → Vectors F → Polynomial F → Polynomial F
  scale_polynomial t v p =
      let p' = t.to_canonical p in
      t.to_regular
        (t.to_lagrange (record p' { coefficients = multiply p'.coefficients (choose p'.layout v) }))

  -- What `batchApply` does to one polynomial after the loop.
  unfoldable pub restore_polynomial :
      {d : Domain F} {w : ℕ}
      → Transform d w
      → (rounds : ℕ) (shifters : ℕ → F) → Polynomial F
      → Polynomial F
  restore_polynomial t rounds shifters p =
      let p' = t.to_regular (t.to_canonical p) in
      record p' {
        coefficients =
            scale_powers p'.coefficients
              (k.inverse (shifter_product rounds 0 shifters (shifters 0)));
      }

-- `iop.Evaluate` with the result in Lagrange form and in order, on polynomials that have this form;
-- the entry of id_ZS is Z shifted by one, as `computeQuotient` builds it.
pub record RowEvaluator (F : Type 0) : Type 0 where
  pub evaluate : (n : ℕ) → (ℕ → (ℕ → F) → F) → (x : ℕ → Polynomial F) → ℕ → F
  pub evaluate_lem :
      (n : ℕ) (f : ℕ → (ℕ → F) → F) (x : ℕ → Polynomial F)
      → ((id : ℕ) → id ≢ id_zs → ((x id).basis ≡ lagrange) × ((x id).layout ≡ regular))
      → (j : ℕ) → j < n
      → evaluate n f x j
        ≡ f j (λ id.
          if id == id_zs then (x id_z).coefficients.at ((j + 1) % n) else (x id).coefficients.at j)

-- What the loop reads: the domains, the challenges, the tables and the methods of other packages.
pub record Setting (F : Type 0) (k : Field F) : Type 0 where
  pub num_cpu : ℕ
  pub small : Domain F
  pub big : Domain F
  pub w : ℕ
  pub transform : Transform ⦃k = k⦄ small w
  pub tables : Tables k w big.fr_multiplicative_gen
  pub rows : RowEvaluator F
  pub evaluator : Evaluator k
  pub twiddles : Slice F
  pub alpha : F
  pub beta : F
  pub gamma : F
  pub nb_bsb_gates : ℕ

-- What an iteration changes.
pub record LoopState (F : Type 0) : Type 0 where
  pub coset : F
  pub vectors : Vectors F
  pub denominators : ℕ → F
  pub x : ℕ → Polynomial F
  pub bp : Blinds F
  pub cres : ℕ → F

abbrev pub each_blind : {F : Type 0} → (Slice F → Slice F) → Blinds F → Blinds F
each_blind f b = record { bl = f b.bl; br = f b.br; bo = f b.bo; bz = f b.bz }

module _ {F : Type 0} ⦃k : Field F⦄ (s : Setting F k) (rho : ℕ) where
  unfoldable pub next_vectors : (i : ℕ) → Vectors F → Vectors F
  next_vectors i v =
      if i == 1
      then record {
        in_order = s.tables.build_exp_table s.big.generator;
        reversed = s.tables.reverse (s.tables.build_exp_table s.big.generator);
      }
      else v

  -- What the closures read in iteration i, in the state that iteration i has prepared.
  unfoldable pub context_of : LoopState F → Context F
  context_of st = record {
    n = s.small.cardinality;
    twiddles0 = init_twiddles s.small.cardinality s.twiddles;
    coset = st.coset;
    coset_exponentiated_to_n_minus_one = k.exp st.coset s.small.cardinality ⊖ k.one;
    precomputed_denominators = st.denominators;
    cardinality_inv = s.small.cardinality_inv;
    cs = s.big.fr_multiplicative_gen;
    css = s.big.fr_multiplicative_gen ⊗ s.big.fr_multiplicative_gen;
    alpha = s.alpha;
    beta = s.beta;
    gamma = s.gamma;
    nb_bsb_gates = s.nb_bsb_gates;
  }

  -- Iteration i up to the call of `iop.Evaluate`.
  unfoldable pub prepare : (i : ℕ) → LoopState F → LoopState F
  unfolding next_vectors invert_denominators scale_polynomial blind_scale
  prepare i st =
      let coset = st.coset ⊗ shifters s.big i in
      let vectors = next_vectors i st.vectors in
      record {
        coset = coset;
        vectors = vectors;
        denominators =
            invert_denominators s.num_cpu s.small.cardinality coset
              (init_twiddles s.small.cardinality s.twiddles) st.denominators;
        x = λ id. if id == id_zs then st.x id else scale_polynomial s.transform vectors (st.x id);
        bp = each_blind (blind_scale s.small.cardinality coset (shifters s.big i)) st.bp;
        cres = st.cres;
      }

  -- `buf`
  unfoldable pub buffer : LoopState F → ℕ → F
  unfolding context_of all_constraints
  buffer st =
      s.rows.evaluate s.small.cardinality
        (all_constraints s.evaluator.evaluate (context_of st) st.bp) st.x

  unfoldable pub iteration : (i : ℕ) → LoopState F → LoopState F
  unfolding prepare buffer scatter_loop blind_unscale
  iteration i st =
      let st' = prepare i st in
      record st' {
        cres = scatter_loop s.small.cardinality 0 rho i s.big.cardinality (buffer st') st'.cres;
        bp = each_blind (blind_unscale s.small.cardinality st'.coset) st'.bp;
      }

  -- The state before the first iteration.
  abbrev pub initial_state : (x : ℕ → Polynomial F) → Blinds F → LoopState F
  initial_state x bp = record {
    coset = k.one;
    vectors = record {
      in_order = s.tables.coset_table;
      reversed = s.tables.reverse s.tables.coset_table;
    };
    denominators = λ _. k.zero;
    x = x;
    bp = bp;
    cres = λ _. k.zero;
  }

  -- The state after the given number of iterations.
  unfoldable pub loop_state : (iterations : ℕ) (x : ℕ → Polynomial F) → Blinds F → LoopState F
  unfolding iteration
  loop_state zero x bp = initial_state x bp
  loop_state (suc i) x bp = iteration i (loop_state i x bp)

  -- `s.x` after the restoring goroutine, rho > 0; ZS and Qk are dropped.
  unfoldable pub restore_polynomials : (x : ℕ → Polynomial F) → ℕ → Option (Polynomial F)
  unfolding restore_polynomial
  restore_polynomials x id =
      if id == id_zs || id == id_qk
      then none
      else some (restore_polynomial s.transform (rho - 1) (shifters s.big) (x id))
