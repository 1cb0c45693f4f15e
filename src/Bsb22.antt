-- ===== src/Bsb22.antt =====
-- `bsb22Hint` and `completeQk` of integration/prove.go: the commitments to hidden values, the value
-- that each gives to the circuit, and the column Qk. The commitment, the hash to the field, the random
-- elements and the fields of the constraint system are parameters. Rows and inputs are taken to be
-- within their slices, as a compiled system has them, so the index panics of `bsb22Hint` and
-- `completeQk` are left out, and so is the error of `completeQk` for a witness of another field.
pub mod Qk
pub mod Committed
use gnark_cuda.Prelude.{ℕ, zero, suc, ◌+◌, ◌-◌, ◌<◌, ltb, if◌then◌else◌, List, [], ◌∷◌}
use gnark_cuda.Field.{Field}
use gnark_cuda.Slice.{Slice, update, copy, slice}
use gnark_cuda.Outcome.{Outcome, ok, err, panic, ◌>>=◌}

-- `constraint.PlonkCommitment`
pub record CommitmentInfo : Type 0 where
  pub committed : Slice ℕ
  pub commitment_index : ℕ

-- What the hint reads: `s.spr` and the methods of other packages.
pub record System (F G : Type 0) : Type 0 where
  -- `s.domain0.Cardinality`
  pub n : ℕ
  pub nb_public_variables : ℕ
  pub nb_constraints : ℕ
  pub commitment_info : ℕ → CommitmentInfo
  -- `SetBigInt` and `SetBytes`
  pub of_big_int : ℕ → F
  pub of_bytes : Slice ℕ → F
  -- `kzg.Commit(…, s.pk.KzgLagrange)`
  pub commit : Slice F → Outcome G
  -- the digest that it returns beside an error
  pub failed_digest : G
  -- `Write` of the marshalled commitment, `Sum` and `Reset`
  pub hash : G → Slice ℕ
  -- `htfFunc.Size()`
  pub hash_size : ℕ

-- `s.commitmentVal`, `s.cCommitments` and `s.proof.Bsb22Commitments`
pub record Commitments (F G : Type 0) : Type 0 where
  pub commitment_val : ℕ → F
  pub c_commitments : ℕ → Slice F
  pub bsb22_commitments : ℕ → G

abbrev pub nb_bytes : ℕ
nb_bytes = 32

module _ {F G : Type 0} ⦃k : Field F⦄ (s : System F G) where
  -- `for i := range ins { committedValues[offset+commitmentInfo.Committed[i]].SetBigInt(ins[i]) }`
  unfoldable pub committed_loop :
      (rounds i : ℕ) (offset : ℕ) (committed : Slice ℕ) (ins : ℕ → ℕ) → (ℕ → F) → ℕ → F
  committed_loop zero i offset committed ins v = v
  committed_loop (suc rounds) i offset committed ins v =
      committed_loop rounds (suc i) offset committed ins
        (update v (offset + committed.at i) (s.of_big_int (ins i)))

  -- `committedValues`; r and r' are the random elements.
  unfoldable pub committed_values : CommitmentInfo → (ins : Slice ℕ) (r r' : F) → Slice F
  unfolding committed_loop
  committed_values info ins r r' = record {
    len = s.n;
    at =
        update
          (update
            (committed_loop ins.len 0 s.nb_public_variables info.committed ins.at (λ _. k.zero))
            (s.nb_public_variables + info.commitment_index) r)
          (s.nb_public_variables + s.nb_constraints - 1) r';
  }

  -- `hashBts[:nbBuf]`, and the field element of these bytes
  unfoldable pub value_of : G → Outcome F
  unfolding slice
  value_of c =
      let nb_buf = if ltb s.hash_size nb_bytes then s.hash_size else nb_bytes in
      slice (s.hash c) 0 nb_buf >>= λ bytes. ok (s.of_bytes bytes)

  -- What follows the commitment.
  unfoldable pub record_value :
      (depth : ℕ) → Outcome F → Commitments F G → Outcome F × Commitments F G
  record_value depth (ok v) st =
      (ok v, record st { commitment_val = update st.commitment_val depth v })
  record_value depth err st = (err, st)
  record_value depth panic st = (panic, st)

  unfoldable pub record_commitment :
      (depth : ℕ) → Outcome G → Commitments F G → Outcome F × Commitments F G
  unfolding value_of record_value
  record_commitment depth (ok c) st =
      record_value depth (value_of c)
        (record st { bsb22_commitments = update st.bsb22_commitments depth c })
  record_commitment depth err st =
      (err, record st { bsb22_commitments = update st.bsb22_commitments depth s.failed_digest })
  record_commitment depth panic st = (panic, st)

  -- `bsb22Hint`; depth is `ins[0]`, ins the rest of the inputs. The result is `outs[0]`.
  unfoldable pub bsb22_hint :
      (depth : ℕ) (ins : Slice ℕ) (r r' : F) → Commitments F G → Outcome F × Commitments F G
  unfolding committed_values record_commitment
  bsb22_hint depth ins r r' st =
      let values = committed_values (s.commitment_info depth) ins r r' in
      record_commitment depth (s.commit values)
        (record st { c_commitments = update st.c_commitments depth values })

  -- `for i := range s.commitmentInfo { qkCoeffs[…] = s.commitmentVal[i] }`
  unfoldable pub commitment_loop : (rounds i : ℕ) (commitment_val : ℕ → F) → (ℕ → F) → ℕ → F
  commitment_loop zero i commitment_val qk = qk
  commitment_loop (suc rounds) i commitment_val qk = commitment_loop rounds (suc i) commitment_val (
      update qk (s.nb_public_variables + (s.commitment_info i).commitment_index) (commitment_val i))

  -- `completeQk`: trace_qk is `s.trace.Qk`, nb_public is `len(s.spr.Public)` and nb_commitments is
  -- `len(s.commitmentInfo)`.
  unfoldable pub complete_qk :
      (nb_public nb_commitments : ℕ) (trace_qk w_witness : Slice F) → Commitments F G → Slice F
  unfolding commitment_loop copy
  complete_qk nb_public nb_commitments trace_qk w_witness st = record {
    len = trace_qk.len;
    at =
        commitment_loop nb_commitments 0 st.commitment_val
          (copy trace_qk (record { len = nb_public; at = w_witness.at })).at;
  }
