-- ===== src/Bsb22/Qk.antt =====
-- The rows of Qk, and the values that the hints gave to the circuit.
use gnark_cuda.Prelude.{
  ℕ, zero, suc, ◌+◌, ◌≤◌, ◌<◌, ◌≡◌, ◌≢◌, ◌∙◌, ◌⊎◌, refl, sym, ap, arith, inl, inr, lt→ltb, le→ltb,
  List, [], ◌∷◌,
}
use gnark_cuda.Field.{Field}
use gnark_cuda.Slice.{Slice, update, update_self, update_ne, copy}
use gnark_cuda.Outcome.{Outcome, ok, err, panic}
use gnark_cuda.Bsb22.{
  System, Commitments, committed_values, value_of, record_value, record_commitment, bsb22_hint,
  commitment_loop, complete_qk,
}

module _ {F G : Type 0} ⦃k : Field F⦄ (s : System F G) where
  -- The row of the commitment constraint of a commitment.
  abbrev pub commitment_row : ℕ → ℕ
  commitment_row i = s.nb_public_variables + (s.commitment_info i).commitment_index

  -- The rows of the first commitments differ.
  abbrev pub HasDistinctRows : (count : ℕ) → Type 0
  HasDistinctRows count =
      (i j : ℕ) → i < count → j < count → i ≢ j → commitment_row i ≢ commitment_row j

  commitment_loop-other :
      (rounds i : ℕ) (vals qk : ℕ → F) (row : ℕ)
      → ((j : ℕ) → i ≤ j → j < i + rounds → commitment_row j ≢ row)
      → commitment_loop s rounds i vals qk row ≡ qk row
  unfolding commitment_loop
  commitment_loop-other zero i vals qk row h = refl
  commitment_loop-other (suc rounds) i vals qk row h =
      commitment_loop-other rounds (suc i) vals (update qk (commitment_row i) (vals i)) row
        (λ j p q. h j (omega arith) (omega arith))
      ∙ update_ne qk (commitment_row i) row (vals i) (h i (omega arith) (omega arith))

  commitment_loop-row :
      (rounds i : ℕ) (vals qk : ℕ → F) (c : ℕ)
      → HasDistinctRows (i + rounds)
      → i ≤ c
      → c < i + rounds
      → commitment_loop s rounds i vals qk (commitment_row c) ≡ vals c
  unfolding commitment_loop
  commitment_loop-row zero i vals qk c d p q = absurd (omega arith)
  commitment_loop-row (suc rounds) i vals qk c d p q = elim (here_or_later i c p) [
    | inl e ↦
        commitment_loop-other rounds (suc i) vals (update qk (commitment_row i) (vals i))
          (commitment_row c) (λ j a b. d j c (omega arith) (omega arith) (omega arith))
        ∙ ap (λ t. update qk (commitment_row i) (vals i) (commitment_row t)) (sym e)
        ∙ update_self qk (commitment_row i) (vals i)
        ∙ ap vals e
    | inr a ↦
        commitment_loop-row rounds (suc i) vals (update qk (commitment_row i) (vals i)) c
          (λ j t b b'. d j t (omega arith) (omega arith)) a (omega arith)
  ]
    where
      here_or_later : (i c : ℕ) → i ≤ c → (i ≡ c) ⊎ (suc i ≤ c)
      here_or_later i c p = omega arith

  -- What the rows of Qk are after `completeQk`: the public inputs, then the value of each commitment
  -- in the row of its constraint, and the trace everywhere else.
  pub record IsComplete (nb_public nb_commitments : ℕ) (trace_qk w_witness : Slice F)
      (vals qk : ℕ → F) : Type 0 where
    pub public_rows : (j : ℕ) → j < nb_public → qk j ≡ w_witness.at j
    pub commitment_rows : (c : ℕ) → c < nb_commitments → qk (commitment_row c) ≡ vals c
    pub other_rows :
        (j : ℕ)
        → nb_public ≤ j
        → ((c : ℕ) → c < nb_commitments → commitment_row c ≢ j)
        → qk j ≡ trace_qk.at j

  -- `completeQk` fills Qk: the public inputs stand in the first rows, the value of each commitment in
  -- the row of its constraint, and all other rows are those of the trace. The constraints of the
  -- commitments have different rows, after those of the public inputs.
  pub complete_qk-IsComplete :
      (nb_public nb_commitments : ℕ) (trace_qk w_witness : Slice F) (st : Commitments F G)
      → nb_public ≤ s.nb_public_variables
      → HasDistinctRows nb_commitments
      → IsComplete nb_public nb_commitments trace_qk w_witness st.commitment_val
          (complete_qk s nb_public nb_commitments trace_qk w_witness st).at
  unfolding complete_qk copy
  complete_qk-IsComplete nb_public nb_commitments trace_qk w_witness st le d = record {
    public_rows = λ j p.
        commitment_loop-other nb_commitments 0 st.commitment_val _ j (λ c a b. omega arith)
        ∙ rw (lt→ltb j nb_public p) refl;
    commitment_rows = λ c p.
        commitment_loop-row nb_commitments 0 st.commitment_val _ c
          (λ i j a b. d i j (omega arith) (omega arith)) (omega arith) (omega arith);
    other_rows = λ j p h.
        commitment_loop-other nb_commitments 0 st.commitment_val _ j (λ c a b. h c (omega arith))
        ∙ rw (le→ltb j nb_public p) refl;
  }

  -- A call of the hint: its depth, inputs and random elements.
  pub record Call : Type 0 where
    pub depth : ℕ
    pub ins : Slice ℕ
    pub r : F
    pub r' : F

  -- The state after calls of the hint.
  unfoldable pub run_hints : List Call → Commitments F G → Commitments F G
  unfolding bsb22_hint
  run_hints [] st = st
  run_hints (c ∷ cs) st = run_hints cs (bsb22_hint s c.depth c.ins c.r c.r' st).1

  -- No call has the depth.
  unfoldable pub Avoids : (depth : ℕ) → List Call → Type 0
  Avoids depth [] = Unit
  Avoids depth (c ∷ cs) = (c.depth ≢ depth) × Avoids depth cs

  ok_injective : (u v : F) → ok u ≡ ok v → u ≡ v
  ok_injective u v e = cc e

  record_value-val :
      (depth : ℕ) (o : Outcome F) (st : Commitments F G) (v : F)
      → (record_value s depth o st).0 ≡ ok v
      → (record_value s depth o st).1.commitment_val depth ≡ v
  unfolding record_value
  record_value-val depth (ok u) st v e = update_self st.commitment_val depth u ∙ ok_injective u v e
  record_value-val depth err st v e = absurd (cc e)
  record_value-val depth panic st v e = absurd (cc e)

  record_commitment-val :
      (depth : ℕ) (o : Outcome G) (st : Commitments F G) (v : F)
      → (record_commitment s depth o st).0 ≡ ok v
      → (record_commitment s depth o st).1.commitment_val depth ≡ v
  unfolding record_commitment
  record_commitment-val depth (ok c) st v e = record_value-val depth (value_of s c) _ v e
  record_commitment-val depth err st v e = absurd (cc e)
  record_commitment-val depth panic st v e = absurd (cc e)

  record_value-other :
      (depth t : ℕ) (o : Outcome F) (st : Commitments F G)
      → depth ≢ t
      → (record_value s depth o st).1.commitment_val t ≡ st.commitment_val t
  unfolding record_value
  record_value-other depth t (ok u) st ne = update_ne st.commitment_val depth t u ne
  record_value-other depth t err st ne = refl
  record_value-other depth t panic st ne = refl

  record_commitment-other :
      (depth t : ℕ) (o : Outcome G) (st : Commitments F G)
      → depth ≢ t
      → (record_commitment s depth o st).1.commitment_val t ≡ st.commitment_val t
  unfolding record_commitment
  record_commitment-other depth t (ok c) st ne = record_value-other depth t (value_of s c) _ ne
  record_commitment-other depth t err st ne = refl
  record_commitment-other depth t panic st ne = refl

  hint-other :
      (c : Call) (st : Commitments F G) (t : ℕ)
      → c.depth ≢ t
      → (bsb22_hint s c.depth c.ins c.r c.r' st).1.commitment_val t ≡ st.commitment_val t
  unfolding bsb22_hint
  hint-other c st t ne =
      let values = committed_values s (s.commitment_info c.depth) c.ins c.r c.r' in
      record_commitment-other c.depth t (s.commit values)
        (record st { c_commitments = update st.c_commitments c.depth values }) ne

  run_hints-other :
      (cs : List Call) (st : Commitments F G) (t : ℕ)
      → Avoids t cs
      → (run_hints cs st).commitment_val t ≡ st.commitment_val t
  unfolding run_hints Avoids
  run_hints-other [] st t h = refl
  run_hints-other (c ∷ cs) st t (ne, h) = run_hints-other cs _ t h ∙ hint-other c st t ne

  hint-val :
      (c : Call) (st : Commitments F G) (v : F)
      → (bsb22_hint s c.depth c.ins c.r c.r' st).0 ≡ ok v
      → (bsb22_hint s c.depth c.ins c.r c.r' st).1.commitment_val c.depth ≡ v
  unfolding bsb22_hint
  hint-val c st v e =
      let values = committed_values s (s.commitment_info c.depth) c.ins c.r c.r' in
      record_commitment-val c.depth (s.commit values)
        (record st { c_commitments = update st.c_commitments c.depth values }) v e

  -- The value that `bsb22Hint` gave to the circuit for a commitment stands, after any calls of the
  -- hint for other commitments, failed ones included, in the row of Qk of the constraint of this
  -- commitment when `completeQk` has run. The constraints of the commitments have different rows.
  pub complete_qk-hint :
      (nb_public nb_commitments : ℕ) (trace_qk w_witness : Slice F) (st : Commitments F G)
      (c : Call) (cs : List Call) (v : F)
      → nb_public ≤ s.nb_public_variables
      → HasDistinctRows nb_commitments
      → c.depth < nb_commitments
      → Avoids c.depth cs
      → (bsb22_hint s c.depth c.ins c.r c.r' st).0 ≡ ok v
      → (complete_qk s nb_public nb_commitments trace_qk w_witness
            (run_hints cs (bsb22_hint s c.depth c.ins c.r c.r' st).1)).at
          (commitment_row c.depth)
        ≡ v
  complete_qk-hint nb_public nb_commitments trace_qk w_witness st c cs v le d p h e =
      (complete_qk-IsComplete nb_public nb_commitments trace_qk w_witness _ le d).commitment_rows
        c.depth p
      ∙ run_hints-other cs _ c.depth h
      ∙ hint-val c st v e
