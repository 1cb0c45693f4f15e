-- ===== src/Bsb22/Committed.antt =====
-- The vector that `bsb22Hint` commits to.
use gnark_cuda.Prelude.{
  ℕ, zero, suc, ◌+◌, ◌-◌, ◌≤◌, ◌<◌, ◌≡◌, ◌≢◌, ◌∙◌, ◌⊎◌, refl, sym, ap, arith, inl, inr,
}
use gnark_cuda.Field.{Field}
use gnark_cuda.Slice.{Slice, update, update_self, update_ne}
use gnark_cuda.Bsb22.{CommitmentInfo, System, committed_loop, committed_values}

module _ {F G : Type 0} ⦃k : Field F⦄ (s : System F G) where
  committed_loop-other :
      (rounds i offset : ℕ) (committed : Slice ℕ) (ins : ℕ → ℕ) (v : ℕ → F) (row : ℕ)
      → ((j : ℕ) → i ≤ j → j < i + rounds → offset + committed.at j ≢ row)
      → committed_loop s rounds i offset committed ins v row ≡ v row
  unfolding committed_loop
  committed_loop-other zero i offset committed ins v row h = refl
  committed_loop-other (suc rounds) i offset committed ins v row h =
      committed_loop-other rounds (suc i) offset committed ins _ row
        (λ j p q. h j (omega arith) (omega arith))
      ∙ update_ne v (offset + committed.at i) row _ (h i (omega arith) (omega arith))

  committed_loop-row :
      (rounds i offset : ℕ) (committed : Slice ℕ) (ins : ℕ → ℕ) (v : ℕ → F) (c : ℕ)
      → ((a b : ℕ) → a < i + rounds → b < i + rounds → a ≢ b → committed.at a ≢ committed.at b)
      → i ≤ c
      → c < i + rounds
      → committed_loop s rounds i offset committed ins v (offset + committed.at c)
        ≡ s.of_big_int (ins c)
  unfolding committed_loop
  committed_loop-row zero i offset committed ins v c d p q = absurd (omega arith)
  committed_loop-row (suc rounds) i offset committed ins v c d p q = elim (here_or_later i c p) [
    | inl e ↦
        committed_loop-other rounds (suc i) offset committed ins _ (offset + committed.at c)
          (λ j a b z. d j c (omega arith) (omega arith) (omega arith) (omega (arith, z)))
        ∙ ap
            (λ t.
              update v (offset + committed.at i) (s.of_big_int (ins i)) (offset + committed.at t))
            (sym e)
        ∙ update_self v (offset + committed.at i) (s.of_big_int (ins i))
        ∙ ap (λ t. s.of_big_int (ins t)) e
    | inr a ↦
        committed_loop-row rounds (suc i) offset committed ins _ c
          (λ a b p q. d a b (omega arith) (omega arith)) a (omega arith)
  ]
    where
      here_or_later : (i c : ℕ) → i ≤ c → (i ≡ c) ⊎ (suc i ≤ c)
      here_or_later i c p = omega arith

  -- The two rows that are random: that of the commitment constraint and that of the last constraint.
  abbrev pub IsBlind : CommitmentInfo → ℕ → Type 0
  IsBlind info row =
      (s.nb_public_variables + info.commitment_index ≡ row)
      ⊎ (s.nb_public_variables + s.nb_constraints - 1 ≡ row)

  -- The committed vector: random rows, the inputs in the rows that the system names, zero elsewhere.
  pub record IsCommitted (info : CommitmentInfo) (ins : Slice ℕ) (r r' : F) (v : Slice F)
      : Type 0 where
    pub inputs :
        (i : ℕ)
        → i < ins.len
        → ¬ IsBlind info (s.nb_public_variables + info.committed.at i)
        → v.at (s.nb_public_variables + info.committed.at i) ≡ s.of_big_int (ins.at i)
    pub others :
        (row : ℕ)
        → ¬ IsBlind info row
        → ((i : ℕ) → i < ins.len → s.nb_public_variables + info.committed.at i ≢ row)
        → v.at row ≡ k.zero
    pub last : v.at (s.nb_public_variables + s.nb_constraints - 1) ≡ r'
    pub commitment :
        info.commitment_index + 1 < s.nb_constraints
        → v.at (s.nb_public_variables + info.commitment_index) ≡ r

  -- Where the rows that the system names differ, the vector that `bsb22Hint` commits to has a random
  -- element in the row of the last constraint, another in the row of the commitment constraint where
  -- that constraint comes before the last, the input of the hint in each named row that is neither of
  -- these two, and zero in every row that is none of these.
  pub committed_values-IsCommitted :
      (info : CommitmentInfo) (ins : Slice ℕ) (r r' : F)
      → ((a b : ℕ) → a < ins.len → b < ins.len → a ≢ b → info.committed.at a ≢ info.committed.at b)
      → IsCommitted info ins r r' (committed_values s info ins r r')
  unfolding committed_values
  committed_values-IsCommitted info ins r r' d = record {
    inputs = λ i p free.
        unblinded _ free
        ∙ committed_loop-row ins.len 0 s.nb_public_variables info.committed ins.at _ i
            (λ a b p q. d a b (omega arith) (omega arith)) (omega arith) (omega arith);
    others = λ row free h.
        unblinded row free
        ∙ committed_loop-other ins.len 0 s.nb_public_variables info.committed ins.at _ row
            (λ j a b. h j (omega arith));
    last = update_self blinded (s.nb_public_variables + s.nb_constraints - 1) r';
    commitment = λ p.
        update_ne blinded (s.nb_public_variables + s.nb_constraints - 1)
          (s.nb_public_variables + info.commitment_index) r' (omega arith)
        ∙ update_self loop (s.nb_public_variables + info.commitment_index) r;
  }
    where
      loop : ℕ → F
      loop = committed_loop s ins.len 0 s.nb_public_variables info.committed ins.at (λ _. k.zero)

      blinded : ℕ → F
      blinded = update loop (s.nb_public_variables + info.commitment_index) r

      unblinded :
          (row : ℕ)
          → ¬ IsBlind info row
          → update
              (update loop (s.nb_public_variables + info.commitment_index) r)
              (s.nb_public_variables + s.nb_constraints - 1)
              r'
              row
            ≡ loop row
      unblinded row free =
          update_ne (update loop (s.nb_public_variables + info.commitment_index) r)
            (s.nb_public_variables + s.nb_constraints - 1) row r' (λ e. free (inr e))
          ∙ update_ne loop (s.nb_public_variables + info.commitment_index) row r (λ e. free (inl e))
