-- ===== src/Examples/Hints.antt =====
-- Two commitments in a system of two public variables and five constraints, mod 17, and a batch
-- opening with one column Qcp.
use gnark_cuda.Prelude.{ℕ, ◌+◌, ◌*◌, ◌≡◌, refl, arith, [], ◌∷◌}
use gnark_cuda.Field.Seventeen.{F17, f17, reduce}
use gnark_cuda.Field.Seventeen
use gnark_cuda.Slice.{Slice}
use gnark_cuda.Blinding.{get_blinded_coefficients}
use gnark_cuda.Outcome.{ok}
use gnark_cuda.Quotient.Divide.{Polynomial, canonical, regular}
use gnark_cuda.Bsb22.{
  CommitmentInfo, System, Commitments, committed_values, bsb22_hint, complete_qk,
}
use gnark_cuda.Bsb22.Committed.{IsCommitted, committed_values-IsCommitted}
use gnark_cuda.Bsb22.Qk.{
  HasDistinctRows, IsComplete, Call, run_hints, Avoids, complete_qk-IsComplete, complete_qk-hint,
}
use gnark_cuda.Opening.{Opened, polys_to_open, digests_to_open}
use gnark_cuda.Opening.Aligned.{HasDigests, IsAligned, batch_opening-IsAligned}

abbrev numbers : (len start : ℕ) → Slice ℕ
numbers len start = record { len = len; at = λ i. i + start }

abbrev info : ℕ → CommitmentInfo
info c = record { committed = numbers 2 0; commitment_index = 2 + c }

-- A commitment is the sum of its first three entries.
abbrev system : System F17 F17
system = record {
  n = 8;
  nb_public_variables = 2;
  nb_constraints = 5;
  commitment_info = info;
  of_big_int = reduce;
  of_bytes = λ b. reduce (b.at 0);
  commit = λ v. ok (f17.add (v.at 2) (f17.add (v.at 3) (v.at 4)));
  failed_digest = reduce 0;
  hash = λ c. record { len = 32; at = λ i. c.0 + i };
  hash_size = 32;
}

abbrev start : Commitments F17 F17
start = record {
  commitment_val = λ _. reduce 0;
  c_commitments = λ _. record { len = 0; at = λ _. reduce 0 };
  bsb22_commitments = λ _. reduce 0;
}

abbrev column : (len : ℕ) → Slice F17
column len = record { len = len; at = reduce }

distinct : HasDistinctRows system 2
distinct i j p q ne e = ne (omega arith)

abbrev second : Call system
second = record { depth = 1; ins = numbers 2 6; r = reduce 7; r' = reduce 8 }

first_value : (bsb22_hint system 0 (numbers 2 5) (reduce 3) (reduce 4) start).0 ≡ ok (reduce 14)
unfolding bsb22_hint Seventeen.add reduce
first_value = refl

avoids : Avoids system 0 (second ∷ [])
unfolding Avoids
avoids = ((λ e. omega arith), tt)

complete_qk-IsComplete_example :
    IsComplete system 2 2
      (column 8)
      (column 3)
      start.commitment_val
      (complete_qk system 2 2 (column 8) (column 3) start).at
complete_qk-IsComplete_example =
    complete_qk-IsComplete system 2 2 (column 8) (column 3) start (omega arith) distinct

complete_qk-hint_example :
    (complete_qk system 2 2 (column 8) (column 3) (
        run_hints system
          (second ∷ [])
          (bsb22_hint system 0 (numbers 2 5) (reduce 3) (reduce 4) start).1)).at
      4
    ≡ reduce 14
complete_qk-hint_example =
    complete_qk-hint system 2 2 (column 8) (column 3) start
      (record { depth = 0; ins = numbers 2 5; r = reduce 3; r' = reduce 4 }) (second ∷ [])
      (reduce 14) (omega arith) distinct (omega arith) avoids first_value

committed_values-IsCommitted_example :
    IsCommitted system
      (info 0)
      (numbers 2 5)
      (reduce 3)
      (reduce 4)
      (committed_values system (info 0) (numbers 2 5) (reduce 3) (reduce 4))
committed_values-IsCommitted_example =
    committed_values-IsCommitted system (info 0) (numbers 2 5) (reduce 3) (reduce 4)
      (λ a b p q ne e. ne (omega arith))

abbrev polynomial : ℕ → Polynomial F17
polynomial len = record { coefficients = column len; basis = canonical; layout = regular }

abbrev opened : Opened F17 ℕ
opened = record {
  linearized_polynomial = column 3;
  l = column 4;
  r = column 4;
  o = column 4;
  bp = record { bl = column 2; br = column 2; bo = column 2; bz = column 3 };
  s1 = polynomial 5;
  s2 = polynomial 7;
  qcp = record { len = 1; at = λ _. polynomial 8 };
  linearized_polynomial_digest = 3;
  lro = λ _. 6;
  vk_s = λ i. 5 + 2 * i;
  vk_qcp = record { len = 1; at = λ _. 8 };
  zeta = reduce 2;
  z_shifted = reduce 9;
}

-- A digest that only tells the number of coefficients.
abbrev HasLength : Slice F17 → ℕ → Type 0
HasLength p d = p.len ≡ d

digests : HasDigests opened HasLength
unfolding get_blinded_coefficients
digests = record {
  linearized = refl;
  blinded_l = refl;
  blinded_r = refl;
  blinded_o = refl;
  first_permutation = refl;
  second_permutation = refl;
  as_many = refl;
  qcp = λ i p. refl;
}

batch_opening-IsAligned_example :
    IsAligned opened HasLength (polys_to_open opened) (digests_to_open opened 0)
batch_opening-IsAligned_example = batch_opening-IsAligned opened HasLength 0 digests
