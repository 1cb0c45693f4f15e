-- ===== src/Examples/Instances.antt =====
-- The interfaces over the integers mod 17: a group whose points are the scalars themselves, with the
-- sums that gnark-crypto documents.
use gnark_cuda.Prelude.{
  ℕ, ◌≤◌, ◌<◌, ◌≡◌, refl, arith, ◌==◌, if◌then◌else◌, leb, ltb, ◌&&◌, true, ==_self, lt→ltb,
}
use gnark_cuda.Field.{Field, ◌⊕◌, ◌⊖◌}
use gnark_cuda.Field.Ring.{ring, zero-mul, mul-zero, add-mul}
use gnark_cuda.Field.Seventeen.{F17, f17}
use gnark_cuda.Slice.{Slice}
use gnark_cuda.Outcome.{Outcome, ok, err}
use gnark_cuda.Poly.{Evaluator, eval}
use gnark_cuda.Curve.{Group, msm}
use gnark_cuda.Commit.{Msm}
use gnark_cuda.Quotient.Divide.{BatchInverter}

abbrev pub evaluator : Evaluator f17
evaluator = record { evaluate = λ p x. eval p x; evaluate-eval = λ p x. refl }

abbrev pub inverter : BatchInverter f17
inverter = record { invert = λ n f i. f17.inverse (f i); invert_lem = λ n f i p. refl }

module _ {F : Type 0} ⦃k : Field F⦄ where
  pub sub-add_self : (a b : F) → (a ⊖ b) ⊕ b ≡ a
  sub-add_self a b = simp ring

  pub add-sub_self : (a b : F) → (a ⊕ b) ⊖ b ≡ a
  add-sub_self a b = simp ring

abbrev pub line : Group f17 F17
line = record {
  zero = f17.zero;
  add = f17.add;
  sub = f17.sub;
  smul = f17.mul;
  add_assoc = f17.add_assoc;
  add_comm = f17.add_comm;
  zero-add = f17.zero-add;
  sub-add = sub-add_self;
  add-sub = add-sub_self;
  smul-add = f17.mul-add;
  add-smul = add-mul;
  zero-smul = zero-mul;
  smul-zero = mul-zero;
}

abbrev pub sum_if : Slice F17 → Slice F17 → Outcome F17
sum_if points scalars =
    if points.len == scalars.len then ok (msm line scalars.len scalars.at points.at) else err

abbrev pub commit_if : Slice F17 → Slice F17 → Outcome F17
commit_if scalars points =
    if ltb 0 scalars.len && leb scalars.len points.len
    then ok (msm line scalars.len scalars.at points.at)
    else err

pub sum_if_lem :
    (points scalars : Slice F17)
    → points.len ≡ scalars.len
    → sum_if points scalars ≡ ok (msm line scalars.len scalars.at points.at)
sum_if_lem points scalars h = rw (h, ==_self scalars.len)

pub commit_if_lem :
    (scalars points : Slice F17)
    → 0 < scalars.len
    → scalars.len ≤ points.len
    → commit_if scalars points ≡ ok (msm line scalars.len scalars.at points.at)
commit_if_lem scalars points p q = rw (lt→ltb 0 scalars.len p, le→leb scalars.len points.len q)
  where
    le→leb : (a b : ℕ) → a ≤ b → leb a b ≡ true
    le→leb a b h = ground arith

abbrev pub sums : Msm line
sums = record {
  multi_exp = sum_if;
  commit = commit_if;
  multi_exp_lem = sum_if_lem;
  commit_lem = commit_if_lem;
}
