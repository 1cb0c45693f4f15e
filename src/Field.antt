-- ===== src/Field.antt =====
-- The scalar field `fr` of gnark-crypto, which is not part of this repository: `fr.Element` with
-- the operations that the prover calls, and the laws that their documentation states.
pub mod Ring
pub mod Exp
pub mod Seventeen
use gnark_cuda.Prelude.{ℕ, zero, suc, ◌≡◌, ◌≢◌}

pub record Field (F : Type 0) : Type 0 where
  pub zero : F
  pub one : F
  pub add : F → F → F
  pub mul : F → F → F
  pub sub : F → F → F
  pub neg : F → F
  pub inverse : F → F
  pub exp : F → ℕ → F
  pub add_assoc : (a b c : F) → add (add a b) c ≡ add a (add b c)
  pub add_comm : (a b : F) → add a b ≡ add b a
  pub zero-add : (a : F) → add zero a ≡ a
  pub add-neg : (a : F) → add a (neg a) ≡ zero
  pub sub_lem : (a b : F) → sub a b ≡ add a (neg b)
  pub mul_assoc : (a b c : F) → mul (mul a b) c ≡ mul a (mul b c)
  pub mul_comm : (a b : F) → mul a b ≡ mul b a
  pub one-mul : (a : F) → mul one a ≡ a
  pub mul-add : (a b c : F) → mul a (add b c) ≡ add (mul a b) (mul a c)
  pub one-ne-zero : one ≢ zero
  pub mul-inverse : (a : F) → a ≢ zero → mul a (inverse a) ≡ one
  pub exp-zero : (a : F) → exp a 0 ≡ one
  pub exp-suc : (a : F) (n : ℕ) → exp a (suc n) ≡ mul a (exp a n)

module _ {F : Type 0} ⦃k : Field F⦄ where
  infixl 65 ◌⊕◌ ◌⊖◌
  infixl 70 ◌⊗◌
  abbrev pub ◌⊕◌ : F → F → F
  a ⊕ b = k.add a b

  abbrev pub ◌⊖◌ : F → F → F
  a ⊖ b = k.sub a b

  abbrev pub ◌⊗◌ : F → F → F
  a ⊗ b = k.mul a b
