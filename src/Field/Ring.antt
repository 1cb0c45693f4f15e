-- ===== src/Field/Ring.antt =====
-- Laws of a commutative ring, in the form that `simp` sorts both sides of an equation by.
use gnark_cuda.Prelude.{◌≡◌, sym, ap, ◌∙◌}
use gnark_cuda.Field.{Field, ◌⊕◌, ◌⊖◌, ◌⊗◌}

module _ {F : Type 0} ⦃k : Field F⦄ where
  pub add_assoc : (a b c : F) → (a ⊕ b) ⊕ c ≡ a ⊕ (b ⊕ c)
  add_assoc = k.add_assoc

  pub add_comm : (a b : F) → a ⊕ b ≡ b ⊕ a
  add_comm = k.add_comm

  pub add_left_comm : (a b c : F) → a ⊕ (b ⊕ c) ≡ b ⊕ (a ⊕ c)
  add_left_comm a b c =
      sym (k.add_assoc a b c) ∙ ap (λ x. x ⊕ c) (k.add_comm a b) ∙ k.add_assoc b a c

  pub mul_assoc : (a b c : F) → (a ⊗ b) ⊗ c ≡ a ⊗ (b ⊗ c)
  mul_assoc = k.mul_assoc

  pub mul_comm : (a b : F) → a ⊗ b ≡ b ⊗ a
  mul_comm = k.mul_comm

  pub mul_left_comm : (a b c : F) → a ⊗ (b ⊗ c) ≡ b ⊗ (a ⊗ c)
  mul_left_comm a b c =
      sym (k.mul_assoc a b c) ∙ ap (λ x. x ⊗ c) (k.mul_comm a b) ∙ k.mul_assoc b a c

  pub mul-add : (a b c : F) → a ⊗ (b ⊕ c) ≡ (a ⊗ b) ⊕ (a ⊗ c)
  mul-add = k.mul-add

  pub add-mul : (a b c : F) → (a ⊕ b) ⊗ c ≡ (a ⊗ c) ⊕ (b ⊗ c)
  add-mul a b c = k.mul_comm (a ⊕ b) c ∙ k.mul-add c a b ∙ ap₂' (k.mul_comm c a) (k.mul_comm c b)
    where
      ap₂' : {w x y z : F} → w ≡ x → y ≡ z → w ⊕ y ≡ x ⊕ z
      ap₂' p q i = p i ⊕ q i

  pub zero-add : (a : F) → k.zero ⊕ a ≡ a
  zero-add = k.zero-add

  pub add-zero : (a : F) → a ⊕ k.zero ≡ a
  add-zero a = k.add_comm a k.zero ∙ k.zero-add a

  pub one-mul : (a : F) → k.one ⊗ a ≡ a
  one-mul = k.one-mul

  pub mul-one : (a : F) → a ⊗ k.one ≡ a
  mul-one a = k.mul_comm a k.one ∙ k.one-mul a

  pub add-neg : (a : F) → a ⊕ k.neg a ≡ k.zero
  add-neg = k.add-neg

  pub neg-add_self : (a : F) → k.neg a ⊕ a ≡ k.zero
  neg-add_self a = k.add_comm (k.neg a) a ∙ k.add-neg a

  pub add-neg_cancel : (a b : F) → a ⊕ (k.neg a ⊕ b) ≡ b
  add-neg_cancel a b = simp (← add_assoc, add-neg, zero-add)

  pub neg-add_cancel : (a b : F) → k.neg a ⊕ (a ⊕ b) ≡ b
  neg-add_cancel a b = simp (← add_assoc, neg-add_self, zero-add)

  pub add_cancel : (a b c : F) → a ⊕ b ≡ a ⊕ c → b ≡ c
  add_cancel a b c h = sym (neg-add_cancel a b) ∙ ap (λ x. k.neg a ⊕ x) h ∙ neg-add_cancel a c

  pub zero-mul : (a : F) → k.zero ⊗ a ≡ k.zero
  zero-mul a =
      add_cancel (k.zero ⊗ a) _ _
        (sym (add-mul k.zero k.zero a) ∙ ap (λ x. x ⊗ a) (zero-add k.zero) ∙ sym (add-zero _))

  pub mul-zero : (a : F) → a ⊗ k.zero ≡ k.zero
  mul-zero a = k.mul_comm a k.zero ∙ zero-mul a

  pub neg_unique : (a b : F) → a ⊕ b ≡ k.zero → k.neg a ≡ b
  neg_unique a b h = add_cancel a _ _ (add-neg a ∙ sym h)

  pub neg-mul : (a b : F) → k.neg a ⊗ b ≡ k.neg (a ⊗ b)
  neg-mul a b = sym (
      neg_unique (a ⊗ b) _ (sym (add-mul a (k.neg a) b) ∙ ap (λ x. x ⊗ b) (add-neg a) ∙ zero-mul b))

  pub mul-neg : (a b : F) → a ⊗ k.neg b ≡ k.neg (a ⊗ b)
  mul-neg a b = k.mul_comm a (k.neg b) ∙ neg-mul b a ∙ ap k.neg (k.mul_comm b a)

  pub neg-add : (a b : F) → k.neg (a ⊕ b) ≡ k.neg a ⊕ k.neg b
  neg-add a b =
      neg_unique (a ⊕ b) _
        (simp (add_assoc, add_left_comm b (k.neg a) (k.neg b), add-neg, add-zero))

  pub neg-neg : (a : F) → k.neg (k.neg a) ≡ a
  neg-neg a = neg_unique (k.neg a) a (neg-add_self a)

  pub neg-zero : k.neg k.zero ≡ k.zero
  neg-zero = neg_unique k.zero k.zero (zero-add k.zero)

  pub sub_lem : (a b : F) → a ⊖ b ≡ a ⊕ k.neg b
  sub_lem = k.sub_lem

-- Sums of products, sorted; a term next to its negation is cancelled.
pub ruleset ring = (
  sub_lem, mul-add, add-mul, mul_assoc, mul_comm, mul_left_comm, add_assoc, add_comm, add_left_comm,
  zero-add, add-zero, one-mul, mul-one, zero-mul, mul-zero, neg-mul, mul-neg, neg-add, neg-neg,
  neg-zero, add-neg, neg-add_self, add-neg_cancel, neg-add_cancel,
)
